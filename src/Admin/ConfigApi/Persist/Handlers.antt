-- ===== src/Admin/ConfigApi/Persist/Handlers.antt =====
-- crates/rustyice-admin/src/api/config.rs and crates/rustyice-admin/src/router.rs: the `put_` handlers
-- behind their middleware.
use rusty_ice.Prelude.{ℕ, Bool, true, Option, none, some, List, Checked}
use rusty_ice.Core.Mount.{Text}
use rusty_ice.Core.Toml.{TomlEdit}
use rusty_ice.Core.Config.{UserRole}
use rusty_ice.Server.ConfigReload.Apply.{AuthBackend}
use rusty_ice.Admin.Login.{session_role, is_admin, Gate, require_session, require_admin}
use rusty_ice.Admin.ConfigWrite.Apply.{
  apply_server_patch, apply_transcode_patch, apply_mounts_patch, apply_users_patch,
  apply_autodjs_patch, apply_relays_patch,
}
use rusty_ice.Admin.ConfigApi.{
  ConfigResponse, build_config_response, ServerPutBody, TranscodePutBody, MountSubBody, UserSubBody,
  AutoDjSubBody, RelaySubBody,
}
use rusty_ice.Admin.ConfigApi.Candidate.Resolve.{Result}
use rusty_ice.Admin.ConfigApi.Candidate.Decide.{
  Decision, decide_server, decide_transcode, decide_mounts, decide_users, decide_autodjs,
  decide_relays,
}
use rusty_ice.Admin.ConfigApi.Persist.{
  TomlText, Disk, AdminState, PutResponse, io_error_response, persist_and_apply,
}

-- What a request brings with it: its cookies, its time, and the faults of the disk during it.
pub record PutRequest : Type 0 where
  pub cookies : Option Text
  pub now : ℕ
  pub disk : Disk

-- The name of a session's user, empty without a session.
unfoldable pub requester : Option (Text × UserRole) → Text
requester none = List.[]
requester (some (user, _)) = user

pub data Body : Type 0 where
  server : ServerPutBody → Body
  transcode : TranscodePutBody → Body
  users : List UserSubBody → Body
  mounts : List MountSubBody → Body
  autodjs : List AutoDjSubBody → Body
  relays : List RelaySubBody → Body

module _ {A : AuthBackend} where
  unfoldable pub session_gate : PutRequest → AdminState A → Gate × AdminState A
  session_gate r s =
      let (passage, sessions) = require_session r.cookies r.now s.sessions in
      (passage, record s { sessions = sessions })

  unfoldable pub admin_gate : PutRequest → AdminState A → Gate × AdminState A
  admin_gate r s =
      let (passage, sessions) = require_admin r.cookies r.now s.server.config s.sessions in
      (passage, record s { sessions = sessions })

  -- The middleware of the body's route.
  unfoldable pub gate : PutRequest → Body → AdminState A → Gate × AdminState A
  gate r (server _) s = admin_gate r s
  gate r (transcode _) s = admin_gate r s
  gate r (users _) s = admin_gate r s
  gate r (mounts _) s = session_gate r s
  gate r (autodjs _) s = session_gate r s
  gate r (relays _) s = session_gate r s

module _ {A : AuthBackend} {T : TomlEdit} (toml : TomlText T) where
  unfoldable pub finish :
      {P : Type 0}
      → Disk
      → (P → TomlEdit.Table T → Checked (TomlEdit.Table T))
      → Decision P
      → Bool
      → AdminState A
      → AdminState A × PutResponse
  finish disk apply_patch (Decision.rejected e) admin s = (s, PutResponse.bad_request e)
  finish disk apply_patch (Decision.io_error m) admin s = (s, io_error_response m)
  finish disk apply_patch Decision.panicked admin s = (s, PutResponse.panicked)
  finish disk apply_patch (Decision.accepted candidate patch) admin s =
      persist_and_apply toml disk (apply_patch patch) candidate admin s

module _ {A : AuthBackend} {T : TomlEdit} (toml : TomlText T) (hash : Text → Result Text) where
  -- The handler of one route, after its middleware.
  unfoldable pub put : PutRequest → Body → AdminState A → AdminState A × PutResponse
  put r (server b) s =
      finish toml r.disk (apply_server_patch T) (decide_server b s.server.config) true s
  put r (transcode b) s =
      finish toml r.disk (apply_transcode_patch T) (decide_transcode b s.server.config) true s
  put r (users b) s =
      let (session, sessions) = session_role r.cookies r.now s.server.config s.sessions in
      finish toml r.disk (apply_users_patch T)
        (decide_users hash (requester session) b s.server.config) true
        (record s { sessions = sessions })
  put r (mounts b) s =
      let (session, sessions) = session_role r.cookies r.now s.server.config s.sessions in
      finish toml r.disk (apply_mounts_patch T) (decide_mounts b s.server.config) (is_admin session)
        (record s { sessions = sessions })
  put r (autodjs b) s =
      let (session, sessions) = session_role r.cookies r.now s.server.config s.sessions in
      finish toml r.disk (apply_autodjs_patch T) (decide_autodjs b s.server.config)
        (is_admin session) (record s { sessions = sessions })
  put r (relays b) s =
      let (session, sessions) = session_role r.cookies r.now s.server.config s.sessions in
      finish toml r.disk (apply_relays_patch T) (decide_relays b s.server.config) (is_admin session)
        (record s { sessions = sessions })

  unfoldable pub route : PutRequest → Body → AdminState A → AdminState A × PutResponse
  route r b s =
      let (passage, s') = gate r b s in
      let handled = put r b s' in
      elim passage [
        | Gate.passed ↦ handled
        | Gate.unauthorized ↦ (s', PutResponse.unauthorized)
        | Gate.forbidden ↦ (s', PutResponse.forbidden)
      ]

module _ {A : AuthBackend} where
  unfoldable pub get_config : PutRequest → AdminState A → ConfigResponse × AdminState A
  get_config r s =
      let (session, sessions) = session_role r.cookies r.now s.server.config s.sessions in
      (
        build_config_response s.server.config s.config_path (is_admin session),
        record s { sessions = sessions },
      )
