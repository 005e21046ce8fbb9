-- ===== src/Admin/ConfigApi/Synced/Put.antt =====
-- crates/rustyice-admin/src/api/config.rs: the handlers keep the file in step with the running
-- configuration.
use rusty_ice.Prelude.{Bool, true, false, ◌≡◌, refl, some, All, bytes_eq, Checked}
use rusty_ice.Core.Mount.{Text}
use rusty_ice.Core.Toml.{TomlEdit}
use rusty_ice.Core.Config.{Config}
use rusty_ice.Server.ConfigReload.Apply.{AuthBackend}
use rusty_ice.Admin.Login.{session_role, is_admin}
use rusty_ice.Admin.Sessions.{SessionStore}
use rusty_ice.Admin.ConfigWrite.Apply.{
  apply_transcode_patch, apply_mounts_patch, apply_users_patch, apply_autodjs_patch,
  apply_relays_patch,
}
use rusty_ice.Admin.ConfigApi.Candidate.Resolve.{Result}
use rusty_ice.Admin.ConfigApi.Candidate.Decide.{
  Decision, rejected, io_error, panicked, accepted, decide_transcode, decide_mounts, decide_users,
  decide_autodjs, decide_relays,
}
use rusty_ice.Admin.ConfigApi.ReadBack.{IsOptionalU32}
use rusty_ice.Admin.ConfigApi.Persist.{TomlText, Disk, AdminState}
use rusty_ice.Admin.ConfigApi.Persist.Handlers.{
  PutRequest, Body, server, transcode, users, mounts, autodjs, relays, requester, finish, put,
}
use rusty_ice.Admin.ConfigApi.Synced.{disk_written, InSync, Patches, persist-InSync}
use rusty_ice.Admin.ConfigApi.Synced.Saves.{
  Patches-transcode, Patches-mounts, Patches-users, Patches-autodjs, Patches-relays,
}

-- A body of one of the five sections that are written as a whole, whose numbers of listeners are `u32`s.
abbrev pub IsWhole : Body → Type 0
IsWhole (server _) = ⊥
IsWhole (transcode _) = Unit
IsWhole (users _) = Unit
IsWhole (mounts ms) = All (λ m. IsOptionalU32 m.max_listeners) ms
IsWhole (autodjs as_) = All (λ a. IsOptionalU32 a.max_listeners) as_
IsWhole (relays rs) = All (λ r. IsOptionalU32 r.max_listeners) rs

pub InSync-sessions :
    {A : AuthBackend} {T : TomlEdit} (toml : TomlText T) (s : AdminState A)
    (sessions : SessionStore)
    → InSync toml s
    → InSync toml (record s { sessions = sessions })
InSync-sessions toml s sessions h = record {
  path = h.path;
  contents = h.contents;
  doc = h.doc;
  backed = h.backed;
  stored = h.stored;
  parsed = h.parsed;
  reads = h.reads;
}

module _ {A : AuthBackend} {T : TomlEdit} (toml : TomlText T) where
  -- The sibling that a save writes first is another file than the one it goes to.
  abbrev pub IsApart : Disk → AdminState A → Type 0
  IsApart disk s =
      (path : Text) → s.config_path ≡ some path → bytes_eq path (disk.with_extension path) ≡ false

  finish-InSync :
      {P : Type 0} (disk : Disk) (apply_patch : P → T.Table → Checked T.Table) (d : Decision P)
      → (admin : Bool) (s : AdminState A) → InSync toml s
      → IsApart disk s
      → ((c : Config) (p : P) → d ≡ accepted c p → Patches T (apply_patch p) s.server.config c)
      → disk_written (finish toml disk apply_patch d admin s).1 ≡ false
      → InSync toml (finish toml disk apply_patch d admin s).0
  unfolding finish
  finish-InSync disk apply_patch (rejected e) admin s old apart patches quiet = old
  finish-InSync disk apply_patch (io_error m) admin s old apart patches quiet = old
  finish-InSync disk apply_patch panicked admin s old apart patches quiet = old
  finish-InSync disk apply_patch (accepted c p) admin s old apart patches quiet =
      persist-InSync toml disk (apply_patch p) c admin s old (apart old.path old.backed)
        (patches c p refl) quiet

  pub put-InSync :
      (hash : Text → Result Text) (r : PutRequest) (b : Body) (s : AdminState A)
      → IsWhole b
      → InSync toml s
      → IsApart r.disk s
      → disk_written (put toml hash r b s).1 ≡ false
      → InSync toml (put toml hash r b s).0
  unfolding put
  put-InSync hash r (server b) s whole old apart quiet = absurd whole
  put-InSync hash r (transcode b) s whole old apart quiet =
      finish-InSync r.disk (apply_transcode_patch T) (decide_transcode b s.server.config) true s old
        apart (Patches-transcode T b s.server.config) quiet
  put-InSync hash r (users b) s whole old apart quiet =
      let (session, sessions) = session_role r.cookies r.now s.server.config s.sessions in
      finish-InSync r.disk (apply_users_patch T)
        (decide_users hash (requester session) b s.server.config) true
        (record s { sessions = sessions }) (InSync-sessions toml s sessions old) apart
        (Patches-users T hash (requester session) b s.server.config) quiet
  put-InSync hash r (mounts b) s whole old apart quiet =
      let (session, sessions) = session_role r.cookies r.now s.server.config s.sessions in
      finish-InSync r.disk (apply_mounts_patch T) (decide_mounts b s.server.config)
        (is_admin session) (record s { sessions = sessions }) (InSync-sessions toml s sessions old)
        apart (λ c p. Patches-mounts T b s.server.config c p whole) quiet
  put-InSync hash r (autodjs b) s whole old apart quiet =
      let (session, sessions) = session_role r.cookies r.now s.server.config s.sessions in
      finish-InSync r.disk (apply_autodjs_patch T) (decide_autodjs b s.server.config)
        (is_admin session) (record s { sessions = sessions }) (InSync-sessions toml s sessions old)
        apart (λ c p. Patches-autodjs T b s.server.config c p whole) quiet
  put-InSync hash r (relays b) s whole old apart quiet =
      let (session, sessions) = session_role r.cookies r.now s.server.config s.sessions in
      finish-InSync r.disk (apply_relays_patch T) (decide_relays b s.server.config)
        (is_admin session) (record s { sessions = sessions }) (InSync-sessions toml s sessions old)
        apart (λ c p. Patches-relays T b s.server.config c p whole) quiet
