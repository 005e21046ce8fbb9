-- ===== src/Admin/ConfigApi/Candidate/Decide.antt =====
-- crates/rustyice-admin/src/api/config.rs: the `put_` handlers up to `persist_and_apply`.
use rusty_ice.Prelude.{
  Bool, false, not, ◌&&◌, ◌||◌, Option, none, some, List, [], ◌∷◌, ◌++◌, map, bytes_eq, ascii,
  if◌then◌else◌, Checked, val, panic, ◌>>=◌,
}
use rusty_ice.Core.Mount.{Text}
use rusty_ice.Core.Config.{Config, validate_paths, path_message}
use rusty_ice.Auth.{collect_mounts, collect_users}
use rusty_ice.Server.Chunked.Size.{trim}
use rusty_ice.Admin.ConfigWrite.{
  ServerPatch, AuthSubPatch, TranscodePatch, MountsPatch, UsersPatch, AutoDjsPatch, AutoDjSubPatch,
  RelaysPatch, WriteError,
}
use rusty_ice.Admin.ConfigWrite.Validate.{is_empty, validate_server_patch, validate_transcode_patch}
use rusty_ice.Admin.ConfigWrite.Validate.Entries.{
  validate_mounts_patch, validate_users_patch, validate_autodjs_patch, validate_relays_patch,
}
use rusty_ice.Admin.ConfigApi.{
  PutError, ServerPutBody, AuthSubBody, TranscodePutBody, MountSubBody, UserSubBody, AutoDjSubBody,
  RelaySubBody,
}
use rusty_ice.Admin.ConfigApi.Candidate.{
  overlay_server, overlay_transcode, collect_checked, mount_of, user_of, autodj_of, relay_of,
}
use rusty_ice.Admin.ConfigApi.Candidate.Resolve.{
  Result, Resolution, resolved, refused, broken, supplied, transcode_patch, optional_patch,
  resolve_mounts, resolve_users, collect_relays, resolve_relay,
}

-- A 400, a 500 before anything is written, a panic, or the candidate that goes to disk with the patch
-- that takes it there.
pub data Decision (P : Type 0) : Type 0 where
  rejected : PutError → Decision P
  io_error : Text → Decision P
  panicked : Decision P
  accepted : Config → P → Decision P

module _ {P : Type 0} where
  unfoldable pub if_valid : Option WriteError → Decision P → Decision P
  if_valid none next = next
  if_valid (some e) next =
      rejected (record { error = e.message; field = some e.field; disk_written = false })

  -- `validate_paths` of the candidate.
  unfoldable pub check_paths : P → Checked Config → Decision P
  check_paths patch panic = panicked
  check_paths patch (val candidate) = elim (validate_paths candidate) [
    | none ↦ accepted candidate patch
    | some e ↦ rejected (record { error = path_message e; field = none; disk_written = false })
  ]

  unfoldable pub with_resolved : {A : Type 0} → Resolution A → (A → Decision P) → Decision P
  with_resolved (resolved a) next = next a
  with_resolved (refused e) next = rejected e
  with_resolved (broken m) next = io_error m

unfoldable pub auth_patch : Option AuthSubBody → Option AuthSubPatch
auth_patch none = none
auth_patch (some a) = elim (supplied a.source_password) [
  | none ↦ none
  | some p ↦ some (record { source_password = some p })
]

unfoldable pub server_patch : ServerPutBody → ServerPatch
server_patch b = record {
  server = record {
    stream_bind = b.server.stream_bind;
    admin_bind = b.server.admin_bind;
    hostname = b.server.hostname;
  };
  logging = record { level = b.logging.level; format = b.logging.format };
  limits = record {
    max_listeners_global = b.limits.max_listeners_global;
    ring_size = b.limits.ring_size;
    slow_listener_grace_s = b.limits.slow_listener_grace_s;
    burst_size = b.limits.burst_size;
    source_max_kbps = b.limits.source_max_kbps;
  };
  auth = auth_patch b.auth;
}

unfoldable pub decide_server : ServerPutBody → Config → Decision ServerPatch
decide_server body current =
    let patch = server_patch body in
    if_valid (validate_server_patch patch) (check_paths patch (overlay_server patch current))

unfoldable pub decide_transcode : TranscodePutBody → Config → Decision TranscodePatch
decide_transcode body current =
    let patch : TranscodePatch = record { transcode = optional_patch body.transcode } in
    if_valid (validate_transcode_patch patch) (check_paths patch (overlay_transcode patch current))

unfoldable pub overlay_mounts : MountsPatch → Config → Checked Config
overlay_mounts p cfg = do ms ← collect_checked mount_of p.mounts; val (record cfg { mounts = ms })

unfoldable pub decide_mounts : List MountSubBody → Config → Decision MountsPatch
decide_mounts body current =
    with_resolved
      (resolve_mounts (collect_mounts [] current.mounts) current.auth.source_password 0 body)
      λ ms.
        let patch : MountsPatch = record { mounts = ms } in
        if_valid (validate_mounts_patch patch) (check_paths patch (overlay_mounts patch current))

unfoldable pub still_admin : Text → List UserSubBody → Bool
still_admin requester [] = false
still_admin requester (u ∷ us) =
    bytes_eq (trim u.username) requester && bytes_eq u.role (ascii "admin")
    || still_admin requester us

unfoldable pub overlay_users : UsersPatch → Config → Config
overlay_users p cfg = record cfg { auth = record cfg.auth { users = map user_of p.users } }

-- The dash of the message in UTF-8.
unfoldable pub self_message : Text → Text
self_message requester =
    ascii "cannot remove or demote your own account ("
    ++ (requester ++ (ascii ") " ++ (226 ∷ 128 ∷ 148 ∷ ascii " have another admin do it")))

-- The requester is the session's user, and empty without one.
unfoldable pub decide_users :
    (Text → Result Text) → Text → List UserSubBody → Config → Decision UsersPatch
decide_users hash requester body current =
    if not (is_empty requester) && not (still_admin requester body)
    then rejected (record { error = self_message requester; field = none; disk_written = false })
    else (with_resolved (resolve_users hash (collect_users [] current.auth.users) 0 body) λ us.
        let patch : UsersPatch = record { users = us } in
        if_valid (validate_users_patch patch) (accepted (overlay_users patch current) patch))

unfoldable pub autodj_patch : AutoDjSubBody → AutoDjSubPatch
autodj_patch a = record {
  mount = a.mount;
  folder = a.folder;
  enabled = a.enabled;
  loop_playlist = a.loop_playlist;
  order = a.order;
  name = a.name;
  description = a.description;
  genre = a.genre;
  url = a.url;
  max_listeners = a.max_listeners;
  burst_size = a.burst_size;
  transcode = transcode_patch a.transcode;
}

unfoldable pub overlay_autodjs : AutoDjsPatch → Config → Checked Config
overlay_autodjs p cfg = do
  djs ← collect_checked autodj_of p.autodjs
  val (record cfg { autodjs = djs })

unfoldable pub decide_autodjs : List AutoDjSubBody → Config → Decision AutoDjsPatch
decide_autodjs body current =
    let patch : AutoDjsPatch = record { autodjs = map autodj_patch body } in
    if_valid (validate_autodjs_patch patch) (check_paths patch (overlay_autodjs patch current))

unfoldable pub overlay_relays : RelaysPatch → Config → Checked Config
overlay_relays p cfg = do rs ← collect_checked relay_of p.relays; val (record cfg { relays = rs })

unfoldable pub decide_relays : List RelaySubBody → Config → Decision RelaysPatch
decide_relays body current =
    let existing = collect_relays [] current.relays in
    let patch : RelaysPatch = record { relays = map (resolve_relay existing) body } in
    if_valid (validate_relays_patch patch) (check_paths patch (overlay_relays patch current))
