-- ===== src/Admin/ConfigApi/Tests.antt =====
-- crates/rustyice-admin/src/api/config.rs: requests at small concrete states.
use rusty_ice.Server.ConfigReload.Diff.{diff, apply_entries, remove_gone}
use rusty_ice.Server.Bus.{has_capacity}
use rusty_ice.Core.Mount.Registry.{get}
use rusty_ice.Prelude.{
  true, false, ◌≡◌, refl, subst, Option, none, some, List, [], ◌∷◌, ◌++◌, map, ascii, bytes_eq, ◌<◌,
  ◌^◌, ◌↔◌, ◌≢◌, All, arith, if◌then◌else◌, lookup, insert, erase, val,
}
use mathlib.Core.Option.{some-injective}
use rusty_ice.Core.Mount.{Text}
use rusty_ice.Core.Toml.{Item, text, integer, table, array_of_tables, TomlEdit, entries}
use rusty_ice.Core.Toml.Tree.{tree}
use rusty_ice.Core.Toml.Code.{print_tree, parse_tree, parse_tree-print_tree}
use rusty_ice.Core.Config.{Config, UserRole, LogFormat}
use rusty_ice.Core.Config.Example.{plain_config, live_mount}
use rusty_ice.Core.Config.Read.{
  required, optional, defaulted, as_list, each, as_text, as_bool, as_unsigned, as_u32, as_u64,
  as_format, as_log_format, as_order, as_role, format_from_str, log_format_from_str, order_from_str,
  role_from_str,
}
use rusty_ice.Core.Config.Read.Sections.{
  read_config, read_server, read_logging, read_auth, read_user, read_limits, read_mount,
  read_autodj, read_relay, read_tls, read_transcode,
}
use rusty_ice.Server.ConfigReload.Apply.{
  AuthBackend, update_mount, apply_config, relay_stage, relay_start, autodj_stage, plain_stage,
  update_mounts, remove_mounts, apply_diffs,
}
use rusty_ice.Admin.ConfigApi.Candidate.Resolve.{
  Result, ok, err, resolve_user, resolve_users, resolve_user_password,
}
use rusty_ice.Admin.ConfigApi.Persist.{TomlText, AdminState}
use rusty_ice.Admin.ConfigApi.Persist.Handlers.{PutRequest, Body}
use rusty_ice.Admin.ConfigApi.Synced.{InSync}
use rusty_ice.Admin.ConfigApi.Persist.Handlers.{
  requester, session_gate, admin_gate, gate, finish, put, route, get_config,
}
use rusty_ice.Admin.ConfigApi.Persist.{
  io_error_response, path_for_write, bootstrap, read_doc, parse_doc, apply_candidate,
  write_and_apply, persist_and_apply,
}
use rusty_ice.Admin.ConfigApi.Candidate.{
  format_of, transcode_of, optional_transcode, mount_config, mount_of, collect_checked, user_of,
  overlay_server, log_format_of, rotate_source_password,
}
use rusty_ice.Admin.ConfigApi.Candidate.Resolve.{
  refuse, supplied, transcode_patch, optional_patch, resolve_mount_password, mount_patch,
  resolve_mounts,
}
use rusty_ice.Admin.ConfigApi.Candidate.Decide.{
  if_valid, check_paths, with_resolved, decide_mounts, overlay_mounts, Decision, decide_server,
  decide_transcode, decide_users, decide_autodjs, decide_relays, still_admin, overlay_users,
}
use rusty_ice.Admin.ConfigWrite.Validate.{
  error, is_empty, is_blank, max_burst, validate_nested_optional, entry_prefix, check_path,
  check_max_listeners, check_burst_size, check_mount, check_user,
}
use rusty_ice.Admin.ConfigWrite.Validate.Entries.{
  check_entry, validate_entries, mount_section, validate_mounts_patch, user_section, check_username,
  has_admin, validate_users_patch,
}
use rusty_ice.Admin.ConfigWrite.Apply.{
  mount_table, set_tables, apply_mounts_patch, apply_server_patch,
}
use rusty_ice.Admin.ConfigApi.{
  redacted, redact, build_config_response, ServerPutBody, TranscodePutBody, UserSubBody,
}
use rusty_ice.Admin.Login.{
  cookie_name, split, cut_pair, named_value, first_value, session_token, role_in, session_user,
  session_role, is_admin, require_session, require_admin, gate_of,
}
use rusty_ice.Admin.Sessions.{touch, SessionStore}
use rusty_ice.Admin.AtomicWrite.{atomic_write, WriteFault, lookup-atomic_write}
use rusty_ice.Core.Config.{contains, check_unique, starts_with, check_relays, validate_paths}
use rusty_ice.Server.ConfigReload.Apply.{apply_config}
use rusty_ice.Server.Chunked.Size.{leading, strip, trim}
use rusty_ice.Auth.{collect_mounts, collect_users}
use rusty_ice.Core.Toml.Fill.{fill}
use rusty_ice.Prelude.{lookup, insert, erase}
use rusty_ice.Admin.ConfigApi.Synced.{disk_written}
use rusty_ice.Admin.ConfigApi.Echo.{echo_mount, own_patch, decide_mounts-redact}
use rusty_ice.Admin.ConfigApi.Route.{route-InSync, route-admin, IsAdminSession}
use rusty_ice.Core.Config.Paths.{Distinct}
use rusty_ice.Admin.ConfigApi.Synced.Put.{IsApart}
use rusty_ice.Admin.ConfigApi.Secrets.{change_secrets, build_config_response-secrets}
use rusty_ice.Admin.ConfigApi.Admins.{decide_users-IsAdmin}
use rusty_ice.Admin.ConfigApi.Candidate.Total.{decide_total}
use rusty_ice.Admin.ConfigWrite.{UsersPatch, ServerPatch}
use rusty_ice.Admin.ConfigWrite.Accepts.Sections.{IsSoundMountPatch, validate_mounts_patch-none}
use rusty_ice.Admin.ConfigApi.ReadBack.Server.{IsSizedServer, read_config-apply_server_patch}

abbrev willing : AuthBackend
willing = record { State = Unit; reload = λ _ s. (s, none) }

abbrev parse_text : Text → Result (TomlEdit.Table tree)
parse_text s = elim (parse_tree s) [ none ↦ err [] | some t ↦ ok t ]

parse_text-print_tree : (t : TomlEdit.Table tree) → parse_text (print_tree t) ≡ ok t
parse_text-print_tree t = rw (parse_tree-print_tree t, parse_text) refl

abbrev toml : TomlText tree
toml = record {
  parse = parse_text;
  print = print_tree;
  serialize = λ _. err [];
  parse-print = parse_text-print_tree;
}

abbrev admin_config : Config
admin_config = record plain_config {
  auth = record {
    users =
        record { username = ascii "root"; password_bcrypt = ascii "hash"; role = UserRole.admin }
        ∷ [];
    source_password = none;
  };
  mounts = live_mount ∷ [];
}

section : List (Text × Option (Item (TomlEdit.Table tree))) → TomlEdit.Table tree
section vs = fill tree vs (TomlEdit.empty tree)

server_table : TomlEdit.Table tree
server_table = section (
    (ascii "stream_bind", some (text (ascii ":8000")))
    ∷ (ascii "admin_bind", some (text (ascii ":8001")))
    ∷ (ascii "hostname", some (text (ascii "h")))
    ∷ [])

logging_table : TomlEdit.Table tree
logging_table = section (
    (ascii "level", some (text (ascii "info"))) ∷ (ascii "format", some (text (ascii "json"))) ∷ [])

root_table : TomlEdit.Table tree
root_table = section (
    (ascii "username", some (text (ascii "root")))
    ∷ (ascii "password_bcrypt", some (text (ascii "hash")))
    ∷ [])

auth_table : TomlEdit.Table tree
auth_table = section ((ascii "users", some (array_of_tables (root_table ∷ []))) ∷ [])

limits_table : TomlEdit.Table tree
limits_table = section (
    (ascii "max_listeners_global", some (integer 10))
    ∷ (ascii "ring_size", some (integer 64))
    ∷ (ascii "slow_listener_grace_s", some (integer 2))
    ∷ [])

live_table : TomlEdit.Table tree
live_table = section (
    (ascii "path", some (text (ascii "/live")))
    ∷ (ascii "source_password", some (text (ascii "secret")))
    ∷ (ascii "max_listeners", some (integer 2))
    ∷ [])

doc : TomlEdit.Table tree
doc = section (
    (ascii "server", some (table server_table))
    ∷ (ascii "logging", some (table logging_table))
    ∷ (ascii "auth", some (table auth_table))
    ∷ (ascii "limits", some (table limits_table))
    ∷ (ascii "mounts", some (array_of_tables (live_table ∷ [])))
    ∷ [])

doc_reads : read_config tree doc ≡ some admin_config
unfolding doc section server_table logging_table root_table auth_table limits_table live_table
    read_config fill required optional defaulted as_list each entries as_text as_bool as_unsigned
    as_u32 as_u64 as_format as_log_format as_order as_role format_from_str log_format_from_str
    order_from_str role_from_str read_server read_logging read_auth read_user read_limits read_mount
    read_autodj read_relay read_tls read_transcode
doc_reads = refl

abbrev config_file : Text
config_file = ascii "config.toml"

admin_state : AdminState willing
admin_state = record {
  server = record {
    config = admin_config;
    auth = tt;
    mounts = [];
    autodjs = [];
    relays = [];
    cancelled = [];
    next_token = 0;
  };
  sessions = record {
    sessions = (ascii "t", record { user = ascii "root"; expires_at = 10 }) ∷ [];
    ttl = 10;
  };
  config_path = some config_file;
  files = (config_file, print_tree doc) ∷ [];
}

abbrev request : PutRequest
request = record {
  cookies = some (ascii "rustyice_session=t");
  now = 5;
  disk = record {
    read_fault = none;
    write_fault = none;
    write_error = [];
    with_extension = λ p. p ++ ascii ".tmp";
  };
}

abbrev new_mounts : Body
new_mounts =
    Body.mounts
      (record (echo_mount live_mount) { source_password = none; genre = some (ascii "jazz") } ∷ [])

admin_state-InSync : InSync toml admin_state
unfolding admin_state lookup
admin_state-InSync = record {
  path = config_file;
  contents = print_tree doc;
  doc = doc;
  backed = refl;
  stored = refl;
  parsed = parse_text-print_tree doc;
  reads = doc_reads;
}

abbrev no_hash : Text → Result Text
no_hash _ = err []

quiet_route : disk_written (route toml no_hash request new_mounts admin_state).1 ≡ false
unfolding admin_state doc section server_table logging_table root_table auth_table limits_table
    live_table requester session_gate admin_gate gate finish put route get_config io_error_response
    path_for_write bootstrap read_doc parse_doc apply_candidate write_and_apply persist_and_apply
    format_of transcode_of optional_transcode mount_config mount_of collect_checked refuse supplied
    transcode_patch optional_patch resolve_mount_password mount_patch resolve_mounts if_valid
    check_paths with_resolved decide_mounts overlay_mounts error is_empty is_blank max_burst
    validate_nested_optional entry_prefix check_path check_max_listeners check_burst_size
    check_mount check_entry validate_entries mount_section validate_mounts_patch mount_table
    set_tables apply_mounts_patch redacted cookie_name split cut_pair named_value first_value
    session_token role_in session_user session_role is_admin require_session require_admin gate_of
    touch atomic_write contains check_unique starts_with check_relays validate_paths apply_config
    leading strip trim collect_mounts fill lookup insert erase disk_written relay_stage relay_start
    autodj_stage plain_stage update_mounts update_mount get diff apply_entries remove_gone
    has_capacity remove_mounts apply_diffs
quiet_route = refl

tmp_apart :
    (path : Text) → some config_file ≡ some path → bytes_eq path (path ++ ascii ".tmp") ≡ false
tmp_apart path h =
    subst (λ p. bytes_eq p (p ++ ascii ".tmp") ≡ false) (some-injective config_file path h) refl

admin_state-IsApart : IsApart toml request.disk admin_state
unfolding admin_state
admin_state-IsApart path h = tmp_apart path h

small : 2 < 2 ^ 32
small = omega arith

route-InSync_example : InSync toml (route toml no_hash request new_mounts admin_state).0
route-InSync_example =
    route-InSync toml no_hash request new_mounts admin_state (small, tt) admin_state-InSync
      admin_state-IsApart quiet_route

abbrev stranger : PutRequest
stranger = record request { cookies = none }

abbrev drop_users : Body
drop_users = Body.users []

no_session :
    ¬ IsAdminSession stranger.cookies stranger.now admin_state.server.config admin_state.sessions
unfolding session_token
no_session h = absurd (ground (arith, h.has_token))

route-admin_example : (route toml no_hash stranger drop_users admin_state).0 ≡ record admin_state {
  sessions = (route toml no_hash stranger drop_users admin_state).0.sessions;
}
route-admin_example = route-admin toml no_hash stranger drop_users admin_state tt no_session

abbrev server_body : ServerPutBody
server_body = record {
  server = record { stream_bind = ascii ":1"; admin_bind = ascii ":2"; hostname = ascii "h" };
  logging = record { level = ascii "info"; format = ascii "xml" };
  limits = record {
    max_listeners_global = 1;
    ring_size = 1;
    slow_listener_grace_s = 1;
    burst_size = 0;
    source_max_kbps = none;
  };
  auth = none;
}

abbrev transcode_body : TranscodePutBody
transcode_body = record {
  transcode = some (record { format = ascii "ogg"; sample_rate = 44100; bitrate_kbps = 128 });
}

decide_total_example :
    (decide_server server_body admin_config ≢ Decision.panicked)
    × (decide_transcode transcode_body admin_config ≢ Decision.panicked)
    × (decide_mounts (echo_mount live_mount ∷ []) admin_config ≢ Decision.panicked)
    × (decide_users no_hash [] [] admin_config ≢ Decision.panicked)
    × (decide_autodjs [] admin_config ≢ Decision.panicked)
    × (decide_relays [] admin_config ≢ Decision.panicked)
decide_total_example =
    decide_total no_hash [] admin_config server_body transcode_body (echo_mount live_mount ∷ []) []
      [] []

validate_mounts_patch-none_example :
    (validate_mounts_patch (record { mounts = own_patch live_mount ∷ [] }) ≡ none) ↔ (
      Distinct (map (λ m. m.path) (own_patch live_mount ∷ []))
      × All IsSoundMountPatch (own_patch live_mount ∷ []))
validate_mounts_patch-none_example =
    validate_mounts_patch-none (record { mounts = own_patch live_mount ∷ [] })

build_config_response-secrets_example :
    (build_config_response (change_secrets (λ s. s ++ s) admin_config) none true
      ≡ build_config_response admin_config none true)
    × (build_config_response
          (record plain_config {
            mounts = admin_config.mounts;
            autodjs = admin_config.autodjs;
            relays = admin_config.relays;
          })
          none
          false
        ≡ build_config_response admin_config none false)
build_config_response-secrets_example =
    build_config_response-secrets (λ s. s ++ s) admin_config plain_config none true

valid_config : validate_paths admin_config ≡ none
unfolding validate_paths check_unique check_relays contains
valid_config = refl

decide_mounts-redact_example :
    decide_mounts (map echo_mount (redact admin_config).mounts) admin_config
    ≡ if_valid
        (validate_mounts_patch (record { mounts = map own_patch admin_config.mounts }))
        (Decision.accepted admin_config (record { mounts = map own_patch admin_config.mounts }))
decide_mounts-redact_example = decide_mounts-redact admin_config valid_config

abbrev root_body : UserSubBody
root_body = record { username = ascii " root"; password = none; role = ascii "admin" }

abbrev root_patch : UsersPatch
root_patch = record {
  users =
      record { username = ascii "root"; password_bcrypt = ascii "hash"; role = ascii "admin" } ∷ [];
}

root_kept :
    decide_users no_hash (ascii "root") (root_body ∷ []) admin_config
    ≡ Decision.accepted admin_config root_patch
unfolding decide_users still_admin resolve_users resolve_user resolve_user_password supplied
    is_empty collect_users lookup insert erase trim strip leading with_resolved if_valid
    validate_users_patch validate_entries check_entry user_section check_username check_user
    is_blank has_admin contains entry_prefix error overlay_users user_of redacted
root_kept = refl

named_root : is_empty (ascii "root") ≡ false
unfolding is_empty
named_root = refl

decide_users-IsAdmin_example : role_in (ascii "root") admin_config.auth.users ≡ UserRole.admin
decide_users-IsAdmin_example =
    decide_users-IsAdmin no_hash (ascii "root") (root_body ∷ []) admin_config admin_config
      root_patch named_root root_kept

abbrev store : SessionStore
store = record { sessions = []; ttl = 10 }

lookup-atomic_write_example :
    lookup
      (ascii "c")
      (atomic_write
        (some (WriteFault.at_write 1))
        (ascii "c.tmp")
        (ascii "c")
        (ascii "new")
        ((ascii "c", ascii "old") ∷ [])).0
    ≡ (if bytes_eq (ascii "c") (ascii "c")
        then (if (atomic_write
              (some (WriteFault.at_write 1))
              (ascii "c.tmp")
              (ascii "c")
              (ascii "new")
              ((ascii "c", ascii "old") ∷ [])).1
            then some (ascii "new")
            else lookup (ascii "c") ((ascii "c", ascii "old") ∷ []))
        else lookup (ascii "c") ((ascii "c", ascii "old") ∷ []))
lookup-atomic_write_example =
    lookup-atomic_write (some (WriteFault.at_write 1)) (ascii "c.tmp") (ascii "c") (ascii "new")
      ((ascii "c", ascii "old") ∷ []) (ascii "c") refl refl

abbrev pretty_patch : ServerPatch
pretty_patch = record {
  server = record { stream_bind = ascii ":1"; admin_bind = ascii ":2"; hostname = ascii "h" };
  logging = record { level = ascii "info"; format = ascii "pretty" };
  limits = record {
    max_listeners_global = 1;
    ring_size = 1;
    slow_listener_grace_s = 1;
    burst_size = 0;
    source_max_kbps = none;
  };
  auth = none;
}

abbrev pretty_config : Config
pretty_config = record admin_config {
  server = record { stream_bind = ascii ":1"; admin_bind = ascii ":2"; hostname = ascii "h" };
  logging = record { level = ascii "info"; format = LogFormat.pretty };
  limits = record {
    max_listeners_global = 1;
    ring_size = 1;
    slow_listener_grace_s = 1;
    source_max_kbps = none;
    burst_size = 0;
  };
}

pretty_overlay : overlay_server pretty_patch admin_config ≡ val pretty_config
unfolding overlay_server log_format_of rotate_source_password
pretty_overlay = refl

sections_of_doc :
    (TomlEdit.get tree (ascii "server") doc ≡ some (table server_table))
    × (TomlEdit.get tree (ascii "logging") doc ≡ some (table logging_table))
    × (TomlEdit.get tree (ascii "limits") doc ≡ some (table limits_table))
    × (TomlEdit.get tree (ascii "auth") doc ≡ some (table auth_table))
unfolding doc section fill server_table logging_table limits_table auth_table
sections_of_doc = (refl, refl, refl, refl)

pretty_patch-IsSizedServer : IsSizedServer pretty_patch
pretty_patch-IsSizedServer = record {
  listeners_size = omega arith;
  ring_bound = omega arith;
  grace_bound = omega arith;
  burst_size_bound = omega arith;
  kbps_size = tt;
}

read_config-apply_server_patch_example :
    (doc' : TomlEdit.Table tree) × (apply_server_patch tree pretty_patch doc ≡ val doc')
    × (read_config tree doc' ≡ some pretty_config)
read_config-apply_server_patch_example =
    read_config-apply_server_patch tree pretty_patch doc server_table logging_table limits_table
      auth_table admin_config pretty_config doc_reads sections_of_doc.0 sections_of_doc.1
      sections_of_doc.2 sections_of_doc.3 pretty_patch-IsSizedServer pretty_overlay
