-- ===== src/Admin/ConfigApi/Candidate.antt =====
-- crates/rustyice-admin/src/api/config.rs: what each `put_` handler makes of its body and the running
-- configuration, up to `persist_and_apply`. The hash of the bcrypt library is an argument.
pub mod Resolve
pub mod Decide
pub mod Accepted
pub mod Total
use rusty_ice.Prelude.{
  ℕ, Bool, true, false, Option, none, some, List, [], ◌∷◌, bytes_eq, ascii, if◌then◌else◌, Checked,
  val, panic, ◌>>=◌,
}
use rusty_ice.Core.Mount.{Text}
use rusty_ice.Core.Config.{
  Config, TranscodeFormat, TranscodeConfig, LogFormat, UserRole, Order, UserConfig, MountConfig,
  AutoDjConfig, RelayConfig,
}
use rusty_ice.Admin.ConfigWrite.{
  ServerPatch, TranscodePatch, TranscodeSubPatch, MountSubPatch, UserSubPatch, AutoDjSubPatch,
  RelaySubPatch, AuthSubPatch,
}

-- `_ => unreachable!("validated above")` is `panic`.
unfoldable pub format_of : Text → Checked TranscodeFormat
format_of s =
    if bytes_eq s (ascii "mp3")
    then val TranscodeFormat.mp3
    else if bytes_eq s (ascii "vorbis")
    then val TranscodeFormat.vorbis
    else panic

unfoldable pub log_format_of : Text → Checked LogFormat
log_format_of s =
    if bytes_eq s (ascii "pretty")
    then val LogFormat.pretty
    else if bytes_eq s (ascii "json")
    then val LogFormat.json
    else panic

unfoldable pub transcode_of : TranscodeSubPatch → Checked TranscodeConfig
transcode_of s = do
  format ← format_of s.format
  val (record { format = format; sample_rate = s.sample_rate; bitrate_kbps = s.bitrate_kbps })

-- `as_ref().map(..)`
unfoldable pub optional_transcode : Option TranscodeSubPatch → Checked (Option TranscodeConfig)
optional_transcode none = val none
optional_transcode (some s) = do tc ← transcode_of s; val (some tc)

unfoldable pub mount_config : MountSubPatch → Option TranscodeConfig → MountConfig
mount_config m transcode = record {
  path = m.path;
  source_password = m.source_password;
  max_listeners = m.max_listeners;
  name = m.name;
  description = m.description;
  genre = m.genre;
  url = m.url;
  transcode = transcode;
  burst_size = m.burst_size;
}

unfoldable pub mount_of : MountSubPatch → Checked MountConfig
mount_of m = do transcode ← optional_transcode m.transcode; val (mount_config m transcode)

unfoldable pub user_of : UserSubPatch → UserConfig
user_of u = record {
  username = u.username;
  password_bcrypt = u.password_bcrypt;
  role = if bytes_eq u.role (ascii "admin") then UserRole.admin else UserRole.operator;
}

unfoldable pub order_of : Text → Order
order_of s = if bytes_eq s (ascii "sequential") then Order.sequential else Order.shuffle

unfoldable pub autodj_config : AutoDjSubPatch → TranscodeConfig → AutoDjConfig
autodj_config a transcode = record {
  mount = a.mount;
  folder = a.folder;
  name = a.name;
  description = a.description;
  genre = a.genre;
  url = a.url;
  enabled = a.enabled;
  loop_playlist = a.loop_playlist;
  order = order_of a.order;
  max_listeners = a.max_listeners;
  burst_size = a.burst_size;
  transcode = transcode;
}

unfoldable pub autodj_of : AutoDjSubPatch → Checked AutoDjConfig
autodj_of a = do transcode ← transcode_of a.transcode; val (autodj_config a transcode)

unfoldable pub relay_config : RelaySubPatch → Option TranscodeConfig → RelayConfig
relay_config r transcode = record {
  mount = r.mount;
  upstream = r.upstream;
  name = r.name;
  description = r.description;
  genre = r.genre;
  url = r.url;
  enabled = r.enabled;
  username = r.username;
  password = r.password;
  max_listeners = r.max_listeners;
  burst_size = r.burst_size;
  transcode = transcode;
}

unfoldable pub relay_of : RelaySubPatch → Checked RelayConfig
relay_of r = do transcode ← optional_transcode r.transcode; val (relay_config r transcode)

-- `iter().map(..).collect()`
unfoldable pub collect_checked : {A B : Type 0} → (A → Checked B) → List A → Checked (List B)
collect_checked f [] = val []
collect_checked f (x ∷ xs) = do y ← f x; ys ← collect_checked f xs; val (y ∷ ys)

unfoldable pub rotate_source_password : Option AuthSubPatch → Option Text → Option Text
rotate_source_password none old = old
rotate_source_password (some a) old = a.source_password

-- The candidate of `put_server`.
unfoldable pub overlay_server : ServerPatch → Config → Checked Config
overlay_server p cfg = do
  format ← log_format_of p.logging.format
  val (record cfg {
    server = record {
      stream_bind = p.server.stream_bind;
      admin_bind = p.server.admin_bind;
      hostname = p.server.hostname;
    };
    logging = record { level = p.logging.level; format = format };
    limits = record {
      max_listeners_global = p.limits.max_listeners_global;
      ring_size = p.limits.ring_size;
      slow_listener_grace_s = p.limits.slow_listener_grace_s;
      source_max_kbps = p.limits.source_max_kbps;
      burst_size = p.limits.burst_size;
    };
    auth = record cfg.auth {
      source_password = rotate_source_password p.auth cfg.auth.source_password;
    };
  })

unfoldable pub overlay_transcode : TranscodePatch → Config → Checked Config
overlay_transcode p cfg = do
  transcode ← optional_transcode p.transcode
  val (record cfg { transcode = transcode })
