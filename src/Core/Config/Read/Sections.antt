-- ===== src/Core/Config/Read/Sections.antt =====
-- crates/rustyice-core/src/config.rs: the sections of the file.
use rusty_ice.Prelude.{true, Option, some, [], ascii}
use rusty_ice.Prelude.Options.{◌>>=◌}
use rusty_ice.Core.Toml.{Item, TomlEdit, entries}
use rusty_ice.Core.Config.{
  Config, ServerConfig, LoggingConfig, AuthConfig, LimitsConfig, TlsConfig, TranscodeConfig, Order,
  UserRole, UserConfig, MountConfig, AutoDjConfig, RelayConfig,
}
use rusty_ice.Core.Config.Read.{
  as_text, as_bool, as_u32, as_u64, as_format, as_order, as_role, as_log_format, as_list, required,
  optional, defaulted,
}

module _ (T : TomlEdit) where
  unfoldable pub read_transcode : Item T.Table → Option TranscodeConfig
  read_transcode i = do
    t ← entries T i
    format ← required as_format (T.get (ascii "format") t)
    sample_rate ← required as_u32 (T.get (ascii "sample_rate") t)
    bitrate_kbps ← required as_u32 (T.get (ascii "bitrate_kbps") t)
    some (record { format = format; sample_rate = sample_rate; bitrate_kbps = bitrate_kbps })

  unfoldable pub read_server : Item T.Table → Option ServerConfig
  read_server i = do
    t ← entries T i
    stream_bind ← required as_text (T.get (ascii "stream_bind") t)
    admin_bind ← required as_text (T.get (ascii "admin_bind") t)
    hostname ← required as_text (T.get (ascii "hostname") t)
    some (record { stream_bind = stream_bind; admin_bind = admin_bind; hostname = hostname })

  unfoldable pub read_logging : Item T.Table → Option LoggingConfig
  read_logging i = do
    t ← entries T i
    level ← required as_text (T.get (ascii "level") t)
    format ← required as_log_format (T.get (ascii "format") t)
    some (record { level = level; format = format })

  unfoldable pub read_user : T.Table → Option UserConfig
  read_user t = do
    username ← required as_text (T.get (ascii "username") t)
    password_bcrypt ← required as_text (T.get (ascii "password_bcrypt") t)
    role ← defaulted UserRole.admin as_role (T.get (ascii "role") t)
    some (record { username = username; password_bcrypt = password_bcrypt; role = role })

  unfoldable pub read_auth : Item T.Table → Option AuthConfig
  read_auth i = do
    t ← entries T i
    users ← defaulted [] (as_list read_user) (T.get (ascii "users") t)
    source_password ← optional as_text (T.get (ascii "source_password") t)
    some (record { users = users; source_password = source_password })

  unfoldable pub read_limits : Item T.Table → Option LimitsConfig
  read_limits i = do
    t ← entries T i
    max_listeners_global ← required as_u32 (T.get (ascii "max_listeners_global") t)
    ring_size ← required as_u64 (T.get (ascii "ring_size") t)
    slow_listener_grace_s ← required as_u64 (T.get (ascii "slow_listener_grace_s") t)
    source_max_kbps ← optional as_u32 (T.get (ascii "source_max_kbps") t)
    burst_size ← defaulted 65536 as_u32 (T.get (ascii "burst_size") t)
    some (record {
      max_listeners_global = max_listeners_global;
      ring_size = ring_size;
      slow_listener_grace_s = slow_listener_grace_s;
      source_max_kbps = source_max_kbps;
      burst_size = burst_size;
    })

  unfoldable pub read_mount : T.Table → Option MountConfig
  read_mount t = do
    path ← required as_text (T.get (ascii "path") t)
    source_password ← required as_text (T.get (ascii "source_password") t)
    max_listeners ← optional as_u32 (T.get (ascii "max_listeners") t)
    name ← optional as_text (T.get (ascii "name") t)
    description ← optional as_text (T.get (ascii "description") t)
    genre ← optional as_text (T.get (ascii "genre") t)
    url ← optional as_text (T.get (ascii "url") t)
    transcode ← optional read_transcode (T.get (ascii "transcode") t)
    burst_size ← optional as_u32 (T.get (ascii "burst_size") t)
    some (record {
      path = path;
      source_password = source_password;
      max_listeners = max_listeners;
      name = name;
      description = description;
      genre = genre;
      url = url;
      transcode = transcode;
      burst_size = burst_size;
    })

  unfoldable pub read_autodj : T.Table → Option AutoDjConfig
  read_autodj t = do
    mount ← required as_text (T.get (ascii "mount") t)
    folder ← required as_text (T.get (ascii "folder") t)
    name ← optional as_text (T.get (ascii "name") t)
    description ← optional as_text (T.get (ascii "description") t)
    genre ← optional as_text (T.get (ascii "genre") t)
    url ← optional as_text (T.get (ascii "url") t)
    enabled ← defaulted true as_bool (T.get (ascii "enabled") t)
    loop_playlist ← defaulted true as_bool (T.get (ascii "loop") t)
    order ← defaulted Order.shuffle as_order (T.get (ascii "order") t)
    max_listeners ← optional as_u32 (T.get (ascii "max_listeners") t)
    burst_size ← optional as_u32 (T.get (ascii "burst_size") t)
    transcode ← required read_transcode (T.get (ascii "transcode") t)
    some (record {
      mount = mount;
      folder = folder;
      name = name;
      description = description;
      genre = genre;
      url = url;
      enabled = enabled;
      loop_playlist = loop_playlist;
      order = order;
      max_listeners = max_listeners;
      burst_size = burst_size;
      transcode = transcode;
    })

  unfoldable pub read_relay : T.Table → Option RelayConfig
  read_relay t = do
    mount ← required as_text (T.get (ascii "mount") t)
    upstream ← required as_text (T.get (ascii "upstream") t)
    name ← optional as_text (T.get (ascii "name") t)
    description ← optional as_text (T.get (ascii "description") t)
    genre ← optional as_text (T.get (ascii "genre") t)
    url ← optional as_text (T.get (ascii "url") t)
    enabled ← defaulted true as_bool (T.get (ascii "enabled") t)
    username ← optional as_text (T.get (ascii "username") t)
    password ← optional as_text (T.get (ascii "password") t)
    max_listeners ← optional as_u32 (T.get (ascii "max_listeners") t)
    burst_size ← optional as_u32 (T.get (ascii "burst_size") t)
    transcode ← optional read_transcode (T.get (ascii "transcode") t)
    some (record {
      mount = mount;
      upstream = upstream;
      name = name;
      description = description;
      genre = genre;
      url = url;
      enabled = enabled;
      username = username;
      password = password;
      max_listeners = max_listeners;
      burst_size = burst_size;
      transcode = transcode;
    })

  unfoldable pub read_tls : Item T.Table → Option TlsConfig
  read_tls i = do
    t ← entries T i
    acme_domain ← optional as_text (T.get (ascii "acme_domain") t)
    cert_cache_dir ← optional as_text (T.get (ascii "cert_cache_dir") t)
    some (record { acme_domain = acme_domain; cert_cache_dir = cert_cache_dir })

  -- `parse_str`, from the table that the parser gives
  unfoldable pub read_config : T.Table → Option Config
  read_config t = do
    server ← required read_server (T.get (ascii "server") t)
    logging ← required read_logging (T.get (ascii "logging") t)
    auth ← required read_auth (T.get (ascii "auth") t)
    limits ← required read_limits (T.get (ascii "limits") t)
    mounts ← defaulted [] (as_list read_mount) (T.get (ascii "mounts") t)
    autodjs ← defaulted [] (as_list read_autodj) (T.get (ascii "autodjs") t)
    relays ← defaulted [] (as_list read_relay) (T.get (ascii "relays") t)
    tls ← optional read_tls (T.get (ascii "tls") t)
    transcode ← optional read_transcode (T.get (ascii "transcode") t)
    some (record {
      server = server;
      logging = logging;
      auth = auth;
      limits = limits;
      mounts = mounts;
      autodjs = autodjs;
      relays = relays;
      tls = tls;
      transcode = transcode;
    })
