-- ===== src/Core/Config/Example.antt =====
-- A small configuration for tests.
use rusty_ice.Prelude.{some, none, [], ascii}
use rusty_ice.Core.Config.{Config, LogFormat, MountConfig}

abbrev pub plain_config : Config
plain_config = record {
  server = record { stream_bind = ascii ":8000"; admin_bind = ascii ":8001"; hostname = ascii "h" };
  logging = record { level = ascii "info"; format = LogFormat.json };
  auth = record { users = []; source_password = some (ascii "hackme") };
  limits = record {
    max_listeners_global = 10;
    ring_size = 64;
    slow_listener_grace_s = 2;
    source_max_kbps = none;
    burst_size = 65536;
  };
  mounts = [];
  autodjs = [];
  relays = [];
  tls = none;
  transcode = none;
}

abbrev pub live_mount : MountConfig
live_mount = record {
  path = ascii "/live";
  source_password = ascii "secret";
  max_listeners = some 2;
  name = none;
  description = none;
  genre = none;
  url = none;
  transcode = none;
  burst_size = none;
}
