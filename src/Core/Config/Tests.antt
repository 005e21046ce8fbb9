-- ===== src/Core/Config/Tests.antt =====
-- The configuration's validation at a concrete configuration.
use rusty_ice.Prelude.{◌≡◌, ◌↔◌, none, some, true, [], ◌∷◌, All, ascii}
use rusty_ice.Core.Config.{Config, RelayConfig, validate_paths}
use rusty_ice.Core.Config.Example.{plain_config, live_mount}
use rusty_ice.Core.Config.Paths.{Distinct, all_paths, IsSoundRelay, validate_paths-none}

abbrev jazz : RelayConfig
jazz = record {
  mount = ascii "/jazz";
  upstream = ascii "http://jazz.example/live";
  name = none;
  description = none;
  genre = none;
  url = none;
  enabled = true;
  username = some (ascii "u");
  password = none;
  max_listeners = none;
  burst_size = none;
  transcode = none;
}

abbrev two_mounts : Config
two_mounts = record plain_config { mounts = live_mount ∷ []; relays = jazz ∷ [] }

validate_paths-none_example :
    (validate_paths two_mounts ≡ none)
    ↔ (Distinct (all_paths two_mounts) × All IsSoundRelay two_mounts.relays)
validate_paths-none_example = validate_paths-none two_mounts
