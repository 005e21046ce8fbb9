-- ===== src/Auth/Tests.antt =====
-- The authentication result at a concrete configuration.
use rusty_ice.Prelude.{◌≡◌, ◌↔◌, refl, true, some, [], ◌∷◌, ascii, ℕ, List}
use rusty_ice.Core.Config.{Config}
use rusty_ice.Core.Config.Example.{plain_config, live_mount}
use rusty_ice.Auth.{new, verify_source, reload}
use rusty_ice.Auth.Reload.{expected, verify_source-reload}

abbrev live_config : Config
live_config = record plain_config { mounts = live_mount ∷ [] }

abbrev secret : List ℕ
secret = ascii "secret"

verify_source-reload_example :
    (verify_source (ascii "/live") secret (reload live_config (new plain_config)) ≡ true)
    ↔ (expected live_config (ascii "/live") ≡ some secret)
unfolding rusty_ice.Core.Config.contains
verify_source-reload_example =
    verify_source-reload live_config (new plain_config) (ascii "/live") secret (refl, tt)
