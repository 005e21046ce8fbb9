-- ===== src/Core/Config/Plain.antt =====
-- crates/rustyice-core/src/config.rs: the plain mount of a path.
use rusty_ice.Prelude.{
  ◌≡◌, refl, true, false, Option, none, some, List, [], ◌∷◌, map, arith, bytes_eq, if◌then◌else◌,
}
use rusty_ice.Core.Mount.{Text}
use rusty_ice.Core.Config.{MountConfig, contains}

-- The first plain mount of a path.
unfoldable pub find_plain_mount : Text → List MountConfig → Option MountConfig
find_plain_mount path [] = none
find_plain_mount path (m ∷ ms) = if bytes_eq path m.path then some m else find_plain_mount path ms

pub absent-find_plain_mount :
    (path : Text) (ms : List MountConfig)
    → contains path (map (λ m. m.path) ms) ≡ false
    → find_plain_mount path ms ≡ none
unfolding find_plain_mount contains
absent-find_plain_mount path [] h = refl
absent-find_plain_mount path (m ∷ ms) h = ground (arith, h, absent-find_plain_mount path ms)

pub contains-find_plain_mount :
    (path : Text) (ms : List MountConfig)
    → (elim (find_plain_mount path ms) [ none ↦ false | some _ ↦ true ])
      ≡ contains path (map (λ m. m.path) ms)
unfolding find_plain_mount contains
contains-find_plain_mount path [] = refl
contains-find_plain_mount path (m ∷ ms) = ground (arith, contains-find_plain_mount path ms)
