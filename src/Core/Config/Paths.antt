-- ===== src/Core/Config/Paths.antt =====
-- crates/rustyice-core/src/config.rs: what `validate_paths` accepts.
use rusty_ice.Prelude.{
  ◌≡◌, ◌↔◌, ◌⊎◌, refl, inl, inr, true, false, ◌||◌, none, List, [], ◌∷◌, ◌++◌, map, All, arith,
  bytes_eq, bytes_eq_iff, ascii, Bool-cases, Option-cases,
}
use rusty_ice.Core.Mount.{Text}
use rusty_ice.Core.Config.{
  Config, RelayConfig, PathError, duplicate_mount, duplicate_autodj, contains, fine, fails,
  check_unique, starts_with, check_credentials, check_relay, check_relays, validate_paths,
}

abbrev pub Distinct : List Text → Type 0
Distinct [] = Unit
Distinct (x ∷ xs) = (contains x xs ≡ false) × Distinct xs

-- None of the paths is among those seen, nor occurs twice.
abbrev pub AreNew : List Text → List Text → Type 0
AreNew seen xs = Distinct xs × All (λ x. contains x seen ≡ false) xs

abbrev pub all_paths : Config → List Text
all_paths cfg =
    map (λ m. m.path) cfg.mounts
    ++ (map (λ a. a.mount) cfg.autodjs ++ map (λ r. r.mount) cfg.relays)

-- The upstream is a web address, and the credentials are both there or both missing.
abbrev pub IsSoundRelay : RelayConfig → Type 0
IsSoundRelay r =
    ((starts_with (ascii "http://") r.upstream || starts_with (ascii "https://") r.upstream) ≡ true)
    × ((r.username ≡ none) ↔ (r.password ≡ none))

bytes_eq_comm : (x y : Text) → bytes_eq x y ≡ bytes_eq y x
bytes_eq_comm x y = ground (arith, bytes_eq_iff x y, bytes_eq_iff y x)

-- To have seen one path more is to find it nowhere in the rest.
seen_cons :
    (x : Text) (seen xs : List Text)
    → All (λ z. contains z (x ∷ seen) ≡ false) xs
      ↔ ((contains x xs ≡ false) × All (λ z. contains z seen ≡ false) xs)
unfolding contains
seen_cons x seen [] = (λ _. (refl, tt), λ _. tt)
seen_cons x seen (y ∷ ys) =
    let (to, from) = seen_cons x seen ys in
    (
      λ (h, hs).
          let (a, b) = to hs in (ground (arith, h, a, bytes_eq_comm x y), (ground (arith, h), b)),
      λ (h, (k, ks)). (ground (arith, h, k, bytes_eq_comm x y), from (ground (arith, h), ks)),
    )

pub AreNew-cons :
    (x : Text) (seen xs : List Text)
    → AreNew seen (x ∷ xs) ↔ ((contains x seen ≡ false) × AreNew (x ∷ seen) xs)
AreNew-cons x seen xs =
    let (to, from) = seen_cons x seen xs in
    (
      λ ((a, d), (b, h)). (b, (d, from (a, h))),
      λ (b, (d, h)). let (a, h') = to h in ((a, d), (b, h')),
    )

-- The loop either extends the set, and what is left to be new is new for that, or finds a repetition.
unique-cases :
    (duplicate : Text → PathError) (seen xs ys : List Text)
    → ((s : List Text) × (check_unique duplicate seen xs ≡ fine s)
        × (AreNew seen (xs ++ ys) ↔ AreNew s ys))
      ⊎ ((e : PathError) × (check_unique duplicate seen xs ≡ fails e) × (¬ AreNew seen (xs ++ ys)))
unfolding check_unique
unique-cases duplicate seen [] ys = inl (seen, refl, (λ h. h, λ h. h))
unique-cases duplicate seen (x ∷ xs) ys =
    let (to, from) = AreNew-cons x seen (xs ++ ys) in
    elim (Bool-cases (contains x seen)) [
      | inl old ↦ inr (duplicate x, rw old refl, λ h. let (b, _) = to h in cc)
      | inr new_ ↦ elim (unique-cases duplicate (x ∷ seen) xs ys) [
        | inl (s, e, (there, back)) ↦
            inl (s, rw new_ e, (λ h. there (to h).1, λ h. from (new_, back h)))
        | inr (e, f, no_way) ↦ inr (e, rw new_ f, λ h. no_way (to h).1)
      ]
    ]

check_credentials-none :
    (r : RelayConfig) → (check_credentials r ≡ none) ↔ ((r.username ≡ none) ↔ (r.password ≡ none))
unfolding check_credentials
check_credentials-none r = elim (Option-cases r.username) [
  | inl u ↦ elim (Option-cases r.password) [
    | inl p ↦ (λ _. (λ _. p, λ _. u), λ _. rw (u, p) refl)
    | inr (_, p) ↦
        (λ h. absurd (ground (arith, u, p, h)), λ (to, _). absurd (ground (arith, p, to u)))
  ]
  | inr (_, u) ↦ elim (Option-cases r.password) [
    | inl p ↦
        (λ h. absurd (ground (arith, u, p, h)), λ (_, from). absurd (ground (arith, u, from p)))
    | inr (_, p) ↦ (
      λ _. (λ e. absurd (ground (arith, u, e)), λ e. absurd (ground (arith, p, e))),
      λ _. rw (u, p) refl,
    )
  ]
]

check_relay-none : (r : RelayConfig) → (check_relay r ≡ none) ↔ IsSoundRelay r
unfolding check_relay
check_relay-none r =
    let (to, from) = check_credentials-none r in
    elim (Bool-cases
      (starts_with (ascii "http://") r.upstream || starts_with (ascii "https://") r.upstream)) [
        | inl web ↦ (λ h. (web, to (ground (arith, web, h))), λ (_, c). ground (arith, web, from c))
        | inr other ↦
            (λ h. absurd (ground (arith, other, h)), λ (w, _). absurd (ground (arith, other, w)))
      ]

check_relays-none :
    (seen : List Text) (rs : List RelayConfig)
    → (check_relays seen rs ≡ none) ↔ (AreNew seen (map (λ r. r.mount) rs) × All IsSoundRelay rs)
unfolding check_relays
check_relays-none seen [] = (λ _. ((tt, tt), tt), λ _. refl)
check_relays-none seen (r ∷ rs) =
    let (to, from) = AreNew-cons r.mount seen (map (λ r. r.mount) rs) in
    let (sound, unsound) = check_relay-none r in
    let (there, back) = check_relays-none (r.mount ∷ seen) rs in
    elim (Bool-cases (contains r.mount seen)) [
      | inl old ↦
          (λ h. absurd (ground (arith, old, h)), λ (n, _). absurd (ground (arith, old, (to n).0)))
      | inr new_ ↦ elim (Option-cases (check_relay r)) [
        | inl ok ↦ (
          λ h. let (n, s) = there (ground (arith, new_, ok, h)) in (from (new_, n), (sound ok, s)),
          λ (n, (_, s)). ground (arith, new_, ok, back ((to n).1, s)),
        )
        | inr (e, bad) ↦ (
          λ h. absurd (ground (arith, new_, bad, h)),
          λ (_, (s, _)). absurd (ground (arith, bad, unsound s)),
        )
      ]
    ]

pub nothing_seen : (xs : List Text) → All (λ z. contains z [] ≡ false) xs
unfolding contains
nothing_seen [] = tt
nothing_seen (x ∷ xs) = (refl, nothing_seen xs)

-- A configuration is accepted exactly when no mount path occurs twice among its plain, AutoDJ and
-- relay mounts together, every relay's upstream starts with http:// or https://, and no relay has a
-- user name without a password or a password without a user name.
pub validate_paths-none :
    (cfg : Config)
    → (validate_paths cfg ≡ none) ↔ (Distinct (all_paths cfg) × All IsSoundRelay cfg.relays)
unfolding validate_paths
validate_paths-none cfg =
    let plain = map (λ m. m.path) cfg.mounts in
    let djs = map (λ a. a.mount) cfg.autodjs in
    let relays = map (λ r. r.mount) cfg.relays in
    elim (unique-cases duplicate_mount [] plain (djs ++ relays)) [
      | inr (e, f, no_way) ↦ (
        λ h. absurd (ground (arith, f, h)),
        λ (d, _). absurd (no_way (d, nothing_seen (all_paths cfg))),
      )
      | inl (seen, f, (there, back)) ↦ elim (unique-cases duplicate_autodj seen djs relays) [
        | inr (e, g, no_way) ↦ (
          λ h. absurd (ground (arith, f, g, h)),
          λ (d, _). absurd (no_way (there (d, nothing_seen (all_paths cfg)))),
        )
        | inl (seen', g, (there', back')) ↦
            let (to, from) = check_relays-none seen' cfg.relays in
            (
              λ h. let (n, s) = to (ground (arith, f, g, h)) in ((back (back' n)).0, s),
              λ (d, s).
                  let n = there' (there (d, nothing_seen (all_paths cfg))) in
                  ground (arith, f, g, from (n, s)),
            )
      ]
    ]
