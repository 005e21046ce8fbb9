-- ===== src/Admin/ConfigApi/Candidate/Accepted.antt =====
-- crates/rustyice-admin/src/api/config.rs: what an accepted candidate has passed.
use rusty_ice.Prelude.{
  ◌≡◌, inl, inr, refl, subst, false, not, ◌&&◌, Option, none, some, arith, List, [], Checked, val,
  panic, Option-cases, Bool-cases, if◌then◌else◌,
}
use rusty_ice.Core.Mount.{Text}
use rusty_ice.Core.Config.{Config, validate_paths}
use rusty_ice.Auth.{collect_users}
use rusty_ice.Admin.ConfigWrite.{WriteError, UserSubPatch, UsersPatch}
use rusty_ice.Admin.ConfigWrite.Validate.{is_empty}
use rusty_ice.Admin.ConfigWrite.Validate.Entries.{validate_users_patch}
use rusty_ice.Admin.ConfigApi.{UserSubBody}
use rusty_ice.Admin.ConfigApi.Candidate.Resolve.{
  Result, resolve_users, ◌then◌, Resolution, resolved, refused, broken,
}
use rusty_ice.Admin.ConfigApi.Candidate.Decide.{
  Decision, accepted, if_valid, check_paths, with_resolved, overlay_users, still_admin,
  decide_users,
}

module _ {P : Type 0} where
  pub if_valid-accepted :
      (e : Option WriteError) (next : Decision P) (c : Config) (p : P)
      → if_valid e next ≡ accepted c p
      → (e ≡ none) × (next ≡ accepted c p)
  unfolding if_valid
  if_valid-accepted none next c p h = (refl, h)
  if_valid-accepted (some e) next c p h = absurd (ground (arith, h))

  pub check_paths-accepted :
      (q : P) (x : Checked Config) (c : Config) (p : P)
      → check_paths q x ≡ accepted c p
      → (x ≡ val c) × (q ≡ p) × (validate_paths c ≡ none)
  unfolding check_paths
  check_paths-accepted q panic c p h = absurd (ground (arith, h))
  check_paths-accepted q (val x) c p h = elim (Option-cases (validate_paths x)) [
    | inl e ↦ (ground (arith, e, h), ground (arith, e, h), ground (arith, e, h))
    | inr (m, e) ↦ absurd (ground (arith, e, h))
  ]

  pub with_resolved-accepted :
      {A : Type 0} (r : Resolution A) (next : A → Decision P) (c : Config) (p : P)
      → with_resolved r next ≡ accepted c p
      → (a : A) × (r ≡ resolved a) × (next a ≡ accepted c p)
  unfolding with_resolved
  with_resolved-accepted (resolved a) next c p h = (a, refl, h)
  with_resolved-accepted (refused e) next c p h = absurd (ground (arith, h))
  with_resolved-accepted (broken m) next c p h = absurd (ground (arith, h))

pub then-resolved :
    {A B : Type 0} (r : Resolution A) (f : A → Resolution B) (b : B)
    → (r then f) ≡ resolved b
    → (a : A) × (r ≡ resolved a) × (f a ≡ resolved b)
then-resolved (resolved a) f b h = (a, refl, h)
then-resolved (refused e) f b h = absurd (ground (arith, h))
then-resolved (broken m) f b h = absurd (ground (arith, h))

accepted_inj :
    {P : Type 0} {c d : Config} {p q : P} → accepted c p ≡ accepted d q → (c ≡ d) × (p ≡ q)
accepted_inj h = (ground (arith, h), ground (arith, h))

pub decide_users-accepted :
    (hash : Text → Result Text) (who : Text) (body : List UserSubBody) (cfg c : Config)
    → (p : UsersPatch) → decide_users hash who body cfg ≡ accepted c p
    → ((not (is_empty who) && not (still_admin who body)) ≡ false)
      × (resolve_users hash (collect_users [] cfg.auth.users) 0 body ≡ resolved p.users)
      × (validate_users_patch p ≡ none)
      × (overlay_users p cfg ≡ c)
unfolding decide_users
decide_users-accepted hash who body cfg c p h =
    let next : List UserSubPatch → Decision UsersPatch = λ us.
      if_valid (validate_users_patch (record { users = us }))
        (accepted (overlay_users (record { users = us }) cfg) (record { users = us })) in
    elim (Bool-cases (not (is_empty who) && not (still_admin who body))) [
      | inl e ↦ absurd (ground (arith, e, h))
      | inr e ↦
          let all = resolve_users hash (collect_users [] cfg.auth.users) 0 body in
          let (us, r, k) = with_resolved-accepted all next c p (ground (arith, e, h)) in
          let (v, a) = if_valid-accepted _ _ c p k in
          let (same, at) = accepted_inj a in
          (
            e,
            ground (arith, r, at),
            subst (λ x. validate_users_patch x ≡ none) at v,
            subst (λ x. overlay_users x cfg ≡ c) at same,
          )
    ]
