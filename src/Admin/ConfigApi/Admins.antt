-- ===== src/Admin/ConfigApi/Admins.antt =====
-- crates/rustyice-admin/src/api/config.rs: an admin who saves the users stays one.
use rusty_ice.Prelude.{
  ℕ, ◌+◌, Bool, true, false, ◌&&◌, ◌||◌, ◌≡◌, refl, subst, List, [], ◌∷◌, map, arith, Dict,
  bytes_eq, bytes_eq_iff, ascii, Bool-cases, inl, inr,
}
use rusty_ice.Core.Mount.{Text}
use rusty_ice.Core.Config.{Config, UserRole, contains}
use rusty_ice.Core.Config.Paths.{Distinct}
use rusty_ice.Auth.{collect_users}
use rusty_ice.Server.Chunked.Size.{trim}
use rusty_ice.Admin.Login.{role_in}
use rusty_ice.Admin.ConfigWrite.{UserSubPatch, UsersPatch}
use rusty_ice.Admin.ConfigWrite.Validate.{is_empty}
use rusty_ice.Admin.ConfigWrite.Accepts.Sections.{validate_users_patch-none}
use rusty_ice.Admin.ConfigApi.{UserSubBody}
use rusty_ice.Admin.ConfigApi.Candidate.{user_of}
use rusty_ice.Admin.ConfigApi.Candidate.Resolve.{
  Result, Resolution, resolved, refuse, resolve_user_password, resolve_user, resolve_users,
}
use rusty_ice.Admin.ConfigApi.Candidate.Decide.{accepted, still_admin, overlay_users, decide_users}
use rusty_ice.Admin.ConfigApi.Candidate.Accepted.{then-resolved, decide_users-accepted}

-- An entry of the patch with this name and the admin role.
admin_entry : Text → List UserSubPatch → Bool
admin_entry who [] = false
admin_entry who (u ∷ us) =
    bytes_eq u.username who && bytes_eq u.role (ascii "admin") || admin_entry who us

resolve_user-kept :
    (hash : Text → Result Text) (existing : Dict Text) (idx : ℕ) (u : UserSubBody)
    (p : UserSubPatch)
    → resolve_user hash existing idx u ≡ resolved p
    → (p.username ≡ trim u.username) × (p.role ≡ u.role)
unfolding resolve_user refuse
resolve_user-kept hash existing idx u p h = elim (Bool-cases (is_empty (trim u.username))) [
  | inl e ↦ absurd (ground (arith, e, h))
  | inr e ↦
      let make : Text → Resolution UserSubPatch =
        λ x. resolved (record { username = trim u.username; password_bcrypt = x; role = u.role }) in
      let (x, _, k) =
        then-resolved (resolve_user_password hash existing idx (trim u.username) u.password) make p
          (ground (arith, e, h)) in
      (ground (arith, k), ground (arith, k))
]

admin_entry-still_admin :
    (hash : Text → Result Text) (existing : Dict Text) (idx : ℕ) (who : Text)
    (us : List UserSubBody)
    → (ps : List UserSubPatch) → resolve_users hash existing idx us ≡ resolved ps
    → still_admin who us ≡ true
    → admin_entry who ps ≡ true
unfolding resolve_users still_admin admin_entry
admin_entry-still_admin hash existing idx who [] ps h k = absurd (ground (arith, k))
admin_entry-still_admin hash existing idx who (u ∷ us) ps h k =
    let (p, e, f) = then-resolved (resolve_user hash existing idx u) _ ps h in
    let (qs, g, l) = then-resolved (resolve_users hash existing (idx + 1) us) _ ps f in
    let (name, role) = resolve_user-kept hash existing idx u p e in
    let rest = admin_entry-still_admin hash existing (idx + 1) who us qs g in
    ground (arith, l, name, role, rest, k)

absent_admin_entry :
    (who : Text) (us : List UserSubPatch)
    → contains who (map (λ u. u.username) us) ≡ false
    → admin_entry who us ≡ false
unfolding admin_entry contains
absent_admin_entry who [] h = refl
absent_admin_entry who (u ∷ us) h =
    ground (
      arith,
      h,
      absent_admin_entry who us,
      bytes_eq_iff who u.username,
      bytes_eq_iff u.username who,
    )

role_in-admin_entry :
    (who : Text) (us : List UserSubPatch)
    → Distinct (map (λ u. u.username) us)
    → admin_entry who us ≡ true
    → role_in who (map user_of us) ≡ UserRole.admin
unfolding admin_entry role_in user_of
role_in-admin_entry who [] d h = absurd (ground (arith, h))
role_in-admin_entry who (u ∷ us) (fresh, d) h =
    let rest = role_in-admin_entry who us d in
    let alone = absent_admin_entry who us in
    let other : bytes_eq u.username who ≡ true → admin_entry who us ≡ false = λ e. alone (
      subst (λ x. contains x (map (λ u. u.username) us) ≡ false) ((bytes_eq_iff u.username who).0 e)
        fresh) in
    elim (Bool-cases (bytes_eq u.username who)) [
      | inl e ↦ ground (arith, e, other e, h)
      | inr e ↦ ground (arith, e, rest, h)
    ]

-- Who saves the users with a session of an account is an admin in what is accepted: the first user of that
-- name in the candidate has the role.
pub decide_users-IsAdmin :
    (hash : Text → Result Text) (who : Text) (body : List UserSubBody) (cfg c : Config)
    → (p : UsersPatch) → is_empty who ≡ false
    → decide_users hash who body cfg ≡ accepted c p
    → role_in who c.auth.users ≡ UserRole.admin
unfolding overlay_users
decide_users-IsAdmin hash who body cfg c p named h =
    let (kept, r, v, e) = decide_users-accepted hash who body cfg c p h in
    let (d, _, _) = (validate_users_patch-none p).0 v in
    let still : still_admin who body ≡ true = ground (arith, kept, named) in
    subst (λ x. role_in who x.auth.users ≡ UserRole.admin) e
      (role_in-admin_entry who p.users d
        (admin_entry-still_admin hash (collect_users [] cfg.auth.users) 0 who body p.users r still))
