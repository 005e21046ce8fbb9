-- ===== src/Admin/ConfigApi/Route.antt =====
-- crates/rustyice-admin/src/router.rs and crates/rustyice-admin/src/api/auth.rs: what a request may change,
-- seen through its middleware.
use rusty_ice.Prelude.{
  ℕ, false, ◌≡◌, ◌↔◌, ◌≢◌, ◌⊎◌, inl, inr, refl, sym, ap, ◌∙◌, subst, Option, some, List, arith,
  Option-cases,
}
use rusty_ice.Core.Mount.{Text}
use rusty_ice.Core.Toml.{TomlEdit}
use rusty_ice.Core.Config.{Config, UserConfig, UserRole}
use rusty_ice.Server.ConfigReload.Apply.{AuthBackend}
use rusty_ice.Admin.Sessions.{SessionStore, touch}
use rusty_ice.Admin.Login.{
  Gate, passed, unauthorized, forbidden, session_token, session_user, role_in, session_role,
  require_admin, gate_of,
}
use rusty_ice.Admin.ConfigApi.Candidate.Resolve.{Result}
use rusty_ice.Admin.ConfigApi.Persist.{TomlText, AdminState}
use rusty_ice.Admin.ConfigApi.Persist.Handlers.{
  PutRequest, Body, server, transcode, users, mounts, autodjs, relays, session_gate, admin_gate,
  gate, put, route,
}
use rusty_ice.Admin.ConfigApi.Synced.{disk_written, InSync}
use rusty_ice.Admin.ConfigApi.Synced.Put.{IsWhole, IsApart, InSync-sessions, put-InSync}

Gate-cases : (g : Gate) → (g ≡ passed) ⊎ ((g ≡ unauthorized) ⊎ (g ≡ forbidden))
Gate-cases passed = inl refl
Gate-cases unauthorized = inr (inl refl)
Gate-cases forbidden = inr (inr refl)

-- A user of the configuration whose role, at its first entry, is admin.
abbrev pub IsAdminOf : Text → List UserConfig → Type 0
IsAdminOf name us = role_in name us ≡ UserRole.admin

-- The cookie names a session that lives, and its user is an admin of the configuration.
pub record IsAdminSession (cookies : Option Text) (now : ℕ) (cfg : Config) (s : SessionStore)
    : Type 0 where
  pub token : Text
  pub user : Text
  pub has_token : session_token cookies ≡ some token
  pub lives : (touch token now s).0 ≡ some user
  pub is_admin_user : IsAdminOf user cfg.auth.users

role_passed : (r : UserRole) → gate_of r ≡ passed → r ≡ UserRole.admin
unfolding gate_of
role_passed UserRole.admin h = refl
role_passed UserRole.operator h = absurd (ground (arith, h))

-- `require_admin` lets a request pass exactly with the cookie of a living session whose user is an admin of
-- the running configuration.
pub require_admin-passed :
    (cookies : Option Text) (now : ℕ) (cfg : Config) (s : SessionStore)
    → ((require_admin cookies now cfg s).0 ≡ passed) ↔ IsAdminSession cookies now cfg s
unfolding require_admin session_role session_user gate_of
require_admin-passed cookies now cfg s = (
  λ h. elim (Option-cases (session_token cookies)) [
    | inl e ↦ absurd (ground (arith, e, h))
    | inr (t, e) ↦ elim (Option-cases (touch t now s).0) [
      | inl f ↦ absurd (ground (arith, e, f, h))
      | inr (u, f) ↦ record {
        token = t;
        user = u;
        has_token = e;
        lives = f;
        is_admin_user = role_passed (role_in u cfg.auth.users) (ground (arith, e, f, h));
      }
    ]
  ],
  λ h. ground (arith, h.has_token, h.lives, h.is_admin_user),
)

-- The sections of the router's `admin_only` routes.
abbrev pub IsAdminOnly : Body → Type 0
IsAdminOnly (server _) = Unit
IsAdminOnly (transcode _) = Unit
IsAdminOnly (users _) = Unit
IsAdminOnly (mounts _) = ⊥
IsAdminOnly (autodjs _) = ⊥
IsAdminOnly (relays _) = ⊥

module _ {A : AuthBackend} {T : TomlEdit} (toml : TomlText T) (hash : Text → Result Text) where
  -- A request that its middleware stops changes the sessions at most.
  route_stopped :
      (r : PutRequest) (b : Body) (s : AdminState A)
      → (gate r b s).0 ≢ passed
      → (route toml hash r b s).0 ≡ (gate r b s).1
  unfolding route
  route_stopped r b s h = elim (Gate-cases (gate r b s).0) [
    | inl e ↦ absurd (h e)
    | inr (inl e) ↦ ground (arith, e)
    | inr (inr e) ↦ ground (arith, e)
  ]

  admin_only :
      (r : PutRequest) (b : Body) (s : AdminState A)
      → IsAdminOnly b
      → (¬ IsAdminSession r.cookies r.now s.server.config s.sessions)
      → (gate r b s).0 ≢ passed
  unfolding gate admin_gate
  admin_only r (server _) s h never e = never ((require_admin-passed _ _ _ _).0 e)
  admin_only r (transcode _) s h never e = never ((require_admin-passed _ _ _ _).0 e)
  admin_only r (users _) s h never e = never ((require_admin-passed _ _ _ _).0 e)
  admin_only r (mounts _) s h never e = absurd h
  admin_only r (autodjs _) s h never e = absurd h
  admin_only r (relays _) s h never e = absurd h

  gate_keeps :
      (r : PutRequest) (b : Body) (s : AdminState A)
      → (gate r b s).1 ≡ record s { sessions = (gate r b s).1.sessions }
  unfolding gate session_gate admin_gate
  gate_keeps r (server _) s = refl
  gate_keeps r (transcode _) s = refl
  gate_keeps r (users _) s = refl
  gate_keeps r (mounts _) s = refl
  gate_keeps r (autodjs _) s = refl
  gate_keeps r (relays _) s = refl

  -- A request for the server, transcode or users section changes neither the running server nor a file
  -- nor the file's path, unless its cookie names a living session of an admin of the running
  -- configuration.
  pub route-admin :
      (r : PutRequest) (b : Body) (s : AdminState A)
      → IsAdminOnly b
      → (¬ IsAdminSession r.cookies r.now s.server.config s.sessions)
      → (route toml hash r b s).0 ≡ record s { sessions = (route toml hash r b s).0.sessions }
  route-admin r b s h never =
      let stopped = route_stopped r b s (admin_only r b s h never) in
      subst (λ x. x ≡ record s { sessions = x.sessions }) (sym stopped) (gate_keeps r b s)

  -- Where the file reads as the running configuration, it does so after any request for one of the five
  -- sections that are written as a whole, unless the response says that the disk was written and the
  -- configuration was not applied, or applying it panics; `Path::with_extension` gives another file.
  pub route-InSync :
      (r : PutRequest) (b : Body) (s : AdminState A)
      → IsWhole b
      → InSync toml s
      → IsApart toml r.disk s
      → disk_written (route toml hash r b s).1 ≡ false
      → InSync toml (route toml hash r b s).0
  unfolding route
  route-InSync r b s whole old apart quiet =
      let keeps = gate_keeps r b s in
      let between : InSync toml (gate r b s).1 =
        subst (InSync toml) (sym keeps) (InSync-sessions toml s _ old) in
      elim (Gate-cases (gate r b s).0) [
        | inl e ↦
            let handled : route toml hash r b s ≡ put toml hash r b (gate r b s).1 =
              ground (arith, e) in
            let apart' : IsApart toml r.disk (gate r b s).1 =
              subst (IsApart toml r.disk) (sym keeps) apart in
            subst (λ x. InSync toml x.0) (sym handled)
              (put-InSync toml hash r b (gate r b s).1 whole between apart'
                (ap (λ x. disk_written x.1) (sym handled) ∙ quiet))
        | inr (inl e) ↦
            let same : (route toml hash r b s).0 ≡ (gate r b s).1 = ground (arith, e) in
            subst (InSync toml) (sym same) between
        | inr (inr e) ↦
            let same : (route toml hash r b s).0 ≡ (gate r b s).1 = ground (arith, e) in
            subst (InSync toml) (sym same) between
      ]
