-- ===== src/Admin/Login.antt =====
-- crates/rustyice-admin/src/api/auth.rs: the session cookie, the role of a session's user, and the
-- middleware of the router. A cookie header is the text of one that `to_str` accepts, an instant and a
-- new session's token are arguments, and so is the answer of the authentication backend.
pub mod Gates
use rusty_ice.Prelude.{
  ℕ, Bool, true, false, Option, none, some, List, [], ◌∷◌, ◌++◌, bytes_eq, ascii, ◌==◌,
  if◌then◌else◌,
}
use rusty_ice.Core.Mount.{Text}
use rusty_ice.Core.Config.{Config, UserConfig, UserRole}
use rusty_ice.Server.Chunked.Size.{trim}
use rusty_ice.Admin.Sessions.{SessionStore, create, touch, revoke}

unfoldable pub cookie_name : Text
cookie_name = ascii "rustyice_session"

abbrev onto_first : ℕ → List Text → List Text
onto_first c [] = (c ∷ []) ∷ []
onto_first c (piece ∷ pieces) = (c ∷ piece) ∷ pieces

-- `split` at every `at`; there is one piece more than separators.
unfoldable pub split : ℕ → Text → List Text
split at [] = [] ∷ []
split at (c ∷ text) =
    let pieces = split at text in if c == at then [] ∷ pieces else onto_first c pieces

-- The texts before and after the first `at`.
unfoldable pub cut_pair : ℕ → Text → Option (Text × Text)
cut_pair at [] = none
cut_pair at (c ∷ text) =
    let rest = cut_pair at text in
    if c == at then some ([], text) else elim rest [ none ↦ none | some (a, b) ↦ some (c ∷ a, b) ]

unfoldable pub named_value : Text → Option Text
named_value pair = elim (cut_pair b'=' (trim pair)) [
  | none ↦ none
  | some (name, value) ↦ if bytes_eq name cookie_name then some value else none
]

unfoldable pub first_value : List Text → Option Text
first_value [] = none
first_value (pair ∷ pairs) =
    let rest = first_value pairs in elim (named_value pair) [ some v ↦ some v | none ↦ rest ]

unfoldable pub session_token : Option Text → Option Text
session_token none = none
session_token (some cookies) = first_value (split b';' cookies)

-- "operator" for a user that the running configuration does not have.
unfoldable pub role_in : Text → List UserConfig → UserRole
role_in username [] = UserRole.operator
role_in username (u ∷ us) =
    let rest = role_in username us in if bytes_eq u.username username then u.role else rest

-- `session_token(&headers).and_then(|t| state.sessions.touch(&t))`
unfoldable pub session_user : Option Text → ℕ → SessionStore → Option Text × SessionStore
session_user cookies now s = elim (session_token cookies) [
  | none ↦ (none, s)
  | some token ↦ touch token now s
]

unfoldable pub session_role :
    Option Text → ℕ → Config → SessionStore → Option (Text × UserRole) × SessionStore
session_role cookies now cfg s =
    let (user, s') = session_user cookies now s in
    (elim user [ none ↦ none | some u ↦ some (u, role_in u cfg.auth.users) ], s')

-- `session_role(..).map(|(_, role)| role == "admin").unwrap_or(false)`
unfoldable pub is_admin : Option (Text × UserRole) → Bool
is_admin none = false
is_admin (some (_, UserRole.admin)) = true
is_admin (some (_, UserRole.operator)) = false

pub data LoginResponse : Type 0 where
  logged_in : Text → Text → UserRole → LoginResponse
  invalid_credentials backend_error : LoginResponse

-- `Set-Cookie` of a login.
unfoldable pub login_cookie : Text → Text
login_cookie token =
    cookie_name ++ (ascii "=" ++ (token ++ ascii "; HttpOnly; SameSite=Lax; Path=/; Max-Age=86400"))

unfoldable pub login :
    Option Bool → Text → Text → ℕ → Config → SessionStore → LoginResponse × SessionStore
login verified username token now cfg s = elim verified [
  | none ↦ (backend_error, s)
  | some ok ↦
      if ok
      then (
        logged_in (login_cookie token) username (role_in username cfg.auth.users),
        create username token now s,
      )
      else (invalid_credentials, s)
]

unfoldable pub logout : Option Text → SessionStore → SessionStore
logout cookies s = elim (session_token cookies) [ none ↦ s | some token ↦ revoke token s ]

-- `me`, where `none` is a 401.
unfoldable pub me :
    Option Text → ℕ → Config → SessionStore → Option (Text × UserRole) × SessionStore
me cookies now cfg s = session_role cookies now cfg s

pub data Gate : Type 0 where
  passed unauthorized forbidden : Gate

unfoldable pub gate_of : UserRole → Gate
gate_of UserRole.admin = passed
gate_of UserRole.operator = forbidden

unfoldable pub require_session : Option Text → ℕ → SessionStore → Gate × SessionStore
require_session cookies now s =
    let (user, s') = session_user cookies now s in
    (elim user [ none ↦ unauthorized | some _ ↦ passed ], s')

unfoldable pub require_admin : Option Text → ℕ → Config → SessionStore → Gate × SessionStore
require_admin cookies now cfg s =
    let (role, s') = session_role cookies now cfg s in
    (elim role [ none ↦ unauthorized | some (_, r) ↦ gate_of r ], s')
