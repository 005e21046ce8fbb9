-- ===== src/Admin/Sessions.antt =====
-- crates/rustyice-admin/src/state.rs: `SessionStore`. Instants and durations are numbers of one unit, and the random token of `create` is an argument.
pub mod Expiry
use rusty_ice.Prelude.{
  ℕ, ◌+◌, Bool, true, false, Option, none, some, List, [], ◌∷◌, Dict, lookup, erase, insert, ltb,
  if◌then◌else◌,
}
use rusty_ice.Core.Mount.{Text}

pub record SessionEntry : Type 0 where
  pub user : Text
  pub expires_at : ℕ

pub record SessionStore : Type 0 where
  pub sessions : Dict SessionEntry
  pub ttl : ℕ

unfoldable pub new : ℕ → SessionStore
new ttl = record { sessions = []; ttl = ttl }

unfoldable pub create : Text → Text → ℕ → SessionStore → SessionStore
create user token now s = record s {
  sessions = insert token (record { user = user; expires_at = now + s.ttl }) s.sessions;
}

unfoldable pub touch : Text → ℕ → SessionStore → Option Text × SessionStore
touch token now s = elim (lookup token s.sessions) [
  | none ↦ (none, s)
  | some entry ↦
      if ltb entry.expires_at now then (none, record s { sessions = erase token s.sessions }) else (
        some entry.user,
        record s { sessions = insert token (record entry { expires_at = now + s.ttl }) s.sessions },
      )
]

unfoldable pub revoke : Text → SessionStore → SessionStore
revoke token s = record s { sessions = erase token s.sessions }
