-- ===== src/Admin/Sessions/Expiry.antt =====
-- crates/rustyice-admin/src/state.rs: how long a session lives.
use rusty_ice.Prelude.{
  Dict, lookup, erase, insert, lookup-erase, lookup-insert, ℕ, ◌+◌, ◌≡◌, refl, ap, inl, inr, Option,
  none, some, List, [], ◌∷◌, bytes_eq_refl, ltb, if◌then◌else◌, Bool-cases,
}
use rusty_ice.Core.Mount.{Text}
use rusty_ice.Admin.Sessions.{SessionEntry, SessionStore, create, touch}

lookup-erase_same :
    (token : Text) (sessions : Dict SessionEntry) → lookup token (erase token sessions) ≡ none
lookup-erase_same token sessions = rw (lookup-erase, bytes_eq_refl token)

lookup-insert_same :
    (token : Text) (entry : SessionEntry) (sessions : Dict SessionEntry)
    → lookup token (insert token entry sessions) ≡ some entry
lookup-insert_same token entry sessions = rw (lookup-insert, bytes_eq_refl token)

-- The results of touching one token at several times.
pub touch_all : Text → List ℕ → SessionStore → List (Option Text)
touch_all token [] s = []
touch_all token (now ∷ times) s =
    let (result, s') = touch token now s in result ∷ touch_all token times s'

abbrev all_none : List ℕ → List (Option Text)
all_none [] = []
all_none (now ∷ times) = none ∷ all_none times

-- A session renewed at `last` serves its user while each use comes within `ttl` of the one before; a
-- use that comes later finds nothing, and so do all after it.
unfoldable pub served : ℕ → Text → ℕ → List ℕ → List (Option Text)
served ttl user last [] = []
served ttl user last (now ∷ times) =
    let rest = served ttl user now times in
    if ltb (last + ttl) now then none ∷ all_none times else some user ∷ rest

touch_all-none :
    (token : Text) (times : List ℕ) (s : SessionStore)
    → lookup token s.sessions ≡ none
    → touch_all token times s ≡ all_none times
unfolding touch_all touch
touch_all-none token [] s h = refl
touch_all-none token (now ∷ times) s h =
    rw (touch, h) (ap (◌∷◌ none) (touch_all-none token times s h))

touch_all-some :
    (token user : Text) (last : ℕ) (times : List ℕ) (s : SessionStore)
    → lookup token s.sessions ≡ some (record { user = user; expires_at = last + s.ttl })
    → touch_all token times s ≡ served s.ttl user last times
unfolding touch_all touch served
touch_all-some token user last [] s h = refl
touch_all-some token user last (now ∷ times) s h =
    let renewed : SessionEntry = record { user = user; expires_at = now + s.ttl } in
    elim (Bool-cases (ltb (last + s.ttl) now)) [
      | inl late ↦
          rw (touch, h, late)
            (ap (◌∷◌ none) (touch_all-none token times _ (lookup-erase_same token s.sessions)))
      | inr early ↦
          rw (touch, h, early)
            (ap (◌∷◌ (some user)) (
              touch_all-some token user now times
                (record s { sessions = insert token renewed s.sessions })
                (lookup-insert_same token renewed s.sessions)))
    ]

-- A new session serves its user at a series of later times exactly while each comes within the time to
-- live of the one before, or of the creation; the first that comes later ends it for good.
pub touch_all-create :
    (user token : Text) (now : ℕ) (times : List ℕ) (s : SessionStore)
    → touch_all token times (create user token now s) ≡ served s.ttl user now times
unfolding create
touch_all-create user token now times s =
    touch_all-some token user now times _ (lookup-insert_same token _ s.sessions)
