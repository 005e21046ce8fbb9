-- ===== src/Admin/Listeners/Lookup.antt =====
-- crates/rustyice-admin/src/state.rs: an id stays with its listener while others come and go.
use rusty_ice.Prelude.{
  ℕ, suc, ◌+◌, ◌^◌, ◌<◌, ◌≡◌, ◌≢◌, ◌∙◌, refl, ap, inl, inr, true, false, Option, none, some, List,
  [], ◌∷◌, length, ◌==◌, arith, Bool-cases,
}
use rusty_ice.Core.Mount.{Text}
use rusty_ice.Admin.Listeners.{ListenerEntry, ListenerMap, get, remove, register, deregister, kick}

-- What other listeners do: one joins, or the one of an id leaves.
pub data Change : Type 0 where
  joins : Text → Option Text → ℕ → ℕ → Change
  leaves : ℕ → Change

abbrev pub change : Change → ListenerMap → ListenerMap
change (joins mount_path peer_addr cancel now) m = (register mount_path peer_addr cancel now m).1
change (leaves id) m = deregister id m

abbrev pub changes : List Change → ListenerMap → ListenerMap
changes [] m = m
changes (c ∷ cs) m = changes cs (change c m)

abbrev pub Keeps : ℕ → List Change → Type 0
Keeps id [] = Unit
Keeps id (joins _ _ _ _ ∷ cs) = Keeps id cs
Keeps id (leaves other ∷ cs) = (id ≢ other) × Keeps id cs

get-remove_other :
    (id other : ℕ) (es : List ListenerEntry) → id ≢ other → get id (remove other es) ≡ get id es
unfolding get remove
get-remove_other id other [] h = refl
get-remove_other id other (e ∷ es) h =
    let rest = get-remove_other id other es h in
    elim (Bool-cases (other == e.id)) [
      | inl gone ↦
          let kept : (id == e.id) ≡ false = ground (arith, gone, h) in
          ground (arith, gone, kept, rest)
      | inr stays ↦ ground (arith, stays, rest)
    ]

get-remove_same : (id : ℕ) (es : List ListenerEntry) → get id (remove id es) ≡ none
unfolding get remove
get-remove_same id [] = refl
get-remove_same id (e ∷ es) =
    let rest = get-remove_same id es in
    elim (Bool-cases (id == e.id)) [
      | inl gone ↦ ground (arith, gone, rest)
      | inr stays ↦ ground (arith, stays, rest)
    ]

get-register_other :
    (id : ℕ) (path : Text) (peer : Option Text) (cancel now : ℕ) (m : ListenerMap)
    → id < m.next_id
    → get id (register path peer cancel now m).1.entries ≡ get id m.entries
unfolding get register
get-register_other id path peer cancel now m h =
    let other : (id == m.next_id) ≡ false = ground (arith, h) in
    rw other (get-remove_other id m.next_id m.entries (ground (arith, h)))

get-register_self :
    (path : Text) (peer : Option Text) (cancel now : ℕ) (m : ListenerMap)
    → suc m.next_id < 2 ^ 64
    → let joined = register path peer cancel now m in
      (e : ListenerEntry) × (get m.next_id joined.1.entries ≡ some e)
      × ((m.next_id < joined.1.next_id) × (joined.1.next_id ≡ suc m.next_id) × (e.cancel ≡ cancel))
unfolding get register
get-register_self path peer cancel now m h =
    let same : (m.next_id == m.next_id) ≡ true = ground arith in
    let entry : ListenerEntry = record {
      id = m.next_id;
      mount_path = path;
      peer_addr = peer;
      connected_at = now;
      cancel = cancel;
    } in
    (entry, rw same refl, (omega (arith, h), omega (arith, h), refl))

changes-get :
    (id : ℕ) (cs : List Change) (m : ListenerMap)
    → id < m.next_id
    → m.next_id + length cs < 2 ^ 64
    → Keeps id cs
    → get id (changes cs m).entries ≡ get id m.entries
unfolding register deregister
changes-get id [] m h k l = refl
changes-get id (joins path peer cancel now ∷ cs) m h k l =
    let m' = change (joins path peer cancel now) m in
    changes-get id cs m' (omega (arith, h, k)) (omega (arith, h, k)) l
    ∙ get-register_other id path peer cancel now m h
changes-get id (leaves other ∷ cs) m h k l =
    changes-get id cs (deregister other m) h (omega (arith, k)) l.1
    ∙ get-remove_other id other m.entries l.0

-- While fewer than 2^64 ids were given out, the id that `register` returns names that listener
-- whatever others join and leave: `kick` finds it and cancels its token and no other, and after it
-- leaves, `kick` finds nothing.
pub kick-register :
    (path : Text) (peer : Option Text) (cancel now : ℕ) (m : ListenerMap) (cs : List Change)
    → suc m.next_id + length cs < 2 ^ 64
    → Keeps m.next_id cs
    → let joined = register path peer cancel now m in
      let later = changes cs joined.1 in
      (kick joined.0 later ≡ (true, cancel ∷ []))
      × (kick joined.0 (deregister joined.0 later) ≡ (false, []))
unfolding kick deregister register
kick-register path peer cancel now m cs h k =
    let joined = register path peer cancel now m in
    let (e, own, mine) = get-register_self path peer cancel now m (omega (arith, h)) in
    let found = changes-get m.next_id cs joined.1 mine.0 (omega (arith, h, mine.1)) k ∙ own in
    (
      rw (kick, found) (ap (λ c. (true, c ∷ [])) mine.2),
      rw (kick, get-remove_same m.next_id (changes cs joined.1).entries) refl,
    )
