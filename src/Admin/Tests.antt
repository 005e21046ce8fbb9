-- ===== src/Admin/Tests.antt =====
-- Runs of the admin definitions, and each result of the admin modules at a concrete input.
use rusty_ice.Prelude.{List, true, false, arith, ◌≡◌, some, none, [], ◌∷◌, ascii}
use rusty_ice.Admin.Sessions.{SessionStore, create}
use rusty_ice.Admin.Sessions.Expiry.{touch_all, served, touch_all-create}
use rusty_ice.Admin.Listeners.{ListenerMap, register, deregister, kick}
use rusty_ice.Admin.Listeners.Lookup.{Change, joins, leaves, changes, kick-register}

abbrev empty : SessionStore
empty = record { sessions = []; ttl = 10 }

-- Used at 5 and 14, then too late at 25, and never again.
touch_all-create_example :
    touch_all (ascii "t") (5 ∷ 14 ∷ 25 ∷ 26 ∷ []) (create (ascii "admin") (ascii "t") 0 empty)
    ≡ some (ascii "admin") ∷ some (ascii "admin") ∷ none ∷ none ∷ []
unfolding served
touch_all-create_example =
    touch_all-create (ascii "admin") (ascii "t") 0 (5 ∷ 14 ∷ 25 ∷ 26 ∷ []) empty

-- The map of a server that has seen seven listeners leave, and two changes behind the next one.
abbrev seven_gone : ListenerMap
seven_gone = record { entries = []; next_id = 7 }

abbrev others : List Change
others = joins (ascii "/live") none 31 1 ∷ leaves 8 ∷ []

kick-register_example :
    let joined = register (ascii "/live") none 30 0 seven_gone in
    let later = changes others joined.1 in
    (kick joined.0 later ≡ (true, 30 ∷ []))
    × (kick joined.0 (deregister joined.0 later) ≡ (false, []))
kick-register_example =
    kick-register (ascii "/live") none 30 0 seven_gone others (omega arith) ((λ e. omega arith), tt)
