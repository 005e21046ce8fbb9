-- ===== src/Core/Mount/Slot/Exclusive.antt =====
-- The source slot has one holder at a time, whatever the interleaving.
use rusty_ice.Prelude.{ℕ, ◌+◌, ◌≤◌, ◌≡◌, refl, List, [], ◌∷◌, ◌++◌, arith, if◌then◌else◌}
use rusty_ice.Core.Mount.{SourceKind, ActiveMount, MountInfo, new}
use rusty_ice.Core.Mount.Slot.{
  Task, outside, live_released, live_token_cleared, live_time_cleared, live_overlay_cleared, Step,
  Reachable, start, next, kinds_outside,
}

-- 1 for a task between the store that won the slot and the store that gives it up.
abbrev pub holds : Task → ℕ
holds (outside k) = 0
holds live_released = 0
holds live_token_cleared = 0
holds live_time_cleared = 0
holds live_overlay_cleared = 0
holds _ = 1

abbrev pub holders : List Task → ℕ
holders [] = 0
holders (t ∷ ts) = holds t + holders ts

abbrev pub marked : ActiveMount → ℕ
marked m = if m.source_connected then 1 else 0

pub holders-append : (ts us : List Task) → holders (ts ++ us) ≡ holders ts + holders us
holders-append [] us = omega arith
holders-append (t ∷ ts) us = omega (arith, holders-append ts us)

pub marked_bound : (m : ActiveMount) → marked m ≤ 1
marked_bound m = ground arith

Step-holds :
    (t t' : Task) (m m' : ActiveMount)
    → holds t ≤ marked m
    → Step t m t' m'
    → holds t' + marked m ≡ holds t + marked m'
Step-holds t t' m m' h (Step.win k _ p e) = rw e (omega arith)
Step-holds t t' m m' h (Step.live_win _ e) = rw e (omega arith)
Step-holds t t' m m' h (Step.release k _) = omega (arith, h, marked_bound m)
Step-holds t t' m m' h (Step.live_release _) = omega (arith, h, marked_bound m)
Step-holds t t' m m' h s = omega arith

none_hold : (ks : List SourceKind) → holders (kinds_outside ks) ≡ 0
none_hold [] = refl
none_hold (k ∷ ks) = omega (arith, none_hold ks)

-- In every reachable state the mount is marked as connected exactly when one task holds its slot, and
-- two never do: for any number of AutoDJ, relay and live tasks and any interleaving of their steps.
pub Reachable-holders :
    (info : MountInfo) (m : ActiveMount) (ts : List Task)
    → Reachable info m ts
    → holders ts ≡ marked m
unfolding new
Reachable-holders info m ts (start ks) = none_hold ks
Reachable-holders info m ts (next m0 m' before after t t' r s) =
    let earlier = Reachable-holders info m0 (before ++ (t ∷ after)) r in
    let cut = holders-append before (t ∷ after) in
    let cut' = holders-append before (t' ∷ after) in
    let moved = Step-holds t t' m0 m (omega (arith, earlier, cut)) s in
    omega (arith, earlier, cut, cut', moved)
