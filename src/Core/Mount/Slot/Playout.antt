-- ===== src/Core/Mount/Slot/Playout.antt =====
-- crates/rustyice-autodj/src/player.rs and crates/rustyice-server/src/relay/mod.rs: AutoDJ and relay
-- tasks among themselves, where no live source comes in between.
use rusty_ice.Prelude.{
  ℕ, ◌+◌, ◌≡◌, refl, Bool, true, false, none, some, List, [], ◌∷◌, ◌++◌, All, arith,
}
use rusty_ice.Core.Mount.{SourceKind, ActiveMount, MountInfo, new}
use rusty_ice.Core.Mount.Slot.{
  Task, outside, won, kind_stored, time_stored, claimed, playing, gave_up, panicked, token_cleared,
  time_cleared, overlay_cleared, header_cleared, kind_cleared, live_released, live_token_cleared,
  live_time_cleared, live_overlay_cleared, IsPlayout, Step, Reachable, start, next, kinds_outside,
}
use rusty_ice.Core.Mount.Slot.Exclusive.{
  holds, holders, marked, holders-append, marked_bound, Reachable-holders,
}

-- Nothing is left of a former source.
pub record IsClear (m : ActiveMount) : Type 0 where
  pub cancel : m.source_cancel ≡ none
  pub time : m.connected_at ≡ none
  pub overlay : m.source_overlay ≡ none
  pub header : m.header_bytes ≡ none
  pub kind : m.source_kind ≡ SourceKind.unowned

abbrev pub IsPlayoutTask : Task → Type 0
IsPlayoutTask (outside k) = IsPlayout k
IsPlayoutTask (won k) = IsPlayout k
IsPlayoutTask (kind_stored k) = IsPlayout k
IsPlayoutTask (time_stored k) = IsPlayout k
IsPlayoutTask (claimed k) = IsPlayout k
IsPlayoutTask (playing k _) = IsPlayout k
IsPlayoutTask (gave_up k) = IsPlayout k
IsPlayoutTask (panicked k) = IsPlayout k
IsPlayoutTask (token_cleared k) = IsPlayout k
IsPlayoutTask (time_cleared k) = IsPlayout k
IsPlayoutTask (overlay_cleared k) = IsPlayout k
IsPlayoutTask (header_cleared k) = IsPlayout k
IsPlayoutTask (kind_cleared k) = IsPlayout k
IsPlayoutTask _ = ⊥

-- What the mount shows of a task: the owner's kind and token while it holds them, and what it has
-- cleared on its way out. No task finds its token missing.
abbrev pub Agrees : ActiveMount → Task → Type 0
Agrees m (kind_stored k) = m.source_kind ≡ k
Agrees m (time_stored k) = m.source_kind ≡ k
Agrees m (claimed k) = (m.source_kind ≡ k) × (token : ℕ) × (m.source_cancel ≡ some token)
Agrees m (playing k token) = (m.source_kind ≡ k) × (m.source_cancel ≡ some token)
Agrees m (gave_up k) = ⊥
Agrees m (panicked k) = ⊥
Agrees m (token_cleared k) = m.source_cancel ≡ none
Agrees m (time_cleared k) = (m.source_cancel ≡ none) × (m.connected_at ≡ none)
Agrees m (overlay_cleared k) =
    (m.source_cancel ≡ none) × (m.connected_at ≡ none) × (m.source_overlay ≡ none)
Agrees m (header_cleared k) =
    (m.source_cancel ≡ none)
    × (m.connected_at ≡ none)
    × (m.source_overlay ≡ none)
    × (m.header_bytes ≡ none)
Agrees m (kind_cleared k) = IsClear m
Agrees m _ = Unit

pub record InOrder (m : ActiveMount) (ts : List Task) : Type 0 where
  pub agree : All (Agrees m) ts
  pub clear : holders ts ≡ 0 → IsClear m

Step-IsPlayoutTask :
    (t t' : Task) (m m' : ActiveMount) → Step t m t' m' → IsPlayoutTask t' → IsPlayoutTask t
Step-IsPlayoutTask t t' m m' (Step.win _ _ _ _) h = h
Step-IsPlayoutTask t t' m m' s h = h

-- The request to park touches nothing that a task relies on.
asked-IsClear :
    (m : ActiveMount) (b : Bool) → IsClear m → IsClear (record m { preempt_pending = b })
asked-IsClear m b c = record {
  cancel = c.cancel;
  time = c.time;
  overlay = c.overlay;
  header = c.header;
  kind = c.kind;
}

asked-Agrees :
    (m : ActiveMount) (b : Bool) (t : Task)
    → Agrees m t
    → Agrees (record m { preempt_pending = b }) t
asked-Agrees m b (kind_cleared k) h = asked-IsClear m b h
asked-Agrees m b t h = h

Step-Agrees :
    (t t' : Task) (m m' : ActiveMount)
    → IsPlayoutTask t
    → Step t m t' m'
    → Agrees m t
    → Agrees m' t'
Step-Agrees t t' m m' p (Step.win k _ _ _) h = tt
Step-Agrees t t' m m' p (Step.lose k _ _) h = tt
Step-Agrees t t' m m' p (Step.store_kind k _) h = refl
Step-Agrees t t' m m' p (Step.store_time k _ now) h = h
Step-Agrees t t' m m' p (Step.store_token k _ token) h = (h, token, refl)
Step-Agrees t t' m m' p (Step.read_token k _ token e) h = (h.0, e)
Step-Agrees t t' m m' p (Step.miss_token _ e) h = let held = h.2 in absurd cc
Step-Agrees t t' m m' p (Step.give_up _ e) h = let held = h.2 in absurd cc
Step-Agrees t t' m m' p (Step.clear_no_token k _) h = absurd h
Step-Agrees t t' m m' p (Step.capture k _ token bytes) h = h
Step-Agrees t t' m m' p (Step.clear_token k _ token) h = refl
Step-Agrees t t' m m' p (Step.clear_time k _) h = (h, refl)
Step-Agrees t t' m m' p (Step.clear_overlay k _) h = (h.0, h.1, refl)
Step-Agrees t t' m m' p (Step.clear_header k _) h = (h.0, h.1, h.2, refl)
Step-Agrees t t' m m' p (Step.clear_kind k _) h = record {
  cancel = h.0;
  time = h.1;
  overlay = h.2;
  header = h.3;
  kind = refl;
}
Step-Agrees t t' m m' p (Step.release k _) h = tt
Step-Agrees t t' m m' p (Step.ask _ _) h = asked-Agrees m true t h
Step-Agrees t t' m m' p (Step.take_back k _) h = tt
Step-Agrees t t' m m' p s h = absurd p

-- Tasks that do not hold the slot rely on nothing.
idle_task : (m : ActiveMount) (t : Task) → IsPlayoutTask t → holds t ≡ 0 → Agrees m t
idle_task m (outside k) p h = tt
idle_task m live_released p h = absurd p
idle_task m live_token_cleared p h = absurd p
idle_task m live_time_cleared p h = absurd p
idle_task m live_overlay_cleared p h = absurd p
idle_task m t p h = absurd (omega (arith, h))

idle-Agrees :
    (m : ActiveMount) (ts : List Task) → All IsPlayoutTask ts → holders ts ≡ 0 → All (Agrees m) ts
idle-Agrees m [] p h = tt
idle-Agrees m (t ∷ ts) p h =
    (idle_task m t p.0 (omega (arith, h)), idle-Agrees m ts p.1 (omega (arith, h)))

asked-All :
    (m : ActiveMount) (b : Bool) (ts : List Task)
    → All (Agrees m) ts
    → All (Agrees (record m { preempt_pending = b })) ts
asked-All m b [] h = tt
asked-All m b (t ∷ ts) h = (asked-Agrees m b t h.0, asked-All m b ts h.1)

-- A step of one task leaves the others as they were, since a task that changes what they rely on
-- holds the slot, or takes it while none does.
Step-others :
    (t t' : Task) (m m' : ActiveMount) (ts : List Task)
    → IsPlayoutTask t
    → All IsPlayoutTask ts
    → holders ts + holds t ≡ marked m
    → All (Agrees m) ts
    → Step t m t' m'
    → All (Agrees m') ts
Step-others t t' m m' ts q p c h (Step.lose k _ _) = h
Step-others t t' m m' ts q p c h (Step.ask _ _) = asked-All m true ts h
Step-others t t' m m' ts q p c h (Step.take_back k _) = asked-All m false ts h
Step-others t t' m m' ts q p c h (Step.win k _ _ e) =
    let free : marked m ≡ 0 = rw e refl in idle-Agrees _ ts p (omega (arith, c, free))
Step-others t t' m m' ts q p c h (Step.live_win _ _) = absurd q
Step-others t t' m m' ts q p c h (Step.live_clear_token _) = absurd q
Step-others t t' m m' ts q p c h (Step.live_clear_time _) = absurd q
Step-others t t' m m' ts q p c h (Step.live_clear_overlay _) = absurd q
Step-others t t' m m' ts q p c h (Step.live_clear_header _) = absurd q
Step-others t t' m m' ts q p c h s = idle-Agrees _ ts p (omega (arith, c, marked_bound m))

-- The slot that nobody holds is clear.
Step-IsClear :
    (t t' : Task) (m m' : ActiveMount) (others : ℕ)
    → IsPlayoutTask t
    → Agrees m t
    → (others + holds t ≡ 0 → IsClear m)
    → Step t m t' m'
    → others + holds t' ≡ 0
    → IsClear m'
Step-IsClear t t' m m' others q h c (Step.lose k _ _) z = c z
Step-IsClear t t' m m' others q h c (Step.ask _ _) z = asked-IsClear m true (c z)
Step-IsClear t t' m m' others q h c (Step.take_back k _) z = asked-IsClear m false (c z)
Step-IsClear t t' m m' others q h c (Step.release k _) z = record {
  cancel = h.cancel;
  time = h.time;
  overlay = h.overlay;
  header = h.header;
  kind = h.kind;
}
Step-IsClear t t' m m' others q h c (Step.live_release _) z = absurd q
Step-IsClear t t' m m' others q h c (Step.live_clear_token _) z = absurd q
Step-IsClear t t' m m' others q h c (Step.live_clear_time _) z = absurd q
Step-IsClear t t' m m' others q h c (Step.live_clear_overlay _) z = absurd q
Step-IsClear t t' m m' others q h c (Step.live_clear_header _) z = absurd q
Step-IsClear t t' m m' others q h c s z = absurd (omega (arith, z))

-- One task of many.
module _ (P : Task → Type 0) where
  others_of : (ts us : List Task) (t : Task) → All P (ts ++ (t ∷ us)) → P t × All P (ts ++ us)
  others_of [] us t h = h
  others_of (x ∷ ts) us t h = let (a, b) = others_of ts us t h.1 in (a, (h.0, b))

  among : (ts us : List Task) (t : Task) → P t → All P (ts ++ us) → All P (ts ++ (t ∷ us))
  among [] us t a h = (a, h)
  among (x ∷ ts) us t a h = (h.0, among ts us t a h.1)

holders_among :
    (ts us : List Task) (t : Task) → holders (ts ++ (t ∷ us)) ≡ holders (ts ++ us) + holds t
holders_among ts us t = omega (arith, holders-append ts (t ∷ us), holders-append ts us)

outside-Agrees : (m : ActiveMount) (ks : List SourceKind) → All (Agrees m) (kinds_outside ks)
outside-Agrees m [] = tt
outside-Agrees m (k ∷ ks) = (tt, outside-Agrees m ks)

-- In every state that AutoDJ and relay tasks reach among themselves, whatever their number and the
-- interleaving of their steps, the owner that plays finds its kind and its own token in the mount, no
-- task finds the token missing where it expects it, and a slot that nobody holds has no token, start
-- time, overlay, headers or kind left over.
pub Reachable-InOrder :
    (info : MountInfo) (m : ActiveMount) (ts : List Task)
    → Reachable info m ts
    → All IsPlayoutTask ts
    → InOrder m ts
unfolding new
Reachable-InOrder info m ts (start ks) p = record {
  agree = outside-Agrees (new info) ks;
  clear = λ _. record { cancel = refl; time = refl; overlay = refl; header = refl; kind = refl };
}
Reachable-InOrder info m ts (next m0 _ before after t t' r s) p =
    let (q', ps) = others_of IsPlayoutTask before after t' p in
    let q = Step-IsPlayoutTask t t' m0 m s q' in
    let inner = Reachable-InOrder info m0 _ r (among IsPlayoutTask before after t q ps) in
    let (h, hs) = others_of (Agrees m0) before after t inner.agree in
    let count = Reachable-holders info m0 _ r in
    let sum = holders_among before after t in
    let sum' = holders_among before after t' in
    record {
      agree =
          among (Agrees m) before after t' (Step-Agrees t t' m0 m q s h)
            (Step-others t t' m0 m (before ++ after) q ps (omega (arith, count, sum)) hs s);
      clear = λ z.
          Step-IsClear t t' m0 m (holders (before ++ after)) q h
            (λ y. inner.clear (omega (arith, sum, y))) s (omega (arith, sum', z));
    }
