-- ===== src/Server/ConfigReload/Outcome.antt =====
-- crates/rustyice-server/src/config_reload.rs: what the diff of a kind of task leaves at one path, and
-- that the tasks that run are then those of the configuration.
use rusty_ice.Prelude.{
  ◌≡◌, refl, sym, inl, inr, true, false, Option, none, some, List, [], ◌∷◌, arith, Dict, lookup,
  bytes_eq, bytes_eq_iff, Bool-cases, Option-cases, if◌then◌else◌,
}
use rusty_ice.Core.Mount.{Text}
use rusty_ice.Core.Config.{LimitsConfig, contains}
use rusty_ice.Core.Config.Paths.{Distinct}
use rusty_ice.Core.Mount.Registry.{Mount}
use rusty_ice.Server.ConfigReload.Registry.{Entry, Stage}
use rusty_ice.Server.ConfigReload.Diff.{
  TaskKind, find, paths, needs_respawn, remove_gone, apply_entry, apply_entries, diff,
}
use rusty_ice.Server.ConfigReload.Follow.{
  cfg_at, absent-find, cfg_at-remove_gone, mounts-remove_gone, or_fresh, refreshed, cfg_after,
  mount_after, cfg_at-apply_entry, mounts-apply_entry,
}

module _ {C : Type 0} (k : TaskKind C) where
  unfoldable pub cfg_outcome : List C → Option C → Option C → Option C
  cfg_outcome olds none old = old
  cfg_outcome olds (some c) old = cfg_after k olds c old

  unfoldable pub mount_outcome : LimitsConfig → List C → Option C → Option Mount → Option Mount
  mount_outcome limits olds none old = old
  mount_outcome limits olds (some c) old = mount_after k limits olds c old

  -- The loop goes on past an entry only where it did not panic.
  halted-apply_entries :
      (limits : LimitsConfig) (olds : List C) (c : C) (cs : List C) (st : Stage C)
      → (apply_entries k limits olds (c ∷ cs) st).halted ≡ false
      → ((apply_entry k limits olds c st).halted ≡ false)
        × ((apply_entries k limits olds cs (apply_entry k limits olds c st)).halted ≡ false)
  unfolding apply_entries
  halted-apply_entries limits olds c cs st on = (ground (arith, on), ground (arith, on))

  cfg_at-apply_entries :
      (p : Text) (limits : LimitsConfig) (olds cs : List C) (st : Stage C)
      → Distinct (paths k cs)
      → (apply_entries k limits olds cs st).halted ≡ false
      → cfg_at p (apply_entries k limits olds cs st).running
        ≡ cfg_outcome olds (find k p cs) (cfg_at p st.running)
  unfolding apply_entries find paths cfg_outcome
  cfg_at-apply_entries p limits olds [] st h on = refl
  cfg_at-apply_entries p limits olds (c ∷ cs) st (fresh, h) on =
      let (now, later) = halted-apply_entries limits olds c cs st on in
      let rest = cfg_at-apply_entries p limits olds cs (apply_entry k limits olds c st) h later in
      let here = cfg_at-apply_entry k p limits olds c st now in
      elim (Bool-cases (bytes_eq p (k.mount c))) [
        | inl same ↦
            let gone = absent-find k p cs (rw ((bytes_eq_iff p (k.mount c)).0 same) fresh) in
            ground (arith, now, same, rest, here, gone)
        | inr other ↦ ground (arith, now, other, rest, here)
      ]

  mounts-apply_entries :
      (p : Text) (limits : LimitsConfig) (olds cs : List C) (st : Stage C)
      → Distinct (paths k cs)
      → (apply_entries k limits olds cs st).halted ≡ false
      → lookup p (apply_entries k limits olds cs st).mounts
        ≡ mount_outcome limits olds (find k p cs) (lookup p st.mounts)
  unfolding apply_entries find paths mount_outcome
  mounts-apply_entries p limits olds [] st h on = refl
  mounts-apply_entries p limits olds (c ∷ cs) st (fresh, h) on =
      let (now, later) = halted-apply_entries limits olds c cs st on in
      let rest = mounts-apply_entries p limits olds cs (apply_entry k limits olds c st) h later in
      let here = mounts-apply_entry k p limits olds c st now in
      elim (Bool-cases (bytes_eq p (k.mount c))) [
        | inl same ↦
            let gone = absent-find k p cs (rw ((bytes_eq_iff p (k.mount c)).0 same) fresh) in
            ground (arith, now, same, rest, here, gone)
        | inr other ↦ ground (arith, now, other, rest, here)
      ]

  pub contains-find :
      (p : Text) (cs : List C)
      → (elim (find k p cs) [ none ↦ false | some _ ↦ true ]) ≡ contains p (paths k cs)
  unfolding find contains paths
  contains-find p [] = refl
  contains-find p (c ∷ cs) = ground (arith, contains-find p cs)

  find-mount : (p : Text) (cs : List C) (c : C) → find k p cs ≡ some c → k.mount c ≡ p
  unfolding find
  find-mount p [] c h = cc
  find-mount p (d ∷ cs) c h = elim (Bool-cases (bytes_eq p (k.mount d))) [
    | inl same ↦ ground (arith, same, h, bytes_eq_iff p (k.mount d))
    | inr other ↦ find-mount p cs c (ground (arith, other, h))
  ]

  -- What the diff makes of the running configuration and of the mount at a path, from the old and the
  -- new entry of that path.
  unfoldable pub cfg_next : Option C → Option C → Option C → Option C
  cfg_next none none running = running
  cfg_next (some o) none running = none
  cfg_next none (some c) running = if k.enabled c then some c else running
  cfg_next (some o) (some c) running =
      if k.differs o c then (if k.enabled c then some c else none) else running

  unfoldable pub mount_next : LimitsConfig → Option C → Option C → Option Mount → Option Mount
  mount_next limits none none m = m
  mount_next limits (some o) none m = none
  mount_next limits none (some c) m =
      if k.enabled c then some (or_fresh k limits c m) else refreshed k c m
  mount_next limits (some o) (some c) m =
      if k.differs o c then some (or_fresh k limits c m) else refreshed k c m

  pub cfg_at-diff :
      (p : Text) (limits : LimitsConfig) (olds news : List C) (st : Stage C)
      → Distinct (paths k news)
      → (diff k limits olds news st).halted ≡ false
      → cfg_at p (diff k limits olds news st).running
        ≡ cfg_next (find k p olds) (find k p news) (cfg_at p st.running)
  unfolding diff cfg_next cfg_outcome cfg_after needs_respawn
  cfg_at-diff p limits olds news st h on =
      let start = remove_gone k (paths k news) olds st in
      let after = cfg_at-apply_entries p limits olds news start h on in
      let before = cfg_at-remove_gone k p (paths k news) olds st in
      let was = contains-find p olds in
      let is = contains-find p news in
      elim (Option-cases (find k p news)) [
        | inl f ↦ elim (Option-cases (find k p olds)) [
          | inl e ↦ ground (arith, e, f, after, before, was, is)
          | inr (o, e) ↦ ground (arith, e, f, after, before, was, is)
        ]
        | inr (c, f) ↦
            let at_p = find-mount p news c f in
            elim (Option-cases (find k p olds)) [
              | inl e ↦ ground (arith, e, f, after, before, was, is, at_p)
              | inr (o, e) ↦ ground (arith, e, f, after, before, was, is, at_p)
            ]
      ]

  pub mounts-diff :
      (p : Text) (limits : LimitsConfig) (olds news : List C) (st : Stage C)
      → Distinct (paths k news)
      → (diff k limits olds news st).halted ≡ false
      → lookup p (diff k limits olds news st).mounts
        ≡ mount_next limits (find k p olds) (find k p news) (lookup p st.mounts)
  unfolding diff mount_next mount_outcome mount_after needs_respawn
  mounts-diff p limits olds news st h on =
      let start = remove_gone k (paths k news) olds st in
      let after = mounts-apply_entries p limits olds news start h on in
      let before = mounts-remove_gone k p (paths k news) olds st in
      let was = contains-find p olds in
      let is = contains-find p news in
      elim (Option-cases (find k p news)) [
        | inl f ↦ elim (Option-cases (find k p olds)) [
          | inl e ↦ ground (arith, e, f, after, before, was, is)
          | inr (o, e) ↦ ground (arith, e, f, after, before, was, is)
        ]
        | inr (c, f) ↦
            let at_p = find-mount p news c f in
            elim (Option-cases (find k p olds)) [
              | inl e ↦ ground (arith, e, f, after, before, was, is, at_p)
              | inr (o, e) ↦ ground (arith, e, f, after, before, was, is, at_p)
            ]
      ]

  -- The task of a configured entry runs exactly when the entry is enabled, with a configuration that
  -- is the entry's in all that a respawn is for; without an entry no task runs.
  abbrev pub IsMatch : Option C → Option C → Type 0
  IsMatch none none = Unit
  IsMatch none (some _) = ⊥
  IsMatch (some c) none = k.enabled c ≡ false
  IsMatch (some c) (some r) = (k.enabled c ≡ true) × (k.differs r c ≡ false)

  abbrev pub Matches : List C → Dict (Entry C) → Type 0
  Matches cs running = (p : Text) → IsMatch (find k p cs) (cfg_at p running)

-- What `needs_respawn` compares is an equivalence that the enabled flag belongs to.
pub record DiffersLaws {C : Type 0} (k : TaskKind C) : Type 0 where
  pub differs_refl : (c : C) → k.differs c c ≡ false
  pub differs_trans :
      (a b c : C) → k.differs a b ≡ false → k.differs b c ≡ false → k.differs a c ≡ false
  pub differs-enabled : (a b : C) → k.differs a b ≡ false → k.enabled a ≡ k.enabled b

module _ {C : Type 0} (k : TaskKind C) (laws : DiffersLaws k) where
  fresh-IsMatch : (c : C) → IsMatch k (some c) (if k.enabled c then some c else none)
  fresh-IsMatch c = elim (Bool-cases (k.enabled c)) [
    | inl on ↦ rw on (on, laws.differs_refl c)
    | inr off ↦ rw off off
  ]

  cfg_next-IsMatch :
      (old new_ running : Option C)
      → IsMatch k old running
      → IsMatch k new_ (cfg_next k old new_ running)
  unfolding cfg_next
  cfg_next-IsMatch none none none h = tt
  cfg_next-IsMatch none none (some r) h = h
  cfg_next-IsMatch (some o) none running h = tt
  cfg_next-IsMatch none (some c) none h = fresh-IsMatch c
  cfg_next-IsMatch none (some c) (some r) h = absurd h
  cfg_next-IsMatch (some o) (some c) none h = elim (Bool-cases (k.differs o c)) [
    | inl new_ ↦ rw new_ (fresh-IsMatch c)
    | inr same ↦ rw same (rw (sym (laws.differs-enabled o c same)) h)
  ]
  cfg_next-IsMatch (some o) (some c) (some r) (on, near) = elim (Bool-cases (k.differs o c)) [
    | inl new_ ↦ rw new_ (fresh-IsMatch c)
    | inr same ↦
        rw same (rw (sym (laws.differs-enabled o c same)) on, laws.differs_trans r o c near same)
  ]

  pub diff-Matches :
      (limits : LimitsConfig) (olds news : List C) (st : Stage C)
      → Distinct (paths k news)
      → (diff k limits olds news st).halted ≡ false
      → Matches k olds st.running
      → Matches k news (diff k limits olds news st).running
  diff-Matches limits olds news st h on was p =
      rw (cfg_at-diff k p limits olds news st h on)
        (cfg_next-IsMatch (find k p olds) (find k p news) (cfg_at p st.running) (was p))
