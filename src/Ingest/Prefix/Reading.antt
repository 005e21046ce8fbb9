-- ===== src/Ingest/Prefix/Reading.antt =====
-- crates/rustyice-ingest/src/icecast.rs: what the loops of `strip_mp3_prefix` make of the reads.
use rusty_ice.Prelude.{
  ℕ, zero, suc, ◌-◌, ◌≤◌, ◌<◌, ◌≡◌, ◌∙◌, refl, sym, ap, inl, inr, Option, none, some, List, [], ◌∷◌,
  ◌++◌, length, drop, leb, ltb, ◌==◌, arith, append_assoc, append-nil, drop-append_left, Bool-cases,
}
use rusty_ice.Ingest.Prefix.{
  ReadOutcome, bytes, stop, Collected, ready, ended, stopped, collect, skip, after_tag,
}

-- The bytes of a source that runs to its end.
abbrev pub stream : List ReadOutcome → List ℕ
stream [] = []
stream (stop ∷ reads) = []
stream (bytes bs ∷ reads) = bs ++ stream reads

abbrev pub IsSteady : List ReadOutcome → Type 0
IsSteady [] = Unit
IsSteady (stop ∷ reads) = ⊥
IsSteady (bytes bs ∷ reads) = IsSteady reads

abbrev pub Collects : ℕ → List ℕ → Collected → Type 0
Collects n all (ready head reads) =
    (all ≡ head ++ stream reads) × (n ≤ length head) × IsSteady reads
Collects n all (ended head) = (all ≡ head) × (length head < n)
Collects n all stopped = ⊥

pub collect-Collects :
    (n : ℕ) (head : List ℕ) (reads : List ReadOutcome)
    → IsSteady reads
    → Collects n (head ++ stream reads) (collect n head reads)
unfolding collect
collect-Collects n head [] s = elim (Bool-cases (ltb (length head) n)) [
  | inl short ↦ rw short (append-nil head, ground (arith, short))
  | inr enough ↦ rw enough (refl, ground (arith, enough), tt)
]
collect-Collects n head (stop ∷ reads) s = absurd s
collect-Collects n head (bytes bs ∷ reads) s = elim (Bool-cases (ltb (length head) n)) [
  | inl short ↦
      rw (short, sym (append_assoc head bs (stream reads)))
        (collect-Collects n (head ++ bs) reads s)
  | inr enough ↦ rw enough (refl, ground (arith, enough), s)
]

drop-append_right :
    (n : ℕ) (xs ys : List ℕ) → length xs ≤ n → drop n (xs ++ ys) ≡ drop (n - length xs) ys
drop-append_right n [] ys h = ap (λ k. drop k ys) {x = n} {y = n - 0} (omega arith)
drop-append_right zero (x ∷ xs) ys h = absurd (omega arith)
drop-append_right (suc n) (x ∷ xs) ys h =
    drop-append_right n xs ys (omega arith)
    ∙ ap (λ k. drop k ys) {x = n - length xs} {y = suc n - suc (length xs)} (omega arith)

abbrev pub Skips : List ℕ → Option (List ℕ × List ReadOutcome) → Type 0
Skips left none = left ≡ []
Skips left (some (pending, reads)) = (left ≡ pending ++ stream reads) × IsSteady reads

skip-Skips :
    (n : ℕ) (reads : List ReadOutcome)
    → IsSteady reads
    → Skips (drop n (stream reads)) (skip n reads)
unfolding skip
skip-Skips zero reads s = (refl, s)
skip-Skips (suc n) [] s = refl
skip-Skips (suc n) (stop ∷ reads) s = absurd s
skip-Skips (suc n) (bytes bs ∷ reads) s = elim (Bool-cases (leb (length bs) (suc n))) [
  | inl whole ↦
      rw (whole, drop-append_right (suc n) bs (stream reads) (ground (arith, whole)))
        (skip-Skips (suc n - length bs) reads s)
  | inr part ↦
      rw (part, drop-append_left (suc n) bs (stream reads) (ground (arith, part))) (refl, s)
]

pub after_tag-Skips :
    (n : ℕ) (head : List ℕ) (reads : List ReadOutcome)
    → IsSteady reads
    → Skips (drop n (head ++ stream reads)) (after_tag n head reads)
unfolding after_tag
after_tag-Skips n head reads s = elim (Bool-cases (n == 0)) [
  | inl untagged ↦
      let nothing : n ≡ 0 = ground (arith, untagged) in rw (untagged, nothing) (refl, s)
  | inr there ↦ elim (Bool-cases (leb n (length head))) [
    | inl within ↦
        rw (there, within, drop-append_left n head (stream reads) (ground (arith, within)))
          (refl, s)
    | inr beyond ↦
        rw (there, beyond, drop-append_right n head (stream reads) (ground (arith, beyond)))
          (skip-Skips (n - length head) reads s)
  ]
]
