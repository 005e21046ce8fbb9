-- ===== src/Server/Relay/Paced.antt =====
-- crates/rustyice-server/src/relay/mod.rs: how fast a relay reconnects.
use native.Mathlib.Nat.{pow-suc}
use rusty_ice.Prelude.{
  ℕ, suc, ◌^◌, ◌≡◌, inl, inr, refl, min, arith, true, false, ◌&&◌, Option, none, some, List, [],
  ◌∷◌, Bool-cases,
}
use rusty_ice.Server.Relay.Backoff.{Backoff, new, next_delay, reset}
use rusty_ice.Server.Relay.Run.{
  RunOutcome, ok, failed, run_cancelled, run_once, Round, waits_for, Act, was_cancelled, pulled,
  conclude, iterate, followed_by, run,
}

-- With `n` failures since the last stream that ended well, the next delay is 2^n seconds and 30 at
-- most; after a stream that ended well it is one second; cancellations leave the count alone.
abbrev pub IsPaced : ℕ → List Act → Type 0
IsPaced n [] = Unit
IsPaced n (was_cancelled ∷ acts) = IsPaced n acts
IsPaced n (pulled false delay ∷ acts) = (delay ≡ min (2 ^ n) 30) × IsPaced (suc n) acts
IsPaced n (pulled true delay ∷ acts) = (delay ≡ 1) × IsPaced 1 acts

-- The backoff after `n` failures.
abbrev HasFailed : ℕ → Backoff → Type 0
HasFailed n b = (b.current ≡ min (2 ^ n) 30) × (b.max ≡ 30)

next_delay-HasFailed : (n : ℕ) (b : Backoff) → HasFailed n b → HasFailed (suc n) (next_delay b).1
unfolding next_delay
next_delay-HasFailed n b (c, m) = (omega (arith, c, m, pow-suc 2 n), m)

delay_reset : (b : Backoff) → (next_delay (reset b)).0 ≡ 1
unfolding next_delay reset
delay_reset b = refl

delay_after : (n : ℕ) (b : Backoff) → HasFailed n b → (next_delay b).0 ≡ min (2 ^ n) 30
unfolding next_delay
delay_after n b h = h.0

reset-HasFailed : (n : ℕ) (b : Backoff) → HasFailed n b → HasFailed 0 (reset b)
unfolding reset
reset-HasFailed n b (c, m) = (omega arith, m)

-- What an iteration does is paced, and so is what follows from the backoff that it leaves.
Continues : ℕ → List Act × Option Backoff → Type 0
Continues n (acts, none) = IsPaced n acts
Continues n (acts, some b) =
    (k : ℕ) × HasFailed k b
    × ((more : List Act) → IsPaced k more → IsPaced n (followed_by (some more) acts))

conclude-Continues :
    (n : ℕ) (r : Round) (b : Backoff) (o : RunOutcome)
    → HasFailed n b
    → Continues n (conclude r b o)
unfolding Continues conclude followed_by
conclude-Continues n r b run_cancelled h = elim (Bool-cases r.is_shut_ending) [
  | inl shut ↦ rw shut tt
  | inr on ↦ elim (Bool-cases (r.is_preempted && r.is_shut_resting)) [
    | inl parked ↦ rw (on, parked) tt
    | inr resumed ↦ rw (on, resumed) (n, h, λ more m. m)
  ]
]
conclude-Continues n r b ok h = elim (Bool-cases r.is_shut_resting) [
  | inl shut ↦ rw shut (delay_reset b, tt)
  | inr on ↦
      rw on
        (1, next_delay-HasFailed 0 (reset b) (reset-HasFailed n b h), λ more m. (delay_reset b, m))
]
conclude-Continues n r b failed h = elim (Bool-cases r.is_shut_resting) [
  | inl shut ↦ rw shut (delay_after n b h, tt)
  | inr on ↦ rw on (suc n, next_delay-HasFailed n b h, λ more m. (delay_after n b h, m))
]

iterate-Continues : (n : ℕ) (r : Round) (b : Backoff) → HasFailed n b → Continues n (iterate r b)
unfolding Continues iterate followed_by conclude
iterate-Continues n r b h = elim (Bool-cases r.is_shut) [
  | inl shut ↦ rw shut tt
  | inr on ↦ elim (Bool-cases (waits_for r.holder && r.is_shut_waiting)) [
    | inl shut ↦ rw (on, shut) tt
    | inr waited ↦ elim (Bool-cases r.is_claimed) [
      | inl claimed ↦
          rw (on, waited, claimed) (conclude-Continues n r b (run_once r.connection r.ingested) h)
      | inr lost ↦ rw (on, waited, lost) (n, h, λ more m. m)
    ]
  ]
]

-- What an iteration that continues does, and what follows it.
follow :
    (n : ℕ) (step : List Act × Option Backoff) (more : Backoff → List Act)
    → Continues n step
    → ((k : ℕ) (b : Backoff) → HasFailed k b → IsPaced k (more b))
    → IsPaced n (elim step.1 [ none ↦ step.0 | some b ↦ followed_by (some (more b)) step.0 ])
unfolding Continues
follow n (acts, none) more c next = c
follow n (acts, some b) more (k, h, c) next = c (more b) (next k b h)

run-HasFailed :
    (n : ℕ) (b : Backoff) (rounds : List Round) → HasFailed n b → IsPaced n (run b rounds)
unfolding run
run-HasFailed n b [] h = tt
run-HasFailed n b (r ∷ rs) h =
    follow n (iterate r b) (λ b'. run b' rs) (iterate-Continues n r b h)
      (λ k b' h'. run-HasFailed k b' rs h')

-- Whatever its upstream, its mount and the operators do, a relay waits 2^n seconds, and 30 at most, after
-- an attempt that failed, connected or not, behind `n` others since the last stream that ended well or
-- the start, and one second after a stream that ended well; attempts that were cancelled do not count.
pub run-IsPaced : (rounds : List Round) → IsPaced 0 (run new rounds)
unfolding new
run-IsPaced rounds = run-HasFailed 0 new rounds (omega arith, refl)
