-- ===== src/Server/Relay/Backoff.antt =====
-- crates/rustyice-server/src/relay/backoff.rs: the delays between reconnects, in seconds.
use native.Mathlib.Nat.{pow-suc}
use rusty_ice.Prelude.{ℕ, zero, suc, ◌*◌, ◌^◌, ◌≡◌, refl, min, arith}

pub record Backoff : Type 0 where
  pub current : ℕ
  pub max : ℕ

unfoldable pub new : Backoff
new = record { current = 1; max = 30 }

-- The delay returned, and the backoff that is left.
unfoldable pub next_delay : Backoff → ℕ × Backoff
next_delay b = (b.current, record b { current = min (b.current * 2) b.max })

unfoldable pub reset : Backoff → Backoff
reset b = record b { current = 1 }

-- The backoff after some failed attempts in a row.
unfoldable pub after_failures : ℕ → Backoff → Backoff
after_failures zero b = b
after_failures (suc n) b = (next_delay (after_failures n b)).1

current-after_failures :
    (n : ℕ) (b : Backoff)
    → b.current ≡ 1
    → b.max ≡ 30
    → ((after_failures n b).current ≡ min (2 ^ n) 30) × ((after_failures n b).max ≡ 30)
unfolding after_failures next_delay
current-after_failures zero b h k = (h, k)
current-after_failures (suc n) b h k =
    let (c, m) = current-after_failures n b h k in (omega (arith, c, m, pow-suc 2 n), m)

-- After a reset, whatever came before, the delay that follows `n` failures in a row is 2^n seconds,
-- and never more than the 30 of a new backoff.
pub next_delay-after_failures :
    (b : Backoff) (n : ℕ)
    → b.max ≡ new.max
    → (next_delay (after_failures n (reset b))).0 ≡ min (2 ^ n) 30
unfolding next_delay reset new
next_delay-after_failures b n h = (current-after_failures n (reset b) refl h).0
