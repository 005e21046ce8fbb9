-- ===== src/Prelude/Maps.antt =====
-- `HashMap<String, V>` as a list with one entry for each key; keys are texts, lists of bytes.
use Prim.Native.Nat.{ℕ}
use mathlib.Core.Path.{◌≡◌, refl}
use mathlib.Core.Logic.{◌↔◌}
use mathlib.Core.Bool.{true}
use mathlib.Core.Option.{Option, none, some}
use mathlib.Core.List.{List, [], ◌∷◌}
use native.Mathlib.Omega.{arith}
use rusty_ice.Prelude.Tests.{if◌then◌else◌}
use rusty_ice.Prelude.Words.{bytes_eq, bytes_eq_refl}

pub bytes_eq_eq : (xs ys : List ℕ) → bytes_eq xs ys ≡ true → xs ≡ ys
bytes_eq_eq [] [] h = refl
bytes_eq_eq [] (y ∷ ys) h = cc
bytes_eq_eq (x ∷ xs) [] h = cc
bytes_eq_eq (x ∷ xs) (y ∷ ys) h = ground (arith, bytes_eq_eq xs ys)

pub bytes_eq_iff : (xs ys : List ℕ) → (bytes_eq xs ys ≡ true) ↔ (xs ≡ ys)
bytes_eq_iff xs ys = (bytes_eq_eq xs ys, λ e. rw e (bytes_eq_refl ys))

abbrev pub Dict {ℓ} : Type ℓ → Type ℓ
Dict V = List (List ℕ × V)

module _ {ℓ} {V : Type ℓ} where
  unfoldable pub lookup : List ℕ → Dict V → Option V
  lookup j [] = none
  lookup j ((k, v) ∷ d) = if bytes_eq j k then some v else lookup j d

  unfoldable pub erase : List ℕ → Dict V → Dict V
  erase k [] = []
  erase k ((j, v) ∷ d) = if bytes_eq k j then erase k d else (j, v) ∷ erase k d

  unfoldable pub insert : List ℕ → V → Dict V → Dict V
  insert k v d = (k, v) ∷ erase k d

  pub lookup-erase :
      (j k : List ℕ) (d : Dict V)
      → lookup j (erase k d) ≡ (if bytes_eq j k then none else lookup j d)
  unfolding lookup erase
  lookup-erase j k [] = ground arith
  lookup-erase j k ((i, v) ∷ d) =
      ground (arith, lookup-erase j k d, bytes_eq_iff j k, bytes_eq_iff k i, bytes_eq_iff j i)

  pub lookup-insert :
      (j k : List ℕ) (v : V) (d : Dict V)
      → lookup j (insert k v d) ≡ (if bytes_eq j k then some v else lookup j d)
  unfolding lookup insert
  lookup-insert j k v d = ground (arith, lookup-erase j k d)
