-- ===== src/Prelude/Indexing.antt =====
-- Rust indexing and slicing: `panic` stands for an index or a range that is out of bounds.
use Prim.Native.Nat.{ℕ, zero, suc, ◌+◌, ◌-◌, ◌≤◌, ◌<◌}
use mathlib.Core.Path.{◌≡◌, refl, sym, ap, ◌∙◌}
use mathlib.Core.Logic.{◌⊎◌, inl, inr}
use mathlib.Core.Bool.{◌&&◌}
use mathlib.Core.Option.{Option, none, some}
use mathlib.Core.List.{List, [], ◌∷◌, ◌++◌}
use native.Mathlib.Omega.{arith}
use rusty_ice.Prelude.Tests.{leb, if◌then◌else◌}
use rusty_ice.Prelude.Lists.{
  length, get_elem?, take, drop, get_elem?-append_left, get_elem?-some, length-append,
  drop-append_left, drop-drop, length-take, take-append-drop, take-append_left, length-drop,
}

pub data Checked {ℓ} (A : Type ℓ) : Type ℓ where
  val : A → Checked A
  panic : Checked A

infixl 5 ◌>>=◌
abbrev pub ◌>>=◌ {ℓ κ} : {A : Type ℓ} {B : Type κ} → Checked A → (A → Checked B) → Checked B
val a >>= f = f a
panic >>= f = panic

abbrev or_panic {ℓ} : {A : Type ℓ} → Option A → Checked A
or_panic none = panic
or_panic (some a) = val a

module _ {A : Type 0} where
  -- data[i]
  unfoldable pub index : List A → ℕ → Checked A
  index xs i = or_panic (get_elem? xs i)

  -- &data[from..to]
  unfoldable pub slice : List A → ℕ → ℕ → Checked (List A)
  slice xs from to =
      if leb from to && leb to (length xs) then val (take (to - from) (drop from xs)) else panic

  -- &data[from..]
  unfoldable pub slice_from : List A → ℕ → Checked (List A)
  slice_from xs from = if leb from (length xs) then val (drop from xs) else panic

  pub index-val : (xs : List A) (i : ℕ) → i < length xs → (a : A) × (index xs i ≡ val a)
  unfolding index
  index-val xs i h = let (a, e) = get_elem?-some xs i h in (a, ground (arith, e))

  pub slice-val :
      (xs : List A) (from to : ℕ)
      → from ≤ to
      → to ≤ length xs
      → slice xs from to ≡ val (take (to - from) (drop from xs))
  unfolding slice
  slice-val xs from to h k = ground arith

  pub slice_from-val :
      (xs : List A) (from : ℕ) → from ≤ length xs → slice_from xs from ≡ val (drop from xs)
  unfolding slice_from
  slice_from-val xs from h = ground arith

  -- Bytes that arrive later change nothing in front of them.
  pub index-append_left : (xs ys : List A) (i : ℕ) → i < length xs → index (xs ++ ys) i ≡ index xs i
  unfolding index
  index-append_left xs ys i h = ground (arith, get_elem?-append_left xs ys i h)

  -- What the two accesses `data[i]` and `data[i + 1]` and the slice `data[i..]` see of one suffix.
  pub drop_two :
      (xs : List A) (i : ℕ)
      → suc i < length xs
      → (a : A) × (b : A) × (r : List A) × (drop i xs ≡ a ∷ b ∷ r)
        × (drop (suc i) xs ≡ b ∷ r)
        × (index xs i ≡ val a)
        × (index xs (suc i) ≡ val b)
  unfolding index
  drop_two [] i h = absurd (omega arith)
  drop_two (a ∷ []) i h = absurd (omega arith)
  drop_two (a ∷ b ∷ r) zero h = (a, b, r, refl, refl, refl, refl)
  drop_two (a ∷ b ∷ r) (suc i) h = drop_two (b ∷ r) i (omega arith)

  pub slice-append_left :
      (xs ys : List A) (from to : ℕ)
      → from ≤ to
      → to ≤ length xs
      → slice (xs ++ ys) from to ≡ slice xs from to
  unfolding slice
  slice-append_left xs ys from to h k = ground (
    arith,
    length-append xs ys,
    drop-append_left from xs ys,
    length-drop from xs,
    take-append_left (to - from) (drop from xs) ys,
  )

  -- Positions counted from a cursor.
  pub index-drop : (m i : ℕ) (xs : List A) → index (drop m xs) i ≡ index xs (m + i)
  unfolding index
  index-drop zero i xs = ap (λ k. or_panic (get_elem? xs k)) {x = i} {y = 0 + i} (omega arith)
  index-drop (suc m) i [] = refl
  index-drop (suc m) i (x ∷ xs) =
      let e : suc m + i ≡ suc (m + i) = omega arith in rw e (index-drop m i xs)

  pub slice-drop :
      (m from to : ℕ) (xs : List A)
      → from ≤ to
      → m + to ≤ length xs
      → slice (drop m xs) from to ≡ slice xs (m + from) (m + to)
  slice-drop m from to xs h k =
      let inner = slice-val (drop m xs) from to h (omega (arith, length-drop m xs)) in
      let outer = slice-val xs (m + from) (m + to) (omega arith) k in
      let width : m + to - (m + from) ≡ to - from = omega arith in
      rw (inner, outer, width, drop-drop m from xs)

  -- Positions within the first `n` elements.
  pub index-take :
      (n i : ℕ) (xs : List A) → n ≤ length xs → i < n → index (take n xs) i ≡ index xs i
  index-take n i xs h k =
      let e = index-append_left (take n xs) (drop n xs) i (omega (arith, length-take n xs)) in
      sym e ∙ ap (λ l. index l i) (take-append-drop n xs)

  pub slice-take :
      (n from to : ℕ) (xs : List A)
      → n ≤ length xs
      → from ≤ to
      → to ≤ n
      → slice (take n xs) from to ≡ slice xs from to
  slice-take n from to xs h k l =
      let e =
        slice-append_left (take n xs) (drop n xs) from to k (omega (arith, length-take n xs)) in
      sym e ∙ ap (λ l. slice l from to) (take-append-drop n xs)

pub Checked-cases {ℓ} : {A : Type ℓ} (r : Checked A) → (r ≡ panic) ⊎ ((a : A) × (r ≡ val a))
Checked-cases (val a) = inr (a, refl)
Checked-cases panic = inl refl
