-- ===== src/Core/Toml/Code.antt =====
-- A notation for the tables of `tree`, for files in tests: a sign for each constructor, texts behind their
-- length.
use rusty_ice.Prelude.{
  ℕ, zero, suc, ◌+◌, ◌≤◌, ◌≡◌, refl, true, false, Option, none, some, [], ◌∷◌, ◌++◌, length, take,
  drop, arith, take-append_self, drop-append_self, length-append,
}
use rusty_ice.Prelude.Options.{◌>>=◌}
use rusty_ice.Core.Mount.{Text}
use rusty_ice.Core.Toml.Tree.{
  Tree, leaf, entry, text_tree, integer_tree, boolean_tree, table_tree, inline_tree, row,
  other_tree,
}

abbrev pub write : Tree → Text → Text
write leaf k = 0 ∷ k
write (entry s v r) k = 1 ∷ length s ∷ (s ++ write v (write r k))
write (text_tree s) k = 2 ∷ length s ∷ (s ++ k)
write (integer_tree n) k = 3 ∷ n ∷ k
write (boolean_tree true) k = 4 ∷ k
write (boolean_tree false) k = 5 ∷ k
write (table_tree t) k = 6 ∷ write t k
write (inline_tree t) k = 7 ∷ write t k
write (row t ts) k = 8 ∷ write t (write ts k)
write other_tree k = 9 ∷ k

depth : Tree → ℕ
depth leaf = 1
depth (entry s v r) = suc (depth v + depth r)
depth (text_tree s) = 1
depth (integer_tree n) = 1
depth (boolean_tree b) = 1
depth (table_tree t) = suc (depth t)
depth (inline_tree t) = suc (depth t)
depth (row t ts) = suc (depth t + depth ts)
depth other_tree = 1

abbrev pub read_sign : (Text → Option (Tree × Text)) → ℕ → Text → Option (Tree × Text)
read_sign read zero k = some (leaf, k)
read_sign read (suc zero) [] = none
read_sign read (suc zero) (n ∷ k) = do
  (v, k1) ← read (drop n k)
  (r, k2) ← read k1
  some (entry (take n k) v r, k2)
read_sign read (suc (suc zero)) [] = none
read_sign read (suc (suc zero)) (n ∷ k) = some (text_tree (take n k), drop n k)
read_sign read (suc (suc (suc zero))) [] = none
read_sign read (suc (suc (suc zero))) (n ∷ k) = some (integer_tree n, k)
read_sign read (suc (suc (suc (suc zero)))) k = some (boolean_tree true, k)
read_sign read (suc (suc (suc (suc (suc zero))))) k = some (boolean_tree false, k)
read_sign read (suc (suc (suc (suc (suc (suc zero)))))) k = do
  (t, k1) ← read k
  some (table_tree t, k1)
read_sign read (suc (suc (suc (suc (suc (suc (suc zero))))))) k = do
  (t, k1) ← read k
  some (inline_tree t, k1)
read_sign read (suc (suc (suc (suc (suc (suc (suc (suc zero)))))))) k = do
  (t, k1) ← read k
  (ts, k2) ← read k1
  some (row t ts, k2)
read_sign read (suc (suc (suc (suc (suc (suc (suc (suc (suc n))))))))) k = some (other_tree, k)

abbrev pub read_tree : ℕ → Text → Option (Tree × Text)
read_tree zero k = none
read_tree (suc fuel) [] = none
read_tree (suc fuel) (sign ∷ k) = read_sign (read_tree fuel) sign k

read_tree-write :
    (t : Tree) (fuel : ℕ) (k : Text) → depth t ≤ fuel → read_tree fuel (write t k) ≡ some (t, k)
unfolding depth
read_tree-write leaf zero k h = absurd (omega arith)
read_tree-write leaf (suc fuel) k h = refl
read_tree-write (entry s v r) zero k h = absurd (omega arith)
read_tree-write (entry s v r) (suc fuel) k h =
    rw
      (
        drop-append_self s (write v (write r k)),
        take-append_self s (write v (write r k)),
        read_tree-write v fuel (write r k) (omega arith),
        read_tree-write r fuel k (omega arith),
      )
      refl
read_tree-write (text_tree s) zero k h = absurd (omega arith)
read_tree-write (text_tree s) (suc fuel) k h = rw (drop-append_self s k, take-append_self s k) refl
read_tree-write (integer_tree n) zero k h = absurd (omega arith)
read_tree-write (integer_tree n) (suc fuel) k h = refl
read_tree-write (boolean_tree b) zero k h = absurd (omega arith)
read_tree-write (boolean_tree true) (suc fuel) k h = refl
read_tree-write (boolean_tree false) (suc fuel) k h = refl
read_tree-write (table_tree t) zero k h = absurd (omega arith)
read_tree-write (table_tree t) (suc fuel) k h = rw (read_tree-write t fuel k (omega arith)) refl
read_tree-write (inline_tree t) zero k h = absurd (omega arith)
read_tree-write (inline_tree t) (suc fuel) k h = rw (read_tree-write t fuel k (omega arith)) refl
read_tree-write (row t ts) zero k h = absurd (omega arith)
read_tree-write (row t ts) (suc fuel) k h =
    rw (read_tree-write t fuel (write ts k) (omega arith), read_tree-write ts fuel k (omega arith))
      refl
read_tree-write other_tree zero k h = absurd (omega arith)
read_tree-write other_tree (suc fuel) k h = refl

length-write : (t : Tree) (k : Text) → depth t + length k ≤ length (write t k)
unfolding depth
length-write leaf k = omega arith
length-write (entry s v r) k =
    omega
      (arith, length-append s (write v (write r k)), length-write v (write r k), length-write r k)
length-write (text_tree s) k = omega (arith, length-append s k)
length-write (integer_tree n) k = omega arith
length-write (boolean_tree true) k = omega arith
length-write (boolean_tree false) k = omega arith
length-write (table_tree t) k = omega (arith, length-write t k)
length-write (inline_tree t) k = omega (arith, length-write t k)
length-write (row t ts) k = omega (arith, length-write t (write ts k), length-write ts k)
length-write other_tree k = omega arith

abbrev pub print_tree : Tree → Text
print_tree t = write t []

abbrev pub parse_tree : Text → Option Tree
parse_tree s = do (t, _) ← read_tree (length s) s; some t

pub parse_tree-print_tree : (t : Tree) → parse_tree (print_tree t) ≡ some t
parse_tree-print_tree t =
    rw (read_tree-write t (length (write t [])) [] (omega (arith, length-write t []))) refl
