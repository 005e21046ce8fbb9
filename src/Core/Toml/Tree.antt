-- ===== src/Core/Toml/Tree.antt =====
-- A library of tables that meets the laws of `TomlEdit`: entries in a row, the first of a key counts.
use rusty_ice.Prelude.{
  ℕ, Bool, ◌≡◌, refl, ap, Option, none, some, List, [], ◌∷◌, bytes_eq, bytes_eq_iff, arith,
  if◌then◌else◌,
}
use rusty_ice.Core.Mount.{Text}
use rusty_ice.Core.Toml.{
  Item, text, integer, boolean, table, inline_table, array_of_tables, other, TomlEdit,
}

-- Tables, items and rows of tables in one type.
pub data Tree : Type 0 where
  leaf : Tree
  entry : Text → Tree → Tree → Tree
  text_tree : Text → Tree
  integer_tree : ℕ → Tree
  boolean_tree : Bool → Tree
  table_tree inline_tree : Tree → Tree
  row : Tree → Tree → Tree
  other_tree : Tree

abbrev pub rows : List Tree → Tree
rows [] = leaf
rows (t ∷ ts) = row t (rows ts)

abbrev pub unrows : Tree → List Tree
unrows (row t ts) = t ∷ unrows ts
unrows _ = []

abbrev pub encode : Item Tree → Tree
encode (text s) = text_tree s
encode (integer n) = integer_tree n
encode (boolean b) = boolean_tree b
encode (table t) = table_tree t
encode (inline_table t) = inline_tree t
encode (array_of_tables ts) = row leaf (rows ts)
encode other = other_tree

abbrev pub decode : Tree → Item Tree
decode (text_tree s) = text s
decode (integer_tree n) = integer n
decode (boolean_tree b) = boolean b
decode (table_tree t) = table t
decode (inline_tree t) = inline_table t
decode (row _ ts) = array_of_tables (unrows ts)
decode _ = other

unrows-rows : (ts : List Tree) → unrows (rows ts) ≡ ts
unrows-rows [] = refl
unrows-rows (t ∷ ts) = ap (◌∷◌ t) (unrows-rows ts)

pub decode-encode : (i : Item Tree) → decode (encode i) ≡ i
decode-encode (text s) = refl
decode-encode (integer n) = refl
decode-encode (boolean b) = refl
decode-encode (table t) = refl
decode-encode (inline_table t) = refl
decode-encode (array_of_tables ts) = ap array_of_tables (unrows-rows ts)
decode-encode other = refl

abbrev pub look_up : Text → Tree → Option (Item Tree)
look_up j (entry k v rest) = if bytes_eq j k then some (decode v) else look_up j rest
look_up j _ = none

abbrev pub without : Text → Tree → Tree
without k (entry j v rest) = if bytes_eq k j then without k rest else entry j v (without k rest)
without k t = t

pub look_up-without :
    (j k : Text) (t : Tree) → look_up j (without k t) ≡ (if bytes_eq j k then none else look_up j t)
look_up-without j k (entry i v t) =
    ground (arith, look_up-without j k t, bytes_eq_iff j k, bytes_eq_iff k i, bytes_eq_iff j i)
look_up-without j k _ = ground arith

pub look_up-entry :
    (j k : Text) (v : Item Tree) (t : Tree)
    → look_up j (entry k (encode v) t) ≡ (if bytes_eq j k then some v else look_up j t)
look_up-entry j k v t = rw (decode-encode v) refl

pub look_up-leaf : (j : Text) → look_up j leaf ≡ none
look_up-leaf j = refl

abbrev pub tree : TomlEdit
tree = record {
  Table = Tree;
  empty = leaf;
  get = look_up;
  insert = λ k v t. entry k (encode v) t;
  remove = without;
  get-empty = look_up-leaf;
  get-insert = look_up-entry;
  get-remove = look_up-without;
}
