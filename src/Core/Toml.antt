-- ===== src/Core/Toml.antt =====
-- What crates/rustyice-core and crates/rustyice-admin use of the TOML libraries (`toml`, `toml_edit`):
-- tables of items, their reading and their changing. A table is an argument with its documented laws.
pub mod Fill
pub mod Tree
pub mod Code
use rusty_ice.Prelude.{
  ℕ, Bool, ◌≡◌, Option, none, some, List, [], ◌∷◌, bytes_eq, if◌then◌else◌, Checked, val, panic,
}
use rusty_ice.Core.Mount.{Text}

-- `toml_edit::Item` with the values the program writes; `other` is any other value. An array of
-- tables stands for both of its notations, which the program treats alike.
pub data Item (Table : Type 0) : Type 0 where
  text : Text → Item Table
  integer : ℕ → Item Table
  boolean : Bool → Item Table
  table inline_table : Table → Item Table
  array_of_tables : List Table → Item Table
  other : Item Table

pub record TomlEdit : Type 1 where
  pub Table : Type 0
  pub empty : Table
  pub get : Text → Table → Option (Item Table)
  pub insert : Text → Item Table → Table → Table
  pub remove : Text → Table → Table
  pub get-empty : (j : Text) → get j empty ≡ none
  pub get-insert :
      (j k : Text) (v : Item Table) (t : Table)
      → get j (insert k v t) ≡ (if bytes_eq j k then some v else get j t)
  pub get-remove :
      (j k : Text) (t : Table) → get j (remove k t) ≡ (if bytes_eq j k then none else get j t)

module _ (T : TomlEdit) where
  -- `item[key] = value`, which panics on an item that is no table.
  unfoldable pub set : Text → Item T.Table → Item T.Table → Checked (Item T.Table)
  set key v (table t) = val (table (T.insert key v t))
  set key v (inline_table t) = val (inline_table (T.insert key v t))
  set key v (text _) = panic
  set key v (integer _) = panic
  set key v (boolean _) = panic
  set key v (array_of_tables _) = panic
  set key v other = panic

  -- `if let Some(t) = item.as_table_mut() { t.remove(key); }`; an inline table is no `Table`.
  unfoldable pub remove_key : Text → Item T.Table → Item T.Table
  remove_key key (table t) = table (T.remove key t)
  remove_key key (inline_table t) = inline_table t
  remove_key key (text s) = text s
  remove_key key (integer n) = integer n
  remove_key key (boolean b) = boolean b
  remove_key key (array_of_tables ts) = array_of_tables ts
  remove_key key other = other

  -- The entries of a `Table` or of an inline table.
  unfoldable pub entries : Item T.Table → Option T.Table
  entries (table t) = some t
  entries (inline_table t) = some t
  entries (text _) = none
  entries (integer _) = none
  entries (boolean _) = none
  entries (array_of_tables _) = none
  entries other = none
