-- ===== src/Core/Toml/Fill.antt =====
-- crates/rustyice-admin/src/config_write.rs: assignments `t["key"] = value(..)` to a table, one after
-- another, and what the table holds then.
use rusty_ice.Prelude.{◌≡◌, refl, Option, none, some, List, [], ◌∷◌, bytes_eq, if◌then◌else◌, arith}
use rusty_ice.Core.Mount.{Text}
use rusty_ice.Core.Toml.{Item, TomlEdit}

abbrev pub later {ℓ} : {A : Type ℓ} → Option A → Option A → Option A
later none old = old
later (some v) old = some v

abbrev pub Assignments : Type 0 → Type 0
Assignments Table = List (Text × Option (Item Table))

-- The value of a key after the assignments, of which `none` is one that an `if` leaves out.
abbrev pub assigned :
    {Table : Type 0} → Text → Assignments Table → Option (Item Table) → Option (Item Table)
assigned j [] old = old
assigned j ((k, v) ∷ rest) old = assigned j rest (if bytes_eq j k then later v old else old)

module _ (T : TomlEdit) where
  abbrev assign : Text → Option (Item T.Table) → T.Table → T.Table
  assign key none t = t
  assign key (some v) t = T.insert key v t

  unfoldable pub fill : Assignments T.Table → T.Table → T.Table
  fill [] t = t
  fill ((key, v) ∷ rest) t = fill rest (assign key v t)

  get-assign :
      (j k : Text) (v : Option (Item T.Table)) (t : T.Table)
      → T.get j (assign k v t) ≡ (if bytes_eq j k then later v (T.get j t) else T.get j t)
  get-assign j k none t = ground arith
  get-assign j k (some v) t = T.get-insert j k v t

  pub get-fill :
      (j : Text) (vs : Assignments T.Table) (t : T.Table)
      → T.get j (fill vs t) ≡ assigned j vs (T.get j t)
  unfolding fill
  get-fill j [] t = refl
  get-fill j ((k, v) ∷ rest) t = rw (get-fill j rest (assign k v t), get-assign j k v t) refl

  -- The assignments to a new table.
  pub get-fill_empty :
      (j : Text) (vs : Assignments T.Table) → T.get j (fill vs T.empty) ≡ assigned j vs none
  get-fill_empty j vs = rw (get-fill j vs T.empty, T.get-empty j) refl
