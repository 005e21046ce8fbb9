-- ===== src/Server/ConfigReload/Registry.antt =====
-- crates/rustyice-server/src/config_reload.rs: `AutoDjRegistry` and `RelayRegistry`, which differ in
-- the configuration that an entry holds. A cancellation token is the number it was made with.
use rusty_ice.Prelude.{ℕ, Bool, none, some, List, ◌∷◌, Dict, lookup, insert, erase}
use rusty_ice.Core.Mount.{Text}
use rusty_ice.Core.Mount.Registry.{Mount}

-- The handle of a running task is not kept: it is waited for when the task is cancelled.
pub record Entry (C : Type 0) : Type 0 where
  pub cfg : C
  pub cancel : ℕ

-- What a task diff changes: the mounts, the registry of its kind of task, the tokens that are
-- cancelled, the number of tokens made, and whether the task that applies the configuration has panicked.
pub record Stage (C : Type 0) : Type 0 where
  pub mounts : Dict Mount
  pub running : Dict (Entry C)
  pub cancelled : List ℕ
  pub next_token : ℕ
  pub halted : Bool

module _ {C : Type 0} where
  unfoldable pub insert_task : Text → Entry C → Stage C → Stage C
  insert_task mount entry st = record st { running = insert mount entry st.running }

  unfoldable pub cancel_task : Text → Stage C → Stage C
  cancel_task mount st = elim (lookup mount st.running) [
    | none ↦ st
    | some e ↦ record st { running = erase mount st.running; cancelled = e.cancel ∷ st.cancelled }
  ]
