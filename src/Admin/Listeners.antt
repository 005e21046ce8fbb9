-- ===== src/Admin/Listeners.antt =====
-- crates/rustyice-admin/src/state.rs: `ListenerMap`. The map from ids to entries is a list of entries
-- with one for each id; an address is opaque, and a cancellation token is the number it was made with.
pub mod Lookup
use rusty_ice.Prelude.{
  ℕ, suc, ◌+◌, ◌%◌, ◌^◌, Bool, true, false, Option, none, some, List, [], ◌∷◌, map, length,
  bytes_eq, ◌==◌, if◌then◌else◌,
}
use rusty_ice.Core.Mount.{Text}

pub record ListenerEntry : Type 0 where
  pub id : ℕ
  pub mount_path : Text
  pub peer_addr : Option Text
  pub connected_at : ℕ
  pub cancel : ℕ

pub record ListenerDetail : Type 0 where
  pub id : ℕ
  pub peer_addr : Option Text

pub record ListenerMap : Type 0 where
  pub entries : List ListenerEntry
  pub next_id : ℕ

abbrev pub new : ListenerMap
new = record { entries = []; next_id = 0 }

unfoldable pub get : ℕ → List ListenerEntry → Option ListenerEntry
get id [] = none
get id (e ∷ es) = if id == e.id then some e else get id es

unfoldable pub remove : ℕ → List ListenerEntry → List ListenerEntry
remove id [] = []
remove id (e ∷ es) = if id == e.id then remove id es else e ∷ remove id es

-- `fetch_add` wraps around; `insert` replaces what is there.
unfoldable pub register : Text → Option Text → ℕ → ℕ → ListenerMap → ℕ × ListenerMap
register mount_path peer_addr cancel now m =
    let id = m.next_id in
    let entry : ListenerEntry = record {
      id = id;
      mount_path = mount_path;
      peer_addr = peer_addr;
      connected_at = now;
      cancel = cancel;
    } in
    (id, record { entries = entry ∷ remove id m.entries; next_id = suc id % 2 ^ 64 })

unfoldable pub deregister : ℕ → ListenerMap → ListenerMap
deregister id m = record m { entries = remove id m.entries }

-- The answer, and the tokens that the call cancels.
unfoldable pub kick : ℕ → ListenerMap → Bool × List ℕ
kick id m = elim (get id m.entries) [ none ↦ (false, []) | some e ↦ (true, e.cancel ∷ []) ]

unfoldable pub on_mount : Text → List ListenerEntry → List ListenerEntry
on_mount mount_path [] = []
on_mount mount_path (e ∷ es) =
    if bytes_eq e.mount_path mount_path then e ∷ on_mount mount_path es else on_mount mount_path es

unfoldable pub ids_for_mount : Text → ListenerMap → List ℕ
ids_for_mount mount_path m = map (λ e. e.id) (on_mount mount_path m.entries)

abbrev detail_of : ListenerEntry → ListenerDetail
detail_of e = record { id = e.id; peer_addr = e.peer_addr }

unfoldable pub details_for_mount : Text → ListenerMap → List ListenerDetail
details_for_mount mount_path m = map detail_of (on_mount mount_path m.entries)

unfoldable pub total_count : ListenerMap → ℕ
total_count m = length m.entries
