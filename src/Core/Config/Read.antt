-- ===== src/Core/Config/Read.antt =====
-- crates/rustyice-core/src/config.rs: what the `serde` attributes of its types make of a TOML table:
-- which keys are required, which have a default, how they are spelled. `none` is an error. An address
-- is read as its text.
pub mod Sections
use rusty_ice.Prelude.{
  ℕ, Bool, true, Option, none, some, List, [], ◌∷◌, ◌^◌, bytes_eq, ascii, ltb, if◌then◌else◌,
}
use rusty_ice.Prelude.Options.{◌>>=◌}
use rusty_ice.Core.Mount.{Text}
use rusty_ice.Core.Toml.{
  Item, text, integer, boolean, table, inline_table, array_of_tables, other, TomlEdit, entries,
}
use rusty_ice.Core.Config.{
  TranscodeFormat, TranscodeConfig, LogFormat, UserRole, Order, UserConfig, MountConfig,
  AutoDjConfig, RelayConfig,
}

module _ {Table : Type 0} where
  unfoldable pub as_text : Item Table → Option Text
  as_text (text s) = some s
  as_text _ = none

  -- An integer below `bound`, for the unsigned types.
  unfoldable pub as_unsigned : ℕ → Item Table → Option ℕ
  as_unsigned bound (integer n) = if ltb n bound then some n else none
  as_unsigned bound _ = none

  unfoldable pub as_bool : Item Table → Option Bool
  as_bool (boolean b) = some b
  as_bool _ = none

  unfoldable pub required : {A : Type 0} → (Item Table → Option A) → Option (Item Table) → Option A
  required read none = none
  required read (some i) = read i

  -- `#[serde(default)]` on a field of an `Option` type
  unfoldable pub optional :
      {A : Type 0} → (Item Table → Option A) → Option (Item Table) → Option (Option A)
  optional read none = some none
  optional read (some i) = do a ← read i; some (some a)

  -- `#[serde(default = "..")]`
  unfoldable pub defaulted :
      {A : Type 0} → A → (Item Table → Option A) → Option (Item Table) → Option A
  defaulted a read none = some a
  defaulted a read (some i) = read i

-- `#[serde(rename_all = "lowercase")]`
unfoldable pub format_from_str : Text → Option TranscodeFormat
format_from_str s =
    if bytes_eq s (ascii "mp3")
    then some TranscodeFormat.mp3
    else if bytes_eq s (ascii "vorbis")
    then some TranscodeFormat.vorbis
    else none

unfoldable pub order_from_str : Text → Option Order
order_from_str s =
    if bytes_eq s (ascii "shuffle")
    then some Order.shuffle
    else if bytes_eq s (ascii "sequential")
    then some Order.sequential
    else none

unfoldable pub role_from_str : Text → Option UserRole
role_from_str s =
    if bytes_eq s (ascii "admin")
    then some UserRole.admin
    else if bytes_eq s (ascii "operator")
    then some UserRole.operator
    else none

unfoldable pub log_format_from_str : Text → Option LogFormat
log_format_from_str s =
    if bytes_eq s (ascii "json")
    then some LogFormat.json
    else if bytes_eq s (ascii "pretty")
    then some LogFormat.pretty
    else none

module _ {Table : Type 0} where
  unfoldable pub as_format : Item Table → Option TranscodeFormat
  as_format i = do s ← as_text i; format_from_str s

  unfoldable pub as_order : Item Table → Option Order
  as_order i = do s ← as_text i; order_from_str s

  unfoldable pub as_role : Item Table → Option UserRole
  as_role i = do s ← as_text i; role_from_str s

  unfoldable pub as_log_format : Item Table → Option LogFormat
  as_log_format i = do s ← as_text i; log_format_from_str s

  unfoldable pub as_u32 : Item Table → Option ℕ
  as_u32 = as_unsigned (2 ^ 32)

  -- Also a `usize`, on the 64-bit targets the program is built for.
  unfoldable pub as_u64 : Item Table → Option ℕ
  as_u64 = as_unsigned (2 ^ 64)

-- The elements of a `Vec`, each of which must be read.
unfoldable pub each : {A B : Type 0} → (A → Option B) → List A → Option (List B)
each read [] = some []
each read (x ∷ xs) = do y ← read x; ys ← each read xs; some (y ∷ ys)

unfoldable pub as_list : {Table A : Type 0} → (Table → Option A) → Item Table → Option (List A)
as_list read (array_of_tables ts) = each read ts
as_list read _ = none
