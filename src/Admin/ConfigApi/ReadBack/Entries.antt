-- ===== src/Admin/ConfigApi/ReadBack/Entries.antt =====
-- crates/rustyice-admin/src/config_write.rs and crates/rustyice-core/src/config.rs: the entries of the
-- sections, read again.
use rusty_ice.Prelude.{
  ◌≡◌, refl, not, ◌&&◌, false, Option, some, arith, Checked, val, Checked-cases, inl, inr, ascii,
  List, [], ◌∷◌, map, All, bytes_eq, bytes_eq_iff,
}
use rusty_ice.Core.Toml.{TomlEdit}
use rusty_ice.Core.Toml.Fill.{get-fill_empty}
use rusty_ice.Core.Config.{TranscodeConfig, MountConfig, AutoDjConfig, RelayConfig}
use rusty_ice.Core.Config.Read.{
  as_text, as_role, as_order, role_from_str, order_from_str, required, defaulted, each,
}
use rusty_ice.Core.Config.Read.Sections.{read_mount, read_autodj, read_relay, read_user}
use rusty_ice.Admin.ConfigWrite.{MountSubPatch, AutoDjSubPatch, RelaySubPatch, UserSubPatch}
use rusty_ice.Admin.ConfigWrite.Apply.{mount_table, autodj_table, relay_table, user_table}
use rusty_ice.Admin.ConfigApi.Candidate.{
  transcode_of, optional_transcode, mount_config, mount_of, autodj_config, autodj_of, order_of,
  relay_config, relay_of, user_of, collect_checked,
}
use rusty_ice.Admin.ConfigApi.ReadBack.{
  IsOptionalU32, IsSizedTranscode, IsSizedOptional, optional-text_value, optional-integer_value,
  defaulted-false_value, read_transcode-transcode_of, optional-transcode_value,
}

-- The sizes that the types of the fields give.
abbrev pub IsSizedMount : MountSubPatch → Type 0
IsSizedMount m =
    IsOptionalU32 m.max_listeners × IsOptionalU32 m.burst_size × IsSizedOptional m.transcode

abbrev pub IsSizedAutoDj : AutoDjSubPatch → Type 0
IsSizedAutoDj a =
    IsOptionalU32 a.max_listeners × IsOptionalU32 a.burst_size × IsSizedTranscode a.transcode

abbrev pub IsSizedRelay : RelaySubPatch → Type 0
IsSizedRelay r =
    IsOptionalU32 r.max_listeners × IsOptionalU32 r.burst_size × IsSizedOptional r.transcode

-- A role, or an order, that its type has a constructor for.
abbrev pub IsRole : UserSubPatch → Type 0
IsRole u =
    (not (bytes_eq u.role (ascii "admin")) && not (bytes_eq u.role (ascii "operator"))) ≡ false

abbrev pub IsOrder : AutoDjSubPatch → Type 0
IsOrder a =
    (not (bytes_eq a.order (ascii "shuffle")) && not (bytes_eq a.order (ascii "sequential")))
    ≡ false

order_from_str-order_of :
    (a : AutoDjSubPatch) → IsOrder a → order_from_str a.order ≡ some (order_of a.order)
unfolding order_from_str order_of
order_from_str-order_of a h = ground (arith, h, bytes_eq_iff a.order (ascii "sequential"))

role_from_str-user_of : (u : UserSubPatch) → IsRole u → role_from_str u.role ≡ some (user_of u).role
unfolding role_from_str user_of
role_from_str-user_of u h = ground (arith, h)

module _ (T : TomlEdit) where
  read_mount-mount_config :
      (m : MountSubPatch) (tc : Option TranscodeConfig)
      → IsSizedMount m
      → optional_transcode m.transcode ≡ val tc
      → read_mount T (mount_table T m) ≡ some (mount_config m tc)
  unfolding mount_config read_mount mount_table required as_text
  read_mount-mount_config m tc (h, k, l) e = simp (
    get-fill_empty T,
    optional-text_value T.Table,
    optional-integer_value T.Table m.max_listeners h,
    optional-integer_value T.Table m.burst_size k,
    optional-transcode_value T m.transcode tc l e,
  )

  pub read_mount-mount_of :
      (m : MountSubPatch) (c : MountConfig)
      → IsSizedMount m
      → mount_of m ≡ val c
      → read_mount T (mount_table T m) ≡ some c
  unfolding mount_of
  read_mount-mount_of m c h e = elim (Checked-cases (optional_transcode m.transcode)) [
    | inl p ↦ absurd (ground (arith, p, e))
    | inr (tc, g) ↦ ground (arith, g, e, read_mount-mount_config m tc h g)
  ]

  read_autodj-autodj_config :
      (a : AutoDjSubPatch) (tc : TranscodeConfig)
      → IsSizedAutoDj a
      → IsOrder a
      → transcode_of a.transcode ≡ val tc
      → read_autodj T (autodj_table T a) ≡ some (autodj_config a tc)
  unfolding autodj_config read_autodj autodj_table required as_text as_order defaulted order_of
  read_autodj-autodj_config a tc (h, k, l) o e = simp (
    get-fill_empty T,
    optional-text_value T.Table,
    optional-integer_value T.Table a.max_listeners h,
    optional-integer_value T.Table a.burst_size k,
    defaulted-false_value T.Table,
    order_from_str-order_of a o,
    read_transcode-transcode_of T a.transcode tc l e,
  )

  pub read_autodj-autodj_of :
      (a : AutoDjSubPatch) (c : AutoDjConfig)
      → IsSizedAutoDj a × IsOrder a
      → autodj_of a ≡ val c
      → read_autodj T (autodj_table T a) ≡ some c
  unfolding autodj_of
  read_autodj-autodj_of a c ((h, k, l), o) e = elim (Checked-cases (transcode_of a.transcode)) [
    | inl p ↦ absurd (ground (arith, p, e))
    | inr (tc, g) ↦ ground (arith, g, e, read_autodj-autodj_config a tc (h, k, l) o g)
  ]

  read_relay-relay_config :
      (r : RelaySubPatch) (tc : Option TranscodeConfig)
      → IsSizedRelay r
      → optional_transcode r.transcode ≡ val tc
      → read_relay T (relay_table T r) ≡ some (relay_config r tc)
  unfolding relay_config read_relay relay_table required as_text
  read_relay-relay_config r tc (h, k, l) e = simp (
    get-fill_empty T,
    optional-text_value T.Table,
    optional-integer_value T.Table r.max_listeners h,
    optional-integer_value T.Table r.burst_size k,
    defaulted-false_value T.Table,
    optional-transcode_value T r.transcode tc l e,
  )

  pub read_relay-relay_of :
      (r : RelaySubPatch) (c : RelayConfig)
      → IsSizedRelay r
      → relay_of r ≡ val c
      → read_relay T (relay_table T r) ≡ some c
  unfolding relay_of
  read_relay-relay_of r c h e = elim (Checked-cases (optional_transcode r.transcode)) [
    | inl p ↦ absurd (ground (arith, p, e))
    | inr (tc, g) ↦ ground (arith, g, e, read_relay-relay_config r tc h g)
  ]

  read_user-user_of :
      (u : UserSubPatch) → IsRole u → read_user T (user_table T u) ≡ some (user_of u)
  unfolding read_user user_table user_of required defaulted as_text as_role
  read_user-user_of u h = simp (get-fill_empty T, role_from_str-user_of u h)

  pub each-read_user :
      (us : List UserSubPatch)
      → All IsRole us
      → each (read_user T) (map (user_table T) us) ≡ some (map user_of us)
  unfolding each
  each-read_user [] h = refl
  each-read_user (u ∷ us) (h, hs) = rw (read_user-user_of u h, each-read_user us hs) refl

-- Entries that are read again one by one are read again together.
module _ {E C Table : Type 0} (f : E → Checked C) (table : E → Table) (read : Table → Option C)
    (IsGood : E → Type 0)
    (read_again : (e : E) (c : C) → IsGood e → f e ≡ val c → read (table e) ≡ some c) where
  pub each-collect_checked :
      (es : List E) (cs : List C)
      → All IsGood es
      → collect_checked f es ≡ val cs
      → each read (map table es) ≡ some cs
  unfolding each collect_checked
  each-collect_checked [] cs h e = ground (arith, e)
  each-collect_checked (x ∷ xs) cs (h, hs) e = elim (Checked-cases (f x)) [
    | inl p ↦ absurd (ground (arith, p, e))
    | inr (c, g) ↦ elim (Checked-cases (collect_checked f xs)) [
      | inl p ↦ absurd (ground (arith, g, p, e))
      | inr (ds, k) ↦ ground (arith, g, k, e, read_again x c h g, each-collect_checked xs ds hs k)
    ]
  ]
