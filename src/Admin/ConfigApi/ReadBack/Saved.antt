-- ===== src/Admin/ConfigApi/ReadBack/Saved.antt =====
-- crates/rustyice-admin/src/config_write.rs: what the file reads as after each save.
use rusty_ice.Prelude.{
  ◌≡◌, ◌∙◌, refl, Option, some, arith, Checked, val, ◌>>=◌, Checked-cases, inl, inr, ascii, List,
  [], map, All,
}
use rusty_ice.Core.Mount.{Text}
use rusty_ice.Core.Toml.{TomlEdit}
use rusty_ice.Core.Config.{Config}
use rusty_ice.Core.Config.Read.{as_list, defaulted}
use rusty_ice.Core.Config.Read.Sections.{read_config, read_mount, read_autodj, read_relay}
use rusty_ice.Admin.ConfigWrite.{MountsPatch, AutoDjsPatch, RelaysPatch}
use rusty_ice.Admin.ConfigWrite.Apply.{
  set_tables, apply_mounts_patch, apply_autodjs_patch, apply_relays_patch, mount_table,
  autodj_table, relay_table,
}
use rusty_ice.Admin.ConfigApi.Candidate.{mount_of, autodj_of, relay_of, collect_checked}
use rusty_ice.Admin.ConfigApi.Candidate.Decide.{overlay_mounts, overlay_autodjs, overlay_relays}
use rusty_ice.Admin.ConfigApi.ReadBack.Entries.{
  IsSizedMount, IsSizedAutoDj, IsSizedRelay, IsOrder, read_mount-mount_of, read_autodj-autodj_of,
  read_relay-relay_of, each-collect_checked,
}
use rusty_ice.Admin.ConfigApi.ReadBack.Document.{
  Holds, DifferAt, Holds-read_config, read_config-Holds, get-set_tables, read-set_tables,
  Holds-mounts, Holds-autodjs, Holds-relays,
}

-- One list of entries: its tables are written under a key, and what the file reads as is the
-- configuration with these entries.
module _ {E C : Type 0} (T : TomlEdit) (key : Text) (config_of : E → Checked C)
    (table_of : E → T.Table) (read : T.Table → Option C) (IsGood : E → Type 0)
    (again : (e : E) (c : C) → IsGood e → config_of e ≡ val c → read (table_of e) ≡ some c)
    (update : List C → Config) (doc : T.Table)
    (hold : (doc' : T.Table) (cs : List C)
      → DifferAt T key doc doc'
      → defaulted [] (as_list read) (T.get key doc') ≡ some cs
      → Holds T doc' (update cs)) where
  read_config-set_tables :
      (es : List E) (candidate : Config)
      → All IsGood es
      → (collect_checked config_of es >>= λ cs. val (update cs)) ≡ val candidate
      → read_config T (set_tables T key (map table_of es) doc) ≡ some candidate
  read_config-set_tables es candidate good e =
      let doc' = set_tables T key (map table_of es) doc in
      elim (Checked-cases (collect_checked config_of es)) [
        | inl x ↦ absurd (ground (arith, x, e))
        | inr (cs, g) ↦
            let each = each-collect_checked config_of table_of read IsGood again es cs good g in
            let new =
              hold doc' cs (λ j n. get-set_tables T j key (map table_of es) doc n)
                (read-set_tables T read key (map table_of es) doc ∙ each) in
            ground (arith, g, e, Holds-read_config T doc' (update cs) new)
      ]

module _ (T : TomlEdit) where
  -- The file after a save of the plain mounts reads as the candidate, where it read as the configuration
  -- that the candidate was made from.
  pub read_config-apply_mounts_patch :
      (p : MountsPatch) (doc : T.Table) (cfg candidate : Config)
      → read_config T doc ≡ some cfg
      → All IsSizedMount p.mounts
      → overlay_mounts p cfg ≡ val candidate
      → (doc' : T.Table) × (apply_mounts_patch T p doc ≡ val doc')
        × (read_config T doc' ≡ some candidate)
  unfolding apply_mounts_patch overlay_mounts
  read_config-apply_mounts_patch p doc cfg candidate h good e =
      let old = read_config-Holds T doc cfg h in
      (
        set_tables T (ascii "mounts") (map (mount_table T) p.mounts) doc,
        refl,
        read_config-set_tables T (ascii "mounts") mount_of (mount_table T) (read_mount T)
            IsSizedMount (read_mount-mount_of T) (λ cs. record cfg { mounts = cs }) doc
            (λ doc' cs. Holds-mounts T doc doc' cfg cs old) p.mounts candidate good e,
      )

  -- The file after a save of the AutoDJs reads as the candidate, where it read as the configuration
  -- that the candidate was made from.
  pub read_config-apply_autodjs_patch :
      (p : AutoDjsPatch) (doc : T.Table) (cfg candidate : Config)
      → read_config T doc ≡ some cfg
      → All (λ a. IsSizedAutoDj a × IsOrder a) p.autodjs
      → overlay_autodjs p cfg ≡ val candidate
      → (doc' : T.Table) × (apply_autodjs_patch T p doc ≡ val doc')
        × (read_config T doc' ≡ some candidate)
  unfolding apply_autodjs_patch overlay_autodjs
  read_config-apply_autodjs_patch p doc cfg candidate h good e =
      let old = read_config-Holds T doc cfg h in
      (
        set_tables T (ascii "autodjs") (map (autodj_table T) p.autodjs) doc,
        refl,
        read_config-set_tables T (ascii "autodjs") autodj_of (autodj_table T) (read_autodj T)
            (λ a. IsSizedAutoDj a × IsOrder a) (read_autodj-autodj_of T)
            (λ cs. record cfg { autodjs = cs }) doc (λ doc' cs. Holds-autodjs T doc doc' cfg cs old)
            p.autodjs candidate good e,
      )

  -- The file after a save of the relays reads as the candidate, where it read as the configuration
  -- that the candidate was made from.
  pub read_config-apply_relays_patch :
      (p : RelaysPatch) (doc : T.Table) (cfg candidate : Config)
      → read_config T doc ≡ some cfg
      → All IsSizedRelay p.relays
      → overlay_relays p cfg ≡ val candidate
      → (doc' : T.Table) × (apply_relays_patch T p doc ≡ val doc')
        × (read_config T doc' ≡ some candidate)
  unfolding apply_relays_patch overlay_relays
  read_config-apply_relays_patch p doc cfg candidate h good e =
      let old = read_config-Holds T doc cfg h in
      (
        set_tables T (ascii "relays") (map (relay_table T) p.relays) doc,
        refl,
        read_config-set_tables T (ascii "relays") relay_of (relay_table T) (read_relay T)
            IsSizedRelay (read_relay-relay_of T) (λ cs. record cfg { relays = cs }) doc
            (λ doc' cs. Holds-relays T doc doc' cfg cs old) p.relays candidate good e,
      )
