-- ===== src/Admin/ConfigApi/Synced/Saves.antt =====
-- crates/rustyice-admin/src/api/config.rs: the handlers keep the file in step with the running
-- configuration.
use rusty_ice.Prelude.{
  ◌≡◌, ◌⊎◌, inl, inr, sym, subst, Option, none, some, arith, List, [], map, All, val, Option-cases,
  ascii,
}
use rusty_ice.Core.Mount.{Text}
use rusty_ice.Core.Toml.{
  Item, text, integer, boolean, array_of_tables, other, table, inline_table, TomlEdit, entries,
}
use rusty_ice.Core.Config.{Config}
use rusty_ice.Core.Config.Read.{required}
use rusty_ice.Core.Config.Read.Sections.{read_config, read_auth}
use rusty_ice.Auth.{collect_mounts}
use rusty_ice.Admin.ConfigWrite.{TranscodePatch, MountsPatch, UsersPatch, AutoDjsPatch, RelaysPatch}
use rusty_ice.Admin.ConfigWrite.Validate.{validate_transcode_patch}
use rusty_ice.Admin.ConfigWrite.Apply.{
  apply_transcode_patch, apply_mounts_patch, apply_users_patch, apply_autodjs_patch,
  apply_relays_patch,
}
use rusty_ice.Admin.ConfigWrite.Accepts.{validate_transcode-none}
use rusty_ice.Admin.ConfigWrite.Accepts.Sections.{
  validate_users_patch-none, validate_mounts_patch-none, validate_autodjs_patch-none,
  validate_relays_patch-none,
}
use rusty_ice.Admin.ConfigApi.{
  TranscodePutBody, MountSubBody, UserSubBody, AutoDjSubBody, RelaySubBody,
}
use rusty_ice.Admin.ConfigApi.Candidate.Resolve.{
  Result, resolve_mounts, resolve_relay, collect_relays,
}
use rusty_ice.Admin.ConfigApi.Candidate.Decide.{
  accepted, decide_transcode, decide_mounts, decide_users, decide_autodjs, decide_relays,
  autodj_patch,
}
use rusty_ice.Admin.ConfigApi.Candidate.Accepted.{
  decide_users-accepted, if_valid-accepted, check_paths-accepted, with_resolved-accepted,
}
use rusty_ice.Admin.ConfigApi.ReadBack.{IsOptionalU32, IsSizedOptional}
use rusty_ice.Admin.ConfigApi.ReadBack.Document.{read_config-Holds}
use rusty_ice.Admin.ConfigApi.ReadBack.Tables.{
  read_config-apply_transcode_patch, read_config-apply_users_patch, apply_users_patch-inline,
}
use rusty_ice.Admin.ConfigApi.ReadBack.Saved.{
  read_config-apply_mounts_patch, read_config-apply_autodjs_patch, read_config-apply_relays_patch,
}
use rusty_ice.Admin.ConfigApi.Synced.{Patches}
use rusty_ice.Admin.ConfigApi.Synced.Sized.{
  IsSound-sized, resolve_mounts-listeners, sized_mounts, sized_autodjs, sized_relays, roles,
  autodj-listeners, relay-listeners,
}

module _ (T : TomlEdit) where
  pub Patches-mounts :
      (body : List MountSubBody) (cfg c : Config) (p : MountsPatch)
      → All (λ m. IsOptionalU32 m.max_listeners) body
      → decide_mounts body cfg ≡ accepted c p
      → Patches T (apply_mounts_patch T p) cfg c
  unfolding decide_mounts
  Patches-mounts body cfg c p sized h doc reads =
      let (ps, r, e) =
        with_resolved-accepted
          (resolve_mounts (collect_mounts [] cfg.mounts) cfg.auth.source_password 0 body) _ c p h in
      let (v, f) = if_valid-accepted _ _ c p e in
      let (o, q, _) = check_paths-accepted _ _ c p f in
      let (_, sound) = (validate_mounts_patch-none (record { mounts = ps })).0 v in
      let big = resolve_mounts-listeners _ _ 0 body ps sized r in
      let (doc', a, b) =
        read_config-apply_mounts_patch T (record { mounts = ps }) doc cfg c reads
          (sized_mounts ps big sound) o in
      inr (doc', subst (λ x. apply_mounts_patch T x doc ≡ val doc') q a, b)

  pub Patches-autodjs :
      (body : List AutoDjSubBody) (cfg c : Config) (p : AutoDjsPatch)
      → All (λ a. IsOptionalU32 a.max_listeners) body
      → decide_autodjs body cfg ≡ accepted c p
      → Patches T (apply_autodjs_patch T p) cfg c
  unfolding decide_autodjs
  Patches-autodjs body cfg c p sized h doc reads =
      let djs = map autodj_patch body in
      let (v, f) = if_valid-accepted _ _ c p h in
      let (o, q, _) = check_paths-accepted _ _ c p f in
      let (_, sound) = (validate_autodjs_patch-none (record { autodjs = djs })).0 v in
      let good = sized_autodjs djs (autodj-listeners body sized) sound in
      let (doc', a, b) =
        read_config-apply_autodjs_patch T (record { autodjs = djs }) doc cfg c reads good o in
      inr (doc', subst (λ x. apply_autodjs_patch T x doc ≡ val doc') q a, b)

  pub Patches-relays :
      (body : List RelaySubBody) (cfg c : Config) (p : RelaysPatch)
      → All (λ r. IsOptionalU32 r.max_listeners) body
      → decide_relays body cfg ≡ accepted c p
      → Patches T (apply_relays_patch T p) cfg c
  unfolding decide_relays
  Patches-relays body cfg c p sized h doc reads =
      let existing = collect_relays [] cfg.relays in
      let rs = map (resolve_relay existing) body in
      let (v, f) = if_valid-accepted _ _ c p h in
      let (o, q, _) = check_paths-accepted _ _ c p f in
      let (_, sound) = (validate_relays_patch-none (record { relays = rs })).0 v in
      let good = sized_relays rs (relay-listeners existing body sized) sound in
      let (doc', a, b) =
        read_config-apply_relays_patch T (record { relays = rs }) doc cfg c reads good o in
      inr (doc', subst (λ x. apply_relays_patch T x doc ≡ val doc') q a, b)

  transcode_sized :
      (p : TranscodePatch) → validate_transcode_patch p ≡ none → IsSizedOptional p.transcode
  unfolding validate_transcode_patch
  transcode_sized p h = elim (Option-cases p.transcode) [
    | inl e ↦ subst IsSizedOptional (sym e) tt
    | inr (s, e) ↦
        subst IsSizedOptional (sym e)
          (IsSound-sized s ((validate_transcode-none s).0 (ground (arith, e, h))))
  ]

  pub Patches-transcode :
      (body : TranscodePutBody) (cfg c : Config) (p : TranscodePatch)
      → decide_transcode body cfg ≡ accepted c p
      → Patches T (apply_transcode_patch T p) cfg c
  unfolding decide_transcode
  Patches-transcode body cfg c p h doc reads =
      let (v, f) = if_valid-accepted _ _ c p h in
      let (o, q, _) = check_paths-accepted _ _ c p f in
      let (doc', a, b) =
        read_config-apply_transcode_patch T _ doc cfg c reads (transcode_sized _ v) o in
      inr (doc', subst (λ x. apply_transcode_patch T x doc ≡ val doc') q a, b)

  auth_item :
      (i : Item T.Table) (o : Option (Item T.Table)) (cfg : Config)
      → o ≡ some i
      → required (read_auth T) o ≡ some cfg.auth
      → ((t : T.Table) × (o ≡ some (table t))) ⊎ ((t : T.Table) × (o ≡ some (inline_table t)))
  unfolding required read_auth entries
  auth_item (table t) o cfg e h = inl (t, e)
  auth_item (inline_table t) o cfg e h = inr (t, e)
  auth_item (text _) o cfg e h = absurd (ground (arith, e, h))
  auth_item (integer _) o cfg e h = absurd (ground (arith, e, h))
  auth_item (boolean _) o cfg e h = absurd (ground (arith, e, h))
  auth_item (array_of_tables _) o cfg e h = absurd (ground (arith, e, h))
  auth_item other o cfg e h = absurd (ground (arith, e, h))

  -- The item of the `auth` section is a table of its own or an inline one.
  auth_table :
      (doc : T.Table) (cfg : Config)
      → read_config T doc ≡ some cfg
      → ((t : T.Table) × (T.get (ascii "auth") doc ≡ some (table t)))
        ⊎ ((t : T.Table) × (T.get (ascii "auth") doc ≡ some (inline_table t)))
  unfolding required read_auth entries
  auth_table doc cfg h =
      let held = (read_config-Holds T doc cfg h).auth_holds in
      elim (Option-cases (T.get (ascii "auth") doc)) [
        | inl e ↦ absurd (ground (arith, e, held))
        | inr (i, e) ↦ auth_item i (T.get (ascii "auth") doc) cfg e held
      ]

  pub Patches-users :
      (hash : Text → Result Text) (who : Text) (body : List UserSubBody) (cfg c : Config)
      → (p : UsersPatch) → decide_users hash who body cfg ≡ accepted c p
      → Patches T (apply_users_patch T p) cfg c
  Patches-users hash who body cfg c p h doc reads =
      let (_, _, v, e) = decide_users-accepted hash who body cfg c p h in
      let (_, sound, _) = (validate_users_patch-none p).0 v in
      elim (auth_table doc cfg reads) [
        | inr (t, a) ↦ inl (apply_users_patch-inline T p doc t a)
        | inl (t, a) ↦
            let (doc', w, r) =
              read_config-apply_users_patch T p doc t cfg reads a (roles p.users sound) in
            inr (doc', w, ground (arith, e, r))
      ]
