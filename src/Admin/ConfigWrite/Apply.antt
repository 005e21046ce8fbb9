-- ===== src/Admin/ConfigWrite/Apply.antt =====
-- crates/rustyice-admin/src/config_write.rs: the patches' writing into a document, which panics where an
-- existing item is no table.
use rusty_ice.Prelude.{
  ℕ, Bool, false, Option, none, some, List, [], ◌∷◌, map, ascii, ltb, ◌^◌, ◌-◌, Checked, val, panic,
  if◌then◌else◌, ◌>>=◌,
}
use rusty_ice.Core.Mount.{Text}
use rusty_ice.Core.Toml.{
  Item, text, integer, boolean, table, array_of_tables, TomlEdit, set, remove_key,
}
use rusty_ice.Core.Toml.Fill.{fill}
use rusty_ice.Admin.ConfigWrite.{
  ServerPatch, AuthSubPatch, TranscodePatch, TranscodeSubPatch, MountSubPatch, MountsPatch,
  UserSubPatch, UsersPatch, AutoDjSubPatch, AutoDjsPatch, RelaySubPatch, RelaysPatch,
}

module _ {Table : Type 0} where
  -- `if let Some(s) = &field { t[key] = value(s.clone()); }`
  abbrev pub text_value : Option Text → Option (Item Table)
  text_value none = none
  text_value (some s) = some (text s)

  abbrev pub integer_value : Option ℕ → Option (Item Table)
  integer_value none = none
  integer_value (some n) = some (integer n)

  -- `if !field { t[key] = value(false); }`
  abbrev pub false_value : Bool → Option (Item Table)
  false_value b = if b then none else some (boolean false)

-- `i64::try_from(n).unwrap_or(i64::MAX)`
unfoldable pub to_i64 : ℕ → ℕ
to_i64 n = if ltb n (2 ^ 63) then n else 2 ^ 63 - 1

module _ (T : TomlEdit) where
  -- The item of a section after `ensure_table`, and the document with the changed item put back.
  unfoldable pub ensure_table : Text → T.Table → Item T.Table
  ensure_table name doc = elim (T.get name doc) [ none ↦ table T.empty | some i ↦ i ]

  -- `item[key] = value(..)` for each of them.
  unfoldable pub set_all : List (Text × Item T.Table) → Item T.Table → Checked (Item T.Table)
  set_all [] i = val i
  set_all ((key, v) ∷ rest) i = do j ← set T key v i; set_all rest j

  unfoldable pub set_or_remove :
      Text → Option (Item T.Table) → Item T.Table → Checked (Item T.Table)
  set_or_remove key (some v) i = set T key v i
  set_or_remove key none i = val (remove_key T key i)

  unfoldable pub server_values : ServerPatch → List (Text × Item T.Table)
  server_values p =
      (ascii "stream_bind", text p.server.stream_bind)
      ∷ (ascii "admin_bind", text p.server.admin_bind)
      ∷ (ascii "hostname", text p.server.hostname)
      ∷ []

  unfoldable pub logging_values : ServerPatch → List (Text × Item T.Table)
  logging_values p =
      (ascii "level", text p.logging.level) ∷ (ascii "format", text p.logging.format) ∷ []

  unfoldable pub limits_values : ServerPatch → List (Text × Item T.Table)
  limits_values p =
      (ascii "max_listeners_global", integer p.limits.max_listeners_global)
      ∷ (ascii "ring_size", integer (to_i64 p.limits.ring_size))
      ∷ (ascii "slow_listener_grace_s", integer (to_i64 p.limits.slow_listener_grace_s))
      ∷ (ascii "burst_size", integer p.limits.burst_size)
      ∷ []

  unfoldable pub apply_auth : Option AuthSubPatch → T.Table → Checked T.Table
  apply_auth none doc = val doc
  apply_auth (some a) doc = do
    auth ←
        set_or_remove (ascii "source_password") (text_value a.source_password)
          (ensure_table (ascii "auth") doc)
    val (T.insert (ascii "auth") auth doc)

  unfoldable pub apply_server_patch : ServerPatch → T.Table → Checked T.Table
  apply_server_patch p doc = do
    server ← set_all (server_values p) (ensure_table (ascii "server") doc)
    let doc1 = T.insert (ascii "server") server doc
    logging ← set_all (logging_values p) (ensure_table (ascii "logging") doc1)
    let doc2 = T.insert (ascii "logging") logging doc1
    limits ← set_all (limits_values p) (ensure_table (ascii "limits") doc2)
    capped ← set_or_remove (ascii "source_max_kbps") (integer_value p.limits.source_max_kbps) limits
    apply_auth p.auth (T.insert (ascii "limits") capped doc2)

  unfoldable pub transcode_values : TranscodeSubPatch → List (Text × Item T.Table)
  transcode_values sub =
      (ascii "format", text sub.format)
      ∷ (ascii "sample_rate", integer sub.sample_rate)
      ∷ (ascii "bitrate_kbps", integer sub.bitrate_kbps)
      ∷ []

  unfoldable pub apply_transcode_patch : TranscodePatch → T.Table → Checked T.Table
  apply_transcode_patch p doc = elim p.transcode [
    | none ↦ val (T.remove (ascii "transcode") doc)
    | some sub ↦ do
      t ← set_all (transcode_values sub) (ensure_table (ascii "transcode") doc)
      val (T.insert (ascii "transcode") t doc)
  ]

  -- The nested table of an entry.
  unfoldable pub nested_transcode : TranscodeSubPatch → Item T.Table
  nested_transcode tc = table (
      fill T
        ((ascii "format", some (text tc.format))
          ∷ (ascii "sample_rate", some (integer tc.sample_rate))
          ∷ (ascii "bitrate_kbps", some (integer tc.bitrate_kbps))
          ∷ [])
        T.empty)

  abbrev pub transcode_value : Option TranscodeSubPatch → Option (Item T.Table)
  transcode_value none = none
  transcode_value (some tc) = some (nested_transcode tc)

  unfoldable pub mount_table : MountSubPatch → T.Table
  mount_table m =
      fill T
        ((ascii "path", some (text m.path))
          ∷ (ascii "source_password", some (text m.source_password))
          ∷ (ascii "max_listeners", integer_value m.max_listeners)
          ∷ (ascii "name", text_value m.name)
          ∷ (ascii "description", text_value m.description)
          ∷ (ascii "genre", text_value m.genre)
          ∷ (ascii "url", text_value m.url)
          ∷ (ascii "burst_size", integer_value m.burst_size)
          ∷ (ascii "transcode", transcode_value m.transcode)
          ∷ [])
        T.empty

  unfoldable pub user_table : UserSubPatch → T.Table
  user_table u =
      fill T
        ((ascii "username", some (text u.username))
          ∷ (ascii "password_bcrypt", some (text u.password_bcrypt))
          ∷ (ascii "role", some (text u.role))
          ∷ [])
        T.empty

  unfoldable pub autodj_table : AutoDjSubPatch → T.Table
  autodj_table a =
      fill T
        ((ascii "mount", some (text a.mount))
          ∷ (ascii "folder", some (text a.folder))
          ∷ (ascii "enabled", false_value a.enabled)
          ∷ (ascii "loop", false_value a.loop_playlist)
          ∷ (ascii "order", some (text a.order))
          ∷ (ascii "name", text_value a.name)
          ∷ (ascii "description", text_value a.description)
          ∷ (ascii "genre", text_value a.genre)
          ∷ (ascii "url", text_value a.url)
          ∷ (ascii "max_listeners", integer_value a.max_listeners)
          ∷ (ascii "burst_size", integer_value a.burst_size)
          ∷ (ascii "transcode", some (nested_transcode a.transcode))
          ∷ [])
        T.empty

  unfoldable pub relay_table : RelaySubPatch → T.Table
  relay_table r =
      fill T
        ((ascii "mount", some (text r.mount))
          ∷ (ascii "upstream", some (text r.upstream))
          ∷ (ascii "enabled", false_value r.enabled)
          ∷ (ascii "name", text_value r.name)
          ∷ (ascii "description", text_value r.description)
          ∷ (ascii "genre", text_value r.genre)
          ∷ (ascii "url", text_value r.url)
          ∷ (ascii "username", text_value r.username)
          ∷ (ascii "password", text_value r.password)
          ∷ (ascii "max_listeners", integer_value r.max_listeners)
          ∷ (ascii "burst_size", integer_value r.burst_size)
          ∷ (ascii "transcode", transcode_value r.transcode)
          ∷ [])
        T.empty

  -- No entries at all take the key away.
  unfoldable pub set_tables : Text → List T.Table → T.Table → T.Table
  set_tables key [] doc = T.remove key doc
  set_tables key (t ∷ ts) doc = T.insert key (array_of_tables (t ∷ ts)) doc

  unfoldable pub apply_mounts_patch : MountsPatch → T.Table → Checked T.Table
  apply_mounts_patch p doc = val (set_tables (ascii "mounts") (map mount_table p.mounts) doc)

  unfoldable pub apply_autodjs_patch : AutoDjsPatch → T.Table → Checked T.Table
  apply_autodjs_patch p doc = val (set_tables (ascii "autodjs") (map autodj_table p.autodjs) doc)

  unfoldable pub apply_relays_patch : RelaysPatch → T.Table → Checked T.Table
  apply_relays_patch p doc = val (set_tables (ascii "relays") (map relay_table p.relays) doc)

  -- `as_table_mut().expect(..)`: an inline table panics too.
  unfoldable pub expect_table : Item T.Table → Checked T.Table
  expect_table (table t) = val t
  expect_table _ = panic

  unfoldable pub apply_users_patch : UsersPatch → T.Table → Checked T.Table
  apply_users_patch p doc = do
    auth ← expect_table (ensure_table (ascii "auth") doc)
    val (
        T.insert (ascii "auth") (table (set_tables (ascii "users") (map user_table p.users) auth))
          doc)
