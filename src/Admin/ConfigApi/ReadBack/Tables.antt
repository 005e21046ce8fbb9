-- ===== src/Admin/ConfigApi/ReadBack/Tables.antt =====
-- crates/rustyice-admin/src/config_write.rs: what the file reads as after a save of the transcode block
-- or of the users, whose tables keep their other keys.
use rusty_ice.Prelude.{
  ◌≡◌, ◌∙◌, refl, subst, Option, none, some, arith, val, panic, Checked-cases, Option-cases, inl,
  inr, ascii, List, [], ◌∷◌, map, All, bytes_eq_refl, lt→ltb, ◌^◌,
}
use rusty_ice.Prelude.Options.{some->>=}
use rusty_ice.Core.Mount.{Text}
use rusty_ice.Core.Toml.{
  Item, table, inline_table, text, integer, boolean, array_of_tables, other, TomlEdit, set, entries,
}
use rusty_ice.Core.Toml.Fill.{Assignments, fill, get-fill}
use rusty_ice.Core.Config.{Config, TranscodeFormat, TranscodeConfig}
use rusty_ice.Core.Config.Read.{
  as_text, as_unsigned, as_u32, as_format, as_list, required, optional, defaulted,
}
use rusty_ice.Core.Config.Read.Sections.{read_config, read_transcode, read_auth, read_user}
use rusty_ice.Admin.ConfigWrite.{TranscodePatch, TranscodeSubPatch, UserSubPatch, UsersPatch}
use rusty_ice.Admin.ConfigWrite.Apply.{
  set_all, ensure_table, transcode_values, apply_transcode_patch, set_tables, user_table,
  expect_table, apply_users_patch,
}
use rusty_ice.Admin.ConfigApi.Candidate.{
  format_of, transcode_of, optional_transcode, overlay_transcode, user_of,
}
use rusty_ice.Admin.ConfigApi.Candidate.Decide.{overlay_users}
use rusty_ice.Admin.ConfigApi.ReadBack.{
  IsSizedTranscode, IsSizedOptional, format_from_str-format_of,
}
use rusty_ice.Admin.ConfigApi.ReadBack.Entries.{IsRole, each-read_user}
use rusty_ice.Admin.ConfigApi.ReadBack.Document.{
  Holds-read_config, read_config-Holds, DifferAt, get-set_tables, read-set_tables, Holds-transcode,
  Holds-auth,
}

module _ (T : TomlEdit) where
  abbrev pub all_given : List (Text × Item T.Table) → Assignments T.Table
  all_given [] = []
  all_given ((k, v) ∷ vs) = (k, some v) ∷ all_given vs

  set-entries :
      (k : Text) (v i : Item T.Table) (t : T.Table)
      → entries T i ≡ some t
      → (j : Item T.Table) × (set T k v i ≡ val j) × (entries T j ≡ some (T.insert k v t))
  unfolding set entries
  set-entries k v (table t') t h = (table (T.insert k v t'), refl, ground (arith, h))
  set-entries k v (inline_table t') t h = (inline_table (T.insert k v t'), refl, ground (arith, h))
  set-entries k v (text _) t h = absurd (ground (arith, h))
  set-entries k v (integer _) t h = absurd (ground (arith, h))
  set-entries k v (boolean _) t h = absurd (ground (arith, h))
  set-entries k v (array_of_tables _) t h = absurd (ground (arith, h))
  set-entries k v other t h = absurd (ground (arith, h))

  -- Setting keys of an item that is a table gives a table with these keys.
  pub set_all-entries :
      (vs : List (Text × Item T.Table)) (i : Item T.Table) (t : T.Table)
      → entries T i ≡ some t
      → (i' : Item T.Table) × (set_all T vs i ≡ val i')
        × (entries T i' ≡ some (fill T (all_given vs) t))
  unfolding set_all fill
  set_all-entries [] i t h = (i, refl, h)
  set_all-entries ((k, v) ∷ vs) i t h =
      let (j, e, f) = set-entries k v i t h in
      let (i', g, l) = set_all-entries vs j (T.insert k v t) f in (i', rw e g, l)

  pub DifferAt-insert :
      (key : Text) (i : Item T.Table) (doc : T.Table) → DifferAt T key doc (T.insert key i doc)
  DifferAt-insert key i doc j n = rw (T.get-insert j key i doc, n) refl

  DifferAt-remove : (key : Text) (doc : T.Table) → DifferAt T key doc (T.remove key doc)
  DifferAt-remove key doc j n = rw (T.get-remove j key doc, n) refl

  read_transcode-fill :
      (s : TranscodeSubPatch) (f : TranscodeFormat) (i : Item T.Table) (t : T.Table)
      → IsSizedTranscode s
      → format_of s.format ≡ val f
      → entries T i ≡ some (fill T (all_given (transcode_values T s)) t)
      → read_transcode T i
        ≡ some (record { format = f; sample_rate = s.sample_rate; bitrate_kbps = s.bitrate_kbps })
  unfolding read_transcode transcode_values required as_text as_u32 as_unsigned as_format
  read_transcode-fill s f i t (h, k) e g = simp (
    g,
    get-fill T,
    format_from_str-format_of s.format f e,
    lt→ltb s.sample_rate (2 ^ 32) h,
    lt→ltb s.bitrate_kbps (2 ^ 32) k,
  )

  -- The item that a section's keys are set on is a table, if what there is of it can be read.
  ensure_table-entries :
      {A : Type 0} (read : Item T.Table → Option A) (name : Text) (doc : T.Table) (a : Option A)
      → ((i : Item T.Table) (a : A) → read i ≡ some a → (t : T.Table) × (entries T i ≡ some t))
      → optional read (T.get name doc) ≡ some a
      → (t : T.Table) × (entries T (ensure_table T name doc) ≡ some t)
  unfolding ensure_table optional entries
  ensure_table-entries read name doc a is_table h = elim (Option-cases (T.get name doc)) [
    | inl e ↦ (T.empty, ground (arith, e))
    | inr (i, e) ↦
        let (b, f, _) = some->>= (read i) (λ b. some (some b)) a (ground (arith, e, h)) in
        let (t, g) = is_table i b f in (t, ground (arith, e, g))
  ]

  read_transcode-entries :
      (i : Item T.Table) (tc : TranscodeConfig)
      → read_transcode T i ≡ some tc
      → (t : T.Table) × (entries T i ≡ some t)
  unfolding read_transcode
  read_transcode-entries i tc h = let (t, e, _) = some->>= _ _ tc h in (t, e)

  set_transcode :
      (s : TranscodeSubPatch) (doc : T.Table) (cfg : Config) (tc : TranscodeConfig)
      → read_config T doc ≡ some cfg
      → IsSizedTranscode s
      → transcode_of s ≡ val tc
      → (i : Item T.Table) × (set_all T
            (transcode_values T s)
            (ensure_table T (ascii "transcode") doc)
          ≡ val i)
        × (read_transcode T i ≡ some tc)
  unfolding transcode_of
  set_transcode s doc cfg tc h sized e =
      let old = read_config-Holds T doc cfg h in
      let (t, f) =
        ensure_table-entries (read_transcode T) (ascii "transcode") doc cfg.transcode
          read_transcode-entries old.transcode_holds in
      let (i, g, l) =
        set_all-entries (transcode_values T s) (ensure_table T (ascii "transcode") doc) t f in
      elim (Checked-cases (format_of s.format)) [
        | inl p ↦ absurd (ground (arith, p, e))
        | inr (x, y) ↦ (i, g, ground (arith, y, e, read_transcode-fill s x i t sized y l))
      ]

  -- The file after a save of the transcode block reads as the candidate, where it read as the
  -- configuration that the candidate was made from.
  pub read_config-apply_transcode_patch :
      (p : TranscodePatch) (doc : T.Table) (cfg candidate : Config)
      → read_config T doc ≡ some cfg
      → IsSizedOptional p.transcode
      → overlay_transcode p cfg ≡ val candidate
      → (doc' : T.Table) × (apply_transcode_patch T p doc ≡ val doc')
        × (read_config T doc' ≡ some candidate)
  unfolding apply_transcode_patch overlay_transcode optional_transcode optional
  read_config-apply_transcode_patch p doc cfg candidate h sized e =
      let key = ascii "transcode" in
      let old = read_config-Holds T doc cfg h in
      elim (Option-cases p.transcode) [
        | inl n ↦
            let gone : optional (read_transcode T) (T.get key (T.remove key doc)) ≡ some none =
              rw (T.get-remove key key doc) refl in
            let new =
              Holds-transcode T doc (T.remove key doc) cfg none old (DifferAt-remove key doc)
                gone in
            (
              T.remove key doc,
              ground (arith, n),
              ground (
                arith,
                n,
                e,
                Holds-read_config T (T.remove key doc) (record cfg { transcode = none }) new,
              ),
            )
        | inr (s, n) ↦ elim (Checked-cases (transcode_of s)) [
          | inl x ↦ absurd (ground (arith, n, x, e))
          | inr (tc, g) ↦
              let (i, f, l) = set_transcode s doc cfg tc h (subst IsSizedOptional n sized) g in
              let doc' = T.insert key i doc in
              let kept : optional (read_transcode T) (T.get key doc') ≡ some (some tc) =
                ground (arith, T.get-insert key key i doc, bytes_eq_refl key, l) in
              let new =
                Holds-transcode T doc doc' cfg (some tc) old (DifferAt-insert key i doc) kept in
              (
                doc',
                ground (arith, n, f),
                ground (
                  arith,
                  n,
                  g,
                  e,
                  Holds-read_config T doc' (record cfg { transcode = some tc }) new,
                ),
              )
        ]
      ]

  read_users :
      (us : List UserSubPatch) (t : T.Table) (cfg : Config)
      → read_auth T (table t) ≡ some cfg.auth
      → All IsRole us
      → read_auth T (table (set_tables T (ascii "users") (map (user_table T) us) t))
        ≡ some (record cfg.auth { users = map user_of us })
  unfolding read_auth entries
  read_users us t cfg h roles =
      let key = ascii "users" in
      let ts = map (user_table T) us in
      let (_, e, k) = some->>= (defaulted [] (as_list (read_user T)) (T.get key t)) _ cfg.auth h in
      let (_, f, l) =
        some->>= (optional as_text (T.get (ascii "source_password") t)) _ cfg.auth k in
      let written = read-set_tables T (read_user T) key ts t ∙ each-read_user T us roles in
      let frame = get-set_tables T (ascii "source_password") key ts t refl in
      ground (arith, written, frame, f, l)

  -- The file after a save of the users reads as the candidate, where it read as the configuration that
  -- the candidate was made from and `auth` is a table of its own, not an inline one.
  pub read_config-apply_users_patch :
      (p : UsersPatch) (doc t : T.Table) (cfg : Config)
      → read_config T doc ≡ some cfg
      → T.get (ascii "auth") doc ≡ some (table t)
      → All IsRole p.users
      → (doc' : T.Table) × (apply_users_patch T p doc ≡ val doc')
        × (read_config T doc' ≡ some (overlay_users p cfg))
  unfolding apply_users_patch overlay_users ensure_table expect_table required
  read_config-apply_users_patch p doc t cfg h a roles =
      let key = ascii "auth" in
      let old = read_config-Holds T doc cfg h in
      let auth = table (set_tables T (ascii "users") (map (user_table T) p.users) t) in
      let doc' = T.insert key auth doc in
      let read = read_users p.users t cfg (ground (arith, a, old.auth_holds)) roles in
      let kept : required (read_auth T) (T.get key doc')
          ≡ some (record cfg.auth { users = map user_of p.users }) =
        ground (arith, T.get-insert key key auth doc, bytes_eq_refl key, read) in
      let new =
        Holds-auth T doc doc' cfg (record cfg.auth { users = map user_of p.users }) old
          (DifferAt-insert key auth doc) kept in
      (doc', ground (arith, a), Holds-read_config T doc' (overlay_users p cfg) new)

  -- An inline `auth = { .. }` makes the same save panic.
  pub apply_users_patch-inline :
      (p : UsersPatch) (doc t : T.Table)
      → T.get (ascii "auth") doc ≡ some (inline_table t)
      → apply_users_patch T p doc ≡ panic
  unfolding apply_users_patch ensure_table expect_table
  apply_users_patch-inline p doc t a = ground (arith, a)
