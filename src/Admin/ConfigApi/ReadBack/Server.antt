-- ===== src/Admin/ConfigApi/ReadBack/Server.antt =====
-- crates/rustyice-admin/src/config_write.rs: what the file reads as after a save of the server section.
use rusty_ice.Prelude.{
  ℕ, ◌<◌, ◌^◌, ◌≡◌, refl, Option, none, some, arith, val, Checked-cases, inl, inr, ascii, List, [],
  ◌∷◌, bytes_eq_iff, true, ltb, lt→ltb,
}
use rusty_ice.Prelude.Options.{some->>=}
use rusty_ice.Core.Mount.{Text}
use rusty_ice.Core.Toml.{Item, table, text, integer, TomlEdit, set, remove_key, entries}
use rusty_ice.Core.Toml.Fill.{fill, get-fill}
use rusty_ice.Core.Config.{Config, LogFormat, AuthConfig, LimitsConfig}
use rusty_ice.Core.Config.Read.{
  as_text, as_unsigned, as_u32, as_u64, as_log_format, log_format_from_str, required, optional,
  defaulted, as_list,
}
use rusty_ice.Core.Config.Read.Sections.{
  read_config, read_server, read_logging, read_limits, read_auth, read_user,
}
use rusty_ice.Admin.ConfigWrite.{ServerPatch, AuthSubPatch}
use rusty_ice.Admin.ConfigWrite.Apply.{
  to_i64, set_all, set_or_remove, integer_value, text_value, ensure_table, server_values,
  logging_values, limits_values, apply_auth, apply_server_patch,
}
use rusty_ice.Admin.ConfigApi.Candidate.{log_format_of, overlay_server, rotate_source_password}
use rusty_ice.Admin.ConfigApi.ReadBack.{IsU32, IsOptionalU32}
use rusty_ice.Admin.ConfigApi.ReadBack.Document.{
  Holds, Holds-read_config, read_config-Holds, Holds-server, Holds-logging, Holds-limits,
  Holds-auth,
}
use rusty_ice.Admin.ConfigApi.ReadBack.Tables.{all_given, DifferAt-insert}

log_format_from_str-log_format_of :
    (s : Text) (f : LogFormat) → log_format_of s ≡ val f → log_format_from_str s ≡ some f
unfolding log_format_of log_format_from_str
log_format_from_str-log_format_of s f h =
    ground (arith, h, bytes_eq_iff s (ascii "pretty"), bytes_eq_iff s (ascii "json"))

-- The numbers that the types of the fields bound, and two that the file holds up to 2^63.
pub record IsSizedServer (p : ServerPatch) : Type 0 where
  pub listeners_size : IsU32 p.limits.max_listeners_global
  pub ring_bound : p.limits.ring_size < 2 ^ 63
  pub grace_bound : p.limits.slow_listener_grace_s < 2 ^ 63
  pub burst_size_bound : IsU32 p.limits.burst_size
  pub kbps_size : IsOptionalU32 p.limits.source_max_kbps

to_i64_small : (n : ℕ) → n < 2 ^ 63 → to_i64 n ≡ n
unfolding to_i64
to_i64_small n h = ground (arith, lt→ltb n (2 ^ 63) h)

u64_small : (n : ℕ) → n < 2 ^ 63 → ltb n (2 ^ 64) ≡ true
u64_small n h = lt→ltb n (2 ^ 64) (omega arith)

abbrev limits_config : ServerPatch → Option ℕ → LimitsConfig
limits_config p kbps = record {
  max_listeners_global = p.limits.max_listeners_global;
  ring_size = p.limits.ring_size;
  slow_listener_grace_s = p.limits.slow_listener_grace_s;
  source_max_kbps = kbps;
  burst_size = p.limits.burst_size;
}

module _ (T : TomlEdit) where
  set_all-table :
      (vs : List (Text × Item T.Table)) (t : T.Table)
      → set_all T vs (table t) ≡ val (table (fill T (all_given T vs) t))
  unfolding set_all set fill
  set_all-table [] t = refl
  set_all-table ((k, v) ∷ vs) t = set_all-table vs (T.insert k v t)

  read_server-fill :
      (p : ServerPatch) (t : T.Table)
      → read_server T (table (fill T (all_given T (server_values T p)) t))
        ≡ some (record {
          stream_bind = p.server.stream_bind;
          admin_bind = p.server.admin_bind;
          hostname = p.server.hostname;
        })
  unfolding read_server server_values required as_text entries
  read_server-fill p t = simp (get-fill T)

  read_logging-fill :
      (p : ServerPatch) (f : LogFormat) (t : T.Table)
      → log_format_of p.logging.format ≡ val f
      → read_logging T (table (fill T (all_given T (logging_values T p)) t))
        ≡ some (record { level = p.logging.level; format = f })
  unfolding read_logging logging_values required as_text as_log_format entries
  read_logging-fill p f t h =
      simp (get-fill T, log_format_from_str-log_format_of p.logging.format f h)

  set_limits :
      (p : ServerPatch) (kbps : Option ℕ) (t : T.Table)
      → IsSizedServer p
      → IsOptionalU32 kbps
      → (t' : T.Table) × (set_or_remove T
            (ascii "source_max_kbps")
            (integer_value kbps)
            (table (fill T (all_given T (limits_values T p)) t))
          ≡ val (table t'))
        × (read_limits T (table t') ≡ some (limits_config p kbps))
  unfolding set_or_remove set remove_key read_limits limits_values required optional defaulted
      as_u32 as_u64 as_unsigned entries
  set_limits p none t h k = (
    T.remove (ascii "source_max_kbps") (fill T (all_given T (limits_values T p)) t),
    refl,
    simp (
      T.get-remove,
      get-fill T,
      to_i64_small p.limits.ring_size h.ring_bound,
      to_i64_small p.limits.slow_listener_grace_s h.grace_bound,
      u64_small p.limits.ring_size h.ring_bound,
      u64_small p.limits.slow_listener_grace_s h.grace_bound,
      lt→ltb p.limits.max_listeners_global (2 ^ 32) h.listeners_size,
      lt→ltb p.limits.burst_size (2 ^ 32) h.burst_size_bound,
    ),
  )
  set_limits p (some n) t h k = (
    T.insert (ascii "source_max_kbps") (integer n) (fill T (all_given T (limits_values T p)) t),
    refl,
    simp (
      T.get-insert,
      get-fill T,
      to_i64_small p.limits.ring_size h.ring_bound,
      to_i64_small p.limits.slow_listener_grace_s h.grace_bound,
      u64_small p.limits.ring_size h.ring_bound,
      u64_small p.limits.slow_listener_grace_s h.grace_bound,
      lt→ltb p.limits.max_listeners_global (2 ^ 32) h.listeners_size,
      lt→ltb p.limits.burst_size (2 ^ 32) h.burst_size_bound,
      lt→ltb n (2 ^ 32) k,
    ),
  )

  set_password :
      (o : Option Text) (t : T.Table) (auth : AuthConfig)
      → read_auth T (table t) ≡ some auth
      → (t' : T.Table) × (set_or_remove T (ascii "source_password") (text_value o) (table t)
          ≡ val (table t'))
        × (read_auth T (table t') ≡ some (record auth { source_password = o }))
  unfolding set_or_remove set remove_key read_auth entries optional as_text
  set_password none t auth h =
      let key = ascii "source_password" in
      let (_, e, k) =
        some->>= (defaulted [] (as_list (read_user T)) (T.get (ascii "users") t)) _ auth h in
      let (_, _, l) = some->>= (optional as_text (T.get key t)) _ auth k in
      let frame : T.get (ascii "users") (T.remove key t) ≡ T.get (ascii "users") t =
        rw (T.get-remove (ascii "users") key t) refl in
      let gone : T.get key (T.remove key t) ≡ none = rw (T.get-remove key key t) refl in
      (T.remove key t, refl, ground (arith, frame, gone, e, l))
  set_password (some s) t auth h =
      let key = ascii "source_password" in
      let (_, e, k) =
        some->>= (defaulted [] (as_list (read_user T)) (T.get (ascii "users") t)) _ auth h in
      let (_, _, l) = some->>= (optional as_text (T.get key t)) _ auth k in
      let frame : T.get (ascii "users") (T.insert key (text s) t) ≡ T.get (ascii "users") t =
        rw (T.get-insert (ascii "users") key (text s) t) refl in
      let here : T.get key (T.insert key (text s) t) ≡ some (text s) =
        rw (T.get-insert key key (text s) t) refl in
      (T.insert key (text s) t, refl, ground (arith, frame, here, e, l))

  rotate_auth :
      (a : Option AuthSubPatch) (doc t : T.Table) (cfg : Config)
      → Holds T doc cfg
      → T.get (ascii "auth") doc ≡ some (table t)
      → (doc' : T.Table) × (apply_auth T a doc ≡ val doc')
        × Holds T doc' (record cfg {
          auth = record cfg.auth {
            source_password = rotate_source_password a cfg.auth.source_password;
          };
        })
  unfolding apply_auth rotate_source_password ensure_table required
  rotate_auth none doc t cfg h e = (doc, refl, h)
  rotate_auth (some a) doc t cfg h e =
      let key = ascii "auth" in
      let auth = record cfg.auth { source_password = a.source_password } in
      let (t', f, g) =
        set_password a.source_password t cfg.auth (ground (arith, e, h.auth_holds)) in
      let doc' = T.insert key (table t') doc in
      let kept : required (read_auth T) (T.get key doc') ≡ some auth =
        rw (T.get-insert key key (table t') doc) g in
      (
        doc',
        ground (arith, e, f),
        Holds-auth T doc doc' cfg auth h (DifferAt-insert T key (table t') doc) kept,
      )

  -- `ensure_table` and the assignments on a section that is a table of its own.
  set_section :
      (key : Text) (vs : List (Text × Item T.Table)) (doc t : T.Table)
      → T.get key doc ≡ some (table t)
      → set_all T vs (ensure_table T key doc) ≡ val (table (fill T (all_given T vs) t))
  unfolding ensure_table
  set_section key vs doc t h = ground (arith, h, set_all-table vs t)

  server_kept :
      (p : ServerPatch) (doc t : T.Table)
      → required (read_server T) (
          T.get
            (ascii "server")
            (T.insert (ascii "server") (table (fill T (all_given T (server_values T p)) t)) doc))
        ≡ some (record {
          stream_bind = p.server.stream_bind;
          admin_bind = p.server.admin_bind;
          hostname = p.server.hostname;
        })
  unfolding required
  server_kept p doc t =
      rw (T.get-insert (ascii "server") (ascii "server") _ doc) (read_server-fill p t)

  logging_kept :
      (p : ServerPatch) (f : LogFormat) (doc t : T.Table)
      → log_format_of p.logging.format ≡ val f
      → required (read_logging T) (
          T.get
            (ascii "logging")
            (T.insert (ascii "logging") (table (fill T (all_given T (logging_values T p)) t)) doc))
        ≡ some (record { level = p.logging.level; format = f })
  unfolding required
  logging_kept p f doc t h =
      rw (T.get-insert (ascii "logging") (ascii "logging") _ doc) (read_logging-fill p f t h)

  limits_kept :
      (c : LimitsConfig) (doc t : T.Table)
      → read_limits T (table t) ≡ some c
      → required (read_limits T) (T.get (ascii "limits") (T.insert (ascii "limits") (table t) doc))
        ≡ some c
  unfolding required
  limits_kept c doc t h = rw (T.get-insert (ascii "limits") (ascii "limits") (table t) doc) h

  -- The file after a save of the server section reads as the candidate, where it read as the configuration
  -- that the candidate was made from, its four tables are written as tables of their own, and the ring
  -- size and the grace period are below 2^63.
  pub read_config-apply_server_patch :
      (p : ServerPatch) (doc server logging limits auth : T.Table) (cfg candidate : Config)
      → read_config T doc ≡ some cfg
      → T.get (ascii "server") doc ≡ some (table server)
      → T.get (ascii "logging") doc ≡ some (table logging)
      → T.get (ascii "limits") doc ≡ some (table limits)
      → T.get (ascii "auth") doc ≡ some (table auth)
      → IsSizedServer p
      → overlay_server p cfg ≡ val candidate
      → (doc' : T.Table) × (apply_server_patch T p doc ≡ val doc')
        × (read_config T doc' ≡ some candidate)
  unfolding apply_server_patch overlay_server required
  read_config-apply_server_patch p doc server logging limits auth cfg candidate h hs hl hm ha sized
        e =
      elim (Checked-cases (log_format_of p.logging.format)) [
        | inl x ↦ absurd (ground (arith, x, e))
        | inr (f, g) ↦
            let server' = table (fill T (all_given T (server_values T p)) server) in
            let doc1 = T.insert (ascii "server") server' doc in
            let logging' = table (fill T (all_given T (logging_values T p)) logging) in
            let doc2 = T.insert (ascii "logging") logging' doc1 in
            let (limits', capped, read) =
              set_limits p p.limits.source_max_kbps limits sized sized.kbps_size in
            let doc3 = T.insert (ascii "limits") (table limits') doc2 in
            let e1 = set_section (ascii "server") (server_values T p) doc server hs in
            let l1 : T.get (ascii "logging") doc1 ≡ some (table logging) =
              rw (T.get-insert (ascii "logging") (ascii "server") server' doc) hl in
            let e2 = set_section (ascii "logging") (logging_values T p) doc1 logging l1 in
            let l2 : T.get (ascii "limits") doc2 ≡ some (table limits) =
              rw
                (
                  T.get-insert (ascii "limits") (ascii "logging") logging' doc1,
                  T.get-insert (ascii "limits") (ascii "server") server' doc,
                )
                hm in
            let e3 = set_section (ascii "limits") (limits_values T p) doc2 limits l2 in
            let l3 : T.get (ascii "auth") doc3 ≡ some (table auth) =
              rw
                (
                  T.get-insert (ascii "auth") (ascii "limits") (table limits') doc2,
                  T.get-insert (ascii "auth") (ascii "logging") logging' doc1,
                  T.get-insert (ascii "auth") (ascii "server") server' doc,
                )
                ha in
            let h1 =
              Holds-server T doc doc1 cfg _ (read_config-Holds T doc cfg h)
                (DifferAt-insert T (ascii "server") server' doc) (server_kept p doc server) in
            let h2 =
              Holds-logging T doc1 doc2 _ _ h1 (DifferAt-insert T (ascii "logging") logging' doc1)
                (logging_kept p f doc1 logging g) in
            let h3 =
              Holds-limits T doc2 doc3 _ _ h2
                (DifferAt-insert T (ascii "limits") (table limits') doc2)
                (limits_kept (limits_config p p.limits.source_max_kbps) doc2 limits' read) in
            let (doc', a, h4) = rotate_auth p.auth doc3 auth _ h3 l3 in
            (
              doc',
              ground (arith, e1, e2, e3, capped, a),
              ground (arith, g, e, Holds-read_config T doc' _ h4),
            )
      ]
