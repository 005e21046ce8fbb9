-- ===== src/Admin/ConfigApi/ReadBack/Document.antt =====
-- crates/rustyice-admin/src/config_write.rs and crates/rustyice-core/src/config.rs: the file of a saved
-- section, read again: it holds the candidate, and every other section as before.
use rusty_ice.Prelude.{
  ◌≡◌, refl, Option, some, ascii, List, [], ◌∷◌, subst, false, bytes_eq_refl, bytes_eq,
}
use mathlib.Core.Option.{some-injective}
use rusty_ice.Prelude.Options.{some->>=}
use rusty_ice.Core.Mount.{Text}
use rusty_ice.Core.Toml.{array_of_tables, TomlEdit}
use rusty_ice.Core.Config.{
  Config, ServerConfig, LoggingConfig, LimitsConfig, AuthConfig, MountConfig, AutoDjConfig,
  RelayConfig, TranscodeConfig,
}
use rusty_ice.Core.Config.Read.{as_list, required, optional, defaulted, each}
use rusty_ice.Core.Config.Read.Sections.{
  read_config, read_server, read_logging, read_auth, read_limits, read_mount, read_autodj,
  read_relay, read_tls, read_transcode,
}
use rusty_ice.Admin.ConfigWrite.Apply.{set_tables}

module _ (T : TomlEdit) where
  -- Each section of the file reads as that of the configuration.
  pub record Holds (t : T.Table) (cfg : Config) : Type 0 where
    pub server_holds : required (read_server T) (T.get (ascii "server") t) ≡ some cfg.server
    pub logging_holds : required (read_logging T) (T.get (ascii "logging") t) ≡ some cfg.logging
    pub auth_holds : required (read_auth T) (T.get (ascii "auth") t) ≡ some cfg.auth
    pub limits_holds : required (read_limits T) (T.get (ascii "limits") t) ≡ some cfg.limits
    pub mounts_hold :
        defaulted [] (as_list (read_mount T)) (T.get (ascii "mounts") t) ≡ some cfg.mounts
    pub autodjs_hold :
        defaulted [] (as_list (read_autodj T)) (T.get (ascii "autodjs") t) ≡ some cfg.autodjs
    pub relays_hold :
        defaulted [] (as_list (read_relay T)) (T.get (ascii "relays") t) ≡ some cfg.relays
    pub tls_holds : optional (read_tls T) (T.get (ascii "tls") t) ≡ some cfg.tls
    pub transcode_holds :
        optional (read_transcode T) (T.get (ascii "transcode") t) ≡ some cfg.transcode

  pub Holds-read_config : (t : T.Table) (cfg : Config) → Holds t cfg → read_config T t ≡ some cfg
  unfolding read_config
  Holds-read_config t cfg h =
      rw
        (
          h.server_holds, h.logging_holds, h.auth_holds, h.limits_holds, h.mounts_hold,
          h.autodjs_hold, h.relays_hold, h.tls_holds, h.transcode_holds,
        )
        refl

  pub read_config-Holds : (t : T.Table) (cfg : Config) → read_config T t ≡ some cfg → Holds t cfg
  unfolding read_config
  read_config-Holds t cfg h =
      let (_, e1, h1) = some->>= _ _ cfg h in
      let (_, e2, h2) = some->>= _ _ cfg h1 in
      let (_, e3, h3) = some->>= _ _ cfg h2 in
      let (_, e4, h4) = some->>= _ _ cfg h3 in
      let (_, e5, h5) = some->>= _ _ cfg h4 in
      let (_, e6, h6) = some->>= _ _ cfg h5 in
      let (_, e7, h7) = some->>= _ _ cfg h6 in
      let (_, e8, h8) = some->>= _ _ cfg h7 in
      let (_, e9, h9) = some->>= _ _ cfg h8 in
      subst (Holds t) (some-injective _ _ h9) (record {
        server_holds = e1;
        logging_holds = e2;
        auth_holds = e3;
        limits_holds = e4;
        mounts_hold = e5;
        autodjs_hold = e6;
        relays_hold = e7;
        tls_holds = e8;
        transcode_holds = e9;
      })

  pub get-set_tables :
      (j key : Text) (ts : List T.Table) (doc : T.Table)
      → bytes_eq j key ≡ false
      → T.get j (set_tables T key ts doc) ≡ T.get j doc
  unfolding set_tables
  get-set_tables j key [] doc h = rw (T.get-remove j key doc, h) refl
  get-set_tables j key (t ∷ ts) doc h =
      rw (T.get-insert j key (array_of_tables (t ∷ ts)) doc, h) refl

  pub read-set_tables :
      {A : Type 0} (read : T.Table → Option A) (key : Text) (ts : List T.Table) (doc : T.Table)
      → defaulted [] (as_list read) (T.get key (set_tables T key ts doc)) ≡ each read ts
  unfolding set_tables defaulted as_list each
  read-set_tables read key [] doc = rw (T.get-remove key key doc, bytes_eq_refl key) refl
  read-set_tables read key (t ∷ ts) doc =
      rw (T.get-insert key key (array_of_tables (t ∷ ts)) doc, bytes_eq_refl key) refl

  -- Two documents that differ in one key at most.
  abbrev pub DifferAt : Text → T.Table → T.Table → Type 0
  DifferAt key t t' = (j : Text) → bytes_eq j key ≡ false → T.get j t' ≡ T.get j t

  pub Holds-auth :
      (t t' : T.Table) (cfg : Config) (new : AuthConfig)
      → Holds t cfg
      → DifferAt (ascii "auth") t t'
      → required (read_auth T) (T.get (ascii "auth") t') ≡ some new
      → Holds t' (record cfg { auth = new })
  Holds-auth t t' cfg new old frame written = record {
    server_holds = rw (frame (ascii "server") refl) old.server_holds;
    logging_holds = rw (frame (ascii "logging") refl) old.logging_holds;
    auth_holds = written;
    limits_holds = rw (frame (ascii "limits") refl) old.limits_holds;
    mounts_hold = rw (frame (ascii "mounts") refl) old.mounts_hold;
    autodjs_hold = rw (frame (ascii "autodjs") refl) old.autodjs_hold;
    relays_hold = rw (frame (ascii "relays") refl) old.relays_hold;
    tls_holds = rw (frame (ascii "tls") refl) old.tls_holds;
    transcode_holds = rw (frame (ascii "transcode") refl) old.transcode_holds;
  }

  pub Holds-mounts :
      (t t' : T.Table) (cfg : Config) (new : List MountConfig)
      → Holds t cfg
      → DifferAt (ascii "mounts") t t'
      → defaulted [] (as_list (read_mount T)) (T.get (ascii "mounts") t') ≡ some new
      → Holds t' (record cfg { mounts = new })
  Holds-mounts t t' cfg new old frame written = record {
    server_holds = rw (frame (ascii "server") refl) old.server_holds;
    logging_holds = rw (frame (ascii "logging") refl) old.logging_holds;
    auth_holds = rw (frame (ascii "auth") refl) old.auth_holds;
    limits_holds = rw (frame (ascii "limits") refl) old.limits_holds;
    mounts_hold = written;
    autodjs_hold = rw (frame (ascii "autodjs") refl) old.autodjs_hold;
    relays_hold = rw (frame (ascii "relays") refl) old.relays_hold;
    tls_holds = rw (frame (ascii "tls") refl) old.tls_holds;
    transcode_holds = rw (frame (ascii "transcode") refl) old.transcode_holds;
  }

  pub Holds-autodjs :
      (t t' : T.Table) (cfg : Config) (new : List AutoDjConfig)
      → Holds t cfg
      → DifferAt (ascii "autodjs") t t'
      → defaulted [] (as_list (read_autodj T)) (T.get (ascii "autodjs") t') ≡ some new
      → Holds t' (record cfg { autodjs = new })
  Holds-autodjs t t' cfg new old frame written = record {
    server_holds = rw (frame (ascii "server") refl) old.server_holds;
    logging_holds = rw (frame (ascii "logging") refl) old.logging_holds;
    auth_holds = rw (frame (ascii "auth") refl) old.auth_holds;
    limits_holds = rw (frame (ascii "limits") refl) old.limits_holds;
    mounts_hold = rw (frame (ascii "mounts") refl) old.mounts_hold;
    autodjs_hold = written;
    relays_hold = rw (frame (ascii "relays") refl) old.relays_hold;
    tls_holds = rw (frame (ascii "tls") refl) old.tls_holds;
    transcode_holds = rw (frame (ascii "transcode") refl) old.transcode_holds;
  }

  pub Holds-relays :
      (t t' : T.Table) (cfg : Config) (new : List RelayConfig)
      → Holds t cfg
      → DifferAt (ascii "relays") t t'
      → defaulted [] (as_list (read_relay T)) (T.get (ascii "relays") t') ≡ some new
      → Holds t' (record cfg { relays = new })
  Holds-relays t t' cfg new old frame written = record {
    server_holds = rw (frame (ascii "server") refl) old.server_holds;
    logging_holds = rw (frame (ascii "logging") refl) old.logging_holds;
    auth_holds = rw (frame (ascii "auth") refl) old.auth_holds;
    limits_holds = rw (frame (ascii "limits") refl) old.limits_holds;
    mounts_hold = rw (frame (ascii "mounts") refl) old.mounts_hold;
    autodjs_hold = rw (frame (ascii "autodjs") refl) old.autodjs_hold;
    relays_hold = written;
    tls_holds = rw (frame (ascii "tls") refl) old.tls_holds;
    transcode_holds = rw (frame (ascii "transcode") refl) old.transcode_holds;
  }

  pub Holds-transcode :
      (t t' : T.Table) (cfg : Config) (new : Option TranscodeConfig)
      → Holds t cfg
      → DifferAt (ascii "transcode") t t'
      → optional (read_transcode T) (T.get (ascii "transcode") t') ≡ some new
      → Holds t' (record cfg { transcode = new })
  Holds-transcode t t' cfg new old frame written = record {
    server_holds = rw (frame (ascii "server") refl) old.server_holds;
    logging_holds = rw (frame (ascii "logging") refl) old.logging_holds;
    auth_holds = rw (frame (ascii "auth") refl) old.auth_holds;
    limits_holds = rw (frame (ascii "limits") refl) old.limits_holds;
    mounts_hold = rw (frame (ascii "mounts") refl) old.mounts_hold;
    autodjs_hold = rw (frame (ascii "autodjs") refl) old.autodjs_hold;
    relays_hold = rw (frame (ascii "relays") refl) old.relays_hold;
    tls_holds = rw (frame (ascii "tls") refl) old.tls_holds;
    transcode_holds = written;
  }

  pub Holds-server :
      (t t' : T.Table) (cfg : Config) (new : ServerConfig)
      → Holds t cfg
      → DifferAt (ascii "server") t t'
      → required (read_server T) (T.get (ascii "server") t') ≡ some new
      → Holds t' (record cfg { server = new })
  Holds-server t t' cfg new old frame written = record {
    server_holds = written;
    logging_holds = rw (frame (ascii "logging") refl) old.logging_holds;
    auth_holds = rw (frame (ascii "auth") refl) old.auth_holds;
    limits_holds = rw (frame (ascii "limits") refl) old.limits_holds;
    mounts_hold = rw (frame (ascii "mounts") refl) old.mounts_hold;
    autodjs_hold = rw (frame (ascii "autodjs") refl) old.autodjs_hold;
    relays_hold = rw (frame (ascii "relays") refl) old.relays_hold;
    tls_holds = rw (frame (ascii "tls") refl) old.tls_holds;
    transcode_holds = rw (frame (ascii "transcode") refl) old.transcode_holds;
  }

  pub Holds-logging :
      (t t' : T.Table) (cfg : Config) (new : LoggingConfig)
      → Holds t cfg
      → DifferAt (ascii "logging") t t'
      → required (read_logging T) (T.get (ascii "logging") t') ≡ some new
      → Holds t' (record cfg { logging = new })
  Holds-logging t t' cfg new old frame written = record {
    server_holds = rw (frame (ascii "server") refl) old.server_holds;
    logging_holds = written;
    auth_holds = rw (frame (ascii "auth") refl) old.auth_holds;
    limits_holds = rw (frame (ascii "limits") refl) old.limits_holds;
    mounts_hold = rw (frame (ascii "mounts") refl) old.mounts_hold;
    autodjs_hold = rw (frame (ascii "autodjs") refl) old.autodjs_hold;
    relays_hold = rw (frame (ascii "relays") refl) old.relays_hold;
    tls_holds = rw (frame (ascii "tls") refl) old.tls_holds;
    transcode_holds = rw (frame (ascii "transcode") refl) old.transcode_holds;
  }

  pub Holds-limits :
      (t t' : T.Table) (cfg : Config) (new : LimitsConfig)
      → Holds t cfg
      → DifferAt (ascii "limits") t t'
      → required (read_limits T) (T.get (ascii "limits") t') ≡ some new
      → Holds t' (record cfg { limits = new })
  Holds-limits t t' cfg new old frame written = record {
    server_holds = rw (frame (ascii "server") refl) old.server_holds;
    logging_holds = rw (frame (ascii "logging") refl) old.logging_holds;
    auth_holds = rw (frame (ascii "auth") refl) old.auth_holds;
    limits_holds = written;
    mounts_hold = rw (frame (ascii "mounts") refl) old.mounts_hold;
    autodjs_hold = rw (frame (ascii "autodjs") refl) old.autodjs_hold;
    relays_hold = rw (frame (ascii "relays") refl) old.relays_hold;
    tls_holds = rw (frame (ascii "tls") refl) old.tls_holds;
    transcode_holds = rw (frame (ascii "transcode") refl) old.transcode_holds;
  }
