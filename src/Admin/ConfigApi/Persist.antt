-- ===== src/Admin/ConfigApi/Persist.antt =====
-- crates/rustyice-admin/src/api/config.rs: `persist_and_apply` and the `put_` handlers around it, on the
-- state that the admin interface shares with the server. The TOML library's parser and printer are an
-- argument, and so are the faults of the file system during one request.
pub mod Handlers
use rusty_ice.Prelude.{
  ℕ, Bool, true, false, ◌≡◌, Option, none, some, List, [], ◌∷◌, ◌++◌, ascii, Dict, lookup, Checked,
  val, panic, if◌then◌else◌,
}
use rusty_ice.Core.Mount.{Text}
use rusty_ice.Core.Toml.{TomlEdit}
use rusty_ice.Core.Config.{Config}
use rusty_ice.Server.ConfigReload.Apply.{
  AuthBackend, Server, Applied, warned, auth_failed, apply_config,
}
use rusty_ice.Admin.Sessions.{SessionStore}
use rusty_ice.Admin.AtomicWrite.{WriteFault, atomic_write}
use rusty_ice.Admin.ConfigApi.{ConfigResponse, PutError, build_config_response}
use rusty_ice.Admin.ConfigApi.Candidate.Resolve.{Result, ok, err}

-- What a printed document reads as is the document, and what `toml::to_string` writes can be read.
pub record TomlText (T : TomlEdit) : Type 0 where
  pub parse : Text → Result (TomlEdit.Table T)
  pub print : TomlEdit.Table T → Text
  pub serialize : Config → Result Text
  pub parse-print : (t : TomlEdit.Table T) → parse (print t) ≡ ok t

-- `read_fault` is an error other than `NotFound`, and `write_error` the text of one of `write_fault`.
-- `with_extension` is `Path::with_extension("toml.tmp")`.
pub record Disk : Type 0 where
  pub read_fault : Option Text
  pub write_fault : Option WriteFault
  pub write_error : Text
  pub with_extension : Text → Text

pub record AdminState (A : AuthBackend) : Type 0 where
  pub server : Server A
  pub sessions : SessionStore
  pub config_path : Option Text
  pub files : Dict Text

pub data PutResponse : Type 0 where
  put_success : ConfigResponse → List Text → PutResponse
  bad_request server_error : PutError → PutResponse
  unauthorized forbidden : PutResponse
  -- no response: the handler panicked, `halted` after the file was written
  panicked halted : PutResponse

unfoldable pub io_error_response : Text → PutResponse
io_error_response message =
    server_error (record { error = message; field = none; disk_written = false })

-- `config.toml` of the working directory where the server runs on its defaults.
unfoldable pub path_for_write : Option Text → Text
path_for_write none = ascii "config.toml"
path_for_write (some p) = p

module _ {T : TomlEdit} (toml : TomlText T) where
  unfoldable pub bootstrap : Config → Result Text
  bootstrap candidate = elim (toml.serialize candidate) [
    | ok s ↦ ok s
    | err e ↦ err (ascii "serialize: " ++ e)
  ]

  -- The document's text that the patch goes into.
  unfoldable pub read_doc : Disk → Option Text → Dict Text → Config → Result Text
  read_doc disk none files candidate = bootstrap candidate
  read_doc disk (some p) files candidate = elim disk.read_fault [
    | some e ↦ err (ascii "read config: " ++ e)
    | none ↦ elim (lookup p files) [ some s ↦ ok s | none ↦ bootstrap candidate ]
  ]

  unfoldable pub parse_doc : Text → Result (TomlEdit.Table T)
  parse_doc s = elim (toml.parse s) [
    | ok doc ↦ ok doc
    | err e ↦ err (ascii "parse existing config: " ++ e)
  ]

module _ {A : AuthBackend} where
  -- After the file is written: `ConfigApplier::apply` is `apply_config`, whose error is a text. Where it
  -- panics, the path is not stored.
  unfoldable pub apply_candidate : Text → Config → Bool → AdminState A → AdminState A × PutResponse
  apply_candidate path candidate is_admin s =
      let (server, applied) = apply_config candidate s.server in
      elim applied [
        | warned warnings ↦
            let config_path : Option Text = elim s.config_path [
              | none ↦ some path
              | some p ↦ some p
            ] in
            (
              record s { server = server; config_path = config_path },
              put_success (build_config_response server.config config_path is_admin) warnings,
            )
        | auth_failed e ↦ (
          record s { server = server },
          server_error (record { error = e; field = none; disk_written = true }),
        )
        | Applied.halted ↦ (record s { server = server }, PutResponse.halted)
      ]

  unfoldable pub write_and_apply :
      Disk → Text → Config → Bool → AdminState A → AdminState A × PutResponse
  write_and_apply disk contents candidate is_admin s =
      let path = path_for_write s.config_path in
      let (files, written) =
        atomic_write disk.write_fault (disk.with_extension path) path contents s.files in
      let applied = apply_candidate path candidate is_admin (record s { files = files }) in
      if written then applied else (
        record s { files = files },
        io_error_response (ascii "write config.toml: " ++ disk.write_error),
      )

module _ {A : AuthBackend} {T : TomlEdit} (toml : TomlText T) where
  -- A patch that panics leaves the lock and the state as they were.
  unfoldable pub persist_and_apply :
      Disk
      → (TomlEdit.Table T → Checked (TomlEdit.Table T))
      → Config
      → Bool
      → AdminState A
      → AdminState A × PutResponse
  persist_and_apply disk patch_doc candidate is_admin s =
      elim (read_doc toml disk s.config_path s.files candidate) [
        | err e ↦ (s, io_error_response e)
        | ok text ↦ elim (parse_doc toml text) [
          | err e ↦ (s, io_error_response e)
          | ok doc ↦ elim (patch_doc doc) [
            | panic ↦ (s, panicked)
            | val patched ↦ write_and_apply disk (toml.print patched) candidate is_admin s
          ]
        ]
      ]
