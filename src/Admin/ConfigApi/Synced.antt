-- ===== src/Admin/ConfigApi/Synced.antt =====
-- crates/rustyice-admin/src/api/config.rs: what a save leaves on disk and in the running configuration.
pub mod Sized
pub mod Saves
pub mod Put
use rusty_ice.Prelude.{
  List, ascii, ◌++◌, ℕ, Bool, true, false, ◌≡◌, ◌≢◌, ◌⊎◌, inl, inr, refl, sym, ◌∙◌, subst, Option,
  none, some, arith, Dict, lookup, bytes_eq, bytes_eq_refl, Checked, val, panic, Checked-cases,
  Option-cases, Bool-cases, if◌then◌else◌,
}
use rusty_ice.Core.Mount.{Text}
use rusty_ice.Core.Toml.{TomlEdit}
use rusty_ice.Core.Config.{Config}
use rusty_ice.Core.Config.Read.Sections.{read_config}
use rusty_ice.Server.ConfigReload.Apply.{
  AuthBackend, Server, Applied, warned, auth_failed, relay_stage, apply_diffs, apply_config,
}
use rusty_ice.Admin.AtomicWrite.{WriteFault, atomic_write, lookup-atomic_write}
use rusty_ice.Admin.ConfigApi.{PutError, build_config_response}
use rusty_ice.Admin.ConfigApi.Candidate.Resolve.{Result, ok, err}
use rusty_ice.Admin.ConfigApi.Persist.{
  TomlText, Disk, AdminState, PutResponse, put_success, bad_request, server_error, unauthorized,
  forbidden, panicked, halted, io_error_response, path_for_write, bootstrap, read_doc, parse_doc,
  apply_candidate, write_and_apply, persist_and_apply,
}

-- The disk was written and the configuration was not applied, as the response says or, after a panic
-- then, no response does.
unfoldable pub disk_written : PutResponse → Bool
disk_written (server_error e) = e.disk_written
disk_written (put_success _ _) = false
disk_written (bad_request _) = false
disk_written unauthorized = false
disk_written forbidden = false
disk_written panicked = false
disk_written halted = true

-- The file that a save goes to reads as the running configuration.
pub record InSync {A : AuthBackend} {T : TomlEdit} (toml : TomlText T) (s : AdminState A)
    : Type 0 where
  pub path : Text
  pub contents : Text
  pub doc : TomlEdit.Table T
  pub backed : s.config_path ≡ some path
  pub stored : lookup path s.files ≡ some contents
  pub parsed : TomlText.parse toml contents ≡ ok doc
  pub reads : read_config T doc ≡ some s.server.config

-- What applying a candidate does: the server takes it and the response is a success, or the server keeps its
-- configuration and the response says that the disk was written, or it panics.
apply-cases :
    {A : AuthBackend} (candidate : Config) (path : Text) (admin : Bool) (s : AdminState A)
    → s.config_path ≡ some path
    → (((apply_candidate path candidate admin s).0.server.config ≡ candidate)
        × ((apply_candidate path candidate admin s).0.config_path ≡ some path)
        × ((apply_candidate path candidate admin s).0.files ≡ s.files)
        × (disk_written (apply_candidate path candidate admin s).1 ≡ false))
      ⊎ (disk_written (apply_candidate path candidate admin s).1 ≡ true)
unfolding apply_candidate apply_config apply_diffs disk_written
apply-cases {A} candidate path admin s here =
    elim (Option-cases (AuthBackend.reload A candidate s.server.auth).1) [
      | inl e ↦ elim (Bool-cases (relay_stage candidate s.server).halted) [
        | inl stops ↦ inr (ground (arith, e, stops))
        | inr on ↦ inl (
          ground (arith, e, on),
          ground (arith, e, on, here),
          ground (arith, e, on),
          ground (arith, e, on),
        )
      ]
      | inr (x, e) ↦ inr (ground (arith, e))
    ]

-- The patch makes a document that reads as the candidate out of one that reads as the configuration, or
-- it panics.
abbrev pub Patches :
    (T : TomlEdit) → (TomlEdit.Table T → Checked (TomlEdit.Table T)) → Config → Config → Type 0
Patches T patch_doc cfg candidate =
    (doc : T.Table)
    → read_config T doc ≡ some cfg
    → (patch_doc doc ≡ panic)
      ⊎ ((doc' : T.Table) × (patch_doc doc ≡ val doc') × (read_config T doc' ≡ some candidate))

module _ {A : AuthBackend} {T : TomlEdit} (toml : TomlText T) (disk : Disk) where
  open toml use {parse-print}

  write-InSync :
      (candidate : Config) (admin : Bool) (s : AdminState A) (doc : T.Table)
      → (old : InSync toml s) → bytes_eq old.path (disk.with_extension old.path) ≡ false
      → read_config T doc ≡ some candidate
      → disk_written (write_and_apply disk (toml.print doc) candidate admin s).1 ≡ false
      → InSync toml (write_and_apply disk (toml.print doc) candidate admin s).0
  unfolding write_and_apply path_for_write io_error_response disk_written
  write-InSync candidate admin s doc old sibling reads quiet =
      let p = old.path in
      let tmp = disk.with_extension p in
      let contents = toml.print doc in
      let result = atomic_write disk.write_fault tmp p contents s.files in
      let there = lookup-atomic_write disk.write_fault tmp p contents s.files p sibling sibling in
      let same = bytes_eq_refl p in
      elim (Bool-cases result.1) [
        | inr failed ↦ record {
          path = p;
          contents = old.contents;
          doc = old.doc;
          backed = ground (arith, failed, old.backed);
          stored = ground (arith, failed, old.backed, there, same, old.stored);
          parsed = old.parsed;
          reads = ground (arith, failed, old.backed, old.reads);
        }
        | inl written ↦
            elim (apply-cases candidate p admin (record s { files = result.0 }) old.backed) [
              | inr loud ↦ absurd (ground (arith, written, old.backed, loud, quiet))
              | inl (config, path, files, _) ↦ record {
                path = p;
                contents = contents;
                doc = doc;
                backed = ground (arith, written, old.backed, path);
                stored = ground (arith, written, old.backed, files, there, same);
                parsed = toml.parse-print doc;
                reads = ground (arith, written, old.backed, config, reads);
              }
            ]
      ]

  pub persist-InSync :
      (patch_doc : T.Table → Checked T.Table) (candidate : Config) (admin : Bool) (s : AdminState A)
      → (old : InSync toml s) → bytes_eq old.path (disk.with_extension old.path) ≡ false
      → Patches T patch_doc s.server.config candidate
      → disk_written (persist_and_apply toml disk patch_doc candidate admin s).1 ≡ false
      → InSync toml (persist_and_apply toml disk patch_doc candidate admin s).0
  unfolding persist_and_apply read_doc parse_doc
  persist-InSync patch_doc candidate admin s old sibling patches quiet =
      elim (Option-cases disk.read_fault) [
        | inr (e, f) ↦
            let same : persist_and_apply toml disk patch_doc candidate admin s
                ≡ (s, io_error_response (ascii "read config: " ++ e)) =
              ground (arith, f, old.backed) in
            subst (λ x. InSync toml x.0) (sym same) old
        | inl f ↦ elim (patches old.doc old.reads) [
          | inl p ↦
              let same : persist_and_apply toml disk patch_doc candidate admin s ≡ (s, panicked) =
                ground (arith, f, old.backed, old.stored, old.parsed, p) in
              subst (λ x. InSync toml x.0) (sym same) old
          | inr (doc, v, r) ↦
              let e : persist_and_apply toml disk patch_doc candidate admin s
                  ≡ write_and_apply disk (toml.print doc) candidate admin s =
                ground (arith, f, old.backed, old.stored, old.parsed, v) in
              subst (λ x. InSync toml x.0) (sym e)
                (write-InSync candidate admin s doc old sibling r (ground (arith, e, quiet)))
        ]
      ]
