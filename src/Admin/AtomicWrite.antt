-- ===== src/Admin/AtomicWrite.antt =====
-- crates/rustyice-admin/src/config_write.rs: `atomic_write`. The files are a map from paths to contents;
-- the sibling's path, which `Path::with_extension` gives, is an argument.
use rusty_ice.Prelude.{
  ℕ, Bool, true, false, ◌≡◌, Option, none, some, take, Dict, lookup, insert, erase, lookup-insert,
  lookup-erase, bytes_eq, bytes_eq_iff, arith, if◌then◌else◌,
}
use rusty_ice.Core.Mount.{Text}

-- Where the file system fails, with the bytes that a failed write has written.
pub data WriteFault : Type 0 where
  at_create at_sync at_rename : WriteFault
  at_write : ℕ → WriteFault

-- The files afterwards, and whether the result is `Ok(())`.
unfoldable pub atomic_write : Option WriteFault → Text → Text → Text → Dict Text → Dict Text × Bool
atomic_write none tmp path contents files = (insert path contents (erase tmp files), true)
atomic_write (some at_create) tmp path contents files = (files, false)
atomic_write (some (at_write n)) tmp path contents files =
    (insert tmp (take n contents) files, false)
atomic_write (some at_sync) tmp path contents files = (insert tmp contents files, false)
atomic_write (some at_rename) tmp path contents files = (erase tmp files, false)

-- Whatever fails, the file at the path either has all of the new contents, where the result is `Ok`, or is
-- what it was, where it is an error; a file that is neither that one nor its sibling never changes.
pub lookup-atomic_write :
    (fault : Option WriteFault) (tmp path contents : Text) (files : Dict Text) (j : Text)
    → bytes_eq path tmp ≡ false
    → bytes_eq j tmp ≡ false
    → lookup j (atomic_write fault tmp path contents files).0 ≡ (
        if bytes_eq j path
        then (if (atomic_write fault tmp path contents files).1
            then some contents
            else lookup path files)
        else lookup j files)
unfolding atomic_write
lookup-atomic_write none tmp path contents files j h k =
    ground (arith, lookup-insert j path contents (erase tmp files), lookup-erase j tmp files, k)
lookup-atomic_write (some at_create) tmp path contents files j h k =
    ground (arith, bytes_eq_iff j path)
lookup-atomic_write (some (at_write n)) tmp path contents files j h k =
    ground (arith, bytes_eq_iff j path, lookup-insert j tmp (take n contents) files, k)
lookup-atomic_write (some at_sync) tmp path contents files j h k =
    ground (arith, bytes_eq_iff j path, lookup-insert j tmp contents files, k)
lookup-atomic_write (some at_rename) tmp path contents files j h k =
    ground (arith, bytes_eq_iff j path, lookup-erase j tmp files, k)
