-- ===== src/Toolsetfile/Load.antt =====
-- toolsetfile/toolset_file.go: a toolset file is read, and written back. The decoder, with its schema, and
-- the disk are parameters of these.
use toolbox.Prelude.{ℕ, List, Option, Bool, true, false, Result, ok, err, or_fail, ◌>>=◌}
use toolbox.Prelude.Text.{Text}
use toolbox.Prelude.Assoc.{lookup}
use toolbox.Registry.Cache.{Disk}
use toolbox.Toolsetfile.File.{
  ToolsetFile, FileError, validate_file, derive_toolset_lock_filename,
  derive_toolset_local_filename,
}
use toolbox.Toolsetfile.Lock.{Encoder, WriteFault, write_atomic, encode_stable}

pub data LoadFailure : Type 0 where
  bad_name invalid : FileError → LoadFailure
  cannot_read cannot_parse cannot_write : LoadFailure

abbrev pub named : {A : Type 0} → Result FileError A → Result LoadFailure A
named (ok a) = ok a
named (err e) = err (bad_name e)

abbrev pub valid : ToolsetFile × Result FileError (Unit {0}) → Result LoadFailure ToolsetFile
valid (f, ok _) = ok f
valid (f, err e) = err (invalid e)

-- Load
unfoldable pub load_toolset :
    (List ℕ → Option ToolsetFile) → Text → Disk → Result LoadFailure ToolsetFile
unfolding derive_toolset_lock_filename derive_toolset_local_filename lookup validate_file
load_toolset decode filename disk = do
  lock_filename ← named (derive_toolset_lock_filename filename)
  local_filename ← named (derive_toolset_local_filename filename)
  raw ← or_fail cannot_read (lookup filename disk)
  decoded ← or_fail cannot_parse (decode raw)
  f ← valid (validate_file decoded)
  ok (record f {
    filename = filename;
    lock_filename = lock_filename;
    local_filename = local_filename;
  })

abbrev pub derived_or : Text → Result FileError Text → Text
derived_or old (ok new) = new
derived_or old (err e) = old

abbrev pub renamed : ToolsetFile → Text → ToolsetFile
renamed f filename = record f {
  filename = filename;
  lock_filename = derived_or f.lock_filename (derive_toolset_lock_filename filename);
  local_filename = derived_or f.local_filename (derive_toolset_local_filename filename);
}

abbrev pub after_write :
    ToolsetFile → Text → Disk × Bool → Disk × ToolsetFile × Result LoadFailure (Unit {0})
after_write f filename (disk, true) = (disk, renamed f filename, ok tt)
after_write f filename (disk, false) = (disk, f, err cannot_write)

abbrev pub write_encoded :
    WriteFault
    → Text
    → Text
    → Disk
    → ToolsetFile × Result FileError Text
    → Disk × ToolsetFile × Result LoadFailure (Unit {0})
write_encoded fault temp filename disk (f, err e) = (disk, f, err (invalid e))
write_encoded fault temp filename disk (f, ok text) =
    after_write f filename (write_atomic fault temp filename text disk)

-- ToolsetFile.Write, with the disk and the file that it leaves.
unfoldable pub write_toolset :
    Encoder
    → WriteFault
    → Text
    → Text
    → ToolsetFile
    → Disk
    → Disk × ToolsetFile × Result LoadFailure (Unit {0})
unfolding encode_stable write_atomic derive_toolset_lock_filename derive_toolset_local_filename
write_toolset encoder fault temp filename f disk =
    write_encoded fault temp filename disk (encode_stable encoder f)
