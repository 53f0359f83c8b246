-- ===== src/Toolsetfile/Resolve.antt =====
-- toolsetfile/toolset_file.go: ToolsetFile.Resolve, with the Builder of toolset/toolset.go that it fills. The
-- loading of a directory, the decoders and what Builder.Resolve makes of the packages are parameters.
use toolbox.Prelude.{
  ℕ, Bool, true, false, List, [], ◌∷◌, ◌++◌, Option, none, some, Result, ok, err, ◌>>=◌,
}
use toolbox.Prelude.Text.{Text}
use toolbox.Prelude.Assoc.{Assoc, lookup, insert}
use toolbox.Tool.Fqn.{ParseError, parse_module_path, parse_version}
use toolbox.Registry.Source.{ResolveMetadata}
use toolbox.Registry.Cache.{Disk, Store}
use toolbox.Registry.Resolver.{Source, ResolveError, resolve_with_expected}
use toolbox.Toolsetfile.File.{ToolsetFile, sort_keys, keys_of, or_empty_text}
use toolbox.Toolsetfile.Lock.{
  LockEntry, LockError, Encoder, LocalFile, WriteFault, write_atomic, validate_lock, encode_lock,
  parse_replace, replacement_dir_abs,
}

pub data ToolsetFileError : Type 0 where
  not_validated cannot_parse_lock cannot_parse_local : ToolsetFileError
  invalid_lock invalid_local unwritable_lock : LockError → ToolsetFileError
  cannot_load_dir : Text → Text → ToolsetFileError
  no_resolver : ToolsetFileError
  invalid_module invalid_version : ParseError → ToolsetFileError
  unresolved : ResolveError → ToolsetFileError
  cannot_write_lock : ToolsetFileError

-- ToolsetLockEntry and registry.ResolveMetadata have the same fields.
abbrev pub expected_of : LockEntry → ResolveMetadata
expected_of e = record {
  archive_sha256 = e.archive_sha256;
  git_sha = e.git_sha;
  resolved_from = e.resolved_from;
  resolved_at = e.resolved_at;
}

abbrev pub entry_of : ResolveMetadata → LockEntry
entry_of m = record {
  archive_sha256 = m.archive_sha256;
  git_sha = m.git_sha;
  resolved_from = m.resolved_from;
  resolved_at = m.resolved_at;
}

abbrev pub expected_in : Option LockEntry → Option ResolveMetadata
expected_in none = none
expected_in (some e) = some (expected_of e)

-- The resolver: the root of its cache and its sources.
pub record Resolver : Type 0 where
  pub root : Text
  pub sources : List Source

-- The decoders of the lock and of the overlay, with their schemas, and the loading of a directory.
pub record Around (Package : Type 0) : Type 0 where
  pub decode_lock : List ℕ → Option (Assoc LockEntry)
  pub decode_local : List ℕ → Option (Assoc Text)
  pub load_dev : Text → Option Package
  pub encoder : Encoder
  pub is_rfc3339 : Text → Bool

module _ {Package : Type 0} (around : Around Package) where
  open around use {decode_lock, decode_local, is_rfc3339}

  abbrev pub valid_lock :
      Assoc LockEntry → Result LockError (Unit {0}) → Result ToolsetFileError (Assoc LockEntry)
  valid_lock packages (ok _) = ok packages
  valid_lock packages (err e) = err (invalid_lock e)

  abbrev pub decoded_lock : Option (Assoc LockEntry) → Result ToolsetFileError (Assoc LockEntry)
  decoded_lock none = err cannot_parse_lock
  decoded_lock (some packages) =
      valid_lock packages (validate_lock is_rfc3339 packages (sort_keys (keys_of packages)))

  abbrev pub read_lock : Option (List ℕ) → Result ToolsetFileError (Assoc LockEntry)
  read_lock none = ok []
  read_lock (some raw) = decoded_lock (decode_lock raw)

  -- LoadLock as Resolve calls it: a file that is missing, or that has no name, locks nothing.
  unfoldable pub load_lock : Text → Disk → Result ToolsetFileError (Assoc LockEntry)
  unfolding validate_lock sort_keys lookup
  load_lock [] disk = ok []
  load_lock (c ∷ filename) disk = read_lock (lookup (c ∷ filename) disk)

  abbrev pub valid_local :
      Text → Assoc Text → Result LockError (Assoc Text) → Result ToolsetFileError (Option LocalFile)
  valid_local filename replace (ok parsed) =
      ok (some (record { replace = replace; parsed_replace = parsed; filename = filename }))
  valid_local filename replace (err e) = err (invalid_local e)

  abbrev pub decoded_local : Text → Option (Assoc Text) → Result ToolsetFileError (Option LocalFile)
  decoded_local filename none = err cannot_parse_local
  decoded_local filename (some replace) =
      valid_local filename replace (parse_replace replace (sort_keys (keys_of replace)) [])

  abbrev pub read_local : Text → Option (List ℕ) → Result ToolsetFileError (Option LocalFile)
  read_local filename none = ok none
  read_local filename (some raw) = decoded_local filename (decode_local raw)

  -- ToolsetFile.LoadLocal; a file that has no name has not been loaded.
  unfoldable pub load_local : Text → Disk → Result ToolsetFileError (Option LocalFile)
  unfolding parse_replace sort_keys lookup
  load_local [] disk = err not_validated
  load_local (c ∷ filename) disk = read_local (c ∷ filename) (lookup (c ∷ filename) disk)

-- What the loop of Resolve carries: the disk with the cache, the builder's packages, and the new lock.
pub record Progress (Package : Type 0) : Type 0 where
  pub disk : Disk
  pub packages : List Package
  pub lock : Assoc LockEntry

module _ {Package : Type 0} (store : Store Package) (around : Around Package)
    (resolver : Option Resolver) where
  abbrev pub Step : Type 0
  Step = Disk × Result ToolsetFileError (Progress Package)

  abbrev pub resolved :
      Progress Package
      → Disk × Result ResolveError (Package × ResolveMetadata)
      → Disk × Result ToolsetFileError (Package × ResolveMetadata)
  resolved p (disk, ok result) = (disk, ok result)
  resolved p (disk, err e) = (disk, err (unresolved e))

  abbrev pub ask_resolver :
      Progress Package
      → Option Resolver
      → Result ToolsetFileError (Text × Text)
      → Option ResolveMetadata
      → Disk × Result ToolsetFileError (Package × ResolveMetadata)
  ask_resolver p none parsed expected = (p.disk, err no_resolver)
  ask_resolver p (some r) (err e) expected = (p.disk, err e)
  ask_resolver p (some r) (ok (path, version)) expected =
      resolved p (
        resolve_with_expected store around.is_rfc3339 r.root r.sources path version expected p.disk)

  abbrev pub parsed_as :
      {A : Type 0}
      → (ParseError → ToolsetFileError)
      → Result ParseError A
      → Result ToolsetFileError A
  parsed_as wrap (ok a) = ok a
  parsed_as wrap (err e) = err (wrap e)

  -- Builder.AddFromRegistryWithExpected, up to the append.
  unfoldable pub add_from_registry :
      Progress Package
      → Text
      → Text
      → Option ResolveMetadata
      → Disk × Result ToolsetFileError (Package × ResolveMetadata)
  unfolding resolve_with_expected
  add_from_registry p path version expected =
      ask_resolver p resolver
        (do
          path' ← parsed_as invalid_module (parse_module_path path)
          version' ← parsed_as invalid_version (parse_version version)
          ok (path', version'))
        expected

  -- The key of a package in the lock.
  abbrev pub package_key : Text → Text → Text
  package_key path version = path ++ (b'@' ∷ version)

  abbrev pub locked :
      Progress Package → Text → Disk × Result ToolsetFileError (Package × ResolveMetadata) → Step
  locked p key (disk, err e) = (disk, err e)
  locked p key (disk, ok (pkg, metadata)) = (
    disk,
    ok (record {
      disk = disk;
      packages = p.packages ++ (pkg ∷ []);
      lock = insert key (entry_of metadata) p.lock;
    }),
  )

  abbrev pub from_dir : Progress Package → Text → Text → Option Package → Step
  from_dir p key directory none = (p.disk, err (cannot_load_dir key directory))
  from_dir p key directory (some pkg) =
      (p.disk, ok (record p { packages = p.packages ++ (pkg ∷ []) }))

  -- A module with its replacement, if it has one.
  abbrev pub add_module : Assoc LockEntry → Text → Text → Option Text → Progress Package → Step
  add_module existing path version (some directory) p =
      from_dir p (package_key path version) directory (around.load_dev directory)
  add_module existing path version none p =
      locked p (package_key path version) (
        add_from_registry p path version (expected_in (lookup (package_key path version) existing)))

  abbrev pub then_next : Step → (Progress Package → Step) → Step
  then_next (disk, ok p) next = next p
  then_next (disk, err e) next = (disk, err e)

  -- The loop of Resolve, over the modules in the order of their names.
  unfoldable pub resolve_modules :
      Assoc LockEntry → Option LocalFile → Assoc Text → List Text → Progress Package → Step
  unfolding add_from_registry replacement_dir_abs lookup insert
  resolve_modules existing local parsed [] p = (p.disk, ok p)
  resolve_modules existing local parsed (path ∷ modules) p =
      then_next
        (add_module existing path (or_empty_text (lookup path parsed))
          (replacement_dir_abs local path) p)
        (resolve_modules existing local parsed modules)

  abbrev pub lock_put :
      Progress Package → Disk × Bool → Disk × Result ToolsetFileError (List Package)
  lock_put p (disk, true) = (disk, ok p.packages)
  lock_put p (disk, false) = (disk, err cannot_write_lock)

  abbrev pub lock_encoded :
      WriteFault
      → Text
      → Text
      → Progress Package
      → Result LockError Text
      → Disk × Result ToolsetFileError (List Package)
  lock_encoded fault temp filename p (err e) = (p.disk, err (unwritable_lock e))
  lock_encoded fault temp filename p (ok text) =
      lock_put p (write_atomic fault temp filename text p.disk)

  -- ToolsetLockFile.Write of the new lock, if it has a name.
  abbrev pub write_lock :
      WriteFault → Text → Text → Progress Package → Disk × Result ToolsetFileError (List Package)
  write_lock fault temp [] p = (p.disk, ok p.packages)
  write_lock fault temp (c ∷ filename) p =
      lock_encoded fault temp (c ∷ filename) p (encode_lock around.encoder around.is_rfc3339 p.lock)

  abbrev pub finished :
      WriteFault → Text → Text → Step → Disk × Result ToolsetFileError (List Package)
  finished fault temp filename (disk, err e) = (disk, err e)
  finished fault temp filename (disk, ok p) = write_lock fault temp filename p

  abbrev pub resolve_locked :
      WriteFault
      → Text
      → ToolsetFile
      → Assoc Text
      → Disk
      → Result ToolsetFileError (Assoc LockEntry)
      → Result ToolsetFileError (Option LocalFile)
      → Disk × Result ToolsetFileError (List Package)
  resolve_locked fault temp f parsed disk (err e) local = (disk, err e)
  resolve_locked fault temp f parsed disk (ok existing) (err e) = (disk, err e)
  resolve_locked fault temp f parsed disk (ok existing) (ok local) =
      finished fault temp f.lock_filename (
        resolve_modules existing local parsed (sort_keys (keys_of parsed))
          (record { disk = disk; packages = []; lock = existing }))

  abbrev pub resolve_parsed :
      WriteFault
      → Text
      → ToolsetFile
      → Disk
      → Option (Assoc Text)
      → Disk × Result ToolsetFileError (List Package)
  resolve_parsed fault temp f disk none = (disk, err not_validated)
  resolve_parsed fault temp f disk (some parsed) =
      resolve_locked fault temp f parsed disk (load_lock around f.lock_filename disk)
        (load_local around f.local_filename disk)

  -- ToolsetFile.Resolve, up to Builder.Resolve of the packages.
  unfoldable pub resolve_file :
      WriteFault → Text → ToolsetFile → Disk → Disk × Result ToolsetFileError (List Package)
  unfolding resolve_modules load_lock load_local encode_lock write_atomic sort_keys
  resolve_file fault temp f disk = resolve_parsed fault temp f disk f.parsed_packages
