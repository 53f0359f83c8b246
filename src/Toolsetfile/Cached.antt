-- ===== src/Toolsetfile/Cached.antt =====
-- toolsetfile/: a toolset whose package is in the cache and not in the lock; and the writing of files.
use toolbox.Prelude.{
  ℕ, take, Bool, true, false, List, [], ◌∷◌, ◌++◌, ◌&&◌, if◌then◌else◌, none, some, ok, err,
  Bool-cases, inl, inr, ◌≡◌, refl, ap, sym, ◌∙◌,
}
use toolbox.Prelude.Text.{Text, text_eq, text_eq_iff, text_eq_refl}
use toolbox.Prelude.Assoc.{lookup, insert, remove, lookup-insert, lookup-remove}
use toolbox.Tool.Fqn.{PackageVer, parse_module_path, parse_version, parse_package_ver}
use toolbox.Registry.Source.{invalid_commit, is_sha256_hex, is_git_commit}
use toolbox.Registry.Cache.{Disk, Store, cache_paths, cache_has, archive_sha256, cache_load}
use toolbox.Registry.Resolver.{
  resolve_with_expected, resolve_cached, check_expected, is_expected, hit_metadata, loaded,
}
use toolbox.Toolsetfile.File.{ToolsetFile, insert_key, sort_keys}
use toolbox.Toolsetfile.Lock.{
  LockEntry, bad_entry, WriteFault, no_fault, no_temp, at_rename, after_bytes, write_atomic,
  replacement_dir_abs, validate_entry, validate_lock, encode_lock,
}
use toolbox.Toolsetfile.Resolve.{
  Around, Resolver, Progress, unwritable_lock, package_key, entry_of, resolve_modules,
  add_from_registry, load_lock, load_local, resolve_file,
}

module _ (temp : Text) (content : List ℕ) (disk : Disk) (k : Text)
    (fresh : lookup temp disk ≡ none) where
  temp_gone : lookup k (remove temp (insert temp content disk)) ≡ lookup k disk
  temp_gone = elim (Bool-cases (text_eq temp k)) [
    | inl same ↦
        lookup-remove temp k (insert temp content disk)
        ∙ rw same (sym fresh ∙ ap (λ t. lookup t disk) ((text_eq_iff temp k).0 same))
    | inr other ↦
        lookup-remove temp k (insert temp content disk)
        ∙ rw other (lookup-insert temp k content disk ∙ rw other)
  ]

kept : {A : Type 0} (b : Bool) (x y : A) → y ≡ (if b && false then x else y)
kept true x y = refl
kept false x y = refl

put_or_kept :
    {A : Type 0} (b : Bool) (x y z : A)
    → z ≡ y
    → (if b then x else z) ≡ (if b && true then x else y)
put_or_kept true x y z h = refl
put_or_kept false x y z h = h

-- A file that is written by way of a new temporary file is written whole, or the disk is as it was: a
-- path has what was written if it is the file's and the writing succeeds, and else what it had before.
pub write_atomic-or_same :
    (fault : WriteFault) (temp filename : Text) (bytes : List ℕ) (disk : Disk) (k : Text)
    → lookup temp disk ≡ none
    → lookup k (write_atomic fault temp filename bytes disk).0 ≡ (
        if text_eq filename k && (write_atomic fault temp filename bytes disk).1
        then some bytes
        else lookup k disk)
unfolding write_atomic
write_atomic-or_same no_temp temp filename bytes disk k fresh =
    kept (text_eq filename k) (some bytes) (lookup k disk)
write_atomic-or_same (after_bytes n) temp filename bytes disk k fresh =
    temp_gone temp (take n bytes) disk k fresh
    ∙ kept (text_eq filename k) (some bytes) (lookup k disk)
write_atomic-or_same at_rename temp filename bytes disk k fresh =
    temp_gone temp bytes disk k fresh ∙ kept (text_eq filename k) (some bytes) (lookup k disk)
write_atomic-or_same no_fault temp filename bytes disk k fresh =
    lookup-insert filename k bytes (remove temp (insert temp bytes disk))
    ∙ put_or_kept (text_eq filename k) (some bytes) (lookup k disk)
        (lookup k (remove temp (insert temp bytes disk))) (temp_gone temp bytes disk k fresh)

module _ {Package : Type 0} (store : Store Package) (around : Around Package) (resolver : Resolver)
    (path version : Text) (disk : Disk) where
  -- What the resolver answers for a package in its cache, if nothing is expected.
  resolve_cached-hit :
      (sha : Text) (pkg : Package)
      → cache_has (cache_paths resolver.root path version) disk ≡ true
      → archive_sha256 store (cache_paths resolver.root path version) disk ≡ ok sha
      → cache_load store (cache_paths resolver.root path version) disk ≡ ok pkg
      → resolve_with_expected store around.is_rfc3339 resolver.root resolver.sources path version
          none disk
        ≡ (disk, ok (pkg, hit_metadata none sha))
  unfolding resolve_with_expected resolve_cached is_expected check_expected
  resolve_cached-hit sha pkg has hashed loads =
      rw (has, resolve_cached, hashed, is_expected, loaded, loads)

  -- The lock that Resolve then wants to write has an entry without a commit.
  cached_entry : Text → LockEntry
  cached_entry sha = entry_of (hit_metadata none sha)

  validate_entry_cached :
      (sha : Text)
      → is_sha256_hex sha ≡ true
      → validate_entry around.is_rfc3339 (cached_entry sha) ≡ err (invalid_commit [])
  unfolding validate_entry hit_metadata is_git_commit cached_entry
  validate_entry_cached sha h = rw h refl

  encode_lock_cached :
      (sha : Text) (pv : PackageVer)
      → is_sha256_hex sha ≡ true
      → parse_package_ver (package_key store around none path version) ≡ ok pv
      → encode_lock around.encoder around.is_rfc3339
          (insert (package_key store around none path version) (cached_entry sha) [])
        ≡ err (bad_entry (package_key store around none path version) (invalid_commit []))
  unfolding encode_lock validate_lock insert sort_keys lookup remove
  encode_lock_cached sha pv h parsed = rw (
    encode_lock,
    validate_lock,
    parsed,
    lookup,
    text_eq_refl (path ++ (b'@' ∷ version)),
    validate_entry_cached sha h,
  )

  progress : Text → Package → Progress Package
  progress sha pkg = record {
    disk = disk;
    packages = pkg ∷ [];
    lock = insert (package_key store around none path version) (cached_entry sha) [];
  }

  resolve_modules_cached :
      (sha : Text) (pkg : Package)
      → parse_module_path path ≡ ok path
      → parse_version version ≡ ok version
      → cache_has (cache_paths resolver.root path version) disk ≡ true
      → archive_sha256 store (cache_paths resolver.root path version) disk ≡ ok sha
      → cache_load store (cache_paths resolver.root path version) disk ≡ ok pkg
      → resolve_modules store around
          (some resolver)
          []
          none
          ((path, version) ∷ [])
          (path ∷ [])
          (record { disk = disk; packages = []; lock = [] })
        ≡ (disk, ok (progress sha pkg))
  unfolding resolve_modules add_from_registry lookup progress replacement_dir_abs hit_metadata
      remove cached_entry
  resolve_modules_cached sha pkg named numbered has hashed loads = rw (
    text_eq_refl path,
    add_from_registry,
    named,
    numbered,
    resolve_cached-hit sha pkg has hashed loads,
  )

  -- A toolset file with one package that is in the cache, without a lock and without an overlay, is not
  -- resolved, although the package loads: the metadata of a cache hit have no commit, and the lock with
  -- them is refused when it is to be written.
  pub resolve_file_cached :
      (f : ToolsetFile) (sha : Text) (pkg : Package) (pv : PackageVer) (fault : WriteFault)
      (temp : Text) (c d : ℕ) (lock_file local_file : Text)
      → f.parsed_packages ≡ some ((path, version) ∷ [])
      → f.lock_filename ≡ c ∷ lock_file
      → f.local_filename ≡ d ∷ local_file
      → lookup (c ∷ lock_file) disk ≡ none
      → lookup (d ∷ local_file) disk ≡ none
      → parse_module_path path ≡ ok path
      → parse_version version ≡ ok version
      → parse_package_ver (package_key store around none path version) ≡ ok pv
      → is_sha256_hex sha ≡ true
      → cache_has (cache_paths resolver.root path version) disk ≡ true
      → archive_sha256 store (cache_paths resolver.root path version) disk ≡ ok sha
      → cache_load store (cache_paths resolver.root path version) disk ≡ ok pkg
      → resolve_file store around (some resolver) fault temp f disk ≡ (
        disk,
        err (
            unwritable_lock
              (bad_entry (package_key store around none path version) (invalid_commit []))),
      )
  unfolding resolve_file load_lock load_local sort_keys insert_key progress
  resolve_file_cached f sha pkg pv fault temp c d lock_file local_file has_packages has_lock
        has_local no_lock no_local named numbered keyed_as hex has hashed loads =
      rw (
        has_packages,
        has_lock,
        has_local,
        no_lock,
        no_local,
        resolve_modules_cached sha pkg named numbered has hashed loads,
        encode_lock_cached sha pv hex keyed_as,
      )
