-- ===== src/Registry/Cache.antt =====
-- registry/cache.go: archives and manifests on disk. The disk is a map from paths to contents, and
-- `writable` says which paths `os.MkdirAll` and `os.WriteFile` can write.
use toolbox.Prelude.{
  ℕ, Bool, true, false, List, [], ◌∷◌, ◌++◌, ◌&&◌, Option, none, some, if◌then◌else◌, Result, ok,
  err,
}
use toolbox.Prelude.Text.{Text, codes}
use toolbox.Prelude.Assoc.{Assoc, lookup, insert}
use toolbox.Vfs.Path.{clean_path, path_dir}

abbrev pub Disk : Type 0
Disk = Assoc (List ℕ)

pub data CacheError : Type 0 where
  cannot_create cannot_write cannot_read : Text → CacheError
  cannot_load : CacheError

-- What the cache uses: the disk's answers to a write, the JSON of the info file, SHA-256 in
-- hexadecimal, and packaging.LoadArchive on the two files of a package.
pub record Store (Package : Type 0) : Type 0 where
  pub writable : Text → Bool
  pub info_json : Text → List ℕ
  pub sha256_hex : List ℕ → Text
  pub load_archive : List ℕ → List ℕ → Option Package

-- cachePaths
pub record CachePaths : Type 0 where
  pub archive : Text
  pub manifest : Text
  pub info : Text

-- filepath.Join(c.root, module, "@v", version) of a root that is an absolute path
unfoldable pub cache_base : Text → Text → Text → Text
cache_base root m version = clean_path (root ++ (b'/' ∷ (m ++ (codes "/@v/" ++ version))))

-- Cache.paths
unfoldable pub cache_paths : Text → Text → Text → CachePaths
unfolding cache_base
cache_paths root m version =
    let base = cache_base root m version in
    record {
      archive = base ++ codes ".pkg";
      manifest = base ++ codes ".manifest";
      info = base ++ codes ".info";
    }

abbrev pub is_stored : Text → Disk → Bool
is_stored p disk = elim (lookup p disk) [ none ↦ false | some _ ↦ true ]

-- Cache.Has
unfoldable pub cache_has : CachePaths → Disk → Bool
cache_has paths disk =
    is_stored paths.archive disk && is_stored paths.manifest disk && is_stored paths.info disk

module _ {Package : Type 0} (store : Store Package) where
  open store use {writable, info_json, sha256_hex, load_archive}

  -- The loop that writes the files in their order; what was written before a failure stays.
  unfoldable pub write_files : List (Text × List ℕ) → Disk → Disk × Result CacheError (Unit {0})
  write_files [] disk = (disk, ok tt)
  write_files ((p, content) ∷ files) disk =
      let rest = write_files files (insert p content disk) in
      if writable p then rest else (disk, err (cannot_write p))

  -- Cache.Put
  unfoldable pub cache_put :
      CachePaths → Text → List ℕ → List ℕ → Disk → Disk × Result CacheError (Unit {0})
  unfolding write_files
  cache_put paths version archive manifest disk =
      let dir = path_dir paths.archive in
      if writable dir
      then write_files
          ((paths.archive, archive)
            ∷ (paths.manifest, manifest)
            ∷ (paths.info, info_json version)
            ∷ [])
          disk
      else (disk, err (cannot_create dir))

  -- Cache.ArchiveSHA256
  unfoldable pub archive_sha256 : CachePaths → Disk → Result CacheError Text
  archive_sha256 paths disk = elim (lookup paths.archive disk) [
    | none ↦ err (cannot_read paths.archive)
    | some archive ↦ ok (sha256_hex archive)
  ]

  -- Cache.LoadArchive
  unfoldable pub cache_load : CachePaths → Disk → Result CacheError Package
  cache_load paths disk = elim (lookup paths.archive disk) [
    | none ↦ err cannot_load
    | some archive ↦ elim (lookup paths.manifest disk) [
      | none ↦ err cannot_load
      | some manifest ↦ elim (load_archive archive manifest) [
        | none ↦ err cannot_load
        | some loaded ↦ ok loaded
      ]
    ]
  ]
