-- ===== src/Registry/Integrity.antt =====
-- registry/resolver.go and registry/cache.go: what a resolution ends with.
use toolbox.Prelude.{
  ℕ, ◌+◌, Bool, true, false, List, [], ◌∷◌, ◌++◌, All, Option, none, some, Result, ok, err,
  ok_injective, Result-cases, ◌≡◌, ◌⊎◌, refl, arith, ap, Bool-cases, Option-cases, inl, inr,
}
use toolbox.Prelude.Text.{Text, text_eq, text_eq_refl, text_eq-append_left, codes}
use toolbox.Prelude.Assoc.{lookup, insert, lookup-insert}
use toolbox.Registry.Source.{ResolveMetadata, release_not_found, FetchResult, Fetched, validate}
use toolbox.Registry.Cache.{
  Disk, Store, CacheError, CachePaths, cache_base, cache_paths, cache_has, cache_put, write_files,
  archive_sha256, cache_load,
}
use toolbox.Registry.Resolver.{
  Source, ResolveError, Resolved, after_fetch, fetch_from, fetch_from_sources, is_expected,
  check_expected, hit_metadata, loaded, after_put, store_fetched, resolve_from_sources,
  resolve_cached, resolve_with_expected,
}

-- A loop over the sources that succeeds stops at this source or later.
after_fetch-ok :
    (i : ℕ) (now : Fetched FetchResult) (later : Result ResolveError FetchResult) (r : FetchResult)
    → after_fetch i now later ≡ ok r
    → (now ≡ ok r) ⊎ (later ≡ ok r)
after_fetch-ok i (ok result) later r h = inl (ap ok (ok_injective h))
after_fetch-ok i (err release_not_found) later r h = inr h
after_fetch-ok i (err e) later r h = cc

module _ {Package : Type 0} (store : Store Package) where
  -- A source that states the SHA-256 of the archive that it returns.
  abbrev pub IsHonest : Source → Type 0
  IsHonest s =
      (m version : Text) (r : FetchResult)
      → s.fetch m version ≡ ok r
      → r.metadata.archive_sha256 ≡ store.sha256_hex r.archive

module _ {Package : Type 0} (store : Store Package) (is_rfc3339 : Text → Bool) where
  -- A package loaded from the files on a disk, with metadata that state the SHA-256 of the archive
  -- there, which is the expected one if one is expected.
  pub record FromDisk (paths : CachePaths) (expected : Option ResolveMetadata) (disk : Disk)
      (p : Package) (metadata : ResolveMetadata) : Type 0 where
    pub archive : List ℕ
    pub manifest : List ℕ
    pub archive_stored : lookup paths.archive disk ≡ some archive
    pub manifest_stored : lookup paths.manifest disk ≡ some manifest
    pub loads : store.load_archive archive manifest ≡ some p
    pub hashed : metadata.archive_sha256 ≡ store.sha256_hex archive
    pub agrees : is_expected expected metadata.archive_sha256 ≡ true

  -- What a resolution ends with: an error, or a package from the disk.
  abbrev pub Trusted : CachePaths → Option ResolveMetadata → Resolved store is_rfc3339 → Type 0
  Trusted paths expected (disk, err _) = Unit
  Trusted paths expected (disk, ok (p, metadata)) = FromDisk paths expected disk p metadata

  loaded-Trusted :
      (paths : CachePaths) (expected : Option ResolveMetadata) (metadata : ResolveMetadata)
      (archive : List ℕ) (disk : Disk)
      → lookup paths.archive disk ≡ some archive
      → metadata.archive_sha256 ≡ store.sha256_hex archive
      → is_expected expected metadata.archive_sha256 ≡ true
      → Trusted paths expected (loaded store is_rfc3339 paths metadata disk)
  unfolding cache_load
  loaded-Trusted paths expected metadata archive disk here same agrees =
      elim (Option-cases (lookup paths.manifest disk)) [
        | inl absent ↦ rw (loaded, cache_load, here, absent) tt
        | inr (manifest, there) ↦ elim (Option-cases (store.load_archive archive manifest)) [
          | inl fails ↦ rw (loaded, cache_load, here, there, fails) tt
          | inr (p, loads) ↦
              rw (loaded, cache_load, here, there, loads)
                (record {
                  archive = archive;
                  manifest = manifest;
                  archive_stored = here;
                  manifest_stored = there;
                  loads = loads;
                  hashed = same;
                  agrees = agrees;
                })
        ]
      ]

  -- A write of the three files that succeeds leaves the archive at its path.
  write_files-archive :
      (a b c : Text) (archive manifest info : List ℕ) (disk disk' : Disk)
      → text_eq b a ≡ false
      → text_eq c a ≡ false
      → write_files store ((a, archive) ∷ (b, manifest) ∷ (c, info) ∷ []) disk ≡ (disk', ok tt)
      → lookup a disk' ≡ some archive
  unfolding write_files
  write_files-archive a b c archive manifest info disk disk' ba ca h = ground (
    arith,
    ba,
    ca,
    text_eq_refl a,
    lookup-insert a a archive disk,
    lookup-insert b a manifest (insert a archive disk),
    lookup-insert c a info (insert b manifest (insert a archive disk)),
  )

  cache_put-archive :
      (root m version : Text) (archive manifest : List ℕ) (disk disk' : Disk)
      → cache_put store (cache_paths root m version) version archive manifest disk ≡ (disk', ok tt)
      → lookup (cache_paths root m version).archive disk' ≡ some archive
  unfolding cache_put cache_paths text_eq
  cache_put-archive root m version archive manifest disk disk' h =
      let base = cache_base root m version in
      let written =
        write_files-archive (base ++ codes ".pkg") (base ++ codes ".manifest")
          (base ++ codes ".info") archive manifest (store.info_json version) disk disk'
          (text_eq-append_left base (codes ".manifest") (codes ".pkg"))
          (text_eq-append_left base (codes ".info") (codes ".pkg")) in
      ground (arith, h, written)

  after_put-Trusted :
      (paths : CachePaths) (expected : Option ResolveMetadata) (metadata : ResolveMetadata)
      (archive : List ℕ) (put : Disk × Result CacheError (Unit {0}))
      → ((disk' : Disk) → put ≡ (disk', ok tt) → lookup paths.archive disk' ≡ some archive)
      → metadata.archive_sha256 ≡ store.sha256_hex archive
      → is_expected expected metadata.archive_sha256 ≡ true
      → Trusted paths expected (after_put store is_rfc3339 paths metadata put)
  after_put-Trusted paths expected metadata archive (disk', err e) stored same agrees = tt
  after_put-Trusted paths expected metadata archive (disk', ok _) stored same agrees =
      loaded-Trusted paths expected metadata archive disk' (stored disk' refl) same agrees

  store_fetched-Trusted :
      (root m version : Text) (expected : Option ResolveMetadata) (r : FetchResult) (disk : Disk)
      → r.metadata.archive_sha256 ≡ store.sha256_hex r.archive
      → Trusted
          (cache_paths root m version)
          expected
          (store_fetched store is_rfc3339 (cache_paths root m version) version expected r disk)
  unfolding store_fetched
  store_fetched-Trusted root m version expected r disk same =
      elim (Result-cases (validate is_rfc3339 r.metadata)) [
        | inr (e, invalid) ↦ rw (store_fetched, invalid) tt
        | inl (_, valid) ↦ elim (Bool-cases (is_expected expected r.metadata.archive_sha256)) [
          | inr other ↦ rw (store_fetched, valid, other) tt
          | inl agrees ↦
              rw (store_fetched, valid, agrees)
                (after_put-Trusted (cache_paths root m version) expected r.metadata r.archive
                  (cache_put store (cache_paths root m version) version r.archive r.manifest disk)
                  (λ disk' h. cache_put-archive root m version r.archive r.manifest disk disk' h)
                  same agrees)
        ]
      ]

  fetch_from-honest :
      (i : ℕ) (sources : List Source) (m version : Text) (r : FetchResult)
      → All (IsHonest store) sources
      → fetch_from i sources m version ≡ ok r
      → r.metadata.archive_sha256 ≡ store.sha256_hex r.archive
  unfolding fetch_from
  fetch_from-honest i [] m version r honest h = cc
  fetch_from-honest i (s ∷ rest) m version r honest h =
      elim (after_fetch-ok i (s.fetch m version) (fetch_from (i + 1) rest m version) r h) [
        | inl now ↦ honest.0 m version r now
        | inr later ↦ fetch_from-honest (i + 1) rest m version r honest.1 later
      ]

  fetch_from_sources-honest :
      (sources : List Source) (m version : Text) (r : FetchResult)
      → All (IsHonest store) sources
      → fetch_from_sources sources m version ≡ ok r
      → r.metadata.archive_sha256 ≡ store.sha256_hex r.archive
  unfolding fetch_from_sources
  fetch_from_sources-honest [] m version r honest h = cc
  fetch_from_sources-honest (s ∷ rest) m version r honest h =
      fetch_from-honest 0 (s ∷ rest) m version r honest h

  resolve_from_sources-Trusted :
      (root : Text) (sources : List Source) (m version : Text) (expected : Option ResolveMetadata)
      (disk : Disk)
      → All (IsHonest store) sources
      → Trusted (cache_paths root m version) expected (
          resolve_from_sources store is_rfc3339 sources
            (cache_paths root m version)
            m
            version
            expected
            disk)
  unfolding resolve_from_sources
  resolve_from_sources-Trusted root sources m version expected disk honest =
      elim (Result-cases (fetch_from_sources sources m version)) [
        | inr (e, failed) ↦ rw (resolve_from_sources, failed) tt
        | inl (r, fetched) ↦
            rw (resolve_from_sources, fetched)
              (store_fetched-Trusted root m version expected r disk
                (fetch_from_sources-honest sources m version r honest fetched))
      ]

  hit_metadata-archive_sha256 :
      (expected : Option ResolveMetadata) (sha : Text)
      → (hit_metadata expected sha).archive_sha256 ≡ sha
  unfolding hit_metadata
  hit_metadata-archive_sha256 none sha = refl
  hit_metadata-archive_sha256 (some e) sha = refl

  resolve_cached-Trusted :
      (root : Text) (sources : List Source) (m version : Text) (expected : Option ResolveMetadata)
      (disk : Disk)
      → All (IsHonest store) sources
      → Trusted (cache_paths root m version) expected (
          resolve_cached store is_rfc3339 sources
            (cache_paths root m version)
            m
            version
            expected
            disk)
  unfolding resolve_cached archive_sha256
  resolve_cached-Trusted root sources m version expected disk honest =
      let paths = cache_paths root m version in
      elim (Option-cases (lookup paths.archive disk)) [
        | inl absent ↦ rw (resolve_cached, archive_sha256, absent) tt
        | inr (archive, here) ↦
            let sha = store.sha256_hex archive in
            elim (Bool-cases (is_expected expected sha)) [
              | inr other ↦
                  rw (resolve_cached, archive_sha256, here, other)
                    (resolve_from_sources-Trusted root sources m version expected disk honest)
              | inl agrees ↦
                  rw (resolve_cached, archive_sha256, here, agrees)
                    (loaded-Trusted paths expected (hit_metadata expected sha) archive disk here
                      (hit_metadata-archive_sha256 expected sha)
                      (rw (hit_metadata-archive_sha256 expected sha) agrees))
            ]
      ]

  -- When every source states the SHA-256 of the archive that it returns, a resolution ends with an
  -- error, or with a package that was loaded from the archive and the manifest that the disk then
  -- has at the package's paths, and with metadata whose SHA-256 is that of this archive and is the
  -- expected one, up to case, if one is expected.
  pub resolve_with_expected-Trusted :
      (root : Text) (sources : List Source) (m version : Text) (expected : Option ResolveMetadata)
      (disk : Disk)
      → All (IsHonest store) sources
      → Trusted
          (cache_paths root m version)
          expected
          (resolve_with_expected store is_rfc3339 root sources m version expected disk)
  unfolding resolve_with_expected
  resolve_with_expected-Trusted root sources m version expected disk honest =
      elim (Result-cases (check_expected is_rfc3339 expected)) [
        | inr (e, invalid) ↦ rw (resolve_with_expected, invalid) tt
        | inl (_, valid) ↦ elim (Bool-cases (cache_has (cache_paths root m version) disk)) [
          | inl hit ↦
              rw (resolve_with_expected, valid, hit)
                (resolve_cached-Trusted root sources m version expected disk honest)
          | inr miss ↦
              rw (resolve_with_expected, valid, miss)
                (resolve_from_sources-Trusted root sources m version expected disk honest)
        ]
      ]
