-- ===== src/Registry/Resolver.antt =====
-- registry/resolver.go: the cache first, then the sources in their order, with the integrity checks.
use toolbox.Prelude.{
  ℕ, ◌+◌, Bool, true, false, List, [], ◌∷◌, ◌++◌, ◌==◌, Option, none, some, if◌then◌else◌, length,
  Result, ok, err,
}
use toolbox.Prelude.Text.{Text, text_eq, to_lower}
use toolbox.Registry.Semver.{SliceSort, sort_versions_desc}
use toolbox.Registry.Source.{
  ResolveMetadata, FetchResult, SourceError, release_not_found, Fetched, other_origin, validate,
}
use toolbox.Registry.Listing.{is_seen}
use toolbox.Registry.Cache.{
  Disk, Store, CacheError, CachePaths, cache_paths, cache_has, cache_put, archive_sha256,
  cache_load,
}

-- PackageSource, and VersionSource where a source is one.
pub record Source : Type 0 where
  pub fetch : Text → Text → Fetched FetchResult
  pub list_versions : Option (Text → Fetched (List Text))

pub data ResolveError : Type 0 where
  invalid_expected : SourceError → ResolveError
  hash_failed : CacheError → ResolveError
  load_failed : CacheError → ResolveError
  no_sources : ResolveError
  source_failed : ℕ → SourceError → ResolveError
  all_exhausted : ResolveError
  invalid_metadata : SourceError → ResolveError
  integrity_failed : Text → Text → ResolveError
  cache_write_failed : CacheError → ResolveError
  no_version_sources : ResolveError
  none_listed : ResolveError

-- strings.EqualFold on ASCII
unfoldable pub equal_fold : Text → Text → Bool
unfolding text_eq to_lower
equal_fold s t = text_eq (to_lower s) (to_lower t)

-- One turn of the loop of fetchFromSources, with what the turns after it give.
abbrev pub after_fetch :
    ℕ → Fetched FetchResult → Result ResolveError FetchResult → Result ResolveError FetchResult
after_fetch i (ok result) later = ok result
after_fetch i (err release_not_found) later = later
after_fetch i (err e) later = err (source_failed i e)

-- The loop of fetchFromSources, from source i on.
unfoldable pub fetch_from : ℕ → List Source → Text → Text → Result ResolveError FetchResult
fetch_from i [] m version = err all_exhausted
fetch_from i (s ∷ rest) m version =
    after_fetch i (s.fetch m version) (fetch_from (i + 1) rest m version)

-- Resolver.fetchFromSources
unfoldable pub fetch_from_sources : List Source → Text → Text → Result ResolveError FetchResult
fetch_from_sources [] m version = err no_sources
fetch_from_sources (s ∷ rest) m version = fetch_from 0 (s ∷ rest) m version

-- `expected == nil || strings.EqualFold(sha, expected.ArchiveSHA256)`
unfoldable pub is_expected : Option ResolveMetadata → Text → Bool
is_expected none sha = true
is_expected (some e) sha = equal_fold sha e.archive_sha256

unfoldable pub check_expected : (Text → Bool) → Option ResolveMetadata → Fetched (Unit {0})
check_expected is_rfc3339 none = ok tt
check_expected is_rfc3339 (some e) = validate is_rfc3339 e

-- The metadata of a cache hit.
unfoldable pub hit_metadata : Option ResolveMetadata → Text → ResolveMetadata
hit_metadata none sha = record {
  archive_sha256 = sha;
  git_sha = [];
  resolved_from = other_origin [];
  resolved_at = [];
}
hit_metadata (some e) sha = record e { archive_sha256 = sha }

abbrev pub expected_sha : Option ResolveMetadata → Text
expected_sha none = []
expected_sha (some e) = e.archive_sha256

module _ {Package : Type 0} (store : Store Package) (is_rfc3339 : Text → Bool) where
  abbrev pub Resolved : Type 0
  Resolved = Disk × Result ResolveError (Package × ResolveMetadata)

  -- r.cache.LoadArchive, and its error
  abbrev pub loaded : CachePaths → ResolveMetadata → Disk → Resolved
  loaded paths metadata disk = elim (cache_load store paths disk) [
    | err e ↦ (disk, err (load_failed e))
    | ok package' ↦ (disk, ok (package', metadata))
  ]

  abbrev pub after_put :
      CachePaths → ResolveMetadata → Disk × Result CacheError (Unit {0}) → Resolved
  after_put paths metadata (disk, err e) = (disk, err (cache_write_failed e))
  after_put paths metadata (disk, ok _) = loaded paths metadata disk

  -- What ResolveWithExpected does with the result of a source.
  unfoldable pub store_fetched :
      CachePaths → Text → Option ResolveMetadata → FetchResult → Disk → Resolved
  store_fetched paths version expected result disk = elim (validate is_rfc3339 result.metadata) [
    | err e ↦ (disk, err (invalid_metadata e))
    | ok _ ↦
        if is_expected expected result.metadata.archive_sha256
        then after_put paths result.metadata
            (cache_put store paths version result.archive result.manifest disk)
        else (disk, err (integrity_failed (expected_sha expected) result.metadata.archive_sha256))
  ]

  unfoldable pub resolve_from_sources :
      List Source → CachePaths → Text → Text → Option ResolveMetadata → Disk → Resolved
  resolve_from_sources sources paths m version expected disk =
      elim (fetch_from_sources sources m version) [
        | err e ↦ (disk, err e)
        | ok result ↦ store_fetched paths version expected result disk
      ]

  -- A cache that holds the package: it is used unless its archive is not the expected one.
  unfoldable pub resolve_cached :
      List Source → CachePaths → Text → Text → Option ResolveMetadata → Disk → Resolved
  resolve_cached sources paths m version expected disk = elim (archive_sha256 store paths disk) [
    | err e ↦ (disk, err (hash_failed e))
    | ok sha ↦
        if is_expected expected sha
        then loaded paths (hit_metadata expected sha) disk
        else resolve_from_sources sources paths m version expected disk
  ]

  -- Resolver.ResolveWithExpected
  unfoldable pub resolve_with_expected :
      Text → List Source → Text → Text → Option ResolveMetadata → Disk → Resolved
  resolve_with_expected root sources m version expected disk =
      let paths = cache_paths root m version in
      elim (check_expected is_rfc3339 expected) [
        | err e ↦ (disk, err (invalid_expected e))
        | ok _ ↦
            if cache_has paths disk
            then resolve_cached sources paths m version expected disk
            else resolve_from_sources sources paths m version expected disk
      ]

  -- Resolver.Resolve
  unfoldable pub resolve : Text → List Source → Text → Text → Disk → Resolved
  resolve root sources m version disk = resolve_with_expected root sources m version none disk

-- The versions of one source after those of the sources before it.
unfoldable pub add_listed : List Text → List Text → List Text
unfolding is_seen
add_listed versions [] = versions
add_listed versions (v ∷ vs) =
    add_listed (if is_seen v versions then versions else versions ++ v ∷ []) vs

-- The variables of the loop of Resolver.ListVersions.
pub record ListState : Type 0 where
  pub versions : List Text
  pub version_sources : ℕ
  pub any_success : Bool
  pub first_error : Option ResolveError

abbrev pub keep_first : Option ResolveError → ResolveError → Option ResolveError
keep_first none e = some e
keep_first (some e') e = some e'

abbrev pub after_listed : ℕ → Fetched (List Text) → ListState → ListState
after_listed i (ok vs) st = record st { versions = add_listed st.versions vs; any_success = true }
after_listed i (err release_not_found) st = st
after_listed i (err e) st = record st {
  first_error = keep_first st.first_error (source_failed i e);
}

abbrev pub count_source : ListState → ListState
count_source st = record st { version_sources = st.version_sources + 1 }

unfoldable pub list_from : ℕ → List Source → Text → ListState → ListState
unfolding add_listed
list_from i [] m st = st
list_from i (s ∷ rest) m st = elim s.list_versions [
  | none ↦ list_from (i + 1) rest m st
  | some lister ↦ list_from (i + 1) rest m (after_listed i (lister m) (count_source st))
]

abbrev pub list_start : ListState
list_start = record { versions = []; version_sources = 0; any_success = false; first_error = none }

abbrev pub listed_error : ListState → ResolveError
listed_error st = elim st.first_error [
  | none ↦ none_listed
  | some e ↦ if st.any_success then none_listed else e
]

abbrev pub list_result : SliceSort → ListState → Result ResolveError (List Text)
list_result slice_sort st =
    if st.version_sources == 0
    then err no_version_sources
    else if length st.versions == 0
    then err (listed_error st)
    else ok (sort_versions_desc slice_sort st.versions)

-- Resolver.ListVersions
unfoldable pub list_versions : SliceSort → List Source → Text → Result ResolveError (List Text)
unfolding list_from sort_versions_desc
list_versions slice_sort [] m = err no_sources
list_versions slice_sort (s ∷ rest) m = list_result slice_sort (list_from 0 (s ∷ rest) m list_start)
