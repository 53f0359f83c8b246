-- ===== src/Registry/Source.antt =====
-- registry/source.go: the metadata of a resolved package and the source that reads GitHub releases.
use toolbox.Prelude.{
  ℕ, ◌+◌, ◌-◌, ◌/◌, ◌%◌, Bool, true, false, not, List, [], ◌∷◌, ◌++◌, ◌&&◌, ◌||◌, ◌==◌, leb, ltb,
  Option, none, some, if◌then◌else◌, length, all, any, Result, ok, err, ◌>>=◌, ◌>>◌, guard,
}
use toolbox.Prelude.Text.{Text, codes, text_eq, has_prefix, has_suffix, split_on, to_lower}
use toolbox.Tool.Pattern.{is_digit}

-- [0-9a-fA-F]
unfoldable pub is_hex : ℕ → Bool
unfolding is_digit
is_hex c = is_digit c || leb b'a' c && leb c b'f' || leb b'A' c && leb c b'F'

-- sha256HexPattern and gitCommitSHAPattern
unfoldable pub is_sha256_hex : Text → Bool
unfolding is_hex
is_sha256_hex s = all is_hex s && length s == 64

unfoldable pub is_git_commit : Text → Bool
unfolding is_hex
is_git_commit s = all is_hex s && length s == 40

-- ResolvedFrom; any other string is `other_origin`.
pub data ResolvedFrom : Type 0 where
  github_release git_source : ResolvedFrom
  other_origin : Text → ResolvedFrom

pub record ResolveMetadata : Type 0 where
  pub archive_sha256 : Text
  pub git_sha : Text
  pub resolved_from : ResolvedFrom
  pub resolved_at : Text

-- The errors of a source. `release_not_found` is ErrReleaseNotFound, wrapped or not.
pub data SourceError : Type 0 where
  release_not_found : SourceError
  bad_module_path : Text → SourceError
  request_failed : Text → SourceError
  unexpected_status : Text → ℕ → SourceError
  bad_response : Text → SourceError
  no_assets missing_archive missing_manifest : SourceError
  not_a_commit : Text → SourceError
  invalid_commit : Text → SourceError
  invalid_sha256 : Text → SourceError
  invalid_origin : SourceError
  invalid_time : Text → SourceError
  git_failed : Text → SourceError
  bad_commit_time stamp_mismatch : Text → SourceError
  pack_failed : SourceError

abbrev pub Fetched : Type 0 → Type 0
Fetched A = Result SourceError A

pub record FetchResult : Type 0 where
  pub archive : List ℕ
  pub manifest : List ℕ
  pub metadata : ResolveMetadata

pub record Asset : Type 0 where
  pub id : ℕ
  pub name : Text

pub record Release : Type 0 where
  pub tag_name : Text
  pub assets : List Asset

pub record Ref : Type 0 where
  pub object_type : Text
  pub sha : Text

-- How `httpClient.Do` and the read of the body end.
pub data Reply : Type 0 where
  failed : Reply
  replied : ℕ → List ℕ → Reply

-- What the sources use and do not implement: the server's answers to a URL (an asset is asked for
-- with an Accept header), the JSON decoder at the three types that are decoded, SHA-256 in
-- hexadecimal, the clock in RFC 3339 and the parser of RFC 3339.
pub record Remote : Type 0 where
  pub http_get : Text → Bool → Reply
  pub decode_release : List ℕ → Option Release
  pub decode_releases : List ℕ → Option (List Release)
  pub decode_ref : List ℕ → Option Ref
  pub sha256_hex : List ℕ → Text
  pub now : Text
  pub is_rfc3339 : Text → Bool

abbrev pub known_origin : ResolvedFrom → Bool
known_origin github_release = true
known_origin git_source = true
known_origin (other_origin _) = false

-- ResolveMetadata.Validate, with the parser of times
unfoldable pub validate : (Text → Bool) → ResolveMetadata → Fetched (Unit {0})
unfolding is_sha256_hex is_git_commit
validate is_rfc3339 m = do
  guard (is_sha256_hex m.archive_sha256) (invalid_sha256 m.archive_sha256)
  guard (is_git_commit m.git_sha) (invalid_commit m.git_sha)
  guard (known_origin m.resolved_from) invalid_origin
  guard (is_rfc3339 m.resolved_at) (invalid_time m.resolved_at)
  ok tt

abbrev pub owner_repo : Text → List Text → Fetched (Text × Text)
owner_repo m (host ∷ [] ∷ repo ∷ _) = err (bad_module_path m)
owner_repo m (host ∷ owner ∷ [] ∷ _) = err (bad_module_path m)
owner_repo m (host ∷ owner ∷ repo ∷ _) = ok (owner, repo)
owner_repo m _ = err (bad_module_path m)

-- githubRepoForModule
unfoldable pub github_repo_for_module : Text → Fetched (Text × Text)
unfolding split_on
github_repo_for_module m = owner_repo m (split_on b'/' m)

-- A digit of url.PathEscape's %XX
abbrev pub upper_hex : ℕ → ℕ
upper_hex n = if ltb n 10 then n + b'0' else n - 10 + b'A'

-- The bytes that url.PathEscape leaves alone.
unfoldable pub is_path_byte : ℕ → Bool
unfolding is_digit
is_path_byte c =
    is_digit c
    || leb b'A' c && leb c b'Z'
    || leb b'a' c && leb c b'z'
    || any (λ d. c == d) (codes "-_.~$&+=:@")

unfoldable pub path_escape : Text → Text
unfolding is_path_byte
path_escape [] = []
path_escape (c ∷ s) =
    let rest = path_escape s in
    if is_path_byte c then c ∷ rest else b'%' ∷ upper_hex (c / 16) ∷ upper_hex (c % 16) ∷ rest

-- The body of a reply with a status from 200 to 299.
unfoldable pub success_body : Text → Reply → Fetched (List ℕ)
success_body url failed = err (request_failed url)
success_body url (replied status body) =
    if ltb status 200 || leb 300 status then err (unexpected_status url status) else ok body

-- The same, where 404 is ErrReleaseNotFound.
unfoldable pub release_body : Text → Reply → Fetched (List ℕ)
unfolding success_body
release_body url failed = err (request_failed url)
release_body url (replied status body) =
    if status == 404 then err release_not_found else success_body url (replied status body)

-- json.Unmarshal, and its error
abbrev pub decoded : {A : Type 0} → Text → Option A → Fetched A
decoded url none = err (bad_response url)
decoded url (some a) = ok a

-- The first asset that passes a test.
unfoldable pub first_asset : (Asset → Bool) → List Asset → Option Asset
first_asset test [] = none
first_asset test (a ∷ rest) = if test a then some a else first_asset test rest

abbrev pub asset_or : Option Asset → SourceError → Fetched Asset
asset_or none e = err e
asset_or (some a) e = ok a

unfoldable pub is_archive_asset : Asset → Bool
unfolding has_suffix
is_archive_asset a = has_suffix a.name (codes ".toolbox.pkg")

unfoldable pub is_manifest_asset : Asset → Bool
unfolding is_archive_asset text_eq
is_manifest_asset a = not (is_archive_asset a) && text_eq a.name (codes "toolbox.pkg.json")

-- `if !strings.HasPrefix(tag, "v") { tag = "v" + tag }`
unfoldable pub tag_of : Text → Text
unfolding has_prefix
tag_of version = if has_prefix version (codes "v") then version else b'v' ∷ version

-- GitHubReleaseSource: the base of its URLs. `show_int` is the `%d` of an asset's id.
module _ (remote : Remote) (show_int : ℕ → Text) (base_url : Text) where
  open remote use {http_get, decode_release, decode_ref, sha256_hex, now, is_rfc3339}

  -- requestURL of /repos/<owner>/<repo> and the rest of a path
  unfoldable pub repo_url : Text → Text → Text → Text
  unfolding path_escape
  repo_url owner repo rest =
      base_url ++ (codes "/repos/" ++ (path_escape owner ++ (b'/' ∷ (path_escape repo ++ rest))))

  -- fetchReleaseByTag
  unfoldable pub fetch_release_by_tag : Text → Text → Text → Fetched Release
  unfolding repo_url
  fetch_release_by_tag owner repo tag =
      let url = repo_url owner repo (codes "/releases/tags/" ++ path_escape tag) in
      do body ← release_body url (http_get url false); decoded url (decode_release body)

  -- fetchTagCommitSHA
  unfoldable pub fetch_tag_commit_sha : Text → Text → Text → Fetched Text
  unfolding repo_url
  fetch_tag_commit_sha owner repo tag =
      let url = repo_url owner repo (codes "/git/ref/tags/" ++ path_escape tag) in
      do
        body ← success_body url (http_get url false)
        ref ← decoded url (decode_ref body)
        guard (text_eq ref.object_type (codes "commit")) (not_a_commit ref.object_type)
        guard (is_git_commit ref.sha) (invalid_commit ref.sha)
        ok (to_lower ref.sha)

  -- downloadAsset
  unfoldable pub download_asset : Text → Text → ℕ → Fetched (List ℕ)
  unfolding repo_url
  download_asset owner repo id =
      let url = repo_url owner repo (codes "/releases/assets/" ++ show_int id) in
      success_body url (http_get url true)

  abbrev pub github_metadata : List ℕ → Text → ResolveMetadata
  github_metadata archive git_sha = record {
    archive_sha256 = sha256_hex archive;
    git_sha = git_sha;
    resolved_from = github_release;
    resolved_at = now;
  }

  -- GitHubReleaseSource.Fetch
  unfoldable pub github_fetch : Text → Text → Fetched FetchResult
  unfolding fetch_release_by_tag fetch_tag_commit_sha download_asset
  github_fetch m version = do
    (owner, repo) ← github_repo_for_module m
    let tag = tag_of version
    release ← fetch_release_by_tag owner repo tag
    guard (not (length release.assets == 0)) no_assets
    archive_asset ← asset_or (first_asset is_archive_asset release.assets) missing_archive
    manifest_asset ← asset_or (first_asset is_manifest_asset release.assets) missing_manifest
    git_sha ← fetch_tag_commit_sha owner repo tag
    archive ← download_asset owner repo archive_asset.id
    manifest ← download_asset owner repo manifest_asset.id
    let metadata = github_metadata archive git_sha
    validate is_rfc3339 metadata
    ok (record { archive = archive; manifest = manifest; metadata = metadata })
