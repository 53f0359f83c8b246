-- ===== src/Registry/Released.antt =====
-- registry/source.go: what GitHubReleaseSource.Fetch has read when it returns a package.
use toolbox.Prelude.{
  ℕ, ◌≤◌, ◌<◌, Bool, true, false, not, List, [], ◌∷◌, ◌++◌, All, Option, none, some, length, ok,
  >>=-ok, ok_injective, some_injective, guard, guard-ok, ◌==◌, ◌≡◌, refl, arith, ap, sym, ◌∙◌,
  subst, Bool-cases, ltb, leb, ◌||◌, ◌≢◌, ◌⊎◌, inl, inr,
}
use toolbox.Prelude.Text.{
  Text, codes, text_eq, text_eq_iff, has_prefix, has_suffix, split_on, to_lower,
}
use toolbox.Registry.Source.{
  Remote, Reply, failed, replied, Release, Asset, Ref, SourceError, no_assets, missing_archive,
  missing_manifest, not_a_commit, invalid_commit, FetchResult, validate, github_repo_for_module,
  owner_repo, first_asset, is_archive_asset, is_manifest_asset, is_git_commit, asset_or, tag_of,
  path_escape, repo_url, success_body, release_body, decoded, fetch_release_by_tag,
  fetch_tag_commit_sha, download_asset, github_metadata, github_fetch,
}

-- The first element of a list with a property.
pub record IsFirst {A : Type 0} (P : A → Bool) (xs : List A) (x : A) : Type 0 where
  pub before : List A
  pub after : List A
  pub split : xs ≡ before ++ x ∷ after
  pub none_before : All (λ y. P y ≡ false) before
  pub has : P x ≡ true

first_asset-IsFirst :
    (test : Asset → Bool) (assets : List Asset) (a : Asset)
    → first_asset test assets ≡ some a
    → IsFirst test assets a
unfolding first_asset
first_asset-IsFirst test [] a h = cc
first_asset-IsFirst test (b ∷ assets) a h = elim (Bool-cases (test b)) [
  | inl e ↦
      subst (IsFirst test (b ∷ assets)) (some_injective (rw e at h))
        (record { before = []; after = assets; split = refl; none_before = tt; has = e })
  | inr n ↦
      let later = first_asset-IsFirst test assets a (rw n at h) in
      record {
        before = b ∷ later.before;
        after = later.after;
        split = ap (λ l. b ∷ l) later.split;
        none_before = (n, later.none_before);
        has = later.has;
      }
]

IsFirst-same :
    {A : Type 0} (P Q : A → Bool) (xs : List A) (x : A)
    → ((y : A) → P y ≡ Q y)
    → IsFirst P xs x
    → IsFirst Q xs x
IsFirst-same {A = A} P Q xs x same h = record {
  before = h.before;
  after = h.after;
  split = h.split;
  none_before = negative h.before h.none_before;
  has = sym (same x) ∙ h.has;
}
  where
    negative : (ys : List A) → All (λ y. P y ≡ false) ys → All (λ y. Q y ≡ false) ys
    negative [] u = tt
    negative (y ∷ ys) (n, ns) = (sym (same y) ∙ n, negative ys ns)

-- The names that the source looks for.
abbrev pub is_archive_name : Asset → Bool
is_archive_name a = has_suffix a.name (codes ".toolbox.pkg")

abbrev pub is_manifest_name : Asset → Bool
is_manifest_name a = text_eq a.name (codes "toolbox.pkg.json")

manifest_no_archive : has_suffix (codes "toolbox.pkg.json") (codes ".toolbox.pkg") ≡ false
unfolding has_suffix
manifest_no_archive = refl

is_manifest_asset-name : (a : Asset) → is_manifest_asset a ≡ is_manifest_name a
unfolding is_manifest_asset is_archive_asset
is_manifest_asset-name a = elim (Bool-cases (text_eq a.name (codes "toolbox.pkg.json"))) [
  | inl e ↦
      let same = (text_eq_iff a.name (codes "toolbox.pkg.json")).0 e in
      let other : has_suffix a.name (codes ".toolbox.pkg") ≡ false =
        ap (λ n. has_suffix n (codes ".toolbox.pkg")) same ∙ manifest_no_archive in
      rw (other, e)
  | inr n ↦ ground (arith, n)
]

module _ (remote : Remote) where
  -- The server's answer to a URL has a status from 200 to 299 and this body.
  abbrev pub Answers : Text → Bool → List ℕ → Type 0
  Answers url is_asset bytes =
      (status : ℕ) × (remote.http_get url is_asset ≡ replied status bytes)
      × (200 ≤ status)
      × (status < 300)

  success_body-ok :
      (url : Text) (reply : Reply) (bytes : List ℕ)
      → success_body url reply ≡ ok bytes
      → (status : ℕ) × (reply ≡ replied status bytes) × (200 ≤ status) × (status < 300)
  unfolding success_body
  success_body-ok url failed bytes h = cc
  success_body-ok url (replied status body) bytes h =
      elim (Bool-cases (ltb status 200 || leb 300 status)) [
        | inl out ↦ absurd (cc (rw out at h))
        | inr within ↦ (
          status,
          ap (replied status) (ok_injective (rw within at h)),
          ground (arith, within),
          ground (arith, within),
        )
      ]

  release_body-ok :
      (url : Text) (reply : Reply) (bytes : List ℕ)
      → release_body url reply ≡ ok bytes
      → (status : ℕ) × (reply ≡ replied status bytes) × (200 ≤ status) × (status < 300)
  unfolding release_body
  release_body-ok url failed bytes h = cc
  release_body-ok url (replied status body) bytes h = elim (Bool-cases (status == 404)) [
    | inl missing ↦ absurd (cc (rw missing at h))
    | inr other ↦ success_body-ok url (replied status body) bytes (rw other at h)
  ]

  decoded-ok : {A : Type 0} (url : Text) (o : Option A) (a : A) → decoded url o ≡ ok a → o ≡ some a
  decoded-ok url none a h = cc
  decoded-ok url (some b) a h = ap some (ok_injective h)

-- The second and the third part of a module path, which are not empty.
abbrev pub IsRepo : Text → Text → Text → Type 0
IsRepo m owner repo =
    (host : Text) × (rest : List Text) × (split_on b'/' m ≡ host ∷ owner ∷ repo ∷ rest)
    × (owner ≢ [])
    × (repo ≢ [])

IsParts : List Text → Text → Text → Type 0
IsParts parts owner repo =
    (host : Text) × (rest : List Text) × (parts ≡ host ∷ owner ∷ repo ∷ rest)
    × (owner ≢ [])
    × (repo ≢ [])

owner_repo-IsParts :
    (m : Text) (parts : List Text) (owner repo : Text)
    → owner_repo m parts ≡ ok (owner, repo)
    → IsParts parts owner repo
unfolding IsParts
owner_repo-IsParts m [] owner repo h = cc
owner_repo-IsParts m (host ∷ []) owner repo h = cc
owner_repo-IsParts m (host ∷ [] ∷ []) owner repo h = cc
owner_repo-IsParts m (host ∷ (c ∷ o) ∷ []) owner repo h = cc
owner_repo-IsParts m (host ∷ [] ∷ r ∷ rest) owner repo h = cc
owner_repo-IsParts m (host ∷ (c ∷ o) ∷ [] ∷ rest) owner repo h = cc
owner_repo-IsParts m (host ∷ (c ∷ o) ∷ (d ∷ r) ∷ rest) owner repo h =
    let same = ok_injective h in
    subst (λ p. IsParts (host ∷ (c ∷ o) ∷ (d ∷ r) ∷ rest) p.0 p.1) same
      (host, rest, refl, λ e. cc, λ e. cc)

github_repo_for_module-IsRepo :
    (m owner repo : Text) → github_repo_for_module m ≡ ok (owner, repo) → IsRepo m owner repo
unfolding github_repo_for_module IsParts
github_repo_for_module-IsRepo m owner repo h = owner_repo-IsParts m (split_on b'/' m) owner repo h

-- The tag of a version: the version, with a `v` before it if it has none.
abbrev pub IsTag : Text → Text → Type 0
IsTag version tag =
    ((has_prefix version (codes "v") ≡ true) × (tag ≡ version))
    ⊎ ((has_prefix version (codes "v") ≡ false) × (tag ≡ b'v' ∷ version))

tag_of-IsTag : (version : Text) → IsTag version (tag_of version)
unfolding tag_of
tag_of-IsTag version = elim (Bool-cases (has_prefix version (codes "v"))) [
  | inl e ↦ inl (e, rw e refl)
  | inr n ↦ inr (n, rw n refl)
]

module _ (remote : Remote) (show_int : ℕ → Text) (base_url m version : Text) where
  -- A URL below that of a repository.
  abbrev pub below_repo : Text → Text → Text → Text
  below_repo owner repo rest =
      base_url ++ (codes "/repos/" ++ (path_escape owner ++ (b'/' ∷ (path_escape repo ++ rest))))

  -- What a successful fetch has read.
  pub record FromRelease (r : FetchResult) : Type 0 where
    pub owner : Text
    pub repo : Text
    pub tag : Text
    pub release_bytes : List ℕ
    pub release : Release
    pub archive_asset : Asset
    pub manifest_asset : Asset
    pub ref_bytes : List ℕ
    pub ref : Ref
    pub named : IsRepo m owner repo
    pub tagged : IsTag version tag
    pub release_read :
        Answers remote
          (below_repo owner repo (codes "/releases/tags/" ++ path_escape tag))
          false
          release_bytes
    pub release_decoded : remote.decode_release release_bytes ≡ some release
    pub first_archive : IsFirst is_archive_name release.assets archive_asset
    pub first_manifest : IsFirst is_manifest_name release.assets manifest_asset
    pub archive_read :
        Answers remote
          (below_repo owner repo (codes "/releases/assets/" ++ show_int archive_asset.id))
          true
          r.archive
    pub manifest_read :
        Answers remote
          (below_repo owner repo (codes "/releases/assets/" ++ show_int manifest_asset.id))
          true
          r.manifest
    pub ref_read :
        Answers remote
          (below_repo owner repo (codes "/git/ref/tags/" ++ path_escape tag))
          false
          ref_bytes
    pub ref_decoded : remote.decode_ref ref_bytes ≡ some ref
    pub of_commit : ref.object_type ≡ codes "commit"
    pub committed : r.metadata.git_sha ≡ to_lower ref.sha
    pub hashed : r.metadata.archive_sha256 ≡ remote.sha256_hex r.archive
    pub valid : validate remote.is_rfc3339 r.metadata ≡ ok tt

  asset_or-some :
      (o : Option Asset) (e : SourceError) {a : Asset} → asset_or o e ≡ ok a → o ≡ some a
  asset_or-some none e h = cc
  asset_or-some (some b) e h = ap some (ok_injective h)

  fetch_release_by_tag-ok :
      (owner repo tag : Text) (release : Release)
      → fetch_release_by_tag remote show_int base_url owner repo tag ≡ ok release
      → (bytes : List ℕ) × Answers remote
          (below_repo owner repo (codes "/releases/tags/" ++ path_escape tag))
          false
          bytes
        × (remote.decode_release bytes ≡ some release)
  unfolding fetch_release_by_tag repo_url
  fetch_release_by_tag-ok owner repo tag release h =
      let url = below_repo owner repo (codes "/releases/tags/" ++ path_escape tag) in
      let (bytes, read, h1) = >>=-ok (release_body url (remote.http_get url false)) _ h in
      (
        bytes,
        release_body-ok remote url (remote.http_get url false) bytes read,
        decoded-ok remote url (remote.decode_release bytes) release h1,
      )

  fetch_tag_commit_sha-ok :
      (owner repo tag sha : Text)
      → fetch_tag_commit_sha remote show_int base_url owner repo tag ≡ ok sha
      → (bytes : List ℕ) × (ref : Ref) × Answers remote
          (below_repo owner repo (codes "/git/ref/tags/" ++ path_escape tag))
          false
          bytes
        × (remote.decode_ref bytes ≡ some ref)
        × (ref.object_type ≡ codes "commit")
        × (sha ≡ to_lower ref.sha)
  unfolding fetch_tag_commit_sha repo_url
  fetch_tag_commit_sha-ok owner repo tag sha h =
      let url = below_repo owner repo (codes "/git/ref/tags/" ++ path_escape tag) in
      let (bytes, read, h1) = >>=-ok (success_body url (remote.http_get url false)) _ h in
      let (ref, decodes, h2) = >>=-ok (decoded url (remote.decode_ref bytes)) _ h1 in
      let is_commit = text_eq ref.object_type (codes "commit") in
      let (u, typed, h3) = >>=-ok (guard is_commit (not_a_commit ref.object_type)) _ h2 in
      let (_, _, h4) = >>=-ok (guard (is_git_commit ref.sha) (invalid_commit ref.sha)) _ h3 in
      (
        bytes,
        ref,
        success_body-ok remote url (remote.http_get url false) bytes read,
        decoded-ok remote url (remote.decode_ref bytes) ref decodes,
        (text_eq_iff ref.object_type (codes "commit")).0
            (guard-ok is_commit (not_a_commit ref.object_type) u typed),
        sym (ok_injective h4),
      )

  download_asset-ok :
      (owner repo : Text) (id : ℕ) (bytes : List ℕ)
      → download_asset remote show_int base_url owner repo id ≡ ok bytes
      → Answers remote (below_repo owner repo (codes "/releases/assets/" ++ show_int id)) true bytes
  unfolding download_asset repo_url
  download_asset-ok owner repo id bytes h =
      let url = below_repo owner repo (codes "/releases/assets/" ++ show_int id) in
      success_body-ok remote url (remote.http_get url true) bytes h

  archive-IsFirst :
      (assets : List Asset) (a : Asset)
      → asset_or (first_asset is_archive_asset assets) missing_archive ≡ ok a
      → IsFirst is_archive_name assets a
  unfolding is_archive_asset
  archive-IsFirst assets a h =
      first_asset-IsFirst is_archive_name assets a
        (asset_or-some (first_asset is_archive_name assets) missing_archive h)

  manifest-IsFirst :
      (assets : List Asset) (a : Asset)
      → asset_or (first_asset is_manifest_asset assets) missing_manifest ≡ ok a
      → IsFirst is_manifest_name assets a
  manifest-IsFirst assets a h =
      IsFirst-same is_manifest_asset is_manifest_name assets a is_manifest_asset-name (
        first_asset-IsFirst is_manifest_asset assets a
          (asset_or-some (first_asset is_manifest_asset assets) missing_manifest h))

  -- A fetch from GitHub that succeeds has asked for the release with the version's tag, in the
  -- repository that the module path names, and returns the bodies of the answers for two of its assets:
  -- the first one whose name ends in `.toolbox.pkg`, as the archive, and the first one named
  -- `toolbox.pkg.json`, as the manifest. All answers have a status from 200 to 299. The metadata are
  -- valid, and state the SHA-256 of this archive and the commit that the tag's reference has.
  pub github_fetch-FromRelease :
      (r : FetchResult) → github_fetch remote show_int base_url m version ≡ ok r → FromRelease r
  unfolding github_fetch
  github_fetch-FromRelease r h =
      let tag = tag_of version in
      let ((owner, repo), named, h1) = >>=-ok (github_repo_for_module m) _ h in
      let (release, tagged, h2) =
        >>=-ok (fetch_release_by_tag remote show_int base_url owner repo tag) _ h1 in
      let (_, _, h3) = >>=-ok (guard (not (length release.assets == 0)) no_assets) _ h2 in
      let (a, has_a, h4) =
        >>=-ok (asset_or (first_asset is_archive_asset release.assets) missing_archive) _ h3 in
      let (b, has_b, h5) =
        >>=-ok (asset_or (first_asset is_manifest_asset release.assets) missing_manifest) _ h4 in
      let (git_sha, commit, h6) =
        >>=-ok (fetch_tag_commit_sha remote show_int base_url owner repo tag) _ h5 in
      let (archive, read_a, h7) =
        >>=-ok (download_asset remote show_int base_url owner repo a.id) _ h6 in
      let (manifest, read_b, h8) =
        >>=-ok (download_asset remote show_int base_url owner repo b.id) _ h7 in
      let metadata = github_metadata remote show_int base_url archive git_sha in
      let (_, valid, h9) = >>=-ok (validate remote.is_rfc3339 metadata) _ h8 in
      let (release_bytes, read, decodes) = fetch_release_by_tag-ok owner repo tag release tagged in
      let (ref_bytes, ref, ref_read, ref_decodes, typed, sha) =
        fetch_tag_commit_sha-ok owner repo tag git_sha commit in
      subst FromRelease (ok_injective h9) (record {
        owner = owner;
        repo = repo;
        tag = tag;
        release_bytes = release_bytes;
        release = release;
        archive_asset = a;
        manifest_asset = b;
        ref_bytes = ref_bytes;
        ref = ref;
        named = github_repo_for_module-IsRepo m owner repo named;
        tagged = tag_of-IsTag version;
        release_read = read;
        release_decoded = decodes;
        first_archive = archive-IsFirst release.assets a has_a;
        first_manifest = manifest-IsFirst release.assets b has_b;
        archive_read = download_asset-ok owner repo a.id archive read_a;
        manifest_read = download_asset-ok owner repo b.id manifest read_b;
        ref_read = ref_read;
        ref_decoded = ref_decodes;
        of_commit = typed;
        committed = sha;
        hashed = refl;
        valid = valid;
      })
