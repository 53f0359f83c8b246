-- ===== src/Tests/Packages.antt =====
-- Runs and instances for registry/: a resolver over two sources and a disk.
use toolbox.Prelude.{
  ℕ, Bool, true, ◌≡◌, refl, List, [], ◌∷◌, none, some, ok, err, length, replicate, ◌+◌, ◌%◌,
  ok_injective, subst, All, ◌≢◌, ◌⊎◌,
}
use toolbox.Prelude.Text.{Text, to_lower, codes}
use toolbox.Registry.Source.{
  github_repo_for_module, release_body, first_asset, is_archive_asset, is_manifest_asset,
  is_git_commit, validate, Remote, replied, FetchResult, release_not_found, github_release,
  github_fetch,
}
use toolbox.Registry.Cache.{Store, cache_paths}
use toolbox.Registry.Resolver.{
  Source, all_exhausted, no_sources, fetch_from_sources, resolve_with_expected,
}
use toolbox.Registry.Integrity.{IsHonest, Trusted, resolve_with_expected-Trusted}
use toolbox.Registry.Fetching.{Lacks, DecidedBy, fetch_from_sources_decided}
use toolbox.Registry.Released.{FromRelease, github_fetch-FromRelease}

-- A hash of 64 hexadecimal digits: the number of bytes, as a digit, again and again.
abbrev digit_hash : List ℕ → Text
digit_hash bytes = replicate 64 (length bytes % 10 + b'0')

abbrev store : Store (List ℕ)
store = record {
  writable = λ _. true;
  info_json = λ version. version;
  sha256_hex = digit_hash;
  load_archive = λ archive manifest. some archive;
}

abbrev any_time : Text → Bool
any_time _ = true

abbrev result_of : List ℕ → FetchResult
result_of archive = record {
  archive = archive;
  manifest = codes "{}";
  metadata = record {
    archive_sha256 = digit_hash archive;
    git_sha = replicate 40 b'a';
    resolved_from = github_release;
    resolved_at = codes "now";
  };
}

abbrev empty_source : Source
empty_source = record { fetch = λ m version. err release_not_found; list_versions = none }

abbrev full_source : Source
full_source = record { fetch = λ m version. ok (result_of (codes "pkg")); list_versions = none }

empty-IsHonest : IsHonest store empty_source
empty-IsHonest m version r h = cc

full-IsHonest : IsHonest store full_source
full-IsHonest m version r h =
    let same : result_of (codes "pkg") ≡ r = ok_injective h in
    subst (λ r'. r'.metadata.archive_sha256 ≡ digit_hash r'.archive) same refl

abbrev cache_root : Text
cache_root = codes "/cache"

abbrev github_module : Text
github_module = codes "github.com/acme/tool"

resolve_with_expected-Trusted_example :
    Trusted store any_time (cache_paths cache_root github_module (codes "1.0.0")) none (
      resolve_with_expected store any_time cache_root
        (empty_source ∷ full_source ∷ [])
        github_module
        (codes "1.0.0")
        none
        [])
resolve_with_expected-Trusted_example =
    resolve_with_expected-Trusted store any_time cache_root (empty_source ∷ full_source ∷ [])
      github_module (codes "1.0.0") none [] (empty-IsHonest, (full-IsHonest, tt))

fetch_from_sources_decided_example :
    DecidedBy 0
      (empty_source ∷ full_source ∷ [])
      github_module
      (codes "1.0.0")
      (fetch_from_sources (empty_source ∷ full_source ∷ []) github_module (codes "1.0.0"))
    ⊎ ((((empty_source ∷ full_source ∷ []) ≢ [])
          × All (Lacks github_module (codes "1.0.0")) (empty_source ∷ full_source ∷ [])
          × (fetch_from_sources (empty_source ∷ full_source ∷ []) github_module (codes "1.0.0")
              ≡ err all_exhausted))
        ⊎ (((empty_source ∷ full_source ∷ []) ≡ [])
            × (fetch_from_sources (empty_source ∷ full_source ∷ []) github_module (codes "1.0.0")
                ≡ err no_sources)))
fetch_from_sources_decided_example =
    fetch_from_sources_decided github_module (codes "1.0.0") (empty_source ∷ full_source ∷ [])

-- A server that has one release with the two assets, whatever it is asked for.
abbrev remote : Remote
remote = record {
  http_get = λ url is_asset. replied 200 (codes "pkg");
  decode_release = λ body. some (record {
    tag_name = codes "v1.0.0";
    assets =
        record { id = 1; name = codes "toolbox.pkg.json" }
        ∷ record { id = 2; name = codes "tool.toolbox.pkg" }
        ∷ [];
  });
  decode_releases = λ body. none;
  decode_ref = λ body. some (record { object_type = codes "commit"; sha = replicate 40 b'A' });
  sha256_hex = digit_hash;
  now = codes "now";
  is_rfc3339 = any_time;
}

abbrev show_byte : ℕ → Text
show_byte n = (n + b'0') ∷ []

abbrev fetched : FetchResult
fetched = record {
  archive = codes "pkg";
  manifest = codes "pkg";
  metadata = record {
    archive_sha256 = digit_hash (codes "pkg");
    git_sha = replicate 40 b'a';
    resolved_from = github_release;
    resolved_at = codes "now";
  };
}

fetches : github_fetch remote show_byte (codes "api") github_module (codes "1.0.0") ≡ ok fetched
unfolding github_fetch github_repo_for_module release_body first_asset is_archive_asset
    is_manifest_asset is_git_commit validate to_lower
fetches = refl

github_fetch-FromRelease_example :
    FromRelease remote show_byte (codes "api") github_module (codes "1.0.0") fetched
github_fetch-FromRelease_example =
    github_fetch-FromRelease remote show_byte (codes "api") github_module (codes "1.0.0") fetched
      fetches
