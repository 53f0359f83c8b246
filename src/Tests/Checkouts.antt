-- ===== src/Tests/Checkouts.antt =====
-- Runs and instances for registry/git_source.go. The world counts the commands.
use toolbox.Prelude.{ℕ, ◌+◌, [], some, ok, replicate, true, ◌≡◌, refl}
use toolbox.Prelude.Text.{Text, codes, text_eq, to_lower}
use toolbox.Tool.Pattern.{pseudo_pattern}
use toolbox.Tool.Fqn.{pseudo_timestamp, is_pseudo}
use toolbox.Registry.Source.{FetchResult, git_source, is_git_commit, validate}
use toolbox.Registry.Listing.{trim_space}
use toolbox.Registry.GitSource.{
  Git, clone_tagged_version, run_git_for_version, clone_pseudo_version, clone_version, git_fetch,
}
use toolbox.Registry.Packing.{
  CheckedOut, FromCheckout, clone_pseudo_version-CheckedOut, git_fetch-FromCheckout,
}

abbrev git : Git ℕ
git = record {
  run = λ dir args w. (w + 1, some (replicate 40 b'a'));
  pack = λ dir w. (w + 1, some (codes "pkg", codes "{}"));
  sha256_hex = λ bytes. replicate 64 b'0';
  now = codes "now";
  is_rfc3339 = λ time. true;
  utc_stamp = λ date. some (codes "20240102030405");
}

abbrev pseudo_version : Text
pseudo_version = codes "v0.0.0-20240102030405-aaaaaaaaaaaa"

clones_pseudo :
    clone_pseudo_version git [] (codes "/tmp/repo") pseudo_version (codes "https://x.org/y") 0
    ≡ (4, ok tt)
unfolding clone_pseudo_version run_git_for_version text_eq pseudo_timestamp pseudo_pattern
clones_pseudo = refl

clone_pseudo_version-CheckedOut_example : CheckedOut git [] (codes "/tmp/repo") pseudo_version 4
clone_pseudo_version-CheckedOut_example =
    clone_pseudo_version-CheckedOut git [] (codes "/tmp/repo") pseudo_version
      (codes "https://x.org/y") 0 4 clones_pseudo

abbrev fetched : FetchResult
fetched = record {
  archive = codes "pkg";
  manifest = codes "{}";
  metadata = record {
    archive_sha256 = replicate 64 b'0';
    git_sha = replicate 40 b'a';
    resolved_from = git_source;
    resolved_at = codes "now";
  };
}

fetches_tag :
    git_fetch git [] (codes "/tmp/repo") (codes "x.org/y") (codes "v1.0.0") 0 ≡ (3, ok fetched)
unfolding git_fetch clone_version is_pseudo pseudo_pattern clone_tagged_version is_git_commit
    trim_space validate to_lower
fetches_tag = refl

git_fetch-FromCheckout_example :
    FromCheckout git [] (codes "/tmp/repo") (codes "x.org/y") (codes "v1.0.0") 0 3 fetched
git_fetch-FromCheckout_example =
    git_fetch-FromCheckout git [] (codes "/tmp/repo") (codes "x.org/y") (codes "v1.0.0") 0 3 fetched
      fetches_tag
