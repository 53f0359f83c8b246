-- ===== src/Registry/GitSource.antt =====
-- registry/git_source.go: a package that is packed from a git checkout. The state that git and the
-- disk keep is a `World`, which is passed from command to command.
use toolbox.Prelude.{
  ℕ, Bool, true, false, List, [], ◌∷◌, ◌++◌, Option, none, some, if◌then◌else◌, ok, err, ◌≡◌, refl,
  ap,
}
use toolbox.Prelude.Text.{Text, codes, text_eq, to_lower}
use toolbox.Tool.Fqn.{is_pseudo, pseudo_timestamp, pseudo_commit}
use toolbox.Registry.Source.{
  ResolveMetadata, FetchResult, SourceError, git_failed, invalid_commit, bad_commit_time,
  stamp_mismatch, pack_failed, Fetched, git_source, is_git_commit, validate,
}
use toolbox.Registry.Listing.{trim_space, clone_url}

-- What the source uses: git in a directory, with its output if it succeeds; packaging.Pack and the
-- two files that it leaves; SHA-256 in hexadecimal; the clock and the parser of RFC 3339; and a time
-- in RFC 3339 as the 14 digits of its UTC time.
pub record Git (World : Type 0) : Type 0 where
  pub run : Text → List Text → World → World × Option Text
  pub pack : Text → World → World × Option (List ℕ × List ℕ)
  pub sha256_hex : List ℕ → Text
  pub now : Text
  pub is_rfc3339 : Text → Bool
  pub utc_stamp : Text → Option Text

-- A command leaves a world and a value or an error.
abbrev pub Command : Type 0 → Type 0 → Type 0
Command World A = World → World × Fetched A

abbrev pub stamp_of : Text → Option Text → Fetched Text
stamp_of date none = err (bad_commit_time date)
stamp_of date (some stamp) = ok stamp

pub err≢ok : {A : Type 0} {e : SourceError} {a : A} → ◌≡◌ {A = Fetched A} (err e) (ok a) → ⊥
err≢ok h = cc

module _ {World : Type 0} where
  abbrev pub then_run :
      {A B : Type 0} → World × Fetched A → (A → Command World B) → World × Fetched B
  then_run (w, ok a) next = next a w
  then_run (w, err e) next = (w, err e)

  infixl 5 ◌>>=◌ ◌>>◌
  abbrev pub ◌>>=◌ : {A B : Type 0} → Command World A → (A → Command World B) → Command World B
  first >>= next = λ w. then_run (first w) next

  abbrev pub ◌>>◌ : {B : Type 0} → Command World (Unit {0}) → Command World B → Command World B
  first >> next = first >>= λ _. next

  abbrev pub give : {A : Type 0} → Fetched A → Command World A
  give result = λ w. (w, result)

  abbrev pub demand : Bool → SourceError → Command World (Unit {0})
  demand true e = give (ok tt)
  demand false e = give (err e)

  abbrev pub trimmed : Text → World × Option Text → World × Fetched Text
  trimmed step (w, some output) = (w, ok (trim_space output))
  trimmed step (w, none) = (w, err (git_failed step))

  abbrev pub packed : {A : Type 0} → World × Option A → World × Fetched A
  packed (w, some files) = (w, ok files)
  packed (w, none) = (w, err pack_failed)

  -- Inversion of a chain that gave a value.
  pub then_run-ok :
      {A B : Type 0} (first : World × Fetched A) (next : A → Command World B) (w' : World) {b : B}
      → then_run first next ≡ (w', ok b)
      → (w1 : World) × (a : A) × (first ≡ (w1, ok a)) × (next a w1 ≡ (w', ok b))
  then_run-ok (w1, ok a) next w' h = (w1, a, refl, h)
  then_run-ok (w1, err e) next w' h = absurd (err≢ok (ap (λ r. r.1) h))

-- The checkout directory is the one that os.MkdirTemp makes, with `repo` in it.
module _ {World : Type 0} (git : Git World) (url_prefix checkout_dir : Text) where
  open git use {run, pack, sha256_hex, now, is_rfc3339, utc_stamp}

  -- runGitForVersion
  unfoldable pub run_git_for_version : Text → Text → List Text → Command World Text
  run_git_for_version dir step args = λ w. trimmed step (run dir args w)

  -- GitSourceFallback.cloneTaggedVersion
  unfoldable pub clone_tagged_version : Text → Text → Command World (Unit {0})
  unfolding run_git_for_version
  clone_tagged_version version url = do
    _ ←
        run_git_for_version [] (codes "clone")
          (codes "clone" ∷ codes "--depth=1" ∷ codes "--branch" ∷ version ∷ url ∷ checkout_dir ∷ [])
    give (ok tt)

  -- GitSourceFallback.clonePseudoVersion
  unfoldable pub clone_pseudo_version : Text → Text → Command World (Unit {0})
  clone_pseudo_version version url = do
    _ ← run_git_for_version [] (codes "clone") (codes "clone" ∷ url ∷ checkout_dir ∷ [])
    commit ←
        run_git_for_version checkout_dir (codes "rev-parse")
          (codes "rev-parse" ∷ codes "--verify" ∷ (pseudo_commit version ++ codes "^{commit}") ∷ [])
    date ←
        run_git_for_version checkout_dir (codes "show")
          (codes "show" ∷ codes "-s" ∷ codes "--format=%cI" ∷ commit ∷ [])
    stamp ← give (stamp_of date (utc_stamp date))
    demand (text_eq stamp (pseudo_timestamp version)) (stamp_mismatch stamp)
    _ ← run_git_for_version checkout_dir (codes "checkout") (codes "checkout" ∷ commit ∷ [])
    give (ok tt)

  unfoldable pub clone_version : Text → Text → Command World (Unit {0})
  clone_version version url =
      if is_pseudo version
      then clone_pseudo_version version url
      else clone_tagged_version version url

  abbrev pub git_metadata : List ℕ → Text → ResolveMetadata
  git_metadata archive sha = record {
    archive_sha256 = sha256_hex archive;
    git_sha = to_lower sha;
    resolved_from = git_source;
    resolved_at = now;
  }

  -- GitSourceFallback.Fetch
  unfoldable pub git_fetch : Text → Text → Command World FetchResult
  git_fetch m version = do
    let url = clone_url url_prefix m
    clone_version version url
    sha ←
        run_git_for_version checkout_dir (codes "rev-parse HEAD")
          (codes "rev-parse" ∷ codes "HEAD" ∷ [])
    demand (is_git_commit sha) (invalid_commit sha)
    (archive, manifest) ← (λ w. packed (pack checkout_dir w))
    let metadata = git_metadata archive sha
    give (validate is_rfc3339 metadata)
    give (ok (record { archive = archive; manifest = manifest; metadata = metadata }))
