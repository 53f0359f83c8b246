-- ===== src/Registry/Packing.antt =====
-- registry/git_source.go: what a package that is packed from a checkout consists of.
use toolbox.Prelude.{
  Bool, true, false, List, [], ◌∷◌, ◌++◌, Option, none, some, ok, ok_injective, ◌≡◌, refl, ap, sym,
  ◌∙◌, subst, if◌then◌else◌, ◌⊎◌, inl, inr, Bool-cases,
}
use toolbox.Prelude.Text.{Text, codes, text_eq, text_eq_iff, to_lower}
use toolbox.Tool.Fqn.{is_pseudo, pseudo_timestamp, pseudo_commit}
use toolbox.Registry.Source.{
  FetchResult, SourceError, invalid_commit, stamp_mismatch, is_git_commit, validate,
}
use toolbox.Registry.Listing.{clone_url, trim_space}
use toolbox.Tool.Pattern.{non_empty}
use toolbox.Registry.GitSource.{
  Git, Command, trimmed, clone_tagged_version, stamp_of, demand, packed, then_run-ok, err≢ok,
  run_git_for_version, clone_pseudo_version, clone_version, git_metadata, git_fetch,
}

demand-ok :
    {World : Type 0} (test : Bool) (e : SourceError) (w w' : World) {u : Unit {0}}
    → demand test e w ≡ (w', ok u)
    → test ≡ true
demand-ok true e w w' h = refl
demand-ok false e w w' h = absurd (err≢ok (ap (λ r. r.1) h))

demand_keeps :
    {World : Type 0} (test : Bool) (e : SourceError) (w w' : World) {u : Unit {0}}
    → demand test e w ≡ (w', ok u)
    → w ≡ w'
demand_keeps true e w w' h = ap (λ r. r.0) h
demand_keeps false e w w' h = absurd (err≢ok (ap (λ r. r.1) h))

stamp_of-ok :
    (date : Text) (o : Option Text) {stamp : Text} → stamp_of date o ≡ ok stamp → o ≡ some stamp
stamp_of-ok date none h = absurd (err≢ok h)
stamp_of-ok date (some stamp) h = ap some (ok_injective h)

module _ {World : Type 0} (git : Git World) (url_prefix checkout_dir : Text) where
  -- What has been run when a pseudo-version is checked out: git named a commit for the version's
  -- hash and a date for the commit, this date is the version's timestamp, and the commit was
  -- checked out.
  pub record CheckedOut (version : Text) (w' : World) : Type 0 where
    pub commit : Text
    pub date : Text
    pub asked : World
    pub named : World
    pub dated : World
    pub names :
        run_git_for_version git url_prefix checkout_dir checkout_dir
          (codes "rev-parse")
          (codes "rev-parse" ∷ codes "--verify" ∷ (pseudo_commit version ++ codes "^{commit}") ∷ [])
          asked
        ≡ (named, ok commit)
    pub dates :
        run_git_for_version git url_prefix checkout_dir checkout_dir
          (codes "show")
          (codes "show" ∷ codes "-s" ∷ codes "--format=%cI" ∷ commit ∷ [])
          named
        ≡ (dated, ok date)
    pub agrees : git.utc_stamp date ≡ some (pseudo_timestamp version)
    pub checks_out :
        (output : Text) × (run_git_for_version git url_prefix checkout_dir checkout_dir
            (codes "checkout")
            (codes "checkout" ∷ commit ∷ [])
            dated
          ≡ (w', ok output))

  -- A pseudo-version is cloned without an error only if its commit has the version's timestamp, and
  -- the last command then checks this commit out.
  pub clone_pseudo_version-CheckedOut :
      (version url : Text) (w w' : World)
      → clone_pseudo_version git url_prefix checkout_dir version url w ≡ (w', ok tt)
      → CheckedOut version w'
  unfolding clone_pseudo_version
  clone_pseudo_version-CheckedOut version url w w' h =
      let in_dir : Text → List Text → Command World Text =
        run_git_for_version git url_prefix checkout_dir checkout_dir in
      let cloned =
        run_git_for_version git url_prefix checkout_dir [] (codes "clone")
          (codes "clone" ∷ url ∷ checkout_dir ∷ []) w in
      let (asked, _, _, h1) = then_run-ok cloned _ w' h in
      let (named, commit, names, h2) =
        then_run-ok
          (in_dir (codes "rev-parse")
            (codes "rev-parse"
              ∷ codes "--verify"
              ∷ (pseudo_commit version ++ codes "^{commit}")
              ∷ [])
            asked)
          _ w' h1 in
      let (dated, date, dates, h3) =
        then_run-ok
          (in_dir (codes "show") (codes "show" ∷ codes "-s" ∷ codes "--format=%cI" ∷ commit ∷ [])
            named)
          _ w' h2 in
      let (w3, stamp, stamps, h4) =
        then_run-ok (dated, stamp_of date (git.utc_stamp date)) _ w' h3 in
      let (w4, _, same, h5) =
        then_run-ok (demand (text_eq stamp (pseudo_timestamp version)) (stamp_mismatch stamp) w3) _
          w' h4 in
      let test = text_eq stamp (pseudo_timestamp version) in
      let (w5, output, ran, h6) =
        then_run-ok (in_dir (codes "checkout") (codes "checkout" ∷ commit ∷ []) w4) _ w' h5 in
      let kept : w4 ≡ dated =
        sym (ap (λ r. r.0) stamps ∙ demand_keeps test (stamp_mismatch stamp) w3 w4 same) in
      let read : git.utc_stamp date ≡ some stamp =
        stamp_of-ok date (git.utc_stamp date) (ap (λ r. r.1) stamps) in
      let stamp_agrees =
        (text_eq_iff stamp (pseudo_timestamp version)).0
          (demand-ok test (stamp_mismatch stamp) w3 w4 same) in
      record {
        commit = commit;
        date = date;
        asked = asked;
        named = named;
        dated = dated;
        names = names;
        dates = dates;
        agrees = read ∙ ap some stamp_agrees;
        checks_out = (
          output,
          subst
              (λ w0.
                in_dir (codes "checkout") (codes "checkout" ∷ commit ∷ []) w0 ≡ (w', ok output))
              kept (ran ∙ ap (λ w0. (w0, ok output)) (ap (λ r. r.0) h6)),
        );
      }

  -- git has run in a directory and succeeded, with this output, less the space around it.
  abbrev pub Ran : Text → List Text → World → World → Text → Type 0
  Ran dir args w w' output =
      (raw : Text) × (git.run dir args w ≡ (w', some raw)) × (output ≡ trim_space raw)

  -- The URL of a module below the prefix, or below `https://` if the prefix is blank.
  abbrev pub module_url : Text → Text
  module_url m = (if non_empty (trim_space url_prefix) then url_prefix else codes "https://") ++ m

  -- A version that is no pseudo-version is cloned by its tag; a pseudo-version from a whole clone,
  -- by the commit that it names.
  abbrev pub Cloned : Text → Text → World → World → Type 0
  Cloned m version w ready =
      ((is_pseudo version ≡ false)
        × ((output : Text) × Ran []
              (codes "clone"
                ∷ codes "--depth=1"
                ∷ codes "--branch"
                ∷ version
                ∷ module_url m
                ∷ checkout_dir
                ∷ [])
              w ready output))
      ⊎ ((is_pseudo version ≡ true)
          × ((whole : World) × (output : Text) × Ran []
                (codes "clone" ∷ module_url m ∷ checkout_dir ∷ []) w whole output)
          × CheckedOut version ready)

  -- What a package has been packed from: a clone of the version, the commit that is checked out in
  -- it, and the two files of packaging.Pack.
  pub record FromCheckout (m version : Text) (w w' : World) (r : FetchResult) : Type 0 where
    pub commit : Text
    pub ready : World
    pub asked : World
    pub clones : Cloned m version w ready
    pub names : Ran checkout_dir (codes "rev-parse" ∷ codes "HEAD" ∷ []) ready asked commit
    pub is_commit : is_git_commit commit ≡ true
    pub packs : git.pack checkout_dir asked ≡ (w', some (r.archive, r.manifest))
    pub hashed : r.metadata.archive_sha256 ≡ git.sha256_hex r.archive
    pub committed : r.metadata.git_sha ≡ to_lower commit
    pub valid : validate git.is_rfc3339 r.metadata ≡ ok tt

  trimmed-ok :
      (step : Text) (o : World × Option Text) (w' : World) (output : Text)
      → trimmed step o ≡ (w', ok output)
      → (raw : Text) × (o ≡ (w', some raw)) × (output ≡ trim_space raw)
  trimmed-ok step (w1, some raw) w' output h =
      (raw, ap (λ r. (r.0, some raw)) h, sym (ok_injective (ap (λ r. r.1) h)))
  trimmed-ok step (w1, none) w' output h = absurd (err≢ok (ap (λ r. r.1) h))

  run_git_for_version-Ran :
      (dir step : Text) (args : List Text) (w w' : World) (output : Text)
      → run_git_for_version git url_prefix checkout_dir dir step args w ≡ (w', ok output)
      → Ran dir args w w' output
  unfolding run_git_for_version
  run_git_for_version-Ran dir step args w w' output h =
      trimmed-ok step (git.run dir args w) w' output h

  clone_pseudo_version-Ran :
      (version url : Text) (w w' : World)
      → clone_pseudo_version git url_prefix checkout_dir version url w ≡ (w', ok tt)
      → (whole : World) × (output : Text) × Ran []
          (codes "clone" ∷ url ∷ checkout_dir ∷ [])
          w
          whole
          output
  unfolding clone_pseudo_version
  clone_pseudo_version-Ran version url w w' h =
      let args = codes "clone" ∷ url ∷ checkout_dir ∷ [] in
      let (whole, output, ran, _) =
        then_run-ok (run_git_for_version git url_prefix checkout_dir [] (codes "clone") args w) _ w'
          h in
      (whole, output, run_git_for_version-Ran [] (codes "clone") args w whole output ran)

  clone_version-Cloned :
      (m version : Text) (w ready : World)
      → clone_version git url_prefix checkout_dir version (module_url m) w ≡ (ready, ok tt)
      → Cloned m version w ready
  unfolding clone_version clone_tagged_version
  clone_version-Cloned m version w ready h = elim (Bool-cases (is_pseudo version)) [
    | inr tagged ↦
        let args =
          codes "clone"
          ∷ codes "--depth=1"
          ∷ codes "--branch"
          ∷ version
          ∷ module_url m
          ∷ checkout_dir
          ∷ [] in
        let (w1, output, ran, h1) =
          then_run-ok (run_git_for_version git url_prefix checkout_dir [] (codes "clone") args w) _
            ready (rw tagged at h) in
        inl (
          tagged,
          (
            output,
            run_git_for_version-Ran [] (codes "clone") args w ready output
                (ran ∙ ap (λ x. (x.0, ok output)) h1),
          ),
        )
    | inl pseudo ↦
        let h' : clone_pseudo_version git url_prefix checkout_dir version (module_url m) w
            ≡ (ready, ok tt) =
          rw pseudo at h in
        let (whole, output, ran) = clone_pseudo_version-Ran version (module_url m) w ready h' in
        inr (
          pseudo,
          (whole, output, ran),
          clone_pseudo_version-CheckedOut version (module_url m) w ready h',
        )
  ]

  packed-some :
      {A : Type 0} (o : World × Option A) (w1 : World) {a : A}
      → packed o ≡ (w1, ok a)
      → o ≡ (w1, some a)
  packed-some (w0, some b) w1 h = cc
  packed-some (w0, none) w1 h = absurd (err≢ok (ap (λ r. r.1) h))

  -- A fetch by git that succeeds has cloned the module by the version's tag, or for a pseudo-version the
  -- whole module, of which the commit that it names is checked out; and it returns what packaging.Pack
  -- made of the checkout, with valid metadata that state the SHA-256 of the archive and, in lower case,
  -- the commit that git names at HEAD.
  pub git_fetch-FromCheckout :
      (m version : Text) (w w' : World) (r : FetchResult)
      → git_fetch git url_prefix checkout_dir m version w ≡ (w', ok r)
      → FromCheckout m version w w' r
  unfolding git_fetch clone_url
  git_fetch-FromCheckout m version w w' r h =
      let url = module_url m in
      let (ready, _, clones, h1) =
        then_run-ok (clone_version git url_prefix checkout_dir version url w) _ w' h in
      let (asked, sha, names, h2) =
        then_run-ok
          (run_git_for_version git url_prefix checkout_dir checkout_dir (codes "rev-parse HEAD")
            (codes "rev-parse" ∷ codes "HEAD" ∷ []) ready)
          _ w' h1 in
      let (w3, _, commit, h3) =
        then_run-ok (demand (is_git_commit sha) (invalid_commit sha) asked) _ w' h2 in
      let (w4, files, packs, h4) = then_run-ok (packed (git.pack checkout_dir w3)) _ w' h3 in
      let metadata = git_metadata git url_prefix checkout_dir files.0 sha in
      let (w5, _, valid, h5) = then_run-ok (w4, validate git.is_rfc3339 metadata) _ w' h4 in
      let same : asked ≡ w3 =
        demand_keeps (is_git_commit sha) (invalid_commit sha) asked w3 commit in
      let end : w4 ≡ w' = ap (λ x. x.0) valid ∙ ap (λ x. x.0) h5 in
      subst (FromCheckout m version w w') (ok_injective (ap (λ x. x.1) h5)) (record {
        commit = sha;
        ready = ready;
        asked = asked;
        clones = clone_version-Cloned m version w ready clones;
        names =
            run_git_for_version-Ran checkout_dir (codes "rev-parse HEAD")
              (codes "rev-parse" ∷ codes "HEAD" ∷ []) ready asked sha names;
        is_commit = demand-ok (is_git_commit sha) (invalid_commit sha) asked w3 commit;
        packs =
            ap (git.pack checkout_dir) same
            ∙ packed-some (git.pack checkout_dir w3) w4 packs
            ∙ ap (λ x. (x, some files)) end;
        hashed = refl;
        committed = refl;
        valid = ap (λ x. x.1) valid;
      })
