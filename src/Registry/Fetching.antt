-- ===== src/Registry/Fetching.antt =====
-- registry/resolver.go: which of its sources decides what a resolver fetches.
use toolbox.Prelude.{
  suc, sym, ◌⊎◌, inl, inr, Result-cases, ℕ, ◌+◌, List, [], ◌∷◌, ◌++◌, All, length, ok, err, ◌≢◌,
  Result, err, ◌≡◌, refl, arith, ap, ◌∙◌, subst,
}
use toolbox.Prelude.Text.{Text}
use toolbox.Registry.Source.{
  SourceError, FetchResult, release_not_found, bad_module_path, request_failed, unexpected_status,
  bad_response, no_assets, missing_archive, missing_manifest, not_a_commit, invalid_commit,
  invalid_sha256, invalid_origin, invalid_time, git_failed, bad_commit_time, stamp_mismatch,
  pack_failed,
}
use toolbox.Registry.Resolver.{
  Source, after_fetch, fetch_from, fetch_from_sources, ResolveError, all_exhausted, no_sources,
  source_failed,
}

-- A source that has no such release.
abbrev pub Lacks : Text → Text → Source → Type 0
Lacks m version s = s.fetch m version ≡ err release_not_found

-- What a turn of the loop makes of an error: that of a missing release passes it over.
after_fetch-cases :
    (i : ℕ) (later : Result ResolveError FetchResult) (e : SourceError)
    → ((e ≡ release_not_found) × (after_fetch i (err e) later ≡ later))
      ⊎ ((e ≢ release_not_found) × (after_fetch i (err e) later ≡ err (source_failed i e)))
after_fetch-cases i later release_not_found = inl (refl, refl)
after_fetch-cases i later (bad_module_path x) = inr ((λ same. cc), refl)
after_fetch-cases i later (request_failed x) = inr ((λ same. cc), refl)
after_fetch-cases i later (unexpected_status x n) = inr ((λ same. cc), refl)
after_fetch-cases i later (bad_response x) = inr ((λ same. cc), refl)
after_fetch-cases i later no_assets = inr ((λ same. cc), refl)
after_fetch-cases i later missing_archive = inr ((λ same. cc), refl)
after_fetch-cases i later missing_manifest = inr ((λ same. cc), refl)
after_fetch-cases i later (not_a_commit x) = inr ((λ same. cc), refl)
after_fetch-cases i later (invalid_commit x) = inr ((λ same. cc), refl)
after_fetch-cases i later (invalid_sha256 x) = inr ((λ same. cc), refl)
after_fetch-cases i later invalid_origin = inr ((λ same. cc), refl)
after_fetch-cases i later (invalid_time x) = inr ((λ same. cc), refl)
after_fetch-cases i later (git_failed x) = inr ((λ same. cc), refl)
after_fetch-cases i later (bad_commit_time x) = inr ((λ same. cc), refl)
after_fetch-cases i later (stamp_mismatch x) = inr ((λ same. cc), refl)
after_fetch-cases i later pack_failed = inr ((λ same. cc), refl)

-- The first source that does not lack the release decides, as source number i + length skipped: what it
-- fetches is the answer, and its error is the answer's.
pub record DecidedBy (i : ℕ) (sources : List Source) (m version : Text)
    (answer : Result ResolveError FetchResult) : Type 0 where
  pub skipped : List Source
  pub s : Source
  pub rest : List Source
  pub split : sources ≡ skipped ++ s ∷ rest
  pub lack : All (Lacks m version) skipped
  pub decides :
      ((r : FetchResult) × (s.fetch m version ≡ ok r) × (answer ≡ ok r))
      ⊎ ((e : SourceError) × (s.fetch m version ≡ err e)
          × (e ≢ release_not_found)
          × (answer ≡ err (source_failed (i + length skipped) e)))

number-skip : (i n : ℕ) → i + 1 + n ≡ i + suc n
number-skip i n = omega arith

number_first : (i : ℕ) → i ≡ i + length {A = Source} []
number_first i = omega arith

module _ (m version : Text) where
  skip-DecidedBy :
      (i : ℕ) (t : Source) (sources : List Source) (answer : Result ResolveError FetchResult)
      → Lacks m version t
      → DecidedBy (i + 1) sources m version answer
      → DecidedBy i (t ∷ sources) m version answer
  skip-DecidedBy i t sources answer lacks d = record {
    skipped = t ∷ d.skipped;
    s = d.s;
    rest = d.rest;
    split = ap (λ l. t ∷ l) d.split;
    lack = (lacks, d.lack);
    decides = elim d.decides [
      | inl fetched ↦ inl fetched
      | inr (e, has, other, failed) ↦ inr (
        e,
        has,
        other,
        failed ∙ ap (λ n. err (source_failed n e)) (number-skip i (length d.skipped)),
      )
    ];
  }

  decided_now :
      (i : ℕ) (s : Source) (rest : List Source) (answer : Result ResolveError FetchResult)
      → ((r : FetchResult) × (s.fetch m version ≡ ok r) × (answer ≡ ok r))
        ⊎ ((e : SourceError) × (s.fetch m version ≡ err e)
            × (e ≢ release_not_found)
            × (answer ≡ err (source_failed i e)))
      → DecidedBy i (s ∷ rest) m version answer
  decided_now i s rest answer h = record {
    skipped = [];
    s = s;
    rest = rest;
    split = refl;
    lack = tt;
    decides = elim h [
      | inl fetched ↦ inl fetched
      | inr (e, has, other, failed) ↦
          inr (e, has, other, failed ∙ ap (λ n. err (source_failed n e)) (number_first i))
    ];
  }

  fetch_from_decided :
      (i : ℕ) (sources : List Source)
      → DecidedBy i sources m version (fetch_from i sources m version)
        ⊎ (All (Lacks m version) sources × (fetch_from i sources m version ≡ err all_exhausted))
  unfolding fetch_from
  fetch_from_decided i [] = inr (tt, refl)
  fetch_from_decided i (s ∷ sources) = elim (Result-cases (s.fetch m version)) [
    | inl (r, has) ↦ inl (
        decided_now i s sources (fetch_from i (s ∷ sources) m version)
          (inl (r, has, ap (λ f. after_fetch i f (fetch_from (i + 1) sources m version)) has)))
    | inr (e, has) ↦
        let later = fetch_from (i + 1) sources m version in
        let now = ap (λ f. after_fetch i f later) has in
        elim (after_fetch-cases i later e) [
          | inr (other, failed) ↦ inl (
              decided_now i s sources (fetch_from i (s ∷ sources) m version)
                (inr (e, has, other, now ∙ failed)))
          | inl (missing, passed) ↦
              let lacks : Lacks m version s = has ∙ ap err missing in
              elim (fetch_from_decided (i + 1) sources) [
                | inl d ↦ inl (
                    subst (DecidedBy i (s ∷ sources) m version) (sym (now ∙ passed))
                      (skip-DecidedBy i s sources later lacks d))
                | inr (lack, ended) ↦ inr ((lacks, lack), now ∙ passed ∙ ended)
              ]
        ]
  ]

  -- The first source that does not lack the release decides: what it fetches is the answer, and an error
  -- that it has is the answer's, with the number of the source. If all sources lack the release, they
  -- are exhausted, and without any source the answer is an error of its own.
  pub fetch_from_sources_decided :
      (sources : List Source)
      → DecidedBy 0 sources m version (fetch_from_sources sources m version)
        ⊎ (((sources ≢ [])
              × All (Lacks m version) sources
              × (fetch_from_sources sources m version ≡ err all_exhausted))
            ⊎ ((sources ≡ []) × (fetch_from_sources sources m version ≡ err no_sources)))
  unfolding fetch_from_sources
  fetch_from_sources_decided [] = inr (inr (refl, refl))
  fetch_from_sources_decided (s ∷ sources) = elim (fetch_from_decided 0 (s ∷ sources)) [
    | inl d ↦ inl d
    | inr (lack, ended) ↦ inr (inl ((λ e. cc), lack, ended))
  ]
