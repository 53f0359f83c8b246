-- ===== src/Registry/Listing.antt =====
-- registry/version_list.go: the versions that a source lists.
use mathlib.Core.List.{reverse}
use toolbox.Prelude.{
  ℕ, Bool, false, List, [], ◌∷◌, ◌++◌, ◌&&◌, ◌||◌, ◌==◌, leb, ◌-◌, Option, none, some,
  if◌then◌else◌, length, take, drop, any, map, ok, err, ◌>>=◌,
}
use toolbox.Prelude.Text.{Text, codes, text_eq, has_prefix, has_suffix, split_on, onto_first}
use toolbox.Tool.Pattern.{non_empty}
use toolbox.Tool.Fqn.{parse_version}
use toolbox.Registry.Semver.{SliceSort, sort_versions_desc}
use toolbox.Registry.Source.{
  Remote, Fetched, request_failed, github_repo_for_module, repo_url, release_body, decoded,
}

-- The set `seen`, as the versions taken so far.
unfoldable pub is_seen : Text → List Text → Bool
unfolding text_eq
is_seen v seen = any (λ w. text_eq w v) seen

-- The loops that skip a tag that is no version and a version seen before; `versions` is what was
-- taken, in order.
unfoldable pub collect : List Text → List Text → List Text
unfolding is_seen
collect versions [] = versions
collect versions (tag ∷ tags) = elim (parse_version tag) [
  | err _ ↦ collect versions tags
  | ok v ↦ collect (if is_seen v versions then versions else versions ++ v ∷ []) tags
]

-- GitHubReleaseSource.ListVersions
unfoldable pub github_list_versions :
    SliceSort → Remote → (ℕ → Text) → Text → Text → Fetched (List Text)
unfolding repo_url sort_versions_desc collect
github_list_versions slice_sort remote show_int base_url m = do
  (owner, repo) ← github_repo_for_module m
  let url = repo_url remote show_int base_url owner repo (codes "/releases")
  body ← release_body url (remote.http_get url false)
  releases ← decoded url (remote.decode_releases body)
  ok (sort_versions_desc slice_sort (collect [] (map (λ r. r.tag_name) releases)))

-- unicode.IsSpace on ASCII
abbrev pub is_space : ℕ → Bool
is_space c = c == 32 || leb 9 c && leb c 13

abbrev trim_left : Text → Text
trim_left [] = []
trim_left (c ∷ s) = let rest = trim_left s in if is_space c then rest else c ∷ s

-- strings.TrimSpace
unfoldable pub trim_space : Text → Text
trim_space s = reverse (trim_left (reverse (trim_left s)))

abbrev pieces_at_space : Text → List Text
pieces_at_space [] = [] ∷ []
pieces_at_space (c ∷ s) =
    let rest = pieces_at_space s in if is_space c then [] ∷ rest else onto_first c rest

abbrev drop_empty : List Text → List Text
drop_empty [] = []
drop_empty (p ∷ ps) = let rest = drop_empty ps in if non_empty p then p ∷ rest else rest

-- strings.Fields
unfoldable pub fields : Text → List Text
fields s = drop_empty (pieces_at_space s)

-- strings.TrimSuffix(tag, "^{}")
unfoldable pub peeled : Text → Text
unfolding has_suffix
peeled tag = if has_suffix tag (codes "^{}") then take (length tag - 3) tag else tag

abbrev tag_of_fields : List Text → Option Text
tag_of_fields (sha ∷ ref ∷ _) =
    if has_prefix ref (codes "refs/tags/") then some (peeled (drop 10 ref)) else none
tag_of_fields _ = none

-- The tag that a line of `git ls-remote --tags` names. A blank line has no fields.
unfoldable pub tag_of_line : Text → Option Text
unfolding fields peeled has_prefix
tag_of_line line = tag_of_fields (fields line)

unfoldable pub tags_of_lines : List Text → List Text
unfolding tag_of_line
tags_of_lines [] = []
tags_of_lines (line ∷ lines) =
    let rest = tags_of_lines lines in
    elim (tag_of_line line) [ none ↦ rest | some tag ↦ tag ∷ rest ]

-- GitSourceFallback.cloneURL
unfoldable pub clone_url : Text → Text → Text
unfolding trim_space
clone_url prefix m = (if non_empty (trim_space prefix) then prefix else codes "https://") ++ m

-- GitSourceFallback.ListVersions; `ls_remote` is the output of `git ls-remote --tags` at a URL.
unfoldable pub git_list_versions :
    SliceSort → (Text → Option Text) → Text → Text → Fetched (List Text)
unfolding clone_url tags_of_lines trim_space sort_versions_desc collect
git_list_versions slice_sort ls_remote prefix m =
    let url = clone_url prefix m in
    elim (ls_remote url) [
      | none ↦ err (request_failed url)
      | some output ↦ ok (
          sort_versions_desc slice_sort
            (collect [] (tags_of_lines (split_on 10 (trim_space output)))))
    ]
