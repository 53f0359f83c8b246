-- ===== src/Tool/Fqn.antt =====
-- tool/fqn.go: the parsers and printers of module paths, versions, tool paths and full names.
use toolbox.Prelude.{
  ℕ, Bool, true, false, not, ◌&&◌, Option, none, some, List, [], ◌∷◌, ◌++◌, ltb, if◌then◌else◌,
  length, drop, all, Result, ok, err, ◌>>=◌, ◌>>◌, guard,
}
use toolbox.Prelude.Text.{Text, has_prefix, contains, cut_at, split_on}
use toolbox.Tool.Pattern.{
  is_digit, non_empty, semver_pattern, pseudo_prefix, pseudo_pattern, tool_path_pattern,
}

-- One constructor for each `fmt.Errorf` and `errors.New`, with the values that it prints.
pub data ParseError : Type 0 where
  module_empty : ParseError
  module_short : Text → ParseError
  host_without_dot : Text → Text → ParseError
  empty_segment : Text → ParseError
  version_empty : ParseError
  invalid_pseudo : Text → ParseError
  invalid_version : Text → ParseError
  tool_path_empty : ParseError
  invalid_tool_path : Text → ParseError
  missing_at : Text → ParseError
  missing_tool_path : Text → ParseError

-- `ModulePath`, `Version` and `ToolPath` are strings.
abbrev pub Parsed : Type 0 → Type 0
Parsed A = Result ParseError A

pub record ToolFqn : Type 0 where
  pub module_path : Text
  pub version : Text
  pub tool : Text

pub record PackageVer : Type 0 where
  pub module_path : Text
  pub version : Text

abbrev is_empty : Text → Bool
is_empty [] = true
is_empty (c ∷ s) = false

-- parts[0]
abbrev host : List Text → Text
host [] = []
host (h ∷ parts) = h

unfoldable pub parse_module_path : Text → Parsed Text
parse_module_path s =
    let parts = split_on b'/' s in
    do
      guard (not (is_empty s)) module_empty
      guard (not (ltb (length parts) 2)) (module_short s)
      guard (contains (host parts) (b'.' ∷ [])) (host_without_dot s (host parts))
      guard (all non_empty parts) (empty_segment s)
      ok s

abbrev starts_with_digit : Text → Bool
starts_with_digit [] = false
starts_with_digit (c ∷ s) = is_digit c

abbrev is_some {ℓ} : {A : Type ℓ} → Option A → Bool
is_some none = false
is_some (some a) = true

unfoldable pub parse_version : Text → Parsed Text
parse_version s =
    if is_empty s
    then err version_empty
    else if has_prefix s pseudo_prefix && starts_with_digit (drop 7 s)
    then (if is_some (pseudo_pattern s) then ok s else err (invalid_pseudo s))
    else if semver_pattern s
    then ok s
    else err (invalid_version s)

unfoldable pub parse_tool_path : Text → Parsed Text
parse_tool_path s = do
  guard (not (is_empty s)) tool_path_empty
  guard (tool_path_pattern s) (invalid_tool_path s)
  ok s

-- `s[:i]` and `s[i+1:]` for an index found, the error for none.
unfoldable pub cut_or : ℕ → Text → ParseError → Parsed (Text × Text)
unfolding cut_at
cut_or b s e = elim (cut_at b s) [ none ↦ err e | some p ↦ ok p ]

unfoldable pub parse_tool_fqn : Text → Parsed ToolFqn
unfolding cut_or
parse_tool_fqn s = do
  (left, remainder) ← cut_or b'@' s (missing_at s)
  (middle, right) ← cut_or b'/' remainder (missing_tool_path s)
  path ← parse_module_path left
  version ← parse_version middle
  tool ← parse_tool_path right
  ok (record { module_path = path; version = version; tool = tool })

unfoldable pub parse_package_ver : Text → Parsed PackageVer
unfolding cut_or
parse_package_ver s = do
  (left, right) ← cut_or b'@' s (missing_at s)
  path ← parse_module_path left
  version ← parse_version right
  ok (record { module_path = path; version = version })

-- ToolFQN.String
unfoldable pub tool_fqn_string : ToolFqn → Text
tool_fqn_string f = f.module_path ++ (b'@' ∷ (f.version ++ (b'/' ∷ f.tool)))

-- PackageVer.String
unfoldable pub package_ver_string : PackageVer → Text
package_ver_string p = p.module_path ++ (b'@' ∷ p.version)

-- Version.IsPseudo
unfoldable pub is_pseudo : Text → Bool
is_pseudo v = is_some (pseudo_pattern v)

-- Version.PseudoTimestamp
unfoldable pub pseudo_timestamp : Text → Text
pseudo_timestamp v = elim (pseudo_pattern v) [ none ↦ [] | some (stamp, _) ↦ stamp ]

-- Version.PseudoCommit
unfoldable pub pseudo_commit : Text → Text
pseudo_commit v = elim (pseudo_pattern v) [ none ↦ [] | some (_, commit) ↦ commit ]
