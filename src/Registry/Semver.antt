-- ===== src/Registry/Semver.antt =====
-- registry/version_list.go: the order of versions and the sort by it. Go's -1, 0 and 1 are the
-- answers `lt`, `eq` and `gt`.
use Prim.Native.Nat.{Ordering, compare}
use toolbox.Prelude.{
  ℕ, ◌+◌, ◌-◌, ◌*◌, ◌^◌, Bool, true, false, not, List, [], ◌∷◌, ◌&&◌, ◌==◌, Option, none, some, ltb,
  if◌then◌else◌, length, all,
}
use toolbox.Prelude.Text.{Text, text_eq, split_on, compare_text}
use toolbox.Tool.Pattern.{is_digit, is_dotted_byte, span, version_core, non_empty, ◌>>=◌}
use toolbox.Tool.Fqn.{is_pseudo, pseudo_timestamp, pseudo_commit}

-- The value of decimal digits behind a value read before them.
unfoldable pub decimal : ℕ → Text → ℕ
decimal n [] = n
decimal n (c ∷ s) = decimal (n * 10 + (c - b'0')) s

-- strconv.Atoi on digits: an int64, or a range error.
unfoldable pub atoi : Text → Option ℕ
unfolding decimal
atoi s = let n = decimal 0 s in if ltb n (2 ^ 63) then some n else none

pub record ParsedSemver : Type 0 where
  pub major : ℕ
  pub minor : ℕ
  pub patch : ℕ
  pub pre : Text

-- (?:\+.*)?$, where `.` is any byte but a line feed
unfoldable pub strict_end : Text → Bool
strict_end [] = true
strict_end (c ∷ s) = c == b'+' && all (λ d. not (d == 10)) s

-- (?:-([0-9A-Za-z.-]+))? and the end: the fourth group
unfoldable pub strict_tail : Text → Option Text
unfolding span is_dotted_byte strict_end
strict_tail [] = some []
strict_tail (c ∷ s) =
    let (pre, rest) = span is_dotted_byte s in
    if c == b'-'
    then (if non_empty pre && strict_end rest then some pre else none)
    else if strict_end (c ∷ s)
    then some []
    else none

-- parseSemver, with the groups of semverStrictPattern
unfoldable pub parse_semver : Text → Option ParsedSemver
parse_semver v = do
  (major, minor, patch, rest) ← version_core v
  pre ← strict_tail rest
  m ← atoi major
  n ← atoi minor
  p ← atoi patch
  some (record { major = m; minor = n; patch = p; pre = pre })

unfoldable pub parse_numeric_identifier : Text → Option ℕ
unfolding is_digit
parse_numeric_identifier s = if non_empty s && all is_digit s then atoi s else none

-- The `switch` on two identifiers that differ.
abbrev pub compare_kinds : Option ℕ → Option ℕ → Text → Text → Ordering
compare_kinds (some m) (some n) a b = compare m n
compare_kinds (some m) none a b = Ordering.lt
compare_kinds none (some n) a b = Ordering.gt
compare_kinds none none a b = compare_text a b

unfoldable pub compare_parts : List Text → List Text → Ordering
unfolding text_eq
compare_parts (a ∷ as') (b ∷ bs) =
    let rest = compare_parts as' bs in
    if text_eq a b
    then rest
    else compare_kinds (parse_numeric_identifier a) (parse_numeric_identifier b) a b
compare_parts as' bs = compare (length as') (length bs)

unfoldable pub compare_prerelease : Text → Text → Ordering
unfolding text_eq split_on
compare_prerelease a b =
    if text_eq a b
    then Ordering.eq
    else if not (non_empty a)
    then Ordering.gt
    else if not (non_empty b)
    then Ordering.lt
    else compare_parts (split_on b'.' a) (split_on b'.' b)

-- `if c != 0 { return c }` and what comes after
abbrev pub then_by : Ordering → Ordering → Ordering
then_by Ordering.eq next = next
then_by c next = c

unfoldable pub compare_semver : ParsedSemver → ParsedSemver → Ordering
compare_semver a b = then_by (compare a.major b.major) (
    then_by (compare a.minor b.minor)
      (then_by (compare a.patch b.patch) (compare_prerelease a.pre b.pre)))

abbrev pub compare_parsed : Option ParsedSemver → Option ParsedSemver → Text → Text → Ordering
compare_parsed (some p) (some q) a b = compare_semver p q
compare_parsed _ _ a b = compare_text a b

unfoldable pub compare_versions : Text → Text → Ordering
unfolding text_eq
compare_versions a b =
    if text_eq a b
    then Ordering.eq
    else if is_pseudo a && is_pseudo b
    then then_by (compare_text (pseudo_timestamp a) (pseudo_timestamp b))
        (compare_text (pseudo_commit a) (pseudo_commit b))
    else if is_pseudo a
    then Ordering.lt
    else if is_pseudo b
    then Ordering.gt
    else compare_parsed (parse_semver a) (parse_semver b) a b

-- compareVersions(a, b) > 0
abbrev pub is_newer : Text → Text → Bool
is_newer a b = elim (compare_versions a b) [ Ordering.gt ↦ true | _ ↦ false ]

-- sort.Slice, for a list and the `less` of two of its elements. The order of versions is no strict weak order, and
-- then the documentation of sort.Slice leaves open what it returns.
abbrev pub SliceSort : Type 0
SliceSort = (Text → Text → Bool) → List Text → List Text

-- sortVersionsDesc
unfoldable pub sort_versions_desc : SliceSort → List Text → List Text
sort_versions_desc slice_sort versions = slice_sort is_newer versions
