-- ===== src/Tool/Pattern.antt =====
-- tool/fqn.go: the regular expressions, each as the recogniser that it compiles to. The character
-- classes of every repetition exclude the byte that follows it, so no match has to backtrack.
use toolbox.Prelude.{
  ℕ, Bool, true, false, ◌&&◌, ◌||◌, Option, none, some, [], ◌∷◌, ◌==◌, leb, if◌then◌else◌, length,
  take, drop, all, ◌≡◌, refl,
}
use toolbox.Prelude.Text.{Text, codes, has_prefix, split_on}

-- [0-9]
unfoldable pub is_digit : ℕ → Bool
is_digit c = leb b'0' c && leb c b'9'

-- [0-9a-f]
unfoldable pub is_lower_hex : ℕ → Bool
unfolding is_digit
is_lower_hex c = is_digit c || leb b'a' c && leb c b'f'

-- [0-9A-Za-z-]
unfoldable pub is_identifier_byte : ℕ → Bool
unfolding is_digit
is_identifier_byte c =
    is_digit c || leb b'A' c && leb c b'Z' || leb b'a' c && leb c b'z' || c == b'-'

-- [0-9A-Za-z.-]
unfoldable pub is_dotted_byte : ℕ → Bool
unfolding is_identifier_byte
is_dotted_byte c = is_identifier_byte c || c == b'.'

abbrev pub non_empty : Text → Bool
non_empty [] = false
non_empty (c ∷ s) = true

abbrev pub before : ℕ → Text × Text → Text × Text
before c (l, r) = (c ∷ l, r)

-- The longest prefix of a class, and the rest.
unfoldable pub span : (ℕ → Bool) → Text → Text × Text
span p [] = ([], [])
span p (c ∷ s) = if p c then before c (span p s) else ([], c ∷ s)

-- What follows a given byte.
unfoldable pub after_byte : ℕ → Text → Option Text
after_byte b [] = none
after_byte b (c ∷ s) = if c == b then some s else none

infixl 5 ◌>>=◌
abbrev pub ◌>>=◌ {ℓ κ} : {A : Type ℓ} {B : Type κ} → Option A → (A → Option B) → Option B
none >>= f = none
some a >>= f = f a

-- Inversion of a chain that matched.
pub >>=-eq-some {ℓ κ} :
    {A : Type ℓ} {B : Type κ} (m : Option A) (f : A → Option B) {b : B}
    → (m >>= f) ≡ some b
    → (a : A) × (m ≡ some a) × (f a ≡ some b)
>>=-eq-some none f h = cc
>>=-eq-some (some a) f h = (a, refl, h)

abbrev pub when_non_empty : Text × Text → Option (Text × Text)
when_non_empty ([], r) = none
when_non_empty (c ∷ l, r) = some (c ∷ l, r)

-- ([0-9]+) and the rest
unfoldable pub number : Text → Option (Text × Text)
unfolding span is_digit
number s = when_non_empty (span is_digit s)

-- ^v([0-9]+)\.([0-9]+)\.([0-9]+), and the rest
unfoldable pub version_core : Text → Option (Text × Text × Text × Text)
unfolding after_byte number
version_core s = do
  s0 ← after_byte b'v' s
  (major, s1) ← number s0
  s2 ← after_byte b'.' s1
  (minor, s3) ← number s2
  s4 ← after_byte b'.' s3
  (patch, rest) ← number s4
  some (major, minor, patch, rest)

-- [0-9A-Za-z-]+(?:\.[0-9A-Za-z-]+)* on a run of the class [0-9A-Za-z.-]
unfoldable pub is_identifiers : Text → Bool
unfolding split_on
is_identifiers s = all non_empty (split_on b'.' s)

abbrev pub text_end : Text → Bool
text_end [] = true
text_end (c ∷ s) = false

-- (?:\+[0-9A-Za-z-]+(?:\.[0-9A-Za-z-]+)*)?$
unfoldable pub build_tail : Text → Bool
unfolding span is_identifiers is_dotted_byte
build_tail [] = true
build_tail (c ∷ s) =
    let (build, rest) = span is_dotted_byte s in c == b'+' && is_identifiers build && text_end rest

-- (?:-[0-9A-Za-z-]+(?:\.[0-9A-Za-z-]+)*)? and the tail above
unfoldable pub prerelease_tail : Text → Bool
unfolding span is_identifiers is_dotted_byte build_tail
prerelease_tail [] = true
prerelease_tail (c ∷ s) =
    let (pre, rest) = span is_dotted_byte s in
    if c == b'-' then is_identifiers pre && build_tail rest else build_tail (c ∷ s)

-- semverPattern.MatchString
unfoldable pub semver_pattern : Text → Bool
unfolding version_core prerelease_tail
semver_pattern s = elim (version_core s) [
  | none ↦ false
  | some (_, _, _, rest) ↦ prerelease_tail rest
]

-- "v0.0.0-"
abbrev pub pseudo_prefix : Text
pseudo_prefix = codes "v0.0.0-"

abbrev pub pseudo_fields : Text → Text → Option (Text × Text)
pseudo_fields stamp [] = none
pseudo_fields stamp (c ∷ commit) =
    if c == b'-'
      && all is_digit stamp
      && length stamp == 14
      && all is_lower_hex commit
      && length commit == 12
    then some (stamp, commit)
    else none

-- pseudoVersionPattern.FindStringSubmatch: the two groups of ^v0\.0\.0-([0-9]{14})-([0-9a-f]{12})$
unfoldable pub pseudo_pattern : Text → Option (Text × Text)
unfolding has_prefix is_digit is_lower_hex
pseudo_pattern s =
    let suffix = drop 7 s in
    if has_prefix s pseudo_prefix then pseudo_fields (take 14 suffix) (drop 14 suffix) else none

-- toolPathPattern.MatchString: ^[^.]+(?:\.[^.]+)*$
unfoldable pub tool_path_pattern : Text → Bool
unfolding split_on
tool_path_pattern s = all non_empty (split_on b'.' s)
