-- ===== src/Tool/Pieces.antt =====
-- What the recognisers of tool/fqn.go accept: which bytes a version holds, and where a cut falls.
use toolbox.Prelude.{
  ℕ, Bool, true, ◌||◌, Option, none, some, [], ◌∷◌, ◌++◌, arith, ◌==◌, All, ◌≡◌, refl, ap, sym,
  subst, &&-true, Option-cases, ==_iff, Bool-cases, inl, inr,
}
use toolbox.Prelude.Text.{Text, Without, cut_at}
use toolbox.Tool.Pattern.{
  >>=-eq-some, when_non_empty, is_digit, is_dotted_byte, span, after_byte, number, version_core,
  build_tail, prerelease_tail, semver_pattern, text_end,
}

-- A byte that may stand in a version.
abbrev pub VersionByte : ℕ → Type 0
VersionByte c = ((is_dotted_byte c || c == b'+') ≡ true)

pub cut_at-append : (b : ℕ) (l r : Text) → Without b l → cut_at b (l ++ (b ∷ r)) ≡ some (l, r)
unfolding cut_at
cut_at-append b [] r h = ground arith
cut_at-append b (c ∷ l) r h = ground (arith, cut_at-append b l r h.1)

pub cut_at-eq-some :
    (b : ℕ) (s l r : Text) → cut_at b s ≡ some (l, r) → (s ≡ l ++ (b ∷ r)) × Without b l
unfolding cut_at
cut_at-eq-some b [] l r h = cc
cut_at-eq-some b (c ∷ s) l r h = elim (Option-cases (cut_at b s)) [
  | inl e ↦ ground (arith, ==_iff c b)
  | inr ((l', r'), e) ↦ ground (arith, ==_iff c b, cut_at-eq-some b s l' r' e)
]

pub span_append : (p : ℕ → Bool) (s : Text) → (span p s).0 ++ (span p s).1 ≡ s
unfolding span
span_append p [] = refl
span_append p (c ∷ s) = ground (arith, span_append p s)

abbrev Rest : Option (Text × Text) → Type 0
Rest none = Unit
Rest (some (l, r)) = All VersionByte r

-- A text is made of version bytes if what a span leaves of it is.
span-Version :
    (p : ℕ → Bool) (s : Text)
    → ((c : ℕ) → p c ≡ true → VersionByte c)
    → All VersionByte (span p s).1
    → All VersionByte s
unfolding span
span-Version p [] sub h = tt
span-Version p (c ∷ s) sub h = ground (arith, sub c, span-Version p s sub)

digit-Version : (c : ℕ) → is_digit c ≡ true → VersionByte c
unfolding is_dotted_byte is_digit
digit-Version c h = ground arith

dotted-Version : (c : ℕ) → is_dotted_byte c ≡ true → VersionByte c
dotted-Version c h = ground arith

when_non_empty-eq-some : (q : Text × Text) (l r : Text) → when_non_empty q ≡ some (l, r) → r ≡ q.1
when_non_empty-eq-some ([], r') l r h = cc
when_non_empty-eq-some (c ∷ l', r') l r h = cc

number-Version : (s l r : Text) → number s ≡ some (l, r) → All VersionByte r → All VersionByte s
unfolding number
number-Version s l r h hr =
    span-Version is_digit s digit-Version
      (subst (All VersionByte) (when_non_empty-eq-some (span is_digit s) l r h) hr)

after_byte-eq-some : (b : ℕ) (s r : Text) → after_byte b s ≡ some r → s ≡ b ∷ r
unfolding after_byte
after_byte-eq-some b [] r h = cc
after_byte-eq-some b (c ∷ s) r h = ground (arith, ==_iff c b)

text_end-Version : (s : Text) → text_end s ≡ true → All VersionByte s
text_end-Version [] h = tt
text_end-Version (c ∷ s) h = cc

plus-Version : (c : ℕ) → (c == b'+') ≡ true → VersionByte c
plus-Version c h = ground arith

dash-Version : (c : ℕ) → (c == b'-') ≡ true → VersionByte c
unfolding is_dotted_byte
dash-Version c h = ground arith

dotted_run-Version : (s : Text) → All VersionByte (span is_dotted_byte s).1 → All VersionByte s
dotted_run-Version s = span-Version is_dotted_byte s dotted-Version

build_tail-Version : (s : Text) → build_tail s ≡ true → All VersionByte s
unfolding build_tail
build_tail-Version [] h = tt
build_tail-Version (c ∷ s) h =
    let (front, ended) = &&-true h in
    let (plus, _) = &&-true front in
    (plus-Version c plus, dotted_run-Version s (text_end-Version (span is_dotted_byte s).1 ended))

prerelease_tail-Version : (s : Text) → prerelease_tail s ≡ true → All VersionByte s
unfolding prerelease_tail
prerelease_tail-Version [] h = tt
prerelease_tail-Version (c ∷ s) h = elim (Bool-cases (c == b'-')) [
  | inl dash ↦
      let (_, tail) = &&-true (rw dash at h) in
      (
        dash-Version c dash,
        dotted_run-Version s (build_tail-Version (span is_dotted_byte s).1 tail),
      )
  | inr other ↦ build_tail-Version (c ∷ s) (rw other at h)
]

abbrev rest_of : Option (Text × Text × Text × Text) → Text
rest_of none = []
rest_of (some (_, _, _, r)) = r

-- `([0-9]+)\.` and what follows: two steps of the chain.
after-Version :
    (b : ℕ) (s r : Text)
    → VersionByte b
    → after_byte b s ≡ some r
    → All VersionByte r
    → All VersionByte s
after-Version b s r hb h hr = rw (after_byte-eq-some b s r h) (hb, hr)

version_core-Version :
    (s major minor patch r : Text)
    → version_core s ≡ some (major, minor, patch, r)
    → All VersionByte r
    → All VersionByte s
unfolding version_core is_dotted_byte
version_core-Version s major minor patch r h hr =
    let (s0, e0, h0) = >>=-eq-some (after_byte b'v' s) _ h in
    let ((d1, s1), e1, h1) = >>=-eq-some (number s0) _ h0 in
    let (s2, e2, h2) = >>=-eq-some (after_byte b'.' s1) _ h1 in
    let ((d3, s3), e3, h3) = >>=-eq-some (number s2) _ h2 in
    let (s4, e4, h4) = >>=-eq-some (after_byte b'.' s3) _ h3 in
    let ((d5, s5), e5, h5) = >>=-eq-some (number s4) _ h4 in
    let at_end = subst (All VersionByte) (sym (ap rest_of h5)) hr in
    after-Version b'v' s s0 refl e0 (
      number-Version s0 d1 s1 e1 (
        after-Version b'.' s1 s2 refl e2 (
          number-Version s2 d3 s3 e3
            (after-Version b'.' s3 s4 refl e4 (number-Version s4 d5 s5 e5 at_end)))))

pub semver-Version : (s : Text) → semver_pattern s ≡ true → All VersionByte s
unfolding semver_pattern
semver-Version s h = elim (Option-cases (version_core s)) [
  | inl e ↦ ground arith
  | inr ((major, minor, patch, r), e) ↦
      version_core-Version s major minor patch r e (prerelease_tail-Version r (ground arith))
]
