-- ===== src/Registry/Order.antt =====
-- registry/version_list.go: the comparison of versions with its sides exchanged.
use Prim.Native.Nat.{Ordering, compare}
use toolbox.Prelude.{
  ℕ, List, [], ◌∷◌, Option, none, some, length, ◌≡◌, refl, arith, Bool-cases, inl, inr,
}
use toolbox.Prelude.Text.{Text, text_eq, text_eq_iff, compare_text, split_on}
use toolbox.Tool.Fqn.{pseudo_timestamp, pseudo_commit}
use toolbox.Registry.Semver.{
  ParsedSemver, parse_semver, parse_numeric_identifier, compare_kinds, compare_parts,
  compare_prerelease, then_by, compare_semver, compare_parsed, compare_versions,
}

-- The answer of the comparison with its sides exchanged.
abbrev pub swap : Ordering → Ordering
swap Ordering.lt = Ordering.gt
swap Ordering.eq = Ordering.eq
swap Ordering.gt = Ordering.lt

compare-swap : (a b : ℕ) → compare b a ≡ swap (compare a b)
compare-swap a b = ground arith

pub compare_text-swap : (s t : Text) → compare_text t s ≡ swap (compare_text s t)
unfolding compare_text
compare_text-swap [] [] = refl
compare_text-swap [] (b ∷ t) = refl
compare_text-swap (a ∷ s) [] = refl
compare_text-swap (a ∷ s) (b ∷ t) = ground (arith, compare_text-swap s t)

text_eq-swap : (s t : Text) → text_eq t s ≡ text_eq s t
text_eq-swap s t = ground (arith, text_eq_iff s t, text_eq_iff t s)

then_by-swap : (c d : Ordering) → swap (then_by c d) ≡ then_by (swap c) (swap d)
then_by-swap Ordering.lt d = refl
then_by-swap Ordering.eq d = refl
then_by-swap Ordering.gt d = refl

compare_kinds-swap :
    (x y : Option ℕ) (a b : Text) → compare_kinds y x b a ≡ swap (compare_kinds x y a b)
compare_kinds-swap (some m) (some n) a b = compare-swap m n
compare_kinds-swap (some m) none a b = refl
compare_kinds-swap none (some n) a b = refl
compare_kinds-swap none none a b = compare_text-swap a b

compare_parts-swap : (xs ys : List Text) → compare_parts ys xs ≡ swap (compare_parts xs ys)
unfolding compare_parts
compare_parts-swap [] [] = compare-swap 0 0
compare_parts-swap [] (y ∷ ys) = compare-swap 0 (length (y ∷ ys))
compare_parts-swap (x ∷ xs) [] = compare-swap (length (x ∷ xs)) 0
compare_parts-swap (x ∷ xs) (y ∷ ys) = elim (Bool-cases (text_eq x y)) [
  | inl e ↦ rw (text_eq-swap x y) (rw e (compare_parts-swap xs ys))
  | inr n ↦
      rw (text_eq-swap x y)
        (rw n (compare_kinds-swap (parse_numeric_identifier x) (parse_numeric_identifier y) x y))
]

compare_prerelease-swap : (a b : Text) → compare_prerelease b a ≡ swap (compare_prerelease a b)
unfolding compare_prerelease
compare_prerelease-swap [] [] = unfold text_eq in refl
compare_prerelease-swap [] (c ∷ b) = unfold text_eq in refl
compare_prerelease-swap (c ∷ a) [] = unfold text_eq in refl
compare_prerelease-swap (c ∷ a) (d ∷ b) = elim (Bool-cases (text_eq (c ∷ a) (d ∷ b))) [
  | inl e ↦ rw (text_eq-swap (c ∷ a) (d ∷ b)) (rw e)
  | inr n ↦
      rw (text_eq-swap (c ∷ a) (d ∷ b))
        (rw n (compare_parts-swap (split_on b'.' (c ∷ a)) (split_on b'.' (d ∷ b))))
]

compare_semver-swap : (p q : ParsedSemver) → compare_semver q p ≡ swap (compare_semver p q)
unfolding compare_semver
compare_semver-swap p q =
    rw
      (
        compare-swap p.major q.major,
        compare-swap p.minor q.minor,
        compare-swap p.patch q.patch,
        compare_prerelease-swap p.pre q.pre,
      )
      (simp then_by-swap)

compare_parsed-swap :
    (p q : Option ParsedSemver) (a b : Text)
    → compare_parsed q p b a ≡ swap (compare_parsed p q a b)
compare_parsed-swap (some p) (some q) a b = compare_semver-swap p q
compare_parsed-swap (some p) none a b = compare_text-swap a b
compare_parsed-swap none (some q) a b = compare_text-swap a b
compare_parsed-swap none none a b = compare_text-swap a b

-- Exchanging two versions turns the answer round: of two versions, one is newer or the two compare
-- equal, whichever is asked about first.
pub compare_versions-swap : (a b : Text) → compare_versions b a ≡ swap (compare_versions a b)
unfolding compare_versions
compare_versions-swap a b = ground (
  arith,
  text_eq-swap a b,
  compare_text-swap (pseudo_timestamp a) (pseudo_timestamp b),
  compare_text-swap (pseudo_commit a) (pseudo_commit b),
  compare_parsed-swap (parse_semver a) (parse_semver b) a b,
)
