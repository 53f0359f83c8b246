-- ===== src/Tool/Pseudo.antt =====
-- tool/fqn.go: pseudo-versions and their two getters.
use toolbox.Prelude.{
  true, some, [], ◌∷◌, ◌++◌, arith, inl, inr, all, length, take, drop, take_exact, drop_exact, ◌≡◌,
  ◌↔◌, ap, ap₂, sym, ◌∙◌, ok, &&-true, ==_iff, Bool-cases, Option-cases, take-append-drop,
}
use toolbox.Prelude.Text.{Text, has_prefix, has_prefix-append}
use toolbox.Tool.Pattern.{is_digit, is_lower_hex, pseudo_fields, pseudo_pattern, pseudo_prefix}
use toolbox.Tool.Fqn.{is_pseudo, pseudo_timestamp, pseudo_commit, parse_version}

-- The two groups of a match: 14 digits and 12 lower-case hexadecimal digits.
pub record Groups (stamp commit : Text) : Type 0 where
  pub stamp_digits : all is_digit stamp ≡ true
  pub stamp_length : length stamp ≡ 14
  pub commit_hex : all is_lower_hex commit ≡ true
  pub commit_length : length commit ≡ 12

pseudo_fields-eq-some :
    (l r stamp commit : Text)
    → pseudo_fields l r ≡ some (stamp, commit)
    → (l ≡ stamp) × (r ≡ b'-' ∷ commit) × Groups stamp commit
pseudo_fields-eq-some l [] stamp commit h = cc
pseudo_fields-eq-some l (c ∷ r) stamp commit h = ground (arith, ==_iff c b'-')

pub pseudo_pattern-eq-some :
    (s stamp commit : Text)
    → pseudo_pattern s ≡ some (stamp, commit)
    → (s ≡ pseudo_prefix ++ (stamp ++ (b'-' ∷ commit))) × Groups stamp commit
unfolding pseudo_pattern
pseudo_pattern-eq-some s stamp commit h = elim (Bool-cases (has_prefix s pseudo_prefix)) [
  | inl p ↦
      let suffix : Text = drop 7 s in
      let (el, er, g) =
        pseudo_fields-eq-some (take 14 suffix) (drop 14 suffix) stamp commit (ground arith) in
      let e = sym (take-append-drop 14 suffix) ∙ ap₂ ◌++◌ el er in
      (has_prefix-append s pseudo_prefix p ∙ ap (λ t. pseudo_prefix ++ t) e, g)
  | inr n ↦ ground arith
]

pub Groups-pseudo_pattern :
    (stamp commit : Text)
    → Groups stamp commit
    → pseudo_pattern (pseudo_prefix ++ (stamp ++ (b'-' ∷ commit))) ≡ some (stamp, commit)
unfolding pseudo_pattern
Groups-pseudo_pattern stamp commit g =
    rw (take_exact 14 stamp (b'-' ∷ commit) g.stamp_length)
      (rw (drop_exact 14 stamp (b'-' ∷ commit) g.stamp_length) (ground (arith, ==_iff b'-' b'-')))

-- A text is a pseudo-version exactly when it is the prefix, 14 digits, a dash and 12 hexadecimal
-- digits in lower case.
pub is_pseudo_iff :
    (v : Text)
    → (is_pseudo v ≡ true) ↔ (
        (stamp : Text) × (commit : Text) × (v ≡ pseudo_prefix ++ (stamp ++ (b'-' ∷ commit)))
        × Groups stamp commit)
unfolding is_pseudo
is_pseudo_iff v = (
  λ h. elim (Option-cases (pseudo_pattern v)) [
    | inl e ↦ ground arith
    | inr ((stamp, commit), e) ↦
        let (shape, g) = pseudo_pattern-eq-some v stamp commit e in (stamp, commit, shape, g)
  ],
  λ (stamp, commit, shape, g). rw (shape, Groups-pseudo_pattern stamp commit g),
)

-- The two getters return the digits and the commit of a pseudo-version, and it parses.
pub pseudo_getters :
    (stamp commit : Text)
    → Groups stamp commit
    → let v = pseudo_prefix ++ (stamp ++ (b'-' ∷ commit)) in
      (pseudo_timestamp v ≡ stamp) × (pseudo_commit v ≡ commit) × (parse_version v ≡ ok v)
unfolding pseudo_timestamp pseudo_commit parse_version has_prefix pseudo_pattern
pseudo_getters [] commit g = absurd (omega (arith, g.stamp_length))
pseudo_getters (c ∷ stamp) commit g =
    let e = Groups-pseudo_pattern (c ∷ stamp) commit g in
    let (digit, _) = &&-true {a = is_digit c} {b = all is_digit stamp} g.stamp_digits in
    (rw e, rw e, rw (digit, e))
