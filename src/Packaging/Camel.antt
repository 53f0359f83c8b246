-- ===== src/Packaging/Camel.antt =====
-- packaging/internal/manifest/manifest.go: kebab-case names and the camel-case names of tools.
use toolbox.Prelude.{
  ℕ, ◌+◌, Bool, true, false, List, [], ◌∷◌, ◌++◌, ◌==◌, ◌&&◌, leb, if◌then◌else◌, map, ◌≡◌, refl,
  arith, ap, sym, ◌∙◌, Bool-cases, inl, inr,
}
use toolbox.Prelude.Text.{Text, split_on}
use toolbox.Tool.Pattern.{is_digit}
use toolbox.Packaging.Names.{
  upper_ascii, capitalize, concat, camel, kebab_to_camel, is_lower, is_kebab_byte,
}

-- Byte by byte: a hyphen goes, and the byte behind it turns to upper case.
unfoldable pub camel_bytes : Bool → Text → Text
camel_bytes up [] = []
camel_bytes up (c ∷ s) =
    let behind = camel_bytes true s in
    let next = camel_bytes false s in
    if c == b'-' then behind else (if up then upper_ascii c else c) ∷ next

split_on-cons : (b : ℕ) (s : Text) → (p : Text) × (ps : List Text) × (split_on b s ≡ p ∷ ps)
unfolding split_on
split_on-cons b [] = ([], [], refl)
split_on-cons b (c ∷ s) = elim (Bool-cases (c == b)) [
  | inl e ↦ ([], split_on b s, rw e)
  | inr n ↦ let (p, ps, h) = split_on-cons b s in (c ∷ p, ps, rw (n, h))
]

-- The words of a split, capitalized from the first or from the second on.
camel_bytes-split :
    (s : Text)
    → (camel (split_on b'-' s) ≡ camel_bytes false s)
      × (concat (map capitalize (split_on b'-' s)) ≡ camel_bytes true s)
unfolding split_on camel_bytes
camel_bytes-split [] = (refl, refl)
camel_bytes-split (c ∷ s) =
    let (plain, raised) = camel_bytes-split s in
    let (p, ps, h) = split_on-cons b'-' s in
    elim (Bool-cases (c == b'-')) [
      | inl e ↦ (rw e raised, rw e raised)
      | inr n ↦
          let plain' : p ++ concat (map capitalize ps) ≡ camel_bytes false s = rw h at plain in
          (rw (n, h) (ap (λ t. c ∷ t) plain'), rw (n, h) (ap (λ t. upper_ascii c ∷ t) plain'))
    ]

-- Splitting at hyphens, capitalizing the words behind the first and joining them is dropping each
-- hyphen and raising the byte behind it.
pub kebab_to_camel-camel_bytes : (s : Text) → kebab_to_camel s ≡ camel_bytes false s
unfolding kebab_to_camel
kebab_to_camel-camel_bytes s = (camel_bytes-split s).0

-- [A-Z]
abbrev pub is_upper : ℕ → Bool
is_upper c = leb b'A' c && leb c b'Z'

-- The inverse: a hyphen before each capital, which is lowered.
unfoldable pub camel_to_kebab : Text → Text
camel_to_kebab [] = []
camel_to_kebab (c ∷ s) =
    let rest = camel_to_kebab s in if is_upper c then b'-' ∷ (c + 32) ∷ rest else c ∷ rest

-- Lower-case letters, digits and hyphens, with a letter behind each hyphen, and at the start if the
-- flag is set.
unfoldable pub is_lettered : Bool → Text → Bool
is_lettered false [] = true
is_lettered true [] = false
is_lettered true (c ∷ s) = is_lower c && is_lettered false s
is_lettered false (c ∷ s) =
    let behind = is_lettered true s in
    let next = is_lettered false s in if c == b'-' then behind else is_kebab_byte c && next

lower_raised :
    (c : ℕ) → is_lower c ≡ true → (is_upper (upper_ascii c) ≡ true) × (upper_ascii c + 32 ≡ c)
unfolding is_lower
lower_raised c h = ground arith

kebab_not_upper : (c : ℕ) → is_kebab_byte c ≡ true → is_upper c ≡ false
unfolding is_kebab_byte
kebab_not_upper c h = ground arith

is_lower-ne : (c : ℕ) → is_lower c ≡ true → (c == b'-') ≡ false
unfolding is_lower
is_lower-ne c h = ground arith

camel_to_kebab-camel_bytes :
    (s : Text)
    → (is_lettered false s ≡ true → camel_to_kebab (camel_bytes false s) ≡ s)
      × (is_lettered true s ≡ true → camel_to_kebab (camel_bytes true s) ≡ b'-' ∷ s)
unfolding camel_to_kebab camel_bytes is_lettered
camel_to_kebab-camel_bytes [] = (λ h. refl, λ h. cc)
camel_to_kebab-camel_bytes (c ∷ s) =
    let (plain, raised) = camel_to_kebab-camel_bytes s in
    (
      λ h. ground (arith, plain, raised, kebab_not_upper c),
      λ h. ground (arith, plain, raised, lower_raised c, is_lower-ne c),
    )

-- A name of lower-case letters, digits and hyphens, in which a letter follows each hyphen, is got
-- back from its camel-case form.
pub camel_to_kebab-kebab_to_camel :
    (s : Text) → is_lettered false s ≡ true → camel_to_kebab (kebab_to_camel s) ≡ s
camel_to_kebab-kebab_to_camel s h =
    rw (kebab_to_camel-camel_bytes s) ((camel_to_kebab-camel_bytes s).0 h)

camel_bytes-digit :
    (up : Bool) (a b : Text) (d : ℕ)
    → is_digit d ≡ true
    → camel_bytes up (a ++ (b'-' ∷ d ∷ b)) ≡ camel_bytes up (a ++ (d ∷ b))
unfolding camel_bytes is_digit
camel_bytes-digit true [] b d h = ground arith
camel_bytes-digit false [] b d h = ground arith
camel_bytes-digit up (c ∷ a) b d h =
    ground (arith, camel_bytes-digit true a b d h, camel_bytes-digit false a b d h)

-- A hyphen before a digit is lost: the two names, with it and without it, are one tool name.
pub kebab_to_camel_digit :
    (a b : Text) (d : ℕ)
    → is_digit d ≡ true
    → kebab_to_camel (a ++ (b'-' ∷ d ∷ b)) ≡ kebab_to_camel (a ++ (d ∷ b))
kebab_to_camel_digit a b d h =
    kebab_to_camel-camel_bytes (a ++ (b'-' ∷ d ∷ b))
    ∙ camel_bytes-digit false a b d h
    ∙ sym (kebab_to_camel-camel_bytes (a ++ (d ∷ b)))
