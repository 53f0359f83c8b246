-- ===== src/Vfs/Codes.antt =====
-- vfs/server.go: the error codes that `errResp` reads out of texts with paths.
use toolbox.Prelude.{
  ◌≤◌, true, [], ◌∷◌, ◌++◌, ◌&&◌, ◌==◌, length, length-take, take, append-nil, ◌≡◌, refl, arith, ap,
  ◌∙◌, subst, Bool-cases, inl, inr,
}
use toolbox.Prelude.Text.{Text, codes, text_eq, text_eq_iff, has_prefix, append-has_prefix}
use toolbox.Vfs.Error.{
  already_exists, directory_not_empty, is_a_directory, message, contains_linear, contains_text,
  error_code, err_not_found,
}

text_eq-take : (s sub : Text) → text_eq (take (length sub) s) sub ≡ has_prefix s sub
unfolding text_eq has_prefix
text_eq-take s [] = refl
text_eq-take [] (b ∷ sub) = refl
text_eq-take (c ∷ s) (b ∷ sub) = ap (λ x. c == b && x) (text_eq-take s sub)

linear_bound : (s sub : Text) → contains_linear s sub ≡ true → length sub ≤ length s
unfolding contains_linear
linear_bound [] [] h = omega arith
linear_bound [] (b ∷ sub) h = unfold text_eq in cc
linear_bound (c ∷ s) sub h = elim (Bool-cases (text_eq (take (length sub) (c ∷ s)) sub)) [
  | inl e ↦
      let same = ap length ((text_eq_iff (take (length sub) (c ∷ s)) sub).0 e) in
      omega (arith, same, length-take (length sub) (c ∷ s))
  | inr n ↦ omega (arith, linear_bound s sub (rw n at h))
]

has_prefix_refl : (s : Text) → has_prefix s s ≡ true
has_prefix_refl s = subst (λ t. has_prefix t s ≡ true) (append-nil s) (append-has_prefix s [])

linear_self : (s : Text) → contains_linear s s ≡ true
unfolding contains_linear
linear_self [] = refl
linear_self (c ∷ s) = rw (text_eq-take (c ∷ s) (c ∷ s), has_prefix_refl (c ∷ s))

eq_linear : (s sub : Text) → text_eq s sub ≡ true → contains_linear s sub ≡ true
eq_linear s sub h =
    subst (λ t. contains_linear s t ≡ true) ((text_eq_iff s sub).0 h) (linear_self s)

-- The tests before the loop change nothing: `contains` is the search of the loop.
contains_text-linear : (s sub : Text) → contains_text s sub ≡ contains_linear s sub
unfolding contains_text
contains_text-linear [] [] = unfold contains_linear text_eq in refl
contains_text-linear [] (b ∷ sub) = unfold contains_linear text_eq in ground arith
contains_text-linear (c ∷ s) sub = ground (arith, linear_bound (c ∷ s) sub, eq_linear (c ∷ s) sub)

linear-append :
    (words p sub : Text) → contains_linear p sub ≡ true → contains_linear (words ++ p) sub ≡ true
unfolding contains_linear
linear-append [] p sub h = h
linear-append (c ∷ words) p sub h = ground (arith, linear-append words p sub h)

first_phrase :
    (words p : Text)
    → contains_linear p (codes "not found") ≡ true
    → error_code (words ++ p) ≡ err_not_found
unfolding error_code
first_phrase words p h =
    let found =
      contains_text-linear (words ++ p) (codes "not found")
      ∙ linear-append words p (codes "not found") h in
    rw found

-- A path that holds the words "not found" makes the code of these three errors that of a missing
-- file: a directory opened as a file, a name that is taken, a directory that is not empty.
pub error_code_misread :
    (p : Text)
    → contains_linear p (codes "not found") ≡ true
    → (error_code (message (is_a_directory p)) ≡ err_not_found)
      × (error_code (message (already_exists p)) ≡ err_not_found)
      × (error_code (message (directory_not_empty p)) ≡ err_not_found)
unfolding message
error_code_misread p h = (
  first_phrase (codes "is a directory: ") p h,
  first_phrase (codes "already exists: ") p h,
  first_phrase (codes "directory not empty: ") p h,
)
