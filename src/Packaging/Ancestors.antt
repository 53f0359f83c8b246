-- ===== src/Packaging/Ancestors.antt =====
-- The loops `for dir != "." { …; dir = path.Dir(dir) }` of packaging/internal/archive/archive.go and
-- packaging/internal/source/sourcefs.go, and when they end.
use mathlib.Core.List.{reverse, reverse_aux, foldl}
use toolbox.Prelude.{
  ℕ, zero, suc, ◌+◌, ◌≤◌, true, false, List, [], ◌∷◌, ◌==◌, if◌then◌else◌, length, All, Option,
  none, some, ◌≡◌, ◌≢◌, ◌⊎◌, refl, arith, ap, ◌∙◌, Bool-cases, inl, inr, length-append,
}
use toolbox.Prelude.Text.{Text, text_eq, text_eq_iff, split_on, join_with, onto_first, Without}
use toolbox.Vfs.Path.{dot, dot_dot, up_to_last_slash, clean_path, render, segments}
use toolbox.Vfs.Clean.{end_empty, split_on-Without, split_on-up_to_last_slash}
use toolbox.Packaging.Paths.{is_rooted, go_up, push_relative, or_dot, clean_relative, clean, dir}

abbrev pub onto : Text → Option (List Text) → Option (List Text)
onto d none = none
onto d (some ds) = some (d ∷ ds)

-- The values that `dir` has in the loop; `none` means that the fuel ran out.
unfoldable pub ancestors : ℕ → Text → Option (List Text)
unfolding dir text_eq
ancestors zero d = none
ancestors (suc fuel) d =
    let rest = ancestors fuel (dir d) in if text_eq d dot then some [] else onto d rest

-- The bytes of some pieces with a slash behind each.
weight : List Text → ℕ
weight [] = 0
weight (s ∷ l) = suc (length s) + weight l

weight-push_relative :
    (stack : List Text) (s : Text) → weight (push_relative stack s) ≤ weight stack + suc (length s)
unfolding weight push_relative
weight-push_relative [] s = ground (arith, text_eq_iff s dot_dot)
weight-push_relative (t ∷ stack) s = ground (arith, text_eq_iff s dot_dot)

weight-foldl :
    (s : Text) (l stack : List Text)
    → weight (foldl push_relative stack (end_empty (s ∷ l))) + 1 ≤ weight stack + weight (s ∷ l)
unfolding weight
weight-foldl s [] stack = unfold push_relative text_eq in omega arith
weight-foldl s (t ∷ l) stack =
    omega (arith, weight-foldl t l (push_relative stack s), weight-push_relative stack s)

weight-onto_first : (c : ℕ) (l : List Text) → l ≢ [] → weight (onto_first c l) ≡ suc (weight l)
unfolding weight
weight-onto_first c [] h = absurd (h refl)
weight-onto_first c (p ∷ l) h = omega arith

onto_first-filled : (c : ℕ) (l : List Text) → onto_first c l ≢ []
onto_first-filled c [] h = cc
onto_first-filled c (p ∷ l) h = cc

weight-split_on :
    (b : ℕ) (s : Text) → (weight (split_on b s) ≡ suc (length s)) × (split_on b s ≢ [])
unfolding weight split_on
weight-split_on b [] = (refl, λ h. cc)
weight-split_on b (c ∷ s) =
    let (ih, filled) = weight-split_on b s in
    elim (Bool-cases (c == b)) [
      | inl e ↦ rw e (omega (arith, ih), λ h. cc)
      | inr n ↦ rw n (
        weight-onto_first c (split_on b s) filled ∙ ap suc ih,
        onto_first-filled c (split_on b s),
      )
    ]

weight-join_with :
    (b : ℕ) (p : Text) (ps : List Text) → suc (length (join_with b (p ∷ ps))) ≡ weight (p ∷ ps)
unfolding weight join_with
weight-join_with b p [] = omega arith
weight-join_with b p (q ∷ ps) =
    omega (arith, length-append p (b ∷ join_with b (q ∷ ps)), weight-join_with b q ps)

weight-reverse_aux : (l acc : List Text) → weight (reverse_aux l acc) ≡ weight l + weight acc
unfolding weight
weight-reverse_aux [] acc = omega arith
weight-reverse_aux (s ∷ l) acc = omega (arith, weight-reverse_aux l (s ∷ acc))

-- A segment that a path which is not rooted may have.
record IsPiece (s : Text) : Type 0 where
  not_empty : text_eq s [] ≡ false
  not_rooted : is_rooted s ≡ false

All-go_up : (stack : List Text) → All IsPiece stack → All IsPiece (go_up stack)
unfolding text_eq
All-go_up [] h = (record { not_empty = refl; not_rooted = refl }, tt)
All-go_up (s ∷ stack) h = elim (Bool-cases (text_eq s dot_dot)) [
  | inl e ↦ rw e (record { not_empty = refl; not_rooted = refl }, h)
  | inr n ↦ rw n h.1
]

Without-rooted : (s : Text) → Without b'/' s → is_rooted s ≡ false
Without-rooted [] h = refl
Without-rooted (c ∷ s) h = h.0

push_relative-All :
    (stack : List Text) (s : Text)
    → Without b'/' s
    → All IsPiece stack
    → All IsPiece (push_relative stack s)
unfolding push_relative
push_relative-All stack s hs h = elim (Bool-cases (text_eq s [])) [
  | inl e ↦ rw e h
  | inr e ↦ elim (Bool-cases (text_eq s dot)) [
    | inl d ↦ rw (e, d) h
    | inr d ↦ elim (Bool-cases (text_eq s dot_dot)) [
      | inl dd ↦ rw (e, d, dd) (All-go_up stack h)
      | inr dd ↦ rw (e, d, dd) (record { not_empty = e; not_rooted = Without-rooted s hs }, h)
    ]
  ]
]

foldl-push_relative-All :
    (parts stack : List Text)
    → All (Without b'/') parts
    → All IsPiece stack
    → All IsPiece (foldl push_relative stack parts)
foldl-push_relative-All [] stack hp hs = hs
foldl-push_relative-All (s ∷ parts) stack hp hs =
    foldl-push_relative-All parts (push_relative stack s) hp.1 (push_relative-All stack s hp.0 hs)

All-reverse_aux :
    (l acc : List Text) → All IsPiece l → All IsPiece acc → All IsPiece (reverse_aux l acc)
All-reverse_aux [] acc hl ha = ha
All-reverse_aux (x ∷ l) acc hl ha = All-reverse_aux l (x ∷ acc) hl.1 (hl.0, ha)

-- The pieces of a cleaned relative path.
abbrev pieces : Text → List Text
pieces p = reverse (foldl push_relative [] (split_on b'/' p))

pieces-All : (p : Text) → All IsPiece (pieces p)
pieces-All p =
    All-reverse_aux (foldl push_relative [] (split_on b'/' p)) []
      (foldl-push_relative-All (split_on b'/' p) [] (split_on-Without b'/' p) tt) tt

is_rooted-join_with :
    (s : Text) (l : List Text) → IsPiece s → is_rooted (join_with b'/' (s ∷ l)) ≡ false
unfolding join_with text_eq
is_rooted-join_with [] l h = absurd (cc (h.not_empty))
is_rooted-join_with (c ∷ s) [] h = h.not_rooted
is_rooted-join_with (c ∷ s) (t ∷ l) h = h.not_rooted

is_rooted-or_dot : (p : Text) → is_rooted (or_dot p) ≡ is_rooted p
is_rooted-or_dot [] = refl
is_rooted-or_dot (c ∷ p) = refl

or_dot-cases : (p : Text) → (or_dot p ≡ dot) ⊎ (or_dot p ≡ p)
or_dot-cases [] = inl refl
or_dot-cases (c ∷ p) = inr refl

not_rooted-joined : (l : List Text) → All IsPiece l → is_rooted (join_with b'/' l) ≡ false
not_rooted-joined [] h = unfold join_with in refl
not_rooted-joined (s ∷ l) h = is_rooted-join_with s l h.0

pub clean_relative-is_rooted : (p : Text) → is_rooted (clean_relative p) ≡ false
unfolding clean_relative
clean_relative-is_rooted p =
    is_rooted-or_dot (join_with b'/' (pieces p)) ∙ not_rooted-joined (pieces p) (pieces-All p)

length-joined :
    (l : List Text) (n : ℕ)
    → weight l ≤ n
    → (or_dot (join_with b'/' l) ≡ dot) ⊎ (suc (length (or_dot (join_with b'/' l))) ≤ n)
length-joined [] n h = unfold join_with in inl refl
length-joined (s ∷ l) n h = elim (or_dot-cases (join_with b'/' (s ∷ l))) [
  | inl e ↦ inl e
  | inr e ↦ inr (rw e (omega (arith, weight-join_with b'/' s l)))
]

-- Taking the last segment off leaves pieces that are smaller than the path.
weight-cut :
    (l : List Text)
    → l ≢ []
    → suc (weight (reverse (foldl push_relative [] (end_empty l)))) ≤ weight l
unfolding weight
weight-cut [] h = absurd (h refl)
weight-cut (s ∷ l) h =
    omega (
      arith,
      weight-reverse_aux (foldl push_relative [] (end_empty (s ∷ l))) [],
      weight-foldl s l [],
    )

is_rooted-up_to_last_slash : (p : Text) → is_rooted (up_to_last_slash p) ≡ is_rooted p
unfolding up_to_last_slash
is_rooted-up_to_last_slash [] = refl
is_rooted-up_to_last_slash (c ∷ p) = ground arith

dir_relative :
    (p : Text)
    → is_rooted p ≡ false
    → dir p
      ≡ or_dot (join_with b'/' (reverse (foldl push_relative [] (end_empty (split_on b'/' p)))))
unfolding dir clean clean_relative
dir_relative p h =
    rw (is_rooted-up_to_last_slash p, h)
      (ap (λ l. or_dot (join_with b'/' (reverse (foldl push_relative [] l))))
        (split_on-up_to_last_slash p))

-- The directory of a relative path is relative, and it is shorter or it is the dot.
length-dir : (p : Text) → is_rooted p ≡ false → (dir p ≡ dot) ⊎ (suc (length (dir p)) ≤ length p)
length-dir p h =
    let (w, filled) = weight-split_on b'/' p in
    rw (dir_relative p h) (
      length-joined (reverse (foldl push_relative [] (end_empty (split_on b'/' p)))) (length p)
        (omega (arith, w, weight-cut (split_on b'/' p) filled)))

is_rooted-render : (l : List Text) → is_rooted (render l) ≡ true
unfolding render
is_rooted-render [] = refl
is_rooted-render (s ∷ l) = refl

-- Dir keeps a path rooted or not.
pub is_rooted-dir : (p : Text) → is_rooted (dir p) ≡ is_rooted p
unfolding dir clean clean_path
is_rooted-dir p = elim (Bool-cases (is_rooted p)) [
  | inl e ↦ rw (is_rooted-up_to_last_slash p, e) (is_rooted-render (segments (up_to_last_slash p)))
  | inr e ↦ rw (is_rooted-up_to_last_slash p, e) (clean_relative-is_rooted (up_to_last_slash p))
]

-- What is enough for a directory.
IsEnough : ℕ → Text → Type 0
IsEnough fuel d = ((d ≡ dot) × (1 ≤ fuel)) ⊎ (suc (suc (length d)) ≤ fuel)

no-fuel : (d : Text) → IsEnough 0 d → ⊥
unfolding IsEnough
no-fuel d bound = omega arith

next-IsEnough :
    (fuel : ℕ) (d : Text)
    → is_rooted d ≡ false
    → text_eq d dot ≡ false
    → IsEnough (suc fuel) d
    → IsEnough fuel (dir d)
unfolding IsEnough
next-IsEnough fuel d h other (inl (same, _)) = absurd (cc (other, (text_eq_iff d dot).1 same))
next-IsEnough fuel d h other (inr bound) = elim (length-dir d h) [
  | inl e ↦ inl (e, omega arith)
  | inr shorter ↦ inr (omega arith)
]

onto-some :
    (d : Text) (o : Option (List Text))
    → (ds : List Text) × (o ≡ some ds)
    → (ds : List Text) × (onto d o ≡ some ds)
onto-some d o (ds, e) = (d ∷ ds, rw e)

ancestors-enough :
    (fuel : ℕ) (d : Text)
    → is_rooted d ≡ false
    → IsEnough fuel d
    → (ds : List Text) × (ancestors fuel d ≡ some ds)
unfolding ancestors
ancestors-enough zero d h bound = absurd (no-fuel d bound)
ancestors-enough (suc fuel) d h bound = elim (Bool-cases (text_eq d dot)) [
  | inl e ↦ ([], rw e)
  | inr other ↦ rw other (
      onto-some d (ancestors fuel (dir d))
        (ancestors-enough fuel (dir d) (is_rooted-dir d ∙ h) (next-IsEnough fuel d h other bound)))
]

-- For a path that does not begin with a slash, the loop over its directories ends after at most as
-- many rounds as the path has bytes and two more.
pub ancestors_end :
    (p : Text)
    → is_rooted p ≡ false
    → (ds : List Text) × (ancestors (length p + 2) (dir p) ≡ some ds)
unfolding IsEnough
ancestors_end p h =
    ancestors-enough (length p + 2) (dir p) (is_rooted-dir p ∙ h)
      (elim (length-dir p h) [ inl e ↦ inl (e, omega arith) | inr shorter ↦ inr (omega arith) ])

dot_relative : (d : Text) → is_rooted d ≡ true → text_eq d dot ≡ false
unfolding text_eq
dot_relative [] h = cc
dot_relative (c ∷ d) h = ground arith

ancestors-rooted : (fuel : ℕ) (d : Text) → is_rooted d ≡ true → ancestors fuel d ≡ none
unfolding ancestors
ancestors-rooted zero d h = refl
ancestors-rooted (suc fuel) d h =
    rw (dot_relative d h, ancestors-rooted fuel (dir d) (is_rooted-dir d ∙ h))

-- For a path that begins with a slash, the loop over its directories never ends: no number of rounds
-- is enough.
pub ancestors_forever : (p : Text) (fuel : ℕ) → is_rooted p ≡ true → ancestors fuel (dir p) ≡ none
ancestors_forever p fuel h = ancestors-rooted fuel (dir p) (is_rooted-dir p ∙ h)
