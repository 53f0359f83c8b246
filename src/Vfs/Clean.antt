-- ===== src/Vfs/Clean.antt =====
-- vfs/memfs.go: clean paths, their segments and their directories.
use mathlib.Core.List.{reverse, foldl, reverse-reverse, reverse_aux}
use toolbox.Prelude.{
  ℕ, true, false, List, [], ◌∷◌, ◌++◌, ◌==◌, All, All-map, ◌≡◌, refl, arith, ap, ◌∙◌, Bool-cases,
  inl, inr,
}
use toolbox.Prelude.Text.{Text, Without, text_eq, split_on, join_with, onto_first}
use toolbox.Vfs.Path.{
  dot, dot_dot, pop, push_segment, segments, render, clean_path, has_slash, up_to_last_slash,
  path_dir,
}

-- A segment that cleaning keeps.
pub record IsSegment (s : Text) : Type 0 where
  pub not_empty : text_eq s [] ≡ false
  pub not_dot : text_eq s dot ≡ false
  pub not_dot_dot : text_eq s dot_dot ≡ false
  pub no_slash : Without b'/' s

onto_first-Without :
    (b c : ℕ) (l : List Text)
    → (c == b) ≡ false
    → All (Without b) l
    → All (Without b) (onto_first c l)
onto_first-Without b c [] h hl = ((h, tt), tt)
onto_first-Without b c (p ∷ ps) h hl = ((h, hl.0), hl.1)

pub split_on-Without : (b : ℕ) (s : Text) → All (Without b) (split_on b s)
unfolding split_on
split_on-Without b [] = (tt, tt)
split_on-Without b (c ∷ s) = elim (Bool-cases (c == b)) [
  | inl e ↦ rw e (tt, split_on-Without b s)
  | inr n ↦ rw n (onto_first-Without b c (split_on b s) n (split_on-Without b s))
]

split_on_single : (b : ℕ) (p : Text) → Without b p → split_on b p ≡ p ∷ []
unfolding split_on
split_on_single b [] h = refl
split_on_single b (c ∷ p) h = rw (h.0, split_on_single b p h.1)

split_on-append : (b : ℕ) (p r : Text) → Without b p → split_on b (p ++ (b ∷ r)) ≡ p ∷ split_on b r
unfolding split_on
split_on-append b [] r h = ground arith
split_on-append b (c ∷ p) r h = rw (h.0, split_on-append b p r h.1)

pub split_on-join_with :
    (b : ℕ) (p : Text) (ps : List Text)
    → All (Without b) (p ∷ ps)
    → split_on b (join_with b (p ∷ ps)) ≡ p ∷ ps
unfolding join_with
split_on-join_with b p [] h = split_on_single b p h.0
split_on-join_with b p (q ∷ ps) h =
    split_on-append b p (join_with b (q ∷ ps)) h.0 ∙ ap (λ l. p ∷ l) (split_on-join_with b q ps h.1)

push-IsSegment : (stack : List Text) (s : Text) → IsSegment s → push_segment stack s ≡ s ∷ stack
unfolding push_segment
push-IsSegment stack s h = rw (h.not_empty, h.not_dot, h.not_dot_dot)

foldl-push_segment :
    (segs stack : List Text)
    → All IsSegment segs
    → foldl push_segment stack segs ≡ foldl (λ st s. s ∷ st) stack segs
foldl-push_segment [] stack h = refl
foldl-push_segment (s ∷ segs) stack h =
    rw (push-IsSegment stack s h.0) (foldl-push_segment segs (s ∷ stack) h.1)

-- The segments of the text of kept segments.
pub segments-render : (segs : List Text) → All IsSegment segs → segments (render segs) ≡ segs
unfolding segments render
segments-render [] h = refl
segments-render (s ∷ segs) h =
    let plain = All-map IsSegment (Without b'/') (s ∷ segs) (λ t k. k.no_slash) h in
    rw (split_on-join_with b'/' s segs plain)
      (rw (foldl-push_segment (s ∷ segs) [] h) (reverse-reverse (s ∷ segs)))

All-pop : (stack : List Text) → All IsSegment stack → All IsSegment (pop stack)
All-pop [] h = h
All-pop (s ∷ stack) h = h.1

push-All :
    (stack : List Text) (s : Text)
    → Without b'/' s
    → All IsSegment stack
    → All IsSegment (push_segment stack s)
unfolding push_segment
push-All stack s hs h = elim (Bool-cases (text_eq s [])) [
  | inl e ↦ rw e h
  | inr e ↦ elim (Bool-cases (text_eq s dot)) [
    | inl d ↦ rw (e, d) h
    | inr d ↦ elim (Bool-cases (text_eq s dot_dot)) [
      | inl dd ↦ rw (e, d, dd) (All-pop stack h)
      | inr dd ↦
          rw (e, d, dd) (record { not_empty = e; not_dot = d; not_dot_dot = dd; no_slash = hs }, h)
    ]
  ]
]

foldl-push-All :
    (parts stack : List Text)
    → All (Without b'/') parts
    → All IsSegment stack
    → All IsSegment (foldl push_segment stack parts)
foldl-push-All [] stack hp hs = hs
foldl-push-All (s ∷ parts) stack hp hs =
    foldl-push-All parts (push_segment stack s) hp.1 (push-All stack s hp.0 hs)

All-reverse_aux :
    (l acc : List Text) → All IsSegment l → All IsSegment acc → All IsSegment (reverse_aux l acc)
All-reverse_aux [] acc hl ha = ha
All-reverse_aux (x ∷ l) acc hl ha = All-reverse_aux l (x ∷ acc) hl.1 (hl.0, ha)

-- Every segment of a cleaned path is one that cleaning keeps.
pub segments-IsSegment : (p : Text) → All IsSegment (segments p)
unfolding segments
segments-IsSegment p =
    All-reverse_aux (foldl push_segment [] (split_on b'/' p)) []
      (foldl-push-All (split_on b'/' p) [] (split_on-Without b'/' p) tt) tt

-- Cleaning a clean path changes nothing.
pub clean_path_idem : (p : Text) → clean_path (clean_path p) ≡ clean_path p
unfolding clean_path
clean_path_idem p = ap render (segments-render (segments p) (segments-IsSegment p))

-- All but the last element.
abbrev pub init {ℓ} : {A : Type ℓ} → List A → List A
init [] = []
init (x ∷ []) = []
init (x ∷ y ∷ l) = x ∷ init (y ∷ l)

-- The last piece replaced by an empty one.
abbrev pub end_empty : List Text → List Text
end_empty [] = []
end_empty (p ∷ []) = [] ∷ []
end_empty (p ∷ q ∷ ps) = p ∷ end_empty (q ∷ ps)

onto_first-cons :
    (c : ℕ) (l : List Text) → (p : Text) × (ps : List Text) × (onto_first c l ≡ p ∷ ps)
onto_first-cons c [] = (c ∷ [], [], refl)
onto_first-cons c (p ∷ ps) = (c ∷ p, ps, refl)

split_on-cons : (b : ℕ) (s : Text) → (p : Text) × (ps : List Text) × (split_on b s ≡ p ∷ ps)
unfolding split_on
split_on-cons b [] = ([], [], refl)
split_on-cons b (c ∷ s) = elim (Bool-cases (c == b)) [
  | inl e ↦ ([], split_on b s, rw e)
  | inr n ↦ rw n (onto_first-cons c (split_on b s))
]

onto_first-two :
    (c : ℕ) (l : List Text)
    → (p : Text) × (q : Text) × (ps : List Text) × (l ≡ p ∷ q ∷ ps)
    → (p : Text) × (q : Text) × (ps : List Text) × (onto_first c l ≡ p ∷ q ∷ ps)
onto_first-two c l (p, q, ps, e) = (c ∷ p, q, ps, ap (onto_first c) e)

-- A text with a slash has two pieces at least.
split_on-two :
    (s : Text)
    → has_slash s ≡ true
    → (p : Text) × (q : Text) × (ps : List Text) × (split_on b'/' s ≡ p ∷ q ∷ ps)
unfolding split_on
split_on-two [] h = cc
split_on-two (c ∷ s) h = elim (Bool-cases (c == b'/')) [
  | inl e ↦ let (p, ps, q) = split_on-cons b'/' s in ([], p, ps, rw e (ap (λ l. [] ∷ l) q))
  | inr n ↦ rw n (onto_first-two c (split_on b'/' s) (split_on-two s (ground arith)))
]

pub no_slash-Without : (s : Text) → has_slash s ≡ false → Without b'/' s
no_slash-Without [] h = tt
no_slash-Without (c ∷ s) h = (ground arith, no_slash-Without s (ground arith))

-- The cut after the last slash, when the rest of the text has one and when it has none.
split_on-cut :
    (c : ℕ) (s : Text)
    → split_on b'/' (up_to_last_slash s) ≡ end_empty (split_on b'/' s)
    → has_slash s ≡ true
    → split_on b'/' (c ∷ up_to_last_slash s) ≡ end_empty (split_on b'/' (c ∷ s))
unfolding split_on
split_on-cut c s ih h =
    let (p, q, ps, e) = split_on-two s h in
    elim (Bool-cases (c == b'/')) [ inl slash ↦ rw (slash, ih, e) | inr n ↦ rw (n, ih, e) ]

pub split_on-up_to_last_slash :
    (s : Text) → split_on b'/' (up_to_last_slash s) ≡ end_empty (split_on b'/' s)
unfolding up_to_last_slash
split_on-up_to_last_slash [] = unfold split_on in refl
split_on-up_to_last_slash (c ∷ s) = elim (Bool-cases (has_slash s)) [
  | inl h ↦ rw h (split_on-cut c s (split_on-up_to_last_slash s) h)
  | inr h ↦
      rw h (unfold split_on in rw (split_on_single b'/' s (no_slash-Without s h)) (ground arith))
]

foldl-end_empty :
    (segs stack : List Text)
    → foldl push_segment stack (end_empty segs) ≡ foldl push_segment stack (init segs)
foldl-end_empty [] stack = refl
foldl-end_empty (s ∷ []) stack = unfold push_segment in refl
foldl-end_empty (s ∷ t ∷ segs) stack = foldl-end_empty (t ∷ segs) (push_segment stack s)

All-init : (segs : List Text) → All IsSegment segs → All IsSegment (init segs)
All-init [] h = tt
All-init (s ∷ []) h = tt
All-init (s ∷ t ∷ segs) h = (h.0, All-init (t ∷ segs) h.1)

split_on-render :
    (s : Text) (segs : List Text)
    → All IsSegment (s ∷ segs)
    → split_on b'/' (render (s ∷ segs)) ≡ [] ∷ s ∷ segs
unfolding render
split_on-render s segs h =
    let plain = All-map IsSegment (Without b'/') (s ∷ segs) (λ t k. k.no_slash) h in
    split_on-append b'/' [] (join_with b'/' (s ∷ segs)) tt
    ∙ ap (λ l. [] ∷ l) (split_on-join_with b'/' s segs plain)

-- Pushing kept segments one by one and turning the stack round gives them back.
reverse-push : (segs : List Text) → All IsSegment segs → reverse (foldl push_segment [] segs) ≡ segs
reverse-push segs h = rw (foldl-push_segment segs [] h) (reverse-reverse segs)

-- The directory of a clean path is the path of all its segments but the last; the root's is itself.
pub path_dir-render :
    (segs : List Text) → All IsSegment segs → path_dir (render segs) ≡ render (init segs)
unfolding path_dir clean_path segments
path_dir-render [] h = unfold render up_to_last_slash in refl
path_dir-render (s ∷ segs) h = rw (split_on-up_to_last_slash (render (s ∷ segs))) (
    rw (split_on-render s segs h) (
      rw (foldl-end_empty (s ∷ segs) [])
        (rw (reverse-push (init (s ∷ segs)) (All-init (s ∷ segs) h)))))
