-- ===== src/Fetch/Ordered.antt =====
-- fetch/headers.go: the order of the list of headers, and the values of a name in it.
use Prim.Native.Nat.{Ordering}
use toolbox.Prelude.{
  true, false, List, [], ◌∷◌, ◌++◌, if◌then◌else◌, ok, >>=-ok, ok_injective, ◌≡◌, refl, arith, ap,
  ap₂, sym, ◌∙◌, subst, Bool-cases, inl, inr,
}
use toolbox.Prelude.Text.{Text, text_eq, text_eq_iff, compare_text, to_lower}
use toolbox.Registry.Order.{compare_text-swap}
use toolbox.Fetch.Headers.{
  Entry, Headers, is_before, insert_header, sort_headers, append_header, validate_header_name,
  validate_header_value, normalize_header_value, http_entries, lower_values, new_headers_from_http,
}

-- No entry has a name before that of the entry in front of it.
abbrev pub IsSorted : List Entry → Type 0
IsSorted [] = Unit
IsSorted (d ∷ []) = Unit
IsSorted (d ∷ e ∷ es) = (is_before e.0 d.0 ≡ false) × IsSorted (e ∷ es)

is_before_both : (s t : Text) → is_before s t ≡ true → is_before t s ≡ false
is_before_both s t h = ground (arith, compare_text-swap s t)

insert_header-IsSorted : (e : Entry) (es : List Entry) → IsSorted es → IsSorted (insert_header e es)
unfolding insert_header
insert_header-IsSorted e [] h = tt
insert_header-IsSorted e (d ∷ []) h = elim (Bool-cases (is_before d.0 e.0)) [
  | inl b ↦ rw b (is_before_both d.0 e.0 b, tt)
  | inr n ↦ rw n (n, tt)
]
insert_header-IsSorted e (d ∷ c ∷ es) h = elim (Bool-cases (is_before d.0 e.0)) [
  | inr n ↦ rw n (n, h)
  | inl b ↦ elim (Bool-cases (is_before c.0 e.0)) [
    | inl f ↦ rw (b, f) (h.0, rw f at (insert_header-IsSorted e (c ∷ es) h.1))
    | inr g ↦ rw (b, g) (is_before_both d.0 e.0 b, rw g at (insert_header-IsSorted e (c ∷ es) h.1))
  ]
]

sort_headers-IsSorted : (es : List Entry) → IsSorted (sort_headers es)
unfolding sort_headers
sort_headers-IsSorted [] = tt
sort_headers-IsSorted (e ∷ es) =
    insert_header-IsSorted e (sort_headers es) (sort_headers-IsSorted es)

-- The values that a name has, in their order.
unfoldable pub values_of : Text → List Entry → List Text
values_of n [] = []
values_of n (e ∷ es) = let rest = values_of n es in if text_eq e.0 n then e.1 ∷ rest else rest

compare_text_refl : (s : Text) → compare_text s s ≡ Ordering.eq
unfolding compare_text
compare_text_refl [] = refl
compare_text_refl (c ∷ s) = ground (arith, compare_text_refl s)

values_of-insert_header :
    (n : Text) (e : Entry) (es : List Entry)
    → values_of n (insert_header e es) ≡ values_of n (e ∷ es)
unfolding values_of insert_header
values_of-insert_header n e [] = refl
values_of-insert_header n e (d ∷ es) = ground (
  arith,
  values_of-insert_header n e es,
  text_eq_iff d.0 n,
  text_eq_iff e.0 n,
  compare_text_refl n,
)

values_of-sort_headers :
    (n : Text) (es : List Entry) → values_of n (sort_headers es) ≡ values_of n es
unfolding values_of sort_headers
values_of-sort_headers n [] = refl
values_of-sort_headers n (e ∷ es) =
    values_of-insert_header n e (sort_headers es) ∙ ground (arith, values_of-sort_headers n es)

values_of-append :
    (n : Text) (es ds : List Entry) → values_of n (es ++ ds) ≡ values_of n es ++ values_of n ds
unfolding values_of
values_of-append n [] ds = refl
values_of-append n (e ∷ es) ds = ground (arith, values_of-append n es ds)

-- A header that is added without an error leaves the list sorted, has a valid name and a valid
-- value, and comes behind the values that its name has; the values of other names stay as they are.
pub append_header-IsSorted :
    (name value n : Text) (h h' : Headers)
    → append_header name value h ≡ ok h'
    → IsSorted h'.entries
      × (validate_header_name name ≡ ok tt)
      × (validate_header_value (normalize_header_value value) ≡ ok tt)
      × (values_of n h'.entries
          ≡ values_of n h.entries
            ++ (if text_eq (to_lower name) n then normalize_header_value value ∷ [] else []))
unfolding append_header
append_header-IsSorted name value n h h' e =
    let v = normalize_header_value value in
    let (_, good_name, e1) = >>=-ok (validate_header_name name) _ e in
    let (_, good_value, e2) = >>=-ok (validate_header_value v) _ e1 in
    let es = h.entries ++ (to_lower name, v) ∷ [] in
    let same : sort_headers es ≡ h'.entries = ap (λ k. k.entries) (ok_injective e2) in
    (
      subst IsSorted same (sort_headers-IsSorted es),
      good_name,
      good_value,
      ap (values_of n) (sym same)
          ∙ values_of-sort_headers n es
          ∙ values_of-append n h.entries ((to_lower name, v) ∷ [])
          ∙ (unfold values_of in refl),
    )

-- The values that a map has under a name, letter case aside: the lists of the names that are this one in
-- lower case, one behind the other, in the order in which the map is iterated.
pub map_values : Text → List (Text × List Text) → List Text
map_values n [] = []
map_values n ((name, values) ∷ hh) =
    (if text_eq (to_lower name) n then values else []) ++ map_values n hh

values_of-lower_values :
    (n name : Text) (values : List Text)
    → values_of n (lower_values name values) ≡ (if text_eq (to_lower name) n then values else [])
unfolding values_of lower_values
values_of-lower_values n name [] = ground arith
values_of-lower_values n name (v ∷ vs) = ground (arith, values_of-lower_values n name vs)

values_of-http_entries :
    (n : Text) (hh : List (Text × List Text)) → values_of n (http_entries hh) ≡ map_values n hh
unfolding values_of http_entries map_values
values_of-http_entries n [] = refl
values_of-http_entries n ((name, values) ∷ hh) =
    values_of-append n (lower_values name values) (http_entries hh)
    ∙ ap₂ ◌++◌ (values_of-lower_values n name values) (values_of-http_entries n hh)

-- The headers made from a map are sorted by name, and the values of a name are all those that the map has
-- under it, letter case aside, as they are and in the order in which the map is iterated.
pub new_headers_from_http-IsSorted :
    (n : Text) (hh : List (Text × List Text))
    → IsSorted (new_headers_from_http hh).entries
      × (values_of n (new_headers_from_http hh).entries ≡ map_values n hh)
unfolding new_headers_from_http
new_headers_from_http-IsSorted n hh = (
  sort_headers-IsSorted (http_entries hh),
  values_of-sort_headers n (http_entries hh) ∙ values_of-http_entries n hh,
)
