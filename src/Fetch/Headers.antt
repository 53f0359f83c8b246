-- ===== src/Fetch/Headers.antt =====
-- fetch/headers.go: the list of headers, its sort, and its combined view. A text is here a list of
-- code points, as `range` gives them.
use mathlib.Core.List.{reverse}
use Prim.Native.Nat.{Ordering}
use toolbox.Prelude.{
  ℕ, ◌%◌, Bool, true, false, not, List, [], ◌∷◌, ◌++◌, ◌&&◌, ◌||◌, ◌==◌, leb, ltb, if◌then◌else◌,
  all, any, Result, ok, err, guard, ◌>>◌,
}
use toolbox.Prelude.Text.{Text, codes, text_eq, compare_text, to_lower}
use toolbox.Tool.Pattern.{is_digit}

abbrev pub Entry : Type 0
Entry = Text × Text

pub record Headers : Type 0 where
  pub entries : List Entry

pub data HeaderError : Type 0 where
  empty_name : HeaderError
  invalid_name invalid_value : Text → HeaderError

abbrev pub new_headers : Headers
new_headers = record { entries = [] }

-- isTokenChar
unfoldable pub is_token_char : ℕ → Bool
unfolding is_digit
is_token_char c =
    leb b'A' c && leb c b'Z'
    || leb b'a' c && leb c b'z'
    || is_digit c
    || any (λ d. c == d) (codes "!#$%&'*+-.^_`|~")

-- The test of the loop of validateHeaderName; a conversion to a byte keeps the low 8 bits.
unfoldable pub is_name_char : ℕ → Bool
unfolding is_token_char
is_name_char c = not (not (is_token_char (c % 256)) || ltb 127 c)

-- validateHeaderName
unfoldable pub validate_header_name : Text → Result HeaderError (Unit {0})
unfolding is_name_char
validate_header_name [] = err empty_name
validate_header_name (c ∷ name) = guard (all is_name_char (c ∷ name)) (invalid_name (c ∷ name))

unfoldable pub is_value_char : ℕ → Bool
is_value_char c = not (c == 0 || c == 10 || c == 13 || ltb 255 c)

-- validateHeaderValue
unfoldable pub validate_header_value : Text → Result HeaderError (Unit {0})
unfolding is_value_char
validate_header_value value = guard (all is_value_char value) (invalid_value value)

unfoldable pub is_http_space : ℕ → Bool
is_http_space c = c == 9 || c == 10 || c == 13 || c == 32

unfoldable pub trim_start : Text → Text
unfolding is_http_space
trim_start [] = []
trim_start (c ∷ s) = let rest = trim_start s in if is_http_space c then rest else c ∷ s

-- normalizeHeaderValue
unfoldable pub normalize_header_value : Text → Text
unfolding trim_start
normalize_header_value value = reverse (trim_start (reverse (trim_start value)))

abbrev pub is_before : Text → Text → Bool
is_before s t = elim (compare_text s t) [ Ordering.lt ↦ true | _ ↦ false ]

-- sort.SliceStable by name: an entry goes before those behind it that have its name.
unfoldable pub insert_header : Entry → List Entry → List Entry
insert_header e [] = e ∷ []
insert_header e (d ∷ ds) =
    let rest = insert_header e ds in if is_before d.0 e.0 then d ∷ rest else e ∷ d ∷ ds

-- Headers.sort
unfoldable pub sort_headers : List Entry → List Entry
unfolding insert_header
sort_headers [] = []
sort_headers (e ∷ es) = insert_header e (sort_headers es)

-- Headers.Append
unfoldable pub append_header : Text → Text → Headers → Result HeaderError Headers
unfolding validate_header_name normalize_header_value validate_header_value sort_headers
append_header name value h = do
  validate_header_name name
  let v = normalize_header_value value
  validate_header_value v
  ok (record { entries = sort_headers (h.entries ++ (to_lower name, v) ∷ []) })

unfoldable pub lower_values : Text → List Text → List Entry
lower_values name [] = []
lower_values name (v ∷ vs) = (to_lower name, v) ∷ lower_values name vs

-- The loops of NewHeadersFromHTTP, over the map in the order in which it is iterated.
unfoldable pub http_entries : List (Text × List Text) → List Entry
unfolding lower_values
http_entries [] = []
http_entries ((name, values) ∷ hh) = lower_values name values ++ http_entries hh

-- NewHeadersFromHTTP
unfoldable pub new_headers_from_http : List (Text × List Text) → Headers
unfolding http_entries sort_headers
new_headers_from_http hh = record { entries = sort_headers (http_entries hh) }

-- One turn of the loop of `combined`, on the result so far, its last entry first.
unfoldable pub combine_entry : Text → Entry → List Entry → List Entry
combine_entry prev (name, value) [] = (name, value) ∷ []
combine_entry prev (name, value) ((n, v) ∷ result) =
    if text_eq name (codes "set-cookie")
    then (name, value) ∷ (n, v) ∷ result
    else if text_eq name prev
    then (n, v ++ (codes ", " ++ value)) ∷ result
    else (name, value) ∷ (n, v) ∷ result

unfoldable pub combine : Text → List Entry → List Entry → List Entry
unfolding combine_entry
combine prev result [] = reverse result
combine prev result (e ∷ es) = combine e.0 (combine_entry prev e result) es

-- Headers.Entries, by Headers.combined
unfoldable pub combined : Headers → List Entry
unfolding combine
combined h = combine [] [] h.entries
