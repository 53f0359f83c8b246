-- ===== src/Tests/HeaderLists.antt =====
-- Runs and instances for fetch/headers.go.
use toolbox.Prelude.{List, [], ◌∷◌, ◌++◌, if◌then◌else◌, ok, ◌≡◌, refl}
use toolbox.Prelude.Text.{Text, codes, text_eq, to_lower, compare_text}
use toolbox.Fetch.Headers.{
  Headers, append_header, combined, validate_header_name, validate_header_value,
  normalize_header_value, new_headers_from_http,
}
use toolbox.Fetch.Ordered.{
  map_values, IsSorted, values_of, append_header-IsSorted, new_headers_from_http-IsSorted,
}

abbrev accepted : Headers
accepted = record { entries = (codes "accept", codes "a") ∷ (codes "x", codes "1") ∷ [] }

abbrev accepted_more : Headers
accepted_more = record {
  entries = (codes "accept", codes "a") ∷ (codes "accept", codes "b") ∷ (codes "x", codes "1") ∷ [];
}

appends : append_header (codes "Accept") (codes " b ") accepted ≡ ok accepted_more
unfolding append_header compare_text to_lower
appends = refl

combines : combined accepted_more ≡ (codes "accept", codes "a, b") ∷ (codes "x", codes "1") ∷ []
unfolding combined text_eq
combines = refl

append_header-IsSorted_example :
    IsSorted accepted_more.entries
    × (validate_header_name (codes "Accept") ≡ ok tt)
    × (validate_header_value (normalize_header_value (codes " b ")) ≡ ok tt)
    × (values_of (codes "accept") accepted_more.entries
        ≡ values_of (codes "accept") accepted.entries
          ++ (if text_eq (to_lower (codes "Accept")) (codes "accept")
              then normalize_header_value (codes " b ") ∷ []
              else []))
append_header-IsSorted_example =
    append_header-IsSorted (codes "Accept") (codes " b ") (codes "accept") accepted accepted_more
      appends

abbrev http_header : List (Text × List Text)
http_header = (codes "X", codes "1" ∷ []) ∷ (codes "Accept", codes "a" ∷ codes "b" ∷ []) ∷ []

new_headers_from_http-IsSorted_example :
    IsSorted (new_headers_from_http http_header).entries
    × (values_of (codes "accept") (new_headers_from_http http_header).entries
        ≡ map_values (codes "accept") http_header)
new_headers_from_http-IsSorted_example = new_headers_from_http-IsSorted (codes "accept") http_header
