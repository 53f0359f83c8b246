-- ===== src/Packaging/Names.antt =====
-- packaging/internal/manifest/manifest.go: what the name of a tool's entry file says of the tool.
use toolbox.Prelude.{
  ℕ, ◌-◌, Bool, true, false, List, [], ◌∷◌, ◌++◌, ◌&&◌, ◌||◌, leb, ltb, if◌then◌else◌, length, take,
  all, any, Result, ok, err, map,
}
use toolbox.Prelude.Text.{Text, codes, text_eq, split_on, join_with}
use toolbox.Tool.Pattern.{is_digit}
use toolbox.Packaging.Paths.{base, without_ext}
use toolbox.Packaging.Types.{Effect, read_only, reversible, irreversible, ResourceParam}

-- strings.Split(strings.TrimSuffix(base, filepath.Ext(base)), ".")
unfoldable pub name_parts : Text → List Text
unfolding base without_ext split_on
name_parts entry = split_on b'.' (without_ext (base entry))

abbrev pub last_or : Text → List Text → Text
last_or t [] = t
last_or t (p ∷ parts) = last_or p parts

-- inferVerb
unfoldable pub infer_verb : Text → Text
unfolding name_parts
infer_verb entry = last_or [] (name_parts entry)

-- A case of a `switch` on strings.
unfoldable pub is_one_of : List Text → Text → Bool
unfolding text_eq
is_one_of words s = any (text_eq s) words

abbrev pub read_verbs : List Text
read_verbs =
    codes "list"
    ∷ codes "get"
    ∷ codes "read"
    ∷ codes "fetch"
    ∷ codes "search"
    ∷ codes "find"
    ∷ codes "describe"
    ∷ []

abbrev pub create_verbs : List Text
create_verbs = codes "create" ∷ codes "add" ∷ codes "clone" ∷ codes "new" ∷ []

-- InferEffect; the third case and the default are the same.
unfoldable pub infer_effect : Text → Effect
unfolding infer_verb is_one_of
infer_effect entry =
    let verb = infer_verb entry in
    if is_one_of read_verbs verb
    then read_only
    else if is_one_of create_verbs verb
    then reversible
    else irreversible

-- strings.ToUpper of one byte
abbrev pub upper_ascii : ℕ → ℕ
upper_ascii c = if leb b'a' c && leb c b'z' then c - 32 else c

-- strings.ToUpper(segment[:1]) + segment[1:]
abbrev pub capitalize : Text → Text
capitalize [] = []
capitalize (c ∷ s) = upper_ascii c ∷ s

abbrev pub concat : List Text → Text
concat [] = []
concat (s ∷ rest) = s ++ concat rest

abbrev pub camel : List Text → Text
camel [] = []
camel (s ∷ rest) = s ++ concat (map capitalize rest)

-- kebabToCamel
unfoldable pub kebab_to_camel : Text → Text
unfolding split_on
kebab_to_camel s = camel (split_on b'-' s)

-- InferToolName
unfoldable pub infer_tool_name : Text → Text
unfolding name_parts kebab_to_camel join_with
infer_tool_name entry = join_with b'.' (map kebab_to_camel (name_parts entry))

-- [a-z]
unfoldable pub is_lower : ℕ → Bool
is_lower c = leb b'a' c && leb c b'z'

-- [a-z0-9]
unfoldable pub is_kebab_byte : ℕ → Bool
unfolding is_lower is_digit
is_kebab_byte c = is_lower c || is_digit c

-- [a-z0-9]+
abbrev pub is_kebab_word : Text → Bool
is_kebab_word [] = false
is_kebab_word (c ∷ s) = all is_kebab_byte (c ∷ s)

-- [a-z][a-z0-9]*
abbrev pub is_first_word : Text → Bool
is_first_word [] = false
is_first_word (c ∷ s) = is_lower c && all is_kebab_byte s

abbrev pub are_kebab_words : List Text → Bool
are_kebab_words [] = false
are_kebab_words (s ∷ rest) = is_first_word s && all is_kebab_word rest

-- kebabSegmentRe: words of its classes, which hold no hyphen, with a hyphen between each two
unfoldable pub is_kebab_segment : Text → Bool
unfolding is_kebab_byte split_on
is_kebab_segment s = are_kebab_words (split_on b'-' s)

-- validateEntryName; the error is the first segment that is not valid.
unfoldable pub first_bad : List Text → Result Text (Unit {0})
unfolding is_kebab_segment
first_bad [] = ok tt
first_bad (seg ∷ segs) = if is_kebab_segment seg then first_bad segs else err seg

unfoldable pub validate_entry_name : Text → Result Text (Unit {0})
unfolding name_parts first_bad
validate_entry_name entry = first_bad (name_parts entry)

abbrev pub collection_verbs : List Text
collection_verbs =
    codes "list"
    ∷ codes "create"
    ∷ codes "add"
    ∷ codes "append"
    ∷ codes "search"
    ∷ codes "find"
    ∷ codes "new"
    ∷ codes "send"
    ∷ codes "post"
    ∷ []

-- isCollectionMethod
unfoldable pub is_collection_method : Text → Bool
unfolding is_one_of
is_collection_method verb = is_one_of collection_verbs verb

-- The `switch` on the mode.
unfoldable pub is_collection : Text → Text → Bool
unfolding text_eq is_collection_method
is_collection mode verb =
    if text_eq mode (codes "collection")
    then true
    else if text_eq mode (codes "member")
    then false
    else is_collection_method verb

-- parts[:len(parts)-1]
abbrev pub all_but_last : List Text → List Text
all_but_last [] = []
all_but_last (p ∷ []) = []
all_but_last (p ∷ q ∷ parts) = p ∷ all_but_last (q ∷ parts)

-- `singular` is inflection.Singular.
module _ (singular : Text → Text) where
  -- One turn of the last loop.
  abbrev pub resource_param : Text → ResourceParam
  resource_param resource =
      let name = singular resource ++ codes "_id" in record { name = name; binding_name = name }

  -- InferResourceParamsWithMode; `nil` is the empty list.
  unfoldable pub infer_resource_params : Text → Text → List ResourceParam
  unfolding name_parts is_collection
  infer_resource_params entry mode =
      let parts = name_parts entry in
      let resources = all_but_last parts in
      let count =
        (if is_collection mode (last_or [] parts)
          then length resources - 1
          else length resources) in
      if ltb (length parts) 3 then [] else map resource_param (take count resources)
