-- ===== src/Toolset/View.antt =====
-- toolset/agentview.go: the tools as an agent sees them. The types of the TypeScript library are a
-- parameter.
use toolbox.Prelude.{Bool, true, false, List, [], ◌∷◌, if◌then◌else◌, map, Option, none, some}
use toolbox.Prelude.Text.{Text, codes}
use toolbox.Prelude.Assoc.{Assoc, lookup, insert, remove}
use toolbox.Packaging.Types.{Effect, ResolvedTool, params_schema_of}
use toolbox.Packaging.FileSystem.{mem}
use toolbox.Toolset.Binding.{Cel, CompiledBinding, ResolvedToolset}

-- An element of an array of a schema: a string, or another JSON value, of the type `V`.
pub data Item (V : Type 0) : Type 0 where
  text : Text → Item V
  other_item : V → Item V

-- A field of a schema: an object, an array, or another JSON value.
pub data Field (V : Type 0) : Type 0 where
  object : List (Text × V) → Field V
  array : List (Item V) → Field V
  other_field : V → Field V

abbrev pub Schema : Type 0 → Type 0
Schema V = Assoc (Field V)

-- The signatures of the TypeScript library and their parameter types.
pub record Types (Sig Ty Value V : Type 0) : Type 0 where
  pub params_as_object : Sig → Option Ty
  pub remove_properties : List Text → Ty → Ty
  pub set_property_literal : Text → Value → Ty → Ty
  pub to_json_schema : Ty → Option (Schema V)

-- AgentTool
pub record AgentTool (Sig Value V : Type 0) : Type 0 where
  pub name : Text
  pub description : Text
  pub params_schema : Option (Schema V)
  pub sig : Option Sig
  pub hidden_params : List Text
  pub bound_literals : Assoc Value
  pub effect : Effect
  pub idempotent : Option Bool

module _ {V : Type 0} where
  -- The entries of a map whose key is not hidden.
  unfoldable pub without_hidden : List Text → Assoc V → Assoc V
  unfolding mem
  without_hidden hidden [] = []
  without_hidden hidden ((k, v) ∷ props) =
      let rest = without_hidden hidden props in if mem k hidden then rest else (k, v) ∷ rest

  abbrev pub is_hidden_name : List Text → Item V → Bool
  is_hidden_name hidden (text name) = mem name hidden
  is_hidden_name hidden (other_item _) = false

  unfoldable pub visible_names : List Text → List (Item V) → List (Item V)
  unfolding mem
  visible_names hidden [] = []
  visible_names hidden (r ∷ required) =
      let rest = visible_names hidden required in if is_hidden_name hidden r then rest else r ∷ rest

  abbrev pub filter_properties : List Text → Option (Field V) → Schema V → Schema V
  filter_properties hidden (some (object props)) schema =
      insert (codes "properties") (object (without_hidden hidden props)) schema
  filter_properties hidden _ schema = schema

  abbrev pub put_required : List (Item V) → Schema V → Schema V
  put_required [] schema = remove (codes "required") schema
  put_required (r ∷ required) schema = insert (codes "required") (array (r ∷ required)) schema

  abbrev pub filter_required : List Text → Option (Field V) → Schema V → Schema V
  filter_required hidden (some (array required)) schema =
      put_required (visible_names hidden required) schema
  filter_required hidden _ schema = schema

  -- filterHiddenParams of a schema that is there and of hidden names that are not empty.
  unfoldable pub filter_schema : List Text → Schema V → Schema V
  unfolding lookup insert remove without_hidden visible_names
  filter_schema hidden schema =
      let out = filter_properties hidden (lookup (codes "properties") schema) schema in
      filter_required hidden (lookup (codes "required") out) out

  -- filterHiddenParams
  unfoldable pub filter_hidden_params : Option (Schema V) → List Text → Option (Schema V)
  unfolding filter_schema
  filter_hidden_params none hidden = none
  filter_hidden_params (some schema) [] = some schema
  filter_hidden_params (some schema) (h ∷ hidden) = some (filter_schema (h ∷ hidden) schema)

module _ {Sig Ty Value V : Type 0} (types : Types Sig Ty Value V) where
  open types use {params_as_object, remove_properties, set_property_literal, to_json_schema}

  abbrev pub remove_hidden : List Text → Ty → Ty
  remove_hidden [] pt = pt
  remove_hidden (h ∷ hidden) pt = remove_properties (h ∷ hidden) pt

  abbrev pub narrow : Assoc Value → Ty → Ty
  narrow [] pt = pt
  narrow ((name, value) ∷ literals) pt = narrow literals (set_property_literal name value pt)

  abbrev pub type_of_sig : Option Sig → Option Ty
  type_of_sig none = none
  type_of_sig (some sig) = params_as_object sig

  -- AgentTool.ParamsType
  unfoldable pub params_type : Option Sig → List Text → Assoc Value → Option Ty
  params_type sig hidden literals = elim (type_of_sig sig) [
    | none ↦ none
    | some pt ↦ some (narrow literals (remove_hidden hidden pt))
  ]

  abbrev pub schema_of_sig : Sig → Option (Schema V)
  schema_of_sig sig = elim (params_as_object sig) [ none ↦ none | some pt ↦ to_json_schema pt ]

module _ {Program Value : Type 0} (cel : Cel Program Value) where
  abbrev pub put_literal : Text → Option Value → Assoc Value → Assoc Value
  put_literal param none literals = literals
  put_literal param (some value) literals = insert param value literals

  -- The literal of one binding: its value at no parameters, unless it is hidden or has no value.
  abbrev pub literal_of : Text → Bool → Option Program → Assoc Value → Assoc Value → Assoc Value
  literal_of param true program context literals = literals
  literal_of param false none context literals = literals
  literal_of param false (some program) context literals =
      put_literal param (cel.eval program [] context) literals

  unfoldable pub bound_literals :
      List Text → Assoc (CompiledBinding Program) → Assoc Value → Assoc Value → Assoc Value
  unfolding mem insert
  bound_literals hidden [] context literals = literals
  bound_literals hidden ((param, cb) ∷ bindings) context literals =
      bound_literals hidden bindings context
        (literal_of param (mem param hidden) cb.value_program context literals)

abbrev pub or_empty : {A : Type 0} → Option (List A) → List A
or_empty none = []
or_empty (some l) = l

module _ {Sig Ty Files Program Value V : Type 0} (types : Types Sig Ty Value V)
    (cel : Cel Program Value)
    (r : ResolvedToolset (ResolvedTool Sig (Schema V) Files) Program Value) where
  unfoldable pub agent_tool : ResolvedTool Sig (Schema V) Files → AgentTool Sig Value V
  unfolding bound_literals params_type filter_hidden_params params_schema_of lookup
  agent_tool rt =
      let hidden = or_empty (lookup rt.name r.hidden_params) in
      let literals =
        bound_literals cel hidden (or_empty (lookup rt.name r.bindings)) r.context [] in
      record {
        name = rt.name;
        description = rt.description;
        params_schema = elim (params_type types rt.sig hidden literals) [
          | none ↦ filter_hidden_params (params_schema_of (schema_of_sig types) rt) hidden
          | some pt ↦ types.to_json_schema pt
        ];
        sig = rt.sig;
        hidden_params = hidden;
        bound_literals = literals;
        effect = rt.effect;
        idempotent = rt.idempotent;
      }

  -- ResolvedToolset.AgentView
  unfoldable pub agent_view : List (AgentTool Sig Value V)
  unfolding agent_tool
  agent_view = map agent_tool r.tools
