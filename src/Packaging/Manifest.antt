-- ===== src/Packaging/Manifest.antt =====
-- packaging/internal/manifest/manifest.go: dev manifests, their compiled form and its validation. The
-- JSON schemas and the decoders are parameters.
use toolbox.Prelude.{
  ℕ, Bool, true, false, List, [], ◌∷◌, Option, none, some, map, Result, ok, err, guard, or_fail,
  ◌>>=◌, ◌>>◌,
}
use toolbox.Prelude.Text.{Text}
use toolbox.Prelude.Assoc.{Assoc, lookup}
use toolbox.Packaging.Types.{Effect, ToolRuntime, ResourceParam, PackageTool, Package}
use toolbox.Packaging.Names.{infer_effect, infer_resource_params, validate_entry_name}

pub data ManifestError : Type 0 where
  cannot_parse cannot_marshal : ManifestError
  against_dev against_dist : ManifestError
  bad_entry : Text → Text → ManifestError

pub record DevResource : Type 0 where
  pub bindings : Assoc Text
  pub mode : Text

pub record DevTool : Type 0 where
  pub entry_ts : Text
  pub idempotent : Option Bool
  pub effect : Option Effect
  pub resource : Option DevResource

pub record DevManifest : Type 0 where
  pub name : Text
  pub runtime : ToolRuntime
  pub globs : List Text
  pub executables : Assoc Text
  pub tools : List DevTool

-- The loop of ParseDev over the tools.
unfoldable pub check_entries : List DevTool → Result ManifestError (Unit {0})
unfolding validate_entry_name
check_entries [] = ok tt
check_entries (tool ∷ tools) = elim (validate_entry_name tool.entry_ts) [
  | ok _ ↦ check_entries tools
  | err seg ↦ err (bad_entry tool.entry_ts seg)
]

-- `if override, ok := resourceBindings[name]; ok { BindingName = override }`
abbrev pub override : Assoc Text → ResourceParam → ResourceParam
override bindings param = elim (lookup param.name bindings) [
  | none ↦ param
  | some name ↦ record param { binding_name = name }
]

abbrev pub effect_of : Option Effect → Text → Effect
effect_of none entry = infer_effect entry
effect_of (some effect) entry = effect

abbrev pub mode_of : Option DevResource → Text
mode_of none = []
mode_of (some resource) = resource.mode

abbrev pub overrides_of : Option DevResource → Assoc Text
overrides_of none = []
overrides_of (some resource) = resource.bindings

module _ {Sig Schema : Type 0} (singular : Text → Text) where
  abbrev pub compile_tool : DevTool → PackageTool Sig Schema
  compile_tool tool = record {
    entry_ts = tool.entry_ts;
    idempotent = tool.idempotent;
    effect = effect_of tool.effect tool.entry_ts;
    description = [];
    params_schema = none;
    sig = none;
    resource_params =
        map (override (overrides_of tool.resource))
          (infer_resource_params singular tool.entry_ts (mode_of tool.resource));
  }

  -- Compile
  unfoldable pub compile : DevManifest → Package Sig Schema
  compile dev = record {
    name = dev.name;
    runtime = dev.runtime;
    sha256 = [];
    globs = dev.globs;
    executables = dev.executables;
    tools = map compile_tool dev.tools;
  }

pub data ValidationMode : Type 0 where
  dev_mode dist_mode : ValidationMode

-- encoding/json and the two embedded schemas. A decoder at a struct fails where the one at a map
-- does, or where a field has the wrong type.
pub record Json (Sig Schema : Type 0) : Type 0 where
  pub is_object : List ℕ → Bool
  pub fits_dev : List ℕ → Bool
  pub fits_dist : List ℕ → Bool
  pub decode_dev : List ℕ → Option DevManifest
  pub decode_package : List ℕ → Option (Package Sig Schema)
  pub encode_package : Package Sig Schema → Option (List ℕ)

module _ {Sig Schema : Type 0} (json : Json Sig Schema) where
  open json use {is_object, fits_dev, fits_dist, decode_dev, decode_package, encode_package}

  -- ParseDev
  unfoldable pub parse_dev : List ℕ → Result ManifestError DevManifest
  unfolding check_entries
  parse_dev raw = do
    guard (is_object raw) cannot_parse
    guard (fits_dev raw) against_dev
    manifest ← or_fail cannot_parse (decode_dev raw)
    check_entries manifest.tools
    ok manifest

  -- ParsePkg
  unfoldable pub parse_pkg : List ℕ → Result ManifestError (Package Sig Schema)
  parse_pkg raw = or_fail cannot_parse (decode_package raw)

  abbrev pub dist_verdict : ValidationMode → Bool → Result ManifestError (List ManifestError)
  dist_verdict mode true = ok []
  dist_verdict dev_mode false = ok (against_dist ∷ [])
  dist_verdict dist_mode false = err against_dist

  -- ValidateCompiled; a warning is the error of the schema for distribution.
  unfoldable pub validate_compiled :
      Package Sig Schema → ValidationMode → Result ManifestError (List ManifestError)
  validate_compiled pkg mode = do
    raw ← or_fail cannot_marshal (encode_package pkg)
    guard (is_object raw) cannot_parse
    guard (fits_dev raw) against_dev
    dist_verdict mode (fits_dist raw)
