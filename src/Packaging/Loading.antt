-- ===== src/Packaging/Loading.antt =====
-- packaging/internal/source/source.go: packages that are loaded from directories, with what the
-- TypeScript library reads out of their tools. The disk and that library are parameters.
use toolbox.Prelude.{
  ℕ, true, List, [], ◌∷◌, if◌then◌else◌, Option, none, some, map, Result, or_fail, ok, err, ◌>>=◌,
}
use toolbox.Prelude.Text.{Text, codes, text_eq}
use toolbox.Packaging.Types.{
  Effect, other_effect, read_only, reversible, irreversible, ToolRuntime, ts_sandbox,
  ts_wasix_sandbox, ts_wasip2_sandbox, other_runtime, Package, PackageTool, Executable, ts, ts_wasm,
  ResolvedTool,
}
use toolbox.Packaging.FileSystem.{FileSystem, join}
use toolbox.Packaging.Source.{Globs, new_source_fs, source_file_system}
use toolbox.Packaging.Names.{infer_tool_name}
use toolbox.Packaging.Manifest.{
  ManifestError, Json, ValidationMode, dev_mode, parse_dev, parse_pkg, compile, validate_compiled,
}

abbrev pub dev_manifest_filename : Text
dev_manifest_filename = codes "toolbox.devpkg.json"

abbrev pub pkg_manifest_filename : Text
pkg_manifest_filename = codes "toolbox.pkg.json"

-- `endless` is no error of the code: it stands for a loop that does not end.
pub data LoadError : Type 0 where
  no_manifest : LoadError
  bad_manifest : ManifestError → LoadError
  endless : LoadError

-- What toolbox.ExtractToolMetadata finds.
pub record Metadata (Sig Schema : Type 0) : Type 0 where
  pub description : Text
  pub sig : Option Sig
  pub params_schema : Option Schema

pub record Extractor (Sig Schema : Type 0) : Type 0 where
  pub extract : FileSystem → Text → Option (Metadata Sig Schema)
  pub tags : Sig → List (Text × Text)

-- LoadedPackage
pub record LoadedPackage (Sig Schema : Type 0) : Type 0 where
  pub pkg : Package Sig Schema
  pub files : FileSystem
  pub dir : Text

-- tooldef.Effect(s)
unfoldable pub effect_of_text : Text → Effect
unfolding text_eq
effect_of_text s =
    if text_eq s (codes "readOnly")
    then read_only
    else if text_eq s (codes "reversible")
    then reversible
    else if text_eq s (codes "irreversible")
    then irreversible
    else other_effect s

module _ {Sig Schema : Type 0} where
  -- One tag of a tool's signature.
  unfoldable pub apply_tag : PackageTool Sig Schema → Text × Text → PackageTool Sig Schema
  unfolding text_eq effect_of_text
  apply_tag tool (name, text) =
      if text_eq name (codes "effect")
      then (if text_eq text [] then tool else record tool { effect = effect_of_text text })
      else if text_eq name (codes "idempotent")
      then record tool { idempotent = some true }
      else tool

  unfoldable pub apply_tags : PackageTool Sig Schema → List (Text × Text) → PackageTool Sig Schema
  unfolding apply_tag
  apply_tags tool [] = tool
  apply_tags tool (tag ∷ tags) = apply_tags (apply_tag tool tag) tags

module _ {Sig Schema : Type 0} (extractor : Extractor Sig Schema) where
  abbrev pub describe : Text → PackageTool Sig Schema → PackageTool Sig Schema
  describe description tool =
      if text_eq description [] then tool else record tool { description = description }

  -- What the signature, or the schema in its place, sets.
  abbrev pub set_sig : Option Sig → Option Schema → PackageTool Sig Schema → PackageTool Sig Schema
  set_sig (some sig) schema tool = apply_tags (record tool { sig = some sig }) (extractor.tags sig)
  set_sig none (some schema) tool = record tool { sig = none; params_schema = some schema }
  set_sig none none tool = record tool { sig = none }

  -- The body of the loop of EnrichToolMetadata.
  unfoldable pub enrich_tool :
      Option (Metadata Sig Schema) → PackageTool Sig Schema → PackageTool Sig Schema
  unfolding apply_tags text_eq
  enrich_tool none tool = tool
  enrich_tool (some meta) tool =
      set_sig meta.sig meta.params_schema (describe meta.description tool)

  -- EnrichToolMetadata
  unfoldable pub enrich_tool_metadata : FileSystem → Package Sig Schema → Package Sig Schema
  unfolding enrich_tool
  enrich_tool_metadata files pkg = record pkg {
    tools = map (λ tool. enrich_tool (extractor.extract files tool.entry_ts) tool) pkg.tools;
  }

-- The disk: os.ReadFile, os.DirFS, and what doublestar and os.Stat say below a directory.
pub record PackageDisk : Type 0 where
  pub read_file : Text → Option (List ℕ)
  pub dir_fs : Text → FileSystem
  pub globs_below : Text → Globs

abbrev pub lift_error : {A : Type 0} → Result ManifestError A → Result LoadError A
lift_error (ok a) = ok a
lift_error (err e) = err (bad_manifest e)

module _ {Sig Schema : Type 0} (singular : Text → Text) (json : Json Sig Schema)
    (extractor : Extractor Sig Schema) (disk : PackageDisk) where
  -- LoadDirWithMode
  unfoldable pub load_dir_with_mode :
      Text → ValidationMode → Result LoadError (LoadedPackage Sig Schema × List ManifestError)
  unfolding parse_dev new_source_fs enrich_tool_metadata validate_compiled source_file_system
      compile join
  load_dir_with_mode root mode = do
    raw ← or_fail no_manifest (disk.read_file (join root dev_manifest_filename))
    dev ← lift_error (parse_dev json raw)
    let compiled = compile singular dev
    source_fs ← or_fail endless (new_source_fs (disk.globs_below root) (disk.dir_fs root) compiled)
    let files = source_file_system source_fs
    let pkg = enrich_tool_metadata extractor files compiled
    warnings ← lift_error (validate_compiled json pkg mode)
    ok (record { pkg = pkg; files = files; dir = root }, warnings)

  abbrev pub without_warnings :
      Result LoadError (LoadedPackage Sig Schema × List ManifestError)
      → Result LoadError (LoadedPackage Sig Schema)
  without_warnings (ok (loaded, warnings)) = ok loaded
  without_warnings (err e) = err e

  -- LoadDir
  unfoldable pub load_dir : Text → Result LoadError (LoadedPackage Sig Schema)
  unfolding load_dir_with_mode
  load_dir root = without_warnings (load_dir_with_mode root dev_mode)

  -- LoadBuiltDirWithMode
  unfoldable pub load_built_dir_with_mode :
      Text → ValidationMode → Result LoadError (LoadedPackage Sig Schema)
  unfolding parse_pkg new_source_fs enrich_tool_metadata validate_compiled source_file_system join
  load_built_dir_with_mode root mode = do
    raw ← or_fail no_manifest (disk.read_file (join root pkg_manifest_filename))
    pkg ← lift_error (parse_pkg json raw)
    _ ← lift_error (validate_compiled json pkg mode)
    source_fs ← or_fail endless (new_source_fs (disk.globs_below root) (disk.dir_fs root) pkg)
    let files = source_file_system source_fs
    ok (record { pkg = enrich_tool_metadata extractor files pkg; files = files; dir = root })

abbrev pub or_name : Text → Text → Text
or_name [] name = name
or_name (c ∷ description) name = c ∷ description

module _ {Sig Schema : Type 0} where
  abbrev pub executable_of : LoadedPackage Sig Schema → Text → ToolRuntime → Executable FileSystem
  executable_of loaded entry ts_wasix_sandbox =
      ts_wasm entry loaded.files loaded.dir loaded.pkg.executables
  executable_of loaded entry ts_wasip2_sandbox =
      ts_wasm entry loaded.files loaded.dir loaded.pkg.executables
  executable_of loaded entry ts_sandbox = ts entry loaded.files loaded.dir
  executable_of loaded entry (other_runtime _) = ts entry loaded.files loaded.dir

  unfoldable pub resolved_tool :
      LoadedPackage Sig Schema → PackageTool Sig Schema → ResolvedTool Sig Schema FileSystem
  unfolding infer_tool_name
  resolved_tool loaded tool = record {
    name = infer_tool_name tool.entry_ts;
    description = or_name tool.description (infer_tool_name tool.entry_ts);
    sig = tool.sig;
    effect = tool.effect;
    idempotent = tool.idempotent;
    resource_params = tool.resource_params;
    executable = some (executable_of loaded tool.entry_ts loaded.pkg.runtime);
    params_schema = tool.params_schema;
  }

  -- LoadedPackage.ResolvedTools
  unfoldable pub resolved_tools :
      LoadedPackage Sig Schema → List (ResolvedTool Sig Schema FileSystem)
  unfolding resolved_tool
  resolved_tools loaded = map (resolved_tool loaded) loaded.pkg.tools
