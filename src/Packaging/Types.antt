-- ===== src/Packaging/Types.antt =====
-- tool/tool.go: packages, their tools, and the tools that a toolset offers. `Sig` stands for the
-- signatures of the TypeScript library and `Schema` for JSON schemas.
use toolbox.Prelude.{Bool, List, Option, none, some}
use toolbox.Prelude.Text.{Text}
use toolbox.Prelude.Assoc.{Assoc}

-- ToolRuntime; any other string is `other_runtime`.
pub data ToolRuntime : Type 0 where
  ts_sandbox ts_wasix_sandbox ts_wasip2_sandbox : ToolRuntime
  other_runtime : Text → ToolRuntime

-- Effect; any other string is `other_effect`.
pub data Effect : Type 0 where
  read_only reversible irreversible : Effect
  other_effect : Text → Effect

pub record ResourceParam : Type 0 where
  pub name : Text
  pub binding_name : Text

pub record PackageTool (Sig Schema : Type 0) : Type 0 where
  pub entry_ts : Text
  pub idempotent : Option Bool
  pub effect : Effect
  pub description : Text
  pub params_schema : Option Schema
  pub sig : Option Sig
  pub resource_params : List ResourceParam

pub record Package (Sig Schema : Type 0) : Type 0 where
  pub name : Text
  pub runtime : ToolRuntime
  pub sha256 : Text
  pub globs : List Text
  pub executables : Assoc Text
  pub tools : List (PackageTool Sig Schema)

-- Which executable a tool has: TS or TSWasm.
pub data Executable (Files : Type 0) : Type 0 where
  ts : (entry : Text) (files : Files) (root : Text) → Executable Files
  ts_wasm :
      (entry : Text) (files : Files) (root : Text) (executables : Assoc Text) → Executable Files

pub record ResolvedTool (Sig Schema Files : Type 0) : Type 0 where
  pub name : Text
  pub description : Text
  pub sig : Option Sig
  pub effect : Effect
  pub idempotent : Option Bool
  pub resource_params : List ResourceParam
  pub executable : Option (Executable Files)
  pub params_schema : Option Schema

-- ResolvedTool.ParamsSchema; `schema_of` is ParamsAsObject and ToJSONSchema.
unfoldable pub params_schema_of :
    {Sig Schema Files : Type 0}
    → (Sig → Option Schema)
    → ResolvedTool Sig Schema Files
    → Option Schema
params_schema_of schema_of tool = elim tool.sig [
  | none ↦ tool.params_schema
  | some sig ↦ elim (schema_of sig) [ none ↦ tool.params_schema | some schema ↦ some schema ]
]
