-- ===== src/Invoke.antt =====
-- invoke/invoke.go: the choice of a tool and of the way to run it, and the executables that it may start.
-- The engines are parameters: what they return for a tool, its parameters and what a WASM tool shares.
pub mod Guarded
use toolbox.Prelude.{
  ℕ, Bool, true, false, List, [], ◌∷◌, if◌then◌else◌, Option, none, some, Result, ok, err, ◌>>=◌,
}
use toolbox.Prelude.Text.{Text, codes, text_eq}
use toolbox.Prelude.Assoc.{Assoc, lookup}
use toolbox.Packaging.Types.{
  ToolRuntime, ts_sandbox, ts_wasix_sandbox, ts_wasip2_sandbox, other_runtime, ResolvedTool,
  Executable, ts, ts_wasm,
}
use toolbox.Packaging.FileSystem.{join}
use toolbox.Toolset.Binding.{Cel, ResolvedToolset, ToolsetError}
use toolbox.Toolset.Call.{validate_call}

pub data InvokeError : Type 0 where
  invalid_call : ToolsetError → InvokeError
  no_executable unknown : Text → InvokeError
  failed : Text → InvokeError
  undeclared_executable unreadable_wasm : Text → InvokeError

-- runtimeFlag
unfoldable pub runtime_flag : ToolRuntime → Text
runtime_flag ts_wasip2_sandbox = codes "wasip2-cli"
runtime_flag ts_wasix_sandbox = codes "wasix-cli"
runtime_flag ts_sandbox = codes "wasix-cli"
runtime_flag (other_runtime _) = codes "wasix-cli"

-- tswasmcli.Request: a module is given by its path or by its bytes.
pub data WasmModule : Type 0 where
  at_path : Text → WasmModule
  of_bytes : List ℕ → WasmModule

pub record ExecRequest : Type 0 where
  pub args : List Text
  pub runtime : Text
  pub socket : Text
  pub wasm : WasmModule

abbrev pub read_wasm : Text → Option (List ℕ) → Result InvokeError WasmModule
read_wasm binary none = err (unreadable_wasm binary)
read_wasm binary (some bytes) = ok (of_bytes bytes)

abbrev pub wasm_module :
    Text → Text → Text → (Text → Option (List ℕ)) → Result InvokeError WasmModule
wasm_module [] relative binary read_file = read_wasm binary (read_file relative)
wasm_module (c ∷ root) relative binary read_file = ok (at_path (join (c ∷ root) relative))

abbrev pub with_binary :
    Text
    → ToolRuntime
    → Text
    → (Text → Option (List ℕ))
    → Text
    → List Text
    → Option Text
    → Result InvokeError ExecRequest
with_binary root runtime socket read_file binary args none = err (undeclared_executable binary)
with_binary root runtime socket read_file binary args (some relative) = do
  wasm ← wasm_module root relative binary read_file
  ok (record { args = args; runtime = runtime_flag runtime; socket = socket; wasm = wasm })

-- What the Exec of runTSWasmToolWithVFS asks tswasmcli for; `read_file` is fs.ReadFile of the package.
unfoldable pub exec_request :
    Text
    → ToolRuntime
    → Text
    → (Text → Option (List ℕ))
    → Assoc Text
    → Text
    → List Text
    → Result InvokeError ExecRequest
unfolding lookup runtime_flag join
exec_request root runtime socket read_file executables binary args =
    with_binary root runtime socket read_file binary args (lookup binary executables)

-- What quickts makes of a tool without and with executables, for a store of files that the tool shares.
pub record Engine (Tool Value Shared : Type 0) : Type 0 where
  pub run_ts : Tool → Assoc Value → Result Text Text
  pub run_wasm : Tool → Assoc Value → Shared → Result Text Text

abbrev pub outcome : Result Text Text → Result InvokeError Text
outcome (ok output) = ok output
outcome (err problem) = err (failed problem)

module _ {Sig Schema Files Program Value Shared : Type 0} (cel : Cel Program Value)
    (engine : Engine (ResolvedTool Sig Schema Files) Value Shared) where
  abbrev pub run_executable :
      ResolvedTool Sig Schema Files
      → Option (Executable Files)
      → Assoc Value
      → Shared
      → Result InvokeError Text
  run_executable tool none full shared = err (no_executable tool.name)
  run_executable tool (some (ts entry files root)) full shared = outcome (engine.run_ts tool full)
  run_executable tool (some (ts_wasm entry files root executables)) full shared =
      outcome (engine.run_wasm tool full shared)

  -- The loop over the tools: the first one with the name is run.
  unfoldable pub run_named :
      List (ResolvedTool Sig Schema Files) → Text → Assoc Value → Shared → Result InvokeError Text
  unfolding text_eq
  run_named [] name full shared = err (unknown name)
  run_named (tool ∷ tools) name full shared =
      let rest = run_named tools name full shared in
      if text_eq tool.name name then run_executable tool tool.executable full shared else rest

  abbrev pub run_full :
      List (ResolvedTool Sig Schema Files)
      → Text
      → Shared
      → Result ToolsetError (Assoc Value)
      → Result InvokeError Text
  run_full tools name shared (err e) = err (invalid_call e)
  run_full tools name shared (ok full) = run_named tools name full shared

  -- RunWithVFS; Run is the same with a store that is new.
  unfoldable pub run_with_vfs :
      ResolvedToolset (ResolvedTool Sig Schema Files) Program Value
      → Text
      → Assoc Value
      → Shared
      → Result InvokeError Text
  unfolding run_named validate_call
  run_with_vfs r name args shared = run_full r.tools name shared (validate_call cel r name args)

  -- Run
  unfoldable pub run :
      Shared
      → ResolvedToolset (ResolvedTool Sig Schema Files) Program Value
      → Text
      → Assoc Value
      → Result InvokeError Text
  unfolding run_with_vfs
  run new_store r name args = run_with_vfs r name args new_store
