-- ===== src/Invoke/Guarded.antt =====
-- invoke/invoke.go: what was checked of a call that gave an output.
use toolbox.Prelude.{
  true, false, ◌++◌, All, subst, List, [], ◌∷◌, Option, none, some, Result, ok, err, ok_injective,
  Bool-cases, ◌≡◌, inl, inr, refl, ap,
}
use toolbox.Prelude.Text.{Text, text_eq}
use toolbox.Prelude.Assoc.{Assoc, lookup}
use toolbox.Packaging.Types.{ResolvedTool, Executable, ts, ts_wasm}
use toolbox.Toolset.Binding.{
  Binding, Cel, CompiledBinding, Config, ResolvedToolset, ToolsetError, resolve_tools,
}
use toolbox.Toolset.Call.{validate_call}
use toolbox.Toolset.Bound.{Distinct, IsCompiled}
use toolbox.Toolset.Injected.{Passes, Fills}
use toolbox.Toolset.Honoured.{
  IsOwn, AllConfigured, resolve_tools-tools, validate_call-resolve_tools,
}
use toolbox.Invoke.{Engine, outcome, run_executable, run_named, run_full, run_with_vfs}

outcome-ok : (r : Result Text Text) (output : Text) → outcome r ≡ ok output → r ≡ ok output
outcome-ok (ok text) output h = ap ok (ok_injective h)
outcome-ok (err e) output h = cc

module _ {Sig Schema Files Program Value Shared : Type 0} (cel : Cel Program Value)
    (engine : Engine (ResolvedTool Sig Schema Files) Value Shared) where
  -- What a tool's executable gives: a TypeScript tool runs on its engine, a WASM tool on the other one.
  abbrev pub RanAs :
      ResolvedTool Sig Schema Files
      → Option (Executable Files)
      → Assoc Value
      → Shared
      → Text
      → Type 0
  RanAs tool none full shared output = ⊥
  RanAs tool (some (ts entry files root)) full shared output = engine.run_ts tool full ≡ ok output
  RanAs tool (some (ts_wasm entry files root exes)) full shared output =
      engine.run_wasm tool full shared ≡ ok output

  -- The engine of its executable gave the output for these parameters and the first of the tools with
  -- the name.
  pub record GaveOutput (tools : List (ResolvedTool Sig Schema Files)) (name : Text)
      (full : Assoc Value) (shared : Shared) (output : Text) : Type 0 where
    pub before : List (ResolvedTool Sig Schema Files)
    pub tool : ResolvedTool Sig Schema Files
    pub after : List (ResolvedTool Sig Schema Files)
    pub split : tools ≡ before ++ tool ∷ after
    pub others : All (λ t. text_eq t.name name ≡ false) before
    pub is_named : text_eq tool.name name ≡ true
    pub gave : RanAs tool tool.executable full shared output

  run_executable-RanAs :
      (tool : ResolvedTool Sig Schema Files) (o : Option (Executable Files)) (full : Assoc Value)
      (shared : Shared) (output : Text)
      → run_executable cel engine tool o full shared ≡ ok output
      → RanAs tool o full shared output
  run_executable-RanAs tool none full shared output h = cc
  run_executable-RanAs tool (some (ts entry files root)) full shared output h =
      outcome-ok (engine.run_ts tool full) output h
  run_executable-RanAs tool (some (ts_wasm entry files root exes)) full shared output h =
      outcome-ok (engine.run_wasm tool full shared) output h

  run_named-GaveOutput :
      (tools : List (ResolvedTool Sig Schema Files)) (name : Text) (full : Assoc Value)
      (shared : Shared) (output : Text)
      → run_named cel engine tools name full shared ≡ ok output
      → GaveOutput tools name full shared output
  unfolding run_named
  run_named-GaveOutput [] name full shared output h = cc
  run_named-GaveOutput (tool ∷ tools) name full shared output h =
      elim (Bool-cases (text_eq tool.name name)) [
        | inl same ↦ record {
          before = [];
          tool = tool;
          after = tools;
          split = refl;
          others = tt;
          is_named = same;
          gave = run_executable-RanAs tool tool.executable full shared output (rw same at h);
        }
        | inr other ↦
            let later = run_named-GaveOutput tools name full shared output (rw other at h) in
            record {
              before = tool ∷ later.before;
              tool = later.tool;
              after = later.after;
              split = ap (λ l. tool ∷ l) later.split;
              others = (other, later.others);
              is_named = later.is_named;
              gave = later.gave;
            }
      ]

  run_full-GaveOutput :
      (tools : List (ResolvedTool Sig Schema Files)) (name : Text) (shared : Shared)
      (r : Result ToolsetError (Assoc Value)) (output : Text)
      → run_full cel engine tools name shared r ≡ ok output
      → (full : Assoc Value) × (r ≡ ok full) × GaveOutput tools name full shared output
  run_full-GaveOutput tools name shared (err e) output h = cc
  run_full-GaveOutput tools name shared (ok full) output h =
      (full, refl, run_named-GaveOutput tools name full shared output h)

  -- A call gives an output only if the engine of its executable gave it, for the first tool of the toolset
  -- with the name and for parameters in which the binding that the configuration has for a parameter of
  -- the tool is honoured, be it one of the tool's own or, where it has none of its own for the parameter,
  -- that of a resource which the parameter stands for: its check has given true at the agent's
  -- parameters, and the parameter has the value of the binding there, or the agent's value if the
  -- binding has no value. If several tools have the name, this is the binding of each of them.
  pub run_with_vfs-GaveOutput :
      (tools : List (ResolvedTool Sig Schema Files)) (cfg : Config Value) (name p : Text)
      (b : Binding) (own : Assoc Binding)
      (r : ResolvedToolset (ResolvedTool Sig Schema Files) Program Value) (args : Assoc Value)
      (shared : Shared) (output : Text)
      → IsOwn name cfg.tools own
      → Distinct own
      → AllConfigured name p b own cfg.resource_bindings tools
      → resolve_tools cel tools cfg ≡ ok r
      → run_with_vfs cel engine r name args shared ≡ ok output
      → (full : Assoc Value) × GaveOutput tools name full shared output
        × (cb : CompiledBinding Program) × IsCompiled cel b cb
        × Passes cel args cfg.context cb.check_program
        × Fills cel args cfg.context cb.value_program (lookup p args) (lookup p full)
  unfolding run_with_vfs
  run_with_vfs-GaveOutput tools cfg name p b own r args shared output has_own distinct configured
        resolved called =
      let (full, validated, gave) =
        run_full-GaveOutput r.tools name shared (validate_call cel r name args) output called in
      let (cb, compiled, passes, fills) =
        validate_call-resolve_tools cel tools cfg name p b own r args full has_own distinct
          configured resolved validated in
      (
        full,
        subst (λ ts. GaveOutput ts name full shared output)
            (resolve_tools-tools cel tools cfg name p b own r resolved) gave,
        cb,
        compiled,
        passes,
        fills,
      )
