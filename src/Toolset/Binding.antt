-- ===== src/Toolset/Binding.antt =====
-- toolset/binding.go, toolset/cel.go and the resolving of tools in toolset/toolset.go. The CEL library is
-- a parameter; a Go map is a list, in the order in which its loops go through it.
use toolbox.Prelude.{Bool, List, [], ◌∷◌, if◌then◌else◌, Option, none, some, Result, ok, err, ◌>>=◌}
use toolbox.Prelude.Text.{Text}
use toolbox.Prelude.Assoc.{Assoc, lookup, insert}
use toolbox.Packaging.Types.{ResourceParam, ResolvedTool}

-- Binding: what the value of a parameter is, whether the agent sees it, and a check.
pub record Binding : Type 0 where
  pub value : Text
  pub hidden : Bool
  pub check : Text

pub record BoundTool : Type 0 where
  pub tool_ref : Text
  pub bindings : Assoc Binding

-- Config, without the credentials, which the toolset does not use.
pub record Config (Value : Type 0) : Type 0 where
  pub tools : List BoundTool
  pub resource_bindings : Assoc Binding
  pub context : Assoc Value

-- cel.NewEnv, Compile with Program, and Eval at `params` and `context`; Value().(bool).
pub record Cel (Program Value : Type 0) : Type 0 where
  pub env_made : Bool
  pub compile : Text → Option Program
  pub eval : Program → Assoc Value → Assoc Value → Option Value
  pub as_bool : Value → Option Bool

pub data ToolsetError : Type 0 where
  no_cel_env : ToolsetError
  bad_value bad_check : Text → ToolsetError
  in_tool : Text → ToolsetError → ToolsetError
  unknown_tool : Text → ToolsetError
  check_error check_not_bool check_failed value_error : Text → ToolsetError

-- compiledBinding
pub record CompiledBinding (Program : Type 0) : Type 0 where
  pub binding : Binding
  pub value_program : Option Program
  pub check_program : Option Program

-- ResolvedToolset, but for the CEL environment.
pub record ResolvedToolset (Tool Program Value : Type 0) : Type 0 where
  pub tools : List Tool
  pub bindings : Assoc (Assoc (CompiledBinding Program))
  pub hidden_params : Assoc (List Text)
  pub context : Assoc Value

module _ {Program Value : Type 0} (cel : Cel Program Value) where
  open cel use {env_made, compile}

  abbrev pub compiled_or : ToolsetError → Option Program → Result ToolsetError (Option Program)
  compiled_or e none = err e
  compiled_or e (some program) = ok (some program)

  -- compileBinding, if there is an expression.
  unfoldable pub compile_binding : ToolsetError → Text → Result ToolsetError (Option Program)
  compile_binding e [] = ok none
  compile_binding e (c ∷ expr) = compiled_or e (compile (c ∷ expr))

  -- compileBindings
  unfoldable pub compile_bindings :
      Assoc Binding → Result ToolsetError (Assoc (CompiledBinding Program))
  unfolding compile_binding
  compile_bindings [] = ok []
  compile_bindings ((param, binding) ∷ bindings) = do
    value_program ← compile_binding (bad_value param) binding.value
    check_program ← compile_binding (bad_check param) binding.check
    rest ← compile_bindings bindings
    ok (
        (
          param,
          record {
            binding = binding;
            value_program = value_program;
            check_program = check_program;
          },
        )
        ∷ rest)

-- toolBindings: of two entries for a tool, the later one.
unfoldable pub tool_bindings : List BoundTool → Assoc (Assoc Binding) → Assoc (Assoc Binding)
unfolding insert
tool_bindings [] m = m
tool_bindings (bound ∷ tools) m = tool_bindings tools (insert bound.tool_ref bound.bindings m)

abbrev pub or_none : Option (Assoc Binding) → Assoc Binding
or_none none = []
or_none (some bindings) = bindings

-- One resource parameter: a binding for the parameter itself comes first.
abbrev pub with_resource : Text → Option Binding → Option Binding → Assoc Binding → Assoc Binding
with_resource param (some own) resource bindings = bindings
with_resource param none none bindings = bindings
with_resource param none (some binding) bindings = insert param binding bindings

-- The bindings of a tool with those of its resources merged in.
unfoldable pub merge_resources : Assoc Binding → List ResourceParam → Assoc Binding → Assoc Binding
unfolding lookup insert
merge_resources resources [] bindings = bindings
merge_resources resources (rp ∷ params) bindings =
    merge_resources resources params
      (with_resource rp.name (lookup rp.name bindings) (lookup rp.binding_name resources) bindings)

-- The names of the hidden parameters.
unfoldable pub hidden_names : Assoc Binding → List Text
hidden_names [] = []
hidden_names ((param, binding) ∷ bindings) =
    let rest = hidden_names bindings in if binding.hidden then param ∷ rest else rest

abbrev pub put_hidden : Text → List Text → Assoc (List Text) → Assoc (List Text)
put_hidden name [] m = m
put_hidden name (h ∷ hidden) m = insert name (h ∷ hidden) m

abbrev pub wrap_error : {A : Type 0} → Text → Result ToolsetError A → Result ToolsetError A
wrap_error name (ok a) = ok a
wrap_error name (err e) = err (in_tool name e)

-- What has been compiled: the bindings and the hidden parameters by tool name.
abbrev pub Compiled : Type 0 → Type 0
Compiled Program = Assoc (Assoc (CompiledBinding Program)) × Assoc (List Text)

module _ {Program Value : Type 0} (cel : Cel Program Value) where
  unfoldable pub compile_tool_bindings :
      Text → Assoc Binding → Compiled Program → Result ToolsetError (Compiled Program)
  unfolding compile_bindings hidden_names insert
  compile_tool_bindings name [] so_far = ok so_far
  compile_tool_bindings name (b ∷ bindings) (all_compiled, all_hidden) = do
    compiled ← wrap_error name (compile_bindings cel (b ∷ bindings))
    ok (insert name compiled all_compiled, put_hidden name (hidden_names (b ∷ bindings)) all_hidden)

module _ {Sig Schema Files Program Value : Type 0} (cel : Cel Program Value) where
  -- The loop of resolveTools.
  unfoldable pub compile_tools :
      Assoc (Assoc Binding)
      → Assoc Binding
      → List (ResolvedTool Sig Schema Files)
      → Compiled Program
      → Result ToolsetError (Compiled Program)
  unfolding compile_tool_bindings merge_resources lookup
  compile_tools by_tool resources [] so_far = ok so_far
  compile_tools by_tool resources (tool ∷ tools) so_far = do
    next ←
        compile_tool_bindings cel tool.name
          (merge_resources resources tool.resource_params (or_none (lookup tool.name by_tool)))
          so_far
    compile_tools by_tool resources tools next

  abbrev pub resolved :
      List (ResolvedTool Sig Schema Files)
      → Config Value
      → Compiled Program
      → ResolvedToolset (ResolvedTool Sig Schema Files) Program Value
  resolved tools cfg (all_compiled, all_hidden) = record {
    tools = tools;
    bindings = all_compiled;
    hidden_params = all_hidden;
    context = cfg.context;
  }

  -- Builder.resolveTools and ResolveTools
  unfoldable pub resolve_tools :
      List (ResolvedTool Sig Schema Files)
      → Config Value
      → Result ToolsetError (ResolvedToolset (ResolvedTool Sig Schema Files) Program Value)
  unfolding compile_tools tool_bindings
  resolve_tools tools cfg =
      if cel.env_made
      then (do
        compiled ← compile_tools (tool_bindings cfg.tools []) cfg.resource_bindings tools ([], [])
        ok (resolved tools cfg compiled))
      else err no_cel_env
