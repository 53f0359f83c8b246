-- ===== src/Tests/Toolsets.antt =====
-- Runs and instances for toolset/: a tool with a hidden parameter that the configuration fills in.
use toolbox.Prelude.{true, [], ◌∷◌, if◌then◌else◌, none, some, err, ok, ◌≡◌, refl, inl, inr}
use toolbox.Prelude.Text.{Text, codes, text_eq}
use toolbox.Prelude.Assoc.{Assoc, lookup, remove}
use toolbox.Packaging.Types.{ts_wasm, ResolvedTool, read_only}
use toolbox.Toolset.Binding.{Binding, Config, Cel, CompiledBinding, ResolvedToolset, resolve_tools}
use toolbox.Toolset.Call.{validate_call}
use toolbox.Toolset.Bound.{Distinct, IsCompiled, IsConfigured}
use toolbox.Toolset.Injected.{Passes, Fills}
use toolbox.Invoke.{Engine, run_with_vfs}
use toolbox.Invoke.Guarded.{GaveOutput, run_with_vfs-GaveOutput}
use toolbox.Toolset.Honoured.{IsOwn, validate_call-resolve_tools}

abbrev customer : Text
customer = codes "customer"

-- An expression is the name of a context value, or else a literal.
abbrev cel : Cel Text Text
cel = record {
  env_made = true;
  compile = λ expr. some expr;
  eval = λ program params context.
      if text_eq program customer then lookup customer context else some program;
  as_bool = λ value. some (text_eq value (codes "true"));
}

abbrev add_tool : ResolvedTool Unit Unit Unit
add_tool = record {
  name = codes "add";
  description = codes "adds";
  sig = none;
  effect = read_only;
  idempotent = none;
  resource_params = [];
  executable = none;
  params_schema = none;
}

abbrev filled : Binding
filled = record { value = customer; hidden = true; check = codes "true" }

abbrev own : Assoc Binding
own = (codes "customer_id", filled) ∷ []

abbrev cfg : Config Text
cfg = record {
  tools = record { tool_ref = codes "add"; bindings = own } ∷ [];
  resource_bindings = [];
  context = (customer, codes "c-7") ∷ [];
}

abbrev compiled : CompiledBinding Text
compiled = record {
  binding = filled;
  value_program = some customer;
  check_program = some (codes "true");
}

abbrev toolset : ResolvedToolset (ResolvedTool Unit Unit Unit) Text Text
toolset = record {
  tools = add_tool ∷ [];
  bindings = (codes "add", (codes "customer_id", compiled) ∷ []) ∷ [];
  hidden_params = (codes "add", codes "customer_id" ∷ []) ∷ [];
  context = cfg.context;
}

abbrev params : Assoc Text
params = (codes "a", codes "1") ∷ []

abbrev full : Assoc Text
full = (codes "customer_id", codes "c-7") ∷ params

resolve_run : resolve_tools cel (add_tool ∷ []) cfg ≡ ok toolset
unfolding resolve_tools remove text_eq
resolve_run = refl

call_run : validate_call cel toolset (codes "add") params ≡ ok full
unfolding validate_call remove
call_run = refl

own-IsOwn : IsOwn (codes "add") cfg.tools own
own-IsOwn = inr ([], record { tool_ref = codes "add"; bindings = own }, [], refl, refl, tt, refl)

own-Distinct : Distinct own
unfolding lookup
own-Distinct = (refl, tt)

param_run : lookup (codes "customer_id") own ≡ some filled
unfolding lookup text_eq
param_run = refl

-- The same with a parameter that stands for a resource, and a binding of the resource.
abbrev resource_tool : ResolvedTool Unit Unit Unit
resource_tool = record add_tool {
  resource_params = record { name = codes "customer_id"; binding_name = customer } ∷ [];
}

abbrev resource_cfg : Config Text
resource_cfg = record cfg { tools = []; resource_bindings = (customer, filled) ∷ [] }

abbrev resource_toolset : ResolvedToolset (ResolvedTool Unit Unit Unit) Text Text
resource_toolset = record toolset { tools = resource_tool ∷ [] }

resource_resolve_run : resolve_tools cel (resource_tool ∷ []) resource_cfg ≡ ok resource_toolset
unfolding resolve_tools remove text_eq
resource_resolve_run = refl

resource_call_run : validate_call cel resource_toolset (codes "add") params ≡ ok full
unfolding validate_call remove
resource_call_run = refl

nothing-IsOwn : IsOwn (codes "add") resource_cfg.tools []
nothing-IsOwn = inl (tt, refl)

add-IsConfigured :
    IsConfigured
      (codes "customer_id")
      filled
      []
      resource_cfg.resource_bindings
      resource_tool.resource_params
unfolding lookup text_eq
add-IsConfigured = inr (refl, inl (refl, refl))

validate_call-resolve_tools_example :
    (cb : CompiledBinding Text) × IsCompiled cel filled cb
    × Passes cel params resource_cfg.context cb.check_program
    × Fills cel params resource_cfg.context cb.value_program
        (lookup (codes "customer_id") params)
        (lookup (codes "customer_id") full)
validate_call-resolve_tools_example =
    validate_call-resolve_tools cel (resource_tool ∷ []) resource_cfg (codes "add")
      (codes "customer_id") filled [] resource_toolset params full nothing-IsOwn tt
      (inr add-IsConfigured, tt) resource_resolve_run resource_call_run

abbrev wasm_tool : ResolvedTool Unit Unit Unit
wasm_tool = record add_tool { executable = some (ts_wasm (codes "add.ts") tt (codes "/src") []) }

abbrev wasm_toolset : ResolvedToolset (ResolvedTool Unit Unit Unit) Text Text
wasm_toolset = record toolset { tools = wasm_tool ∷ [] }

-- An engine that prints the first parameter.
abbrev first_value : Assoc Text → Text
first_value [] = []
first_value ((_, v) ∷ rest) = v

abbrev engine : Engine (ResolvedTool Unit Unit Unit) Text Unit
engine = record {
  run_ts = λ tool args. err (codes "no engine");
  run_wasm = λ tool args shared. ok (first_value args);
}

wasm_resolve_run : resolve_tools cel (wasm_tool ∷ []) cfg ≡ ok wasm_toolset
unfolding resolve_tools remove text_eq
wasm_resolve_run = refl

output_run : run_with_vfs cel engine wasm_toolset (codes "add") params tt ≡ ok (codes "c-7")
unfolding run_with_vfs remove
output_run = refl

run_with_vfs-GaveOutput_example :
    (filled_in : Assoc Text) × GaveOutput cel engine
      (wasm_tool ∷ [])
      (codes "add")
      filled_in
      tt
      (codes "c-7")
    × (cb : CompiledBinding Text) × IsCompiled cel filled cb
    × Passes cel params cfg.context cb.check_program
    × Fills cel params cfg.context cb.value_program
        (lookup (codes "customer_id") params)
        (lookup (codes "customer_id") filled_in)
run_with_vfs-GaveOutput_example =
    run_with_vfs-GaveOutput cel engine (wasm_tool ∷ []) cfg (codes "add") (codes "customer_id")
      filled own wasm_toolset params tt (codes "c-7") own-IsOwn own-Distinct
      (inr (inl param_run), tt) wasm_resolve_run output_run
