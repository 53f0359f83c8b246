-- ===== src/Toolset/Call.antt =====
-- toolset/validate.go: a call's parameters are checked and completed by the bindings of the tool.
use toolbox.Prelude.{
  Bool, true, false, [], ◌∷◌, if◌then◌else◌, any, Option, none, some, Result, ok, err, ◌>>=◌, ◌>>◌,
}
use toolbox.Prelude.Text.{Text, text_eq}
use toolbox.Prelude.Assoc.{Assoc, lookup, insert}
use toolbox.Packaging.Types.{ResolvedTool}
use toolbox.Toolset.Binding.{
  Cel, CompiledBinding, ResolvedToolset, ToolsetError, unknown_tool, check_error, check_not_bool,
  check_failed, value_error,
}

module _ {Program Value : Type 0} (cel : Cel Program Value) where
  open cel use {eval, as_bool}

  -- evalBinding
  unfoldable pub eval_binding :
      Text → Program → Assoc Value → Assoc Value → Result ToolsetError Value
  eval_binding param program params context = elim (eval program params context) [
    | none ↦ err (value_error param)
    | some value ↦ ok value
  ]

  -- What a check's verdict comes to.
  abbrev pub verdict : Text → Option Bool → Result ToolsetError (Unit {0})
  verdict param none = err (check_not_bool param)
  verdict param (some false) = err (check_failed param)
  verdict param (some true) = ok tt

  abbrev pub verdict_of : Text → Option Value → Result ToolsetError (Unit {0})
  verdict_of param none = err (check_error param)
  verdict_of param (some value) = verdict param (as_bool value)

  -- evalCheck, and what ValidateCall does with its result, if there is a check.
  unfoldable pub run_check :
      Text → Option Program → Assoc Value → Assoc Value → Result ToolsetError (Unit {0})
  run_check param none params context = ok tt
  run_check param (some program) params context = verdict_of param (eval program params context)

  -- The loop over the checks, all against the agent's parameters.
  unfoldable pub run_checks :
      Assoc (CompiledBinding Program) → Assoc Value → Assoc Value → Result ToolsetError (Unit {0})
  unfolding run_check
  run_checks [] params context = ok tt
  run_checks ((param, cb) ∷ bindings) params context =
      run_check param cb.check_program params context >> run_checks bindings params context

  -- The value of one binding, if it has one, goes into the full parameters.
  unfoldable pub inject_value :
      Text
      → Option Program
      → Assoc Value
      → Assoc Value
      → Assoc Value
      → Result ToolsetError (Assoc Value)
  unfolding eval_binding insert
  inject_value param none params context full = ok full
  inject_value param (some program) params context full = do
    value ← eval_binding param program params context
    ok (insert param value full)

  -- The loop over the values, evaluated at the agent's parameters.
  unfoldable pub inject_values :
      Assoc (CompiledBinding Program)
      → Assoc Value
      → Assoc Value
      → Assoc Value
      → Result ToolsetError (Assoc Value)
  unfolding inject_value
  inject_values [] params context full = ok full
  inject_values ((param, cb) ∷ bindings) params context full = do
    next ← inject_value param cb.value_program params context full
    inject_values bindings params context next

  abbrev pub bindings_or_none :
      Option (Assoc (CompiledBinding Program)) → Assoc (CompiledBinding Program)
  bindings_or_none none = []
  bindings_or_none (some bindings) = bindings

module _ {Sig Schema Files Program Value : Type 0} (cel : Cel Program Value)
    (r : ResolvedToolset (ResolvedTool Sig Schema Files) Program Value) where
  abbrev pub has_tool : Text → Bool
  has_tool name = any (λ tool. text_eq tool.name name) r.tools

  -- ResolvedToolset.ValidateCall. Without bindings both loops do nothing, and the agent's parameters are
  -- the full ones.
  unfoldable pub validate_call : Text → Assoc Value → Result ToolsetError (Assoc Value)
  unfolding run_checks inject_values lookup text_eq
  validate_call name params =
      if has_tool name
      then (do
        run_checks cel (bindings_or_none cel (lookup name r.bindings)) params r.context
        inject_values cel (bindings_or_none cel (lookup name r.bindings)) params r.context params)
      else err (unknown_tool name)
