-- ===== src/Toolset/Injected.antt =====
-- toolset/validate.go: what the two loops of ValidateCall have done when they succeed.
use toolbox.Prelude.{
  Bool, true, false, [], ◌∷◌, Option, none, some, Result, ok, err, >>=-ok, ok_injective,
  some_injective, Bool-cases, ◌≡◌, inl, inr, refl, ap, sym, ◌∙◌, subst,
}
use toolbox.Prelude.Text.{Text, text_eq, text_eq_iff, text_eq_refl}
use toolbox.Prelude.Assoc.{Assoc, lookup, lookup-insert}
use toolbox.Toolset.Binding.{Cel, CompiledBinding, ToolsetError, value_error}
use toolbox.Toolset.Call.{
  eval_binding, verdict, verdict_of, run_check, run_checks, inject_value, inject_values,
}
use toolbox.Toolset.Bound.{Distinct, none≢some}

module _ {Program Value : Type 0} (cel : Cel Program Value) (params context : Assoc Value) where
  open cel use {eval, as_bool}

  -- A check gives the Boolean true.
  pub Passes : Option Program → Type 0
  Passes none = Unit
  Passes (some program) =
      (v : Value) × (eval program params context ≡ some v) × (as_bool v ≡ some true)

  -- A parameter has the value of its binding, or the agent's if the binding has no value.
  pub Fills : Option Program → Option Value → Option Value → Type 0
  Fills none own o = o ≡ own
  Fills (some program) own o = (v : Value) × (eval program params context ≡ some v) × (o ≡ some v)

  verdict-ok : (p : Text) (o : Option Bool) (u : Unit {0}) → verdict cel p o ≡ ok u → o ≡ some true
  verdict-ok p none u h = cc
  verdict-ok p (some false) u h = cc
  verdict-ok p (some true) u h = refl

  verdict_of-ok :
      (p : Text) (o : Option Value) (u : Unit {0})
      → verdict_of cel p o ≡ ok u
      → (v : Value) × (o ≡ some v) × (as_bool v ≡ some true)
  verdict_of-ok p none u h = cc
  verdict_of-ok p (some v) u h = (v, refl, verdict-ok p (as_bool v) u h)

  run_check-Passes :
      (p : Text) (check : Option Program) (u : Unit {0})
      → run_check cel p check params context ≡ ok u
      → Passes check
  unfolding run_check Passes
  run_check-Passes p none u h = tt
  run_check-Passes p (some program) u h = verdict_of-ok p (eval program params context) u h

  pub run_checks-Passes :
      (bindings : Assoc (CompiledBinding Program)) (p : Text) (cb : CompiledBinding Program)
      (u : Unit {0})
      → run_checks cel bindings params context ≡ ok u
      → lookup p bindings ≡ some cb
      → Passes cb.check_program
  unfolding run_checks lookup
  run_checks-Passes [] p cb u h hb = cc
  run_checks-Passes ((q, c) ∷ bindings) p cb u h hb =
      let (v, now, later) = >>=-ok (run_check cel q c.check_program params context) _ h in
      elim (Bool-cases (text_eq q p)) [
        | inl same ↦
            subst (λ b. Passes b.check_program) (some_injective (rw same at hb))
              (run_check-Passes q c.check_program v now)
        | inr other ↦ run_checks-Passes bindings p cb u later (rw other at hb)
      ]

  inject_value-other :
      (q p : Text) (program : Option Program) (full next : Assoc Value)
      → inject_value cel q program params context full ≡ ok next
      → text_eq q p ≡ false
      → lookup p next ≡ lookup p full
  unfolding inject_value
  inject_value-other q p none full next h other = ap (lookup p) (sym (ok_injective h))
  inject_value-other q p (some program) full next h other =
      let (v, e, h1) = >>=-ok (eval_binding cel q program params context) _ h in
      ap (lookup p) (sym (ok_injective h1)) ∙ lookup-insert q p v full ∙ rw other

  valued-ok :
      (p : Text) (o : Option Value) (v : Value)
      → ◌≡◌ {A = Result ToolsetError Value}
          (elim o [ none ↦ err (value_error p) | some x ↦ ok x ])
          (ok v)
      → o ≡ some v
  valued-ok p none v h = cc
  valued-ok p (some x) v h = ap some (ok_injective h)

  eval_binding-ok :
      (p : Text) (program : Program) (v : Value)
      → eval_binding cel p program params context ≡ ok v
      → eval program params context ≡ some v
  unfolding eval_binding
  eval_binding-ok p program v h = valued-ok p (eval program params context) v h

  inject_value-Fills :
      (p : Text) (program : Option Program) (full next : Assoc Value)
      → inject_value cel p program params context full ≡ ok next
      → Fills program (lookup p full) (lookup p next)
  unfolding inject_value Fills
  inject_value-Fills p none full next h = ap (lookup p) (sym (ok_injective h))
  inject_value-Fills p (some program) full next h =
      let (v, e, h1) = >>=-ok (eval_binding cel p program params context) _ h in
      (
        v,
        eval_binding-ok p program v e,
        ap (lookup p) (sym (ok_injective h1)) ∙ lookup-insert p p v full ∙ rw (text_eq_refl p),
      )

  inject_values-other :
      (bindings : Assoc (CompiledBinding Program)) (p : Text) (full out : Assoc Value)
      → inject_values cel bindings params context full ≡ ok out
      → lookup p bindings ≡ none
      → lookup p out ≡ lookup p full
  unfolding inject_values lookup
  inject_values-other [] p full out h absent = ap (lookup p) (sym (ok_injective h))
  inject_values-other ((q, c) ∷ bindings) p full out h absent =
      let (next, now, later) =
        >>=-ok (inject_value cel q c.value_program params context full) _ h in
      elim (Bool-cases (text_eq q p)) [
        | inl same ↦ absurd (none≢some (sym (rw same at absent)))
        | inr other ↦
            inject_values-other bindings p next out later (rw other at absent)
            ∙ inject_value-other q p c.value_program full next now other
      ]

  pub inject_values-Fills :
      (bindings : Assoc (CompiledBinding Program)) (p : Text) (cb : CompiledBinding Program)
      (full out : Assoc Value)
      → inject_values cel bindings params context full ≡ ok out
      → Distinct bindings
      → lookup p bindings ≡ some cb
      → Fills cb.value_program (lookup p full) (lookup p out)
  unfolding inject_values lookup
  inject_values-Fills [] p cb full out h d hb = cc
  inject_values-Fills ((q, c) ∷ bindings) p cb full out h d hb =
      let (next, now, later) =
        >>=-ok (inject_value cel q c.value_program params context full) _ h in
      elim (Bool-cases (text_eq q p)) [
        | inl same ↦
            subst (λ b. Fills b.value_program (lookup p full) (lookup p out))
              (some_injective (rw same at hb))
              (subst (λ k. Fills c.value_program (lookup k full) (lookup k out))
                ((text_eq_iff q p).0 same)
                (subst (Fills c.value_program (lookup q full))
                  (sym (inject_values-other bindings q next out later d.0))
                  (inject_value-Fills q c.value_program full next now)))
        | inr other ↦
            subst (λ o. Fills cb.value_program o (lookup p out))
              (inject_value-other q p c.value_program full next now other)
              (inject_values-Fills bindings p cb next out later d.1 (rw other at hb))
      ]
