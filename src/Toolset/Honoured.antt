-- ===== src/Toolset/Honoured.antt =====
-- toolset/: from the configuration of a toolset to a call that is let through.
use toolbox.Prelude.{
  refl, ◌++◌, true, false, List, [], ◌∷◌, any, some, Result, ok, err, >>=-ok, ok_injective,
  Bool-cases, ◌≡◌, ◌≢◌, All, ◌⊎◌, inl, inr, ap, sym, ◌∙◌, subst,
}
use toolbox.Prelude.Text.{Text, text_eq, text_eq_iff, text_eq_refl}
use toolbox.Prelude.Assoc.{Assoc, lookup, insert, lookup-insert}
use toolbox.Packaging.Types.{ResourceParam, ResolvedTool}
use toolbox.Toolset.Binding.{
  BoundTool, Binding, Cel, CompiledBinding, Compiled, Config, ResolvedToolset, ToolsetError,
  resolved, or_none, wrap_error, merge_resources, tool_bindings, compile_bindings,
  compile_tool_bindings, compile_tools, resolve_tools,
}
use toolbox.Toolset.Call.{bindings_or_none, run_checks, inject_values, validate_call, has_tool}
use toolbox.Toolset.Bound.{
  Distinct, none≢some, IsCompiled, compile_bindings-some, compile_bindings-Distinct,
  merge_resources-Distinct, IsConfigured, merge_resources-IsConfigured,
}
use toolbox.Toolset.Injected.{Passes, Fills, run_checks-Passes, inject_values-Fills}

nothing : {V : Type 0} (k : Text) {v : V} → lookup k [] ≡ some v → ⊥
unfolding lookup
nothing k h = none≢some h

wrap_error-ok :
    {A : Type 0} (name : Text) (r : Result ToolsetError A) (a : A)
    → wrap_error name r ≡ ok a
    → r ≡ ok a
wrap_error-ok name (ok x) a h = ap ok (ok_injective h)
wrap_error-ok name (err e) a h = cc

module _ {Program Value : Type 0} (cel : Cel Program Value) (name p : Text) (b : Binding) where
  -- The tool has compiled bindings, with the one of the parameter among them.
  record Holds (compiled : Assoc (Assoc (CompiledBinding Program))) : Type 0 where
    bindings : Assoc (CompiledBinding Program)
    cb : CompiledBinding Program
    has_bindings : lookup name compiled ≡ some bindings
    distinct : Distinct bindings
    has_param : lookup p bindings ≡ some cb
    is_compiled : IsCompiled cel b cb

  Holds-lookup :
      (c d : Assoc (Assoc (CompiledBinding Program)))
      → lookup name d ≡ lookup name c
      → Holds c
      → Holds d
  Holds-lookup c d same h = record {
    bindings = h.bindings;
    cb = h.cb;
    has_bindings = same ∙ h.has_bindings;
    distinct = h.distinct;
    has_param = h.has_param;
    is_compiled = h.is_compiled;
  }

  compile_tool_bindings-other :
      (other : Text) (bindings : Assoc Binding) (so_far next : Compiled Program)
      → compile_tool_bindings cel other bindings so_far ≡ ok next
      → text_eq other name ≡ false
      → lookup name next.0 ≡ lookup name so_far.0
  unfolding compile_tool_bindings
  compile_tool_bindings-other other [] so_far next h apart =
      ap (λ c. lookup name c.0) (sym (ok_injective h))
  compile_tool_bindings-other other (x ∷ bindings) (cs, hs) next h apart =
      let (compiled, e, h1) = >>=-ok (wrap_error other (compile_bindings cel (x ∷ bindings))) _ h in
      ap (λ c. lookup name c.0) (sym (ok_injective h1))
      ∙ lookup-insert other name compiled cs
      ∙ rw apart

  compile_tool_bindings-Holds :
      (bindings : Assoc Binding) (so_far next : Compiled Program)
      → compile_tool_bindings cel name bindings so_far ≡ ok next
      → Distinct bindings
      → lookup p bindings ≡ some b
      → Holds next.0
  unfolding compile_tool_bindings
  compile_tool_bindings-Holds [] so_far next h d hb = absurd (nothing p hb)
  compile_tool_bindings-Holds (x ∷ bindings) (cs, hs) next h d hb =
      let (compiled, e, h1) = >>=-ok (wrap_error name (compile_bindings cel (x ∷ bindings))) _ h in
      let ec = wrap_error-ok name (compile_bindings cel (x ∷ bindings)) compiled e in
      let (cb, has, i) = compile_bindings-some cel (x ∷ bindings) compiled p b ec hb in
      subst (λ c. Holds c.0) (ok_injective h1)
        (record {
          bindings = compiled;
          cb = cb;
          has_bindings = lookup-insert name name compiled cs ∙ rw (text_eq_refl name);
          distinct = compile_bindings-Distinct cel (x ∷ bindings) compiled ec d;
          has_param = has;
          is_compiled = i;
        })

-- The bindings that a list of the configuration has for a tool: those of the last entry for it, or none.
abbrev pub IsOwn : Text → List BoundTool → Assoc Binding → Type 0
IsOwn name tools own =
    (All (λ t. t.tool_ref ≢ name) tools × (own ≡ []))
    ⊎ ((before : List BoundTool) × (bound : BoundTool) × (after : List BoundTool) × (tools
          ≡ before ++ bound ∷ after)
        × (bound.tool_ref ≡ name)
        × All (λ t. t.tool_ref ≢ name) after
        × (own ≡ bound.bindings))

tool_bindings-other :
    (name : Text) (tools : List BoundTool) (m : Assoc (Assoc Binding))
    → All (λ t. t.tool_ref ≢ name) tools
    → lookup name (tool_bindings tools m) ≡ lookup name m
unfolding tool_bindings
tool_bindings-other name [] m h = refl
tool_bindings-other name (bound ∷ tools) m h =
    tool_bindings-other name tools (insert bound.tool_ref bound.bindings m) h.1
    ∙ lookup-insert bound.tool_ref name bound.bindings m
    ∙ (elim (Bool-cases (text_eq bound.tool_ref name)) [
      | inl same ↦ absurd (h.0 ((text_eq_iff bound.tool_ref name).0 same))
      | inr other ↦ rw other refl
    ])

tool_bindings-last :
    (name : Text) (before : List BoundTool) (bound : BoundTool) (after : List BoundTool)
    (m : Assoc (Assoc Binding))
    → bound.tool_ref ≡ name
    → All (λ t. t.tool_ref ≢ name) after
    → lookup name (tool_bindings (before ++ bound ∷ after) m) ≡ some bound.bindings
unfolding tool_bindings
tool_bindings-last name [] bound after m same h =
    tool_bindings-other name after (insert bound.tool_ref bound.bindings m) h
    ∙ lookup-insert bound.tool_ref name bound.bindings m
    ∙ rw ((text_eq_iff bound.tool_ref name).1 same) refl
tool_bindings-last name (b ∷ before) bound after m same h =
    tool_bindings-last name before bound after (insert b.tool_ref b.bindings m) same h

own_bindings :
    (name : Text) (tools : List BoundTool) (own : Assoc Binding)
    → IsOwn name tools own
    → or_none (lookup name (tool_bindings tools [])) ≡ own
unfolding lookup
own_bindings name tools own (inl (others, no_entry)) =
    ap or_none (tool_bindings-other name tools [] others) ∙ sym no_entry
own_bindings name tools own (inr (before, bound, after, split, same, others, is_own)) =
    ap (λ l. or_none (lookup name (tool_bindings l []))) split
    ∙ ap or_none (tool_bindings-last name before bound after [] same others)
    ∙ sym is_own

-- Every tool with the name has the binding for the parameter in the configuration.
abbrev pub AllConfigured :
    {Sig Schema Files : Type 0}
    → Text
    → Text
    → Binding
    → Assoc Binding
    → Assoc Binding
    → List (ResolvedTool Sig Schema Files)
    → Type 0
AllConfigured name p b own resources =
    All (λ t. (t.name ≢ name) ⊎ IsConfigured p b own resources t.resource_params)

module _ {Program Value : Type 0} (cel : Cel Program Value) (name p : Text) (b : Binding)
    (by_tool : Assoc (Assoc Binding)) (resources own : Assoc Binding)
    (has_own : or_none (lookup name by_tool) ≡ own) (distinct : Distinct own) where
  named-Holds :
      (tool : Text) (params : List ResourceParam) (so_far next : Compiled Program)
      → compile_tool_bindings cel tool
          (merge_resources resources params (or_none (lookup tool by_tool)))
          so_far
        ≡ ok next
      → tool ≡ name
      → IsConfigured p b own resources params
      → Holds cel name p b next.0
  named-Holds tool params so_far next h same configured =
      compile_tool_bindings-Holds cel name p b (merge_resources resources params own) so_far next
        (subst
          (λ o.
            compile_tool_bindings cel name (merge_resources resources params o) so_far ≡ ok next)
          has_own
          (subst
            (λ n.
              compile_tool_bindings cel n
                (merge_resources resources params (or_none (lookup n by_tool))) so_far
              ≡ ok next)
            same h))
        (merge_resources-Distinct resources params own distinct)
        (merge_resources-IsConfigured p b own resources params configured)

  IsConfigured-as :
      (tool : Text) (params : List ResourceParam)
      → tool ≡ name
      → (tool ≢ name) ⊎ IsConfigured p b own resources params
      → IsConfigured p b own resources params
  IsConfigured-as tool params same (inl other) = absurd (other same)
  IsConfigured-as tool params same (inr configured) = configured

  compile_tools-Holds :
      {Sig Schema Files : Type 0} (tools : List (ResolvedTool Sig Schema Files))
      (so_far last : Compiled Program)
      → compile_tools cel by_tool resources tools so_far ≡ ok last
      → AllConfigured name p b own resources tools
      → (any (λ t. text_eq t.name name) tools ≡ true) ⊎ Holds cel name p b so_far.0
      → Holds cel name p b last.0
  unfolding compile_tools
  compile_tools-Holds [] so_far last h configured (inl found) = cc
  compile_tools-Holds [] so_far last h configured (inr held) =
      subst (λ c. Holds cel name p b c.0) (ok_injective h) held
  compile_tools-Holds (tool ∷ tools) so_far last h (this, configured) before =
      let merged =
        merge_resources resources tool.resource_params (or_none (lookup tool.name by_tool)) in
      let (next, step, h1) = >>=-ok (compile_tool_bindings cel tool.name merged so_far) _ h in
      compile_tools-Holds tools next last h1 configured
        (elim (Bool-cases (text_eq tool.name name)) [
          | inl same ↦
              let is_named = (text_eq_iff tool.name name).0 same in
              inr (
                named-Holds tool.name tool.resource_params so_far next step is_named
                  (IsConfigured-as tool.name tool.resource_params is_named this))
          | inr other ↦ elim before [
            | inl found ↦ inl (rw other at found)
            | inr held ↦ inr (
                Holds-lookup cel name p b so_far.0 next.0
                  (compile_tool_bindings-other cel name p b tool.name merged so_far next step other)
                  held)
          ]
        ])

module _ {Sig Schema Files Program Value : Type 0} (cel : Cel Program Value)
    (r : ResolvedToolset (ResolvedTool Sig Schema Files) Program Value) (name : Text)
    (params full : Assoc Value) where
  validate_call-ok :
      validate_call cel r name params ≡ ok full
      → (has_tool cel r name ≡ true)
        × (run_checks cel (bindings_or_none cel (lookup name r.bindings)) params r.context ≡ ok tt)
        × (inject_values cel (bindings_or_none cel (lookup name r.bindings)) params r.context params
            ≡ ok full)
  unfolding validate_call
  validate_call-ok h = elim (Bool-cases (has_tool cel r name)) [
    | inl known ↦
        let (_, checked, injected) =
          >>=-ok (run_checks cel (bindings_or_none cel (lookup name r.bindings)) params r.context) _
            (rw known at h) in
        (known, checked, injected)
    | inr other ↦ absurd (cc (rw other at h))
  ]

  called-Fills :
      (p : Text) (b : Binding)
      → validate_call cel r name params ≡ ok full
      → Holds cel name p b r.bindings
      → (cb : CompiledBinding Program) × IsCompiled cel b cb
        × Passes cel params r.context cb.check_program
        × Fills cel params r.context cb.value_program (lookup p params) (lookup p full)
  called-Fills p b h held =
      let (_, checked, injected) = validate_call-ok h in
      let same = ap (bindings_or_none cel) held.has_bindings in
      (
        held.cb,
        held.is_compiled,
        run_checks-Passes cel params r.context held.bindings p held.cb tt
            (subst (λ bs. run_checks cel bs params r.context ≡ ok tt) same checked) held.has_param,
        inject_values-Fills cel params r.context held.bindings p held.cb params full
            (subst (λ bs. inject_values cel bs params r.context params ≡ ok full) same injected)
            held.distinct held.has_param,
      )

module _ {Sig Schema Files Program Value : Type 0} (cel : Cel Program Value)
    (tools : List (ResolvedTool Sig Schema Files)) (cfg : Config Value) (name p : Text)
    (b : Binding) (own : Assoc Binding) where
  resolve_tools-ok :
      (r : ResolvedToolset (ResolvedTool Sig Schema Files) Program Value)
      → resolve_tools cel tools cfg ≡ ok r
      → (c : Compiled Program) × (compile_tools cel
            (tool_bindings cfg.tools [])
            cfg.resource_bindings
            tools
            ([], [])
          ≡ ok c)
        × (resolved cel tools cfg c ≡ r)
  unfolding resolve_tools
  resolve_tools-ok r h = elim (Bool-cases cel.env_made) [
    | inl made ↦
        let (c, e, h1) =
          >>=-ok
            (compile_tools cel (tool_bindings cfg.tools []) cfg.resource_bindings tools ([], [])) _
            (rw made at h) in
        (c, e, ok_injective h1)
    | inr failed ↦ absurd (cc (rw failed at h))
  ]

  pub resolve_tools-tools :
      (r : ResolvedToolset (ResolvedTool Sig Schema Files) Program Value)
      → resolve_tools cel tools cfg ≡ ok r
      → r.tools ≡ tools
  resolve_tools-tools r h = let (_, _, same) = resolve_tools-ok r h in ap (λ q. q.tools) (sym same)

  -- In a call that is let through, the binding that the configuration has for a parameter of the tool
  -- is honoured, be it one of the tool's own or, where it has none of its own for the parameter, that of
  -- a resource which the parameter stands for: its check has given true at the agent's parameters, and
  -- the parameter has the value of the binding at the agent's parameters, or the agent's value if the
  -- binding has no value. If several tools have the name, this is the binding of each of them.
  pub validate_call-resolve_tools :
      (r : ResolvedToolset (ResolvedTool Sig Schema Files) Program Value)
      (params full : Assoc Value)
      → IsOwn name cfg.tools own
      → Distinct own
      → AllConfigured name p b own cfg.resource_bindings tools
      → resolve_tools cel tools cfg ≡ ok r
      → validate_call cel r name params ≡ ok full
      → (cb : CompiledBinding Program) × IsCompiled cel b cb
        × Passes cel params cfg.context cb.check_program
        × Fills cel params cfg.context cb.value_program (lookup p params) (lookup p full)
  validate_call-resolve_tools r params full has_own distinct configured h called =
      let (c, e, same) = resolve_tools-ok r h in
      let (known, _, _) = validate_call-ok cel r name params full called in
      let held =
        compile_tools-Holds cel name p b (tool_bindings cfg.tools []) cfg.resource_bindings own
          (own_bindings name cfg.tools own has_own) distinct tools ([], []) c e configured
          (inl (subst (λ q. has_tool cel q name ≡ true) (sym same) known)) in
      subst
        (λ context.
          (cb : CompiledBinding Program) × IsCompiled cel b cb
          × Passes cel params context cb.check_program
          × Fills cel params context cb.value_program (lookup p params) (lookup p full))
        (sym (ap (λ q. q.context) same))
        (called-Fills cel r name params full p b called
          (subst (λ q. Holds cel name p b q.bindings) same held))
