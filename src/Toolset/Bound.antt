-- ===== src/Toolset/Bound.antt =====
-- toolset/: the bindings of a tool when it was resolved, as they are in a call of it.
use toolbox.Prelude.{
  ℕ, Bool, true, false, List, [], ◌∷◌, if◌then◌else◌, Option, none, some, ok, >>=-ok, ok_injective,
  some_injective, Bool-cases, ◌≡◌, ◌≢◌, ◌⊎◌, inl, inr, refl, ap, sym, ◌∙◌, subst,
}
use toolbox.Prelude.Text.{Text, text_eq, text_eq_iff, text_eq_refl}
use toolbox.Prelude.Assoc.{Assoc, lookup, remove, insert, lookup-remove, lookup-insert}
use toolbox.Packaging.Types.{ResourceParam}
use toolbox.Toolset.Binding.{
  ToolsetError, compiled_or, Binding, Cel, CompiledBinding, bad_value, bad_check, compile_binding,
  compile_bindings, with_resource, merge_resources,
}

-- A map in which every key stands once.
abbrev pub Distinct : {V : Type 0} → Assoc V → Type 0
Distinct [] = Unit
Distinct ((k, v) ∷ m) = (lookup k m ≡ none) × Distinct m

module _ {V : Type 0} where
  if_none : (b : Bool) (o : Option V) → o ≡ none → (if b then none else o) ≡ none
  if_none true o h = refl
  if_none false o h = h

  if_true : (b : Bool) (o : Option V) → b ≡ true → (if b then none else o) ≡ none
  if_true true o h = refl
  if_true false o h = cc

  remove-Distinct : (k : Text) (m : Assoc V) → Distinct m → Distinct (remove k m)
  unfolding remove
  remove-Distinct k [] h = tt
  remove-Distinct k ((j, v) ∷ m) h = elim (Bool-cases (text_eq j k)) [
    | inl same ↦ rw same (remove-Distinct k m h.1)
    | inr other ↦
        rw other
          (lookup-remove k j m ∙ if_none (text_eq k j) (lookup j m) h.0, remove-Distinct k m h.1)
  ]

  insert-Distinct : (k : Text) (v : V) (m : Assoc V) → Distinct m → Distinct (insert k v m)
  unfolding insert
  insert-Distinct k v m h = (
    lookup-remove k k m ∙ if_true (text_eq k k) (lookup k m) (text_eq_refl k),
    remove-Distinct k m h,
  )

-- The bindings that a tool has of its own stay, and no parameter gets two.
with_resource-Distinct :
    (param : Text) (own resource : Option Binding) (bindings : Assoc Binding)
    → Distinct bindings
    → Distinct (with_resource param own resource bindings)
with_resource-Distinct param (some own) resource bindings h = h
with_resource-Distinct param none none bindings h = h
with_resource-Distinct param none (some b) bindings h = insert-Distinct param b bindings h

pub merge_resources-Distinct :
    (resources : Assoc Binding) (params : List ResourceParam) (bindings : Assoc Binding)
    → Distinct bindings
    → Distinct (merge_resources resources params bindings)
unfolding merge_resources
merge_resources-Distinct resources [] bindings h = h
merge_resources-Distinct resources (rp ∷ params) bindings h =
    merge_resources-Distinct resources params
      (with_resource rp.name (lookup rp.name bindings) (lookup rp.binding_name resources) bindings)
      (with_resource-Distinct rp.name (lookup rp.name bindings) (lookup rp.binding_name resources)
        bindings h)

pub none≢some : {V : Type 0} {v : V} → ◌≡◌ {A = Option V} none (some v) → ⊥
none≢some h = cc

lookup-with_resource :
    (p param : Text) (b : Binding) (own resource : Option Binding) (bindings : Assoc Binding)
    → own ≡ lookup param bindings
    → lookup p bindings ≡ some b
    → lookup p (with_resource param own resource bindings) ≡ some b
lookup-with_resource p param b (some own) resource bindings ho h = h
lookup-with_resource p param b none none bindings ho h = h
lookup-with_resource p param b none (some r) bindings ho h = elim (Bool-cases (text_eq param p)) [
  | inl same ↦
      absurd (none≢some (ho ∙ ap (λ q. lookup q bindings) ((text_eq_iff param p).0 same) ∙ h))
  | inr other ↦ lookup-insert param p r bindings ∙ rw other h
]

lookup-merge_resources :
    (p : Text) (b : Binding) (resources : Assoc Binding) (params : List ResourceParam)
    (bindings : Assoc Binding)
    → lookup p bindings ≡ some b
    → lookup p (merge_resources resources params bindings) ≡ some b
unfolding merge_resources
lookup-merge_resources p b resources [] bindings h = h
lookup-merge_resources p b resources (rp ∷ params) bindings h =
    lookup-merge_resources p b resources params
      (with_resource rp.name (lookup rp.name bindings) (lookup rp.binding_name resources) bindings)
      (lookup-with_resource p rp.name b (lookup rp.name bindings) (lookup rp.binding_name resources)
        bindings refl h)

-- The first of a tool's resource parameters that has this name and for whose resource there is a binding
-- has this binding.
abbrev pub ByResource : Text → Binding → Assoc Binding → List ResourceParam → Type 0
ByResource p b resources [] = ⊥
ByResource p b resources (rp ∷ params) =
    ((rp.name ≡ p) × (lookup rp.binding_name resources ≡ some b))
    ⊎ (((rp.name ≢ p) ⊎ (lookup rp.binding_name resources ≡ none))
        × ByResource p b resources params)

-- The binding that the configuration has for a parameter: the tool's own, or else that of a resource.
abbrev pub IsConfigured :
    Text → Binding → Assoc Binding → Assoc Binding → List ResourceParam → Type 0
IsConfigured p b own resources params =
    (lookup p own ≡ some b) ⊎ ((lookup p own ≡ none) × ByResource p b resources params)

absent-with_resource :
    (p param : Text) (own resource : Option Binding) (bindings : Assoc Binding)
    → (param ≢ p) ⊎ (resource ≡ none)
    → lookup p bindings ≡ none
    → lookup p (with_resource param own resource bindings) ≡ none
absent-with_resource p param (some own) resource bindings other h = h
absent-with_resource p param none none bindings other h = h
absent-with_resource p param none (some r) bindings (inr missing) h = cc
absent-with_resource p param none (some r) bindings (inl apart) h =
    elim (Bool-cases (text_eq param p)) [
      | inl same ↦ absurd (apart ((text_eq_iff param p).0 same))
      | inr other ↦ lookup-insert param p r bindings ∙ rw other h
    ]

taken-with_resource :
    (p : Text) (b : Binding) (own resource : Option Binding) (bindings : Assoc Binding)
    → own ≡ none
    → resource ≡ some b
    → lookup p (with_resource p own resource bindings) ≡ some b
taken-with_resource p b (some own) resource bindings h has = cc
taken-with_resource p b none none bindings h has = cc
taken-with_resource p b none (some r) bindings h has =
    lookup-insert p p r bindings ∙ rw (text_eq_refl p) has

merge_resources-ByResource :
    (p : Text) (b : Binding) (resources : Assoc Binding) (params : List ResourceParam)
    (bindings : Assoc Binding)
    → lookup p bindings ≡ none
    → ByResource p b resources params
    → lookup p (merge_resources resources params bindings) ≡ some b
unfolding merge_resources
merge_resources-ByResource p b resources [] bindings h by = absurd by
merge_resources-ByResource p b resources (rp ∷ params) bindings h (inl (same, has)) =
    let next =
      with_resource rp.name (lookup rp.name bindings) (lookup rp.binding_name resources) bindings in
    lookup-merge_resources p b resources params next (
      subst (λ q. lookup q next ≡ some b) same
        (taken-with_resource rp.name b (lookup rp.name bindings) (lookup rp.binding_name resources)
          bindings (ap (λ q. lookup q bindings) same ∙ h) has))
merge_resources-ByResource p b resources (rp ∷ params) bindings h (inr (other, by)) =
    merge_resources-ByResource p b resources params
      (with_resource rp.name (lookup rp.name bindings) (lookup rp.binding_name resources) bindings)
      (absent-with_resource p rp.name (lookup rp.name bindings) (lookup rp.binding_name resources)
        bindings other h)
      by

pub merge_resources-IsConfigured :
    (p : Text) (b : Binding) (own resources : Assoc Binding) (params : List ResourceParam)
    → IsConfigured p b own resources params
    → lookup p (merge_resources resources params own) ≡ some b
merge_resources-IsConfigured p b own resources params (inl has) =
    lookup-merge_resources p b resources params own has
merge_resources-IsConfigured p b own resources params (inr (missing, by)) =
    merge_resources-ByResource p b resources params own missing by

module _ {Program Value : Type 0} (cel : Cel Program Value) where
  -- The program of an expression; an empty one has none.
  abbrev pub Compiles : Text → Option Program → Type 0
  Compiles expr o =
      ((expr ≡ []) × (o ≡ none))
      ⊎ ((program : Program) × (expr ≢ []) × (cel.compile expr ≡ some program) × (o ≡ some program))

  -- A compiled binding has the programs of a binding.
  pub record IsCompiled (b : Binding) (cb : CompiledBinding Program) : Type 0 where
    pub values : Compiles b.value cb.value_program
    pub checks : Compiles b.check cb.check_program

  compiled_or-Compiles :
      (e : ToolsetError) (c : ℕ) (expr : Text) (made o : Option Program)
      → cel.compile (c ∷ expr) ≡ made
      → compiled_or cel e made ≡ ok o
      → Compiles (c ∷ expr) o
  compiled_or-Compiles e c expr none o hm h = cc
  compiled_or-Compiles e c expr (some program) o hm h =
      inr (program, (λ none_left. cc), hm, sym (ok_injective h))

  compile_binding-Compiles :
      (e : ToolsetError) (expr : Text) (o : Option Program)
      → compile_binding cel e expr ≡ ok o
      → Compiles expr o
  unfolding compile_binding
  compile_binding-Compiles e [] o h = inl (refl, sym (ok_injective h))
  compile_binding-Compiles e (c ∷ expr) o h =
      compiled_or-Compiles e c expr (cel.compile (c ∷ expr)) o refl h

  pub compile_bindings-some :
      (bindings : Assoc Binding) (compiled : Assoc (CompiledBinding Program)) (p : Text)
      (b : Binding)
      → compile_bindings cel bindings ≡ ok compiled
      → lookup p bindings ≡ some b
      → (cb : CompiledBinding Program) × (lookup p compiled ≡ some cb) × IsCompiled b cb
  unfolding compile_bindings lookup
  compile_bindings-some [] compiled p b h hb = cc
  compile_bindings-some ((q, c) ∷ bindings) compiled p b h hb =
      let (vp, ev, h1) = >>=-ok (compile_binding cel (bad_value q) c.value) _ h in
      let (cp, ec, h2) = >>=-ok (compile_binding cel (bad_check q) c.check) _ h1 in
      let (rest, er, h3) = >>=-ok (compile_bindings cel bindings) _ h2 in
      let cb : CompiledBinding Program = record {
        binding = c;
        value_program = vp;
        check_program = cp;
      } in
      elim (Bool-cases (text_eq q p)) [
        | inl same ↦ (
          cb,
          subst (λ m. lookup p m ≡ some cb) (ok_injective h3) (rw same),
          subst (λ b'. IsCompiled b' cb) (some_injective (rw same at hb))
              (record {
                values = compile_binding-Compiles (bad_value q) c.value vp ev;
                checks = compile_binding-Compiles (bad_check q) c.check cp ec;
              }),
        )
        | inr other ↦
            let (found, ef, i) = compile_bindings-some bindings rest p b er (rw other at hb) in
            (found, subst (λ m. lookup p m ≡ some found) (ok_injective h3) (rw other ef), i)
      ]

  compile_bindings-none :
      (bindings : Assoc Binding) (compiled : Assoc (CompiledBinding Program)) (p : Text)
      → compile_bindings cel bindings ≡ ok compiled
      → lookup p bindings ≡ none
      → lookup p compiled ≡ none
  unfolding compile_bindings lookup
  compile_bindings-none [] compiled p h hb = ap (lookup p) (sym (ok_injective h))
  compile_bindings-none ((q, c) ∷ bindings) compiled p h hb =
      let (vp, ev, h1) = >>=-ok (compile_binding cel (bad_value q) c.value) _ h in
      let (cp, ec, h2) = >>=-ok (compile_binding cel (bad_check q) c.check) _ h1 in
      let (rest, er, h3) = >>=-ok (compile_bindings cel bindings) _ h2 in
      elim (Bool-cases (text_eq q p)) [
        | inl same ↦ absurd (none≢some (sym (rw same at hb)))
        | inr other ↦
            subst (λ m. lookup p m ≡ none) (ok_injective h3)
              (rw other (compile_bindings-none bindings rest p er (rw other at hb)))
      ]

  pub compile_bindings-Distinct :
      (bindings : Assoc Binding) (compiled : Assoc (CompiledBinding Program))
      → compile_bindings cel bindings ≡ ok compiled
      → Distinct bindings
      → Distinct compiled
  unfolding compile_bindings
  compile_bindings-Distinct [] compiled h d = subst Distinct (ok_injective h) tt
  compile_bindings-Distinct ((q, c) ∷ bindings) compiled h d =
      let (vp, ev, h1) = >>=-ok (compile_binding cel (bad_value q) c.value) _ h in
      let (cp, ec, h2) = >>=-ok (compile_binding cel (bad_check q) c.check) _ h1 in
      let (rest, er, h3) = >>=-ok (compile_bindings cel bindings) _ h2 in
      subst Distinct (ok_injective h3) (
        compile_bindings-none bindings rest q er d.0,
        compile_bindings-Distinct bindings rest er d.1,
      )
