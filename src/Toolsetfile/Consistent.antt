-- ===== src/Toolsetfile/Consistent.antt =====
-- toolsetfile/toolset_file.go: what validation and a change of version leave.
use toolbox.Prelude.{
  ℕ, ◌+◌, List, [], ◌∷◌, if◌then◌else◌, map, All, Option, none, some, Result, ok, err, ok_injective,
  Bool-cases, inl, inr, ◌≡◌, refl, ap, sym, ◌∙◌, subst,
}
use toolbox.Prelude.Text.{Text, text_eq, text_eq_iff}
use toolbox.Prelude.Assoc.{Assoc, lookup, insert, lookup-insert}
use toolbox.Tool.Fqn.{ParseError, ToolFqn, parse_tool_fqn}
use toolbox.Toolsetfile.File.{
  ToolEntry, ToolsetFile, FileError, check_version, check_parsed, after_tool, validate_tools,
  validated, validate_parsed, validate_file, parse_packages, sort_keys, keys_of, set_tool_version,
  set_declared, set_package_version,
}

-- A tool's text parses to its parts, and its module is declared with its version.
pub record Agrees (parsed : Assoc Text) (entry : ToolEntry) : Type 0 where
  pub parses : parse_tool_fqn entry.tool ≡ ok entry.parsed
  pub declared : lookup entry.parsed.module_path parsed ≡ some entry.parsed.version

-- The packages were parsed, and every tool agrees with them.
pub record Consistent (f : ToolsetFile) : Type 0 where
  pub parsed : Assoc Text
  pub packages_parsed : parse_packages f.packages (sort_keys (keys_of f.packages)) [] ≡ ok parsed
  pub is_parsed : f.parsed_packages ≡ some parsed
  pub agree : All (Agrees parsed) f.tools

check_version-ok :
    (i : ℕ) (fqn got : ToolFqn) (declared : Option Text)
    → check_version i fqn declared ≡ ok got
    → (fqn ≡ got) × (declared ≡ some fqn.version)
check_version-ok i fqn got none h = cc
check_version-ok i fqn got (some v) h = elim (Bool-cases (text_eq fqn.version v)) [
  | inl same ↦ (ok_injective (rw same at h), ap some (sym ((text_eq_iff fqn.version v).0 same)))
  | inr other ↦ absurd (cc (rw other at h))
]

check_parsed-Agrees :
    (i : ℕ) (parsed : Assoc Text) (entry : ToolEntry) (r : Result ParseError ToolFqn)
    (fqn : ToolFqn)
    → parse_tool_fqn entry.tool ≡ r
    → check_parsed i parsed r ≡ ok fqn
    → Agrees parsed (record entry { parsed = fqn })
check_parsed-Agrees i parsed entry (err e) fqn hr h = cc
check_parsed-Agrees i parsed entry (ok got) fqn hr h =
    let (same, declared) = check_version-ok i got fqn (lookup got.module_path parsed) h in
    subst (λ q. Agrees parsed (record entry { parsed = q })) same
      (record { parses = hr; declared = declared })

after_tool-ok :
    (entry : ToolEntry) (entries es : List ToolEntry) (r : Result FileError ToolFqn)
    (later : List ToolEntry × Result FileError (Unit {0}))
    → after_tool entry entries r later ≡ (es, ok tt)
    → (fqn : ToolFqn) × (r ≡ ok fqn)
      × (later ≡ (later.0, ok tt))
      × (record entry { parsed = fqn } ∷ later.0 ≡ es)
after_tool-ok entry entries es (err e) later h = absurd (cc (ap (λ p. p.1) h))
after_tool-ok entry entries es (ok fqn) (later, r) h =
    (fqn, refl, ap (λ x. (later, x)) (ap (λ p. p.1) h), ap (λ p. p.0) h)

validate_tools-Agrees :
    (i : ℕ) (parsed : Assoc Text) (entries es : List ToolEntry)
    → validate_tools i parsed entries ≡ (es, ok tt)
    → All (Agrees parsed) es × (map (λ e. e.tool) es ≡ map (λ e. e.tool) entries)
unfolding validate_tools
validate_tools-Agrees i parsed [] es h =
    subst (λ l. All (Agrees parsed) l × (map (λ e. e.tool) l ≡ [])) (ap (λ p. p.0) h) (tt, refl)
validate_tools-Agrees i parsed (entry ∷ entries) es h =
    let (fqn, checked, later, made) =
      after_tool-ok entry entries es (check_parsed i parsed (parse_tool_fqn entry.tool))
        (validate_tools (i + 1) parsed entries) h in
    let (agree, same) =
      validate_tools-Agrees (i + 1) parsed entries (validate_tools (i + 1) parsed entries).0
        later in
    subst
      (λ l. All (Agrees parsed) l × (map (λ e. e.tool) l ≡ entry.tool ∷ map (λ e. e.tool) entries))
      made
      (
        (check_parsed-Agrees i parsed entry (parse_tool_fqn entry.tool) fqn refl checked, agree),
        ap (λ l. entry.tool ∷ l) same,
      )

validated-ok :
    (f g : ToolsetFile) (parsed : Assoc Text) (r : List ToolEntry × Result FileError (Unit {0}))
    → validated f parsed r ≡ (g, ok tt)
    → (r ≡ (r.0, ok tt)) × (record f { tools = r.0; parsed_packages = some parsed } ≡ g)
validated-ok f g parsed (tools, ok u) h = (refl, ap (λ p. p.0) h)
validated-ok f g parsed (tools, err e) h = absurd (cc (ap (λ p. p.1) h))

validate_parsed-Consistent :
    (f g : ToolsetFile) (r : Result FileError (Assoc Text))
    → parse_packages f.packages (sort_keys (keys_of f.packages)) [] ≡ r
    → validate_parsed f r ≡ (g, ok tt)
    → Consistent g
      × (g.packages ≡ f.packages)
      × (map (λ e. e.tool) g.tools ≡ map (λ e. e.tool) f.tools)
validate_parsed-Consistent f g (err e) hr h = absurd (cc (ap (λ p. p.1) h))
validate_parsed-Consistent f g (ok parsed) hr h =
    let (fine, made) = validated-ok f g parsed (validate_tools 0 parsed f.tools) h in
    let (agree, same) =
      validate_tools-Agrees 0 parsed f.tools (validate_tools 0 parsed f.tools).0 fine in
    subst
      (λ k.
        Consistent k
        × (k.packages ≡ f.packages)
        × (map (λ e. e.tool) k.tools ≡ map (λ e. e.tool) f.tools))
      made
      (
        record { parsed = parsed; packages_parsed = hr; is_parsed = refl; agree = agree },
        refl,
        same,
      )

pub validate_file-Consistent :
    (f g : ToolsetFile)
    → validate_file f ≡ (g, ok tt)
    → Consistent g
      × (g.packages ≡ f.packages)
      × (map (λ e. e.tool) g.tools ≡ map (λ e. e.tool) f.tools)
unfolding validate_file
validate_file-Consistent f g h =
    validate_parsed-Consistent f g (parse_packages f.packages (sort_keys (keys_of f.packages)) [])
      refl h

map_tools :
    (path version : Text) (es : List ToolEntry)
    → map (λ e. e.tool) (map (set_tool_version path version) es)
      ≡ map (λ e. (set_tool_version path version e).tool) es
map_tools path version [] = refl
map_tools path version (e ∷ es) =
    ap (λ l. (set_tool_version path version e).tool ∷ l) (map_tools path version es)

-- What a change of version leaves of a file: it is consistent, the package has the new version and the
-- others have theirs, and of each tool only the version is changed.
pub record HasVersion (f : ToolsetFile) (path version k : Text) (g : ToolsetFile) : Type 0 where
  pub consistent : Consistent g
  pub versions :
      lookup k g.packages ≡ (if text_eq path k then some version else lookup k f.packages)
  pub texts : map (λ e. e.tool) g.tools ≡ map (λ e. (set_tool_version path version e).tool) f.tools

set_declared-HasVersion :
    (f g : ToolsetFile) (path version k : Text) (old : Option Text)
    → set_declared f path version old ≡ (g, ok tt)
    → HasVersion f path version k g
set_declared-HasVersion f g path version k none h = absurd (cc (ap (λ p. p.1) h))
set_declared-HasVersion f g path version k (some old) h =
    let changed : ToolsetFile = record f {
      packages = insert path version f.packages;
      tools = map (set_tool_version path version) f.tools;
    } in
    let (consistent, packages, texts) = validate_file-Consistent changed g h in
    record {
      consistent = consistent;
      versions = ap (lookup k) packages ∙ lookup-insert path k version f.packages;
      texts = texts ∙ map_tools path version f.tools;
    }

-- If a package's version is set without an error, then the file is consistent: every tool parses, and
-- its module is declared with its version. The package has the new version, every other one keeps its
-- own, and the tools stay in their order, with the new version in those of the package.
pub set_package_version-HasVersion :
    (f g : ToolsetFile) (path version k : Text)
    → set_package_version f path version ≡ (g, ok tt)
    → HasVersion f path version k g
unfolding set_package_version
set_package_version-HasVersion f g path version k h =
    set_declared-HasVersion f g path version k (lookup path f.packages) h
