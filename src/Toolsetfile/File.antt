-- ===== src/Toolsetfile/File.antt =====
-- toolsetfile/toolset_file.go: a toolset file, its validation, the change of a package's version and its
-- stable encoding. The encoding of a JSON string is a parameter. A map that is nil is an empty one.
use toolbox.Prelude.{
  ℕ, ◌+◌, ◌-◌, List, [], ◌∷◌, ◌++◌, if◌then◌else◌, map, take, length, Option, none, some, Result,
  ok, err, ◌>>=◌,
}
use toolbox.Prelude.Text.{Text, codes, text_eq, has_suffix, compare_text}
use Prim.Native.Nat.{Ordering}
use toolbox.Prelude.Assoc.{Assoc, lookup, insert}
use toolbox.Tool.Fqn.{
  ParseError, ToolFqn, parse_module_path, parse_version, parse_tool_fqn, tool_fqn_string,
}

-- ToolEntry; `parsed` is the zero value until the entry is parsed.
pub record ToolEntry : Type 0 where
  pub tool : Text
  pub parsed : ToolFqn

-- ToolsetFile; `parsed_packages` is nil until the file is validated.
pub record ToolsetFile : Type 0 where
  pub packages : Assoc Text
  pub tools : List ToolEntry
  pub parsed_packages : Option (Assoc Text)
  pub filename : Text
  pub lock_filename : Text
  pub local_filename : Text

pub data FileError : Type 0 where
  bad_filename : Text → FileError
  bad_package : Text → ParseError → FileError
  bad_tool : ℕ → ParseError → FileError
  undeclared : ℕ → Text → FileError
  version_mismatch : ℕ → Text → Text → FileError
  not_declared : Text → FileError

-- strings.TrimSuffix, for a text that has the suffix, with another suffix in its place.
unfoldable pub derive : Text → Text → Text → Result FileError Text
unfolding has_suffix
derive suffix other filename =
    if has_suffix filename suffix
    then ok (take (length filename - length suffix) filename ++ other)
    else err (bad_filename filename)

abbrev pub toolset_filename_suffix : Text
toolset_filename_suffix = codes ".toolset.json"

-- deriveToolsetLockFilename
unfoldable pub derive_toolset_lock_filename : Text → Result FileError Text
unfolding derive
derive_toolset_lock_filename = derive toolset_filename_suffix (codes ".toolset.lock")

-- deriveToolsetLocalFilename
unfoldable pub derive_toolset_local_filename : Text → Result FileError Text
unfolding derive
derive_toolset_local_filename = derive toolset_filename_suffix (codes ".toolset.local.json")

-- sort.Strings
abbrev pub insert_before : Ordering → Text → Text → List Text → List Text → List Text
insert_before Ordering.gt k j keys inserted = j ∷ inserted
insert_before Ordering.lt k j keys inserted = k ∷ j ∷ keys
insert_before Ordering.eq k j keys inserted = k ∷ j ∷ keys

unfoldable pub insert_key : Text → List Text → List Text
unfolding compare_text
insert_key k [] = k ∷ []
insert_key k (j ∷ keys) = insert_before (compare_text k j) k j keys (insert_key k keys)

unfoldable pub sort_keys : List Text → List Text
unfolding insert_key
sort_keys [] = []
sort_keys (k ∷ keys) = insert_key k (sort_keys keys)

abbrev pub keys_of : {V : Type 0} → Assoc V → List Text
keys_of [] = []
keys_of ((k, v) ∷ m) = k ∷ keys_of m

abbrev pub or_empty_text : Option Text → Text
or_empty_text none = []
or_empty_text (some s) = s

abbrev pub in_package : {A : Type 0} → Text → Result ParseError A → Result FileError A
in_package key (ok a) = ok a
in_package key (err e) = err (bad_package key e)

-- The first loop of validate: modules with their versions, in the order of their keys.
unfoldable pub parse_packages : Assoc Text → List Text → Assoc Text → Result FileError (Assoc Text)
unfolding lookup insert
parse_packages packages [] parsed = ok parsed
parse_packages packages (key ∷ keys) parsed = do
  path ← in_package key (parse_module_path key)
  version ← in_package key (parse_version (or_empty_text (lookup key packages)))
  parse_packages packages keys (insert path version parsed)

abbrev pub check_version : ℕ → ToolFqn → Option Text → Result FileError ToolFqn
check_version i fqn none = err (undeclared i fqn.module_path)
check_version i fqn (some declared) =
    if text_eq fqn.version declared then ok fqn else err (version_mismatch i fqn.version declared)

abbrev pub check_parsed : ℕ → Assoc Text → Result ParseError ToolFqn → Result FileError ToolFqn
check_parsed i parsed (err e) = err (bad_tool i e)
check_parsed i parsed (ok fqn) = check_version i fqn (lookup fqn.module_path parsed)

-- The tools that were checked before the first error have been parsed anew.
abbrev pub after_tool :
    ToolEntry
    → List ToolEntry
    → Result FileError ToolFqn
    → List ToolEntry × Result FileError (Unit {0})
    → List ToolEntry × Result FileError (Unit {0})
after_tool entry entries (err e) later = (entry ∷ entries, err e)
after_tool entry entries (ok fqn) (later, r) = (record entry { parsed = fqn } ∷ later, r)

-- The second loop of validate, from tool i on.
unfoldable pub validate_tools :
    ℕ → Assoc Text → List ToolEntry → List ToolEntry × Result FileError (Unit {0})
unfolding lookup text_eq
validate_tools i parsed [] = ([], ok tt)
validate_tools i parsed (entry ∷ entries) =
    after_tool entry entries (check_parsed i parsed (parse_tool_fqn entry.tool))
      (validate_tools (i + 1) parsed entries)

abbrev pub validated :
    ToolsetFile
    → Assoc Text
    → List ToolEntry × Result FileError (Unit {0})
    → ToolsetFile × Result FileError (Unit {0})
validated f parsed (tools, ok _) =
    (record f { tools = tools; parsed_packages = some parsed }, ok tt)
validated f parsed (tools, err e) = (record f { tools = tools }, err e)

abbrev pub validate_parsed :
    ToolsetFile → Result FileError (Assoc Text) → ToolsetFile × Result FileError (Unit {0})
validate_parsed f (err e) = (f, err e)
validate_parsed f (ok parsed) = validated f parsed (validate_tools 0 parsed f.tools)

-- ToolsetFile.validate, with the file that it leaves.
unfoldable pub validate_file : ToolsetFile → ToolsetFile × Result FileError (Unit {0})
unfolding parse_packages validate_tools sort_keys
validate_file f = validate_parsed f (parse_packages f.packages (sort_keys (keys_of f.packages)) [])

-- One tool of the loop of SetPackageVersion.
unfoldable pub set_tool_version : Text → Text → ToolEntry → ToolEntry
unfolding text_eq tool_fqn_string
set_tool_version path version entry =
    let fqn = record (entry.parsed) { version = version } in
    if text_eq entry.parsed.module_path path
    then record { tool = tool_fqn_string fqn; parsed = fqn }
    else entry

abbrev pub set_declared :
    ToolsetFile → Text → Text → Option Text → ToolsetFile × Result FileError (Unit {0})
set_declared f path version none = (f, err (not_declared path))
set_declared f path version (some old) = validate_file (record f {
  packages = insert path version f.packages;
  tools = map (set_tool_version path version) f.tools;
})

-- ToolsetFile.SetPackageVersion
unfoldable pub set_package_version :
    ToolsetFile → Text → Text → ToolsetFile × Result FileError (Unit {0})
unfolding validate_file set_tool_version lookup insert
set_package_version f path version = set_declared f path version (lookup path f.packages)
