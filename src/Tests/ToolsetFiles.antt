-- ===== src/Tests/ToolsetFiles.antt =====
-- Runs and instances for toolsetfile/: a version that is set, a file that is written, and a toolset whose
-- package is in the cache only.
use toolbox.Prelude.{
  ℕ, ◌%◌, ◌+◌, true, List, [], ◌∷◌, ◌&&◌, if◌then◌else◌, length, replicate, none, some, ok, err,
  ◌≡◌, refl,
}
use toolbox.Prelude.Text.{Text, codes, text_eq, split_on, contains, has_prefix}
use toolbox.Prelude.Assoc.{lookup, remove}
use toolbox.Vfs.Path.{clean_path, render, segments}
use toolbox.Tool.Pattern.{semver_pattern, pseudo_pattern, tool_path_pattern}
use toolbox.Tool.Fqn.{
  parse_tool_path, parse_tool_fqn, ToolFqn, parse_module_path, parse_version, parse_package_ver,
}
use toolbox.Registry.Source.{invalid_commit, is_sha256_hex}
use toolbox.Registry.Cache.{Disk, Store, cache_paths, cache_has, archive_sha256, cache_load}
use toolbox.Toolsetfile.File.{ToolsetFile, set_package_version}
use toolbox.Toolsetfile.Lock.{no_fault, at_rename, write_atomic, bad_entry}
use toolbox.Toolsetfile.Resolve.{Around, Resolver, unwritable_lock, package_key, resolve_file}
use toolbox.Toolsetfile.Consistent.{HasVersion, set_package_version-HasVersion}
use toolbox.Toolsetfile.Cached.{write_atomic-or_same, resolve_file_cached}

abbrev path : Text
path = codes "example.com/acme/calc"

abbrev fqn_of : Text → ToolFqn
fqn_of version = record { module_path = path; version = version; tool = codes "add" }

abbrev file_with : Text → Text → ToolsetFile
file_with version tool = record {
  packages = (path, version) ∷ [];
  tools = record { tool = tool; parsed = fqn_of version } ∷ [];
  parsed_packages = some ((path, version) ∷ []);
  filename = codes "/a.toolset.json";
  lock_filename = codes "/a.toolset.lock";
  local_filename = codes "/a.toolset.local.json";
}

abbrev old_file : ToolsetFile
old_file = file_with (codes "v1.0.0") (codes "example.com/acme/calc@v1.0.0/add")

abbrev updated_file : ToolsetFile
updated_file = file_with (codes "v1.1.0") (codes "example.com/acme/calc@v1.1.0/add")

set_run : set_package_version old_file path (codes "v1.1.0") ≡ (updated_file, ok tt)
unfolding set_package_version parse_tool_fqn remove parse_tool_path tool_path_pattern
    parse_module_path parse_version semver_pattern pseudo_pattern split_on contains has_prefix
set_run = refl

set_package_version-HasVersion_example : HasVersion old_file path (codes "v1.1.0") path updated_file
set_package_version-HasVersion_example =
    set_package_version-HasVersion old_file updated_file path (codes "v1.1.0") path set_run

abbrev disk_before : Disk
disk_before = (codes "/a", codes "old") ∷ []

temp_free : lookup (codes "/a.tmp-1") disk_before ≡ none
unfolding lookup text_eq
temp_free = refl

write_atomic-or_same_example :
    lookup
      (codes "/a")
      (write_atomic at_rename (codes "/a.tmp-1") (codes "/a") (codes "new") disk_before).0
    ≡ (if text_eq (codes "/a") (codes "/a")
          && (write_atomic at_rename (codes "/a.tmp-1") (codes "/a") (codes "new") disk_before).1
        then some (codes "new")
        else lookup (codes "/a") disk_before)
write_atomic-or_same_example =
    write_atomic-or_same at_rename (codes "/a.tmp-1") (codes "/a") (codes "new") disk_before
      (codes "/a") temp_free

abbrev digits : List ℕ → Text
digits bytes = replicate 64 (length bytes % 10 + b'0')

abbrev digit_store : Store (List ℕ)
digit_store = record {
  writable = λ _. true;
  info_json = λ version. version;
  sha256_hex = digits;
  load_archive = λ archive manifest. some archive;
}

abbrev around : Around (List ℕ)
around = record {
  decode_lock = λ raw. none;
  decode_local = λ raw. none;
  load_dev = λ directory. none;
  encoder = record { json_string = λ s. s; json_entry = λ e. [] };
  is_rfc3339 = λ s. true;
}

abbrev resolver : Resolver
resolver = record { root = codes "/cache"; sources = [] }

abbrev cached : Disk
cached =
    (codes "/cache/example.com/acme/calc/@v/v1.0.0.pkg", codes "pkg")
    ∷ (codes "/cache/example.com/acme/calc/@v/v1.0.0.manifest", codes "{}")
    ∷ (codes "/cache/example.com/acme/calc/@v/v1.0.0.info", codes "{}")
    ∷ []

no_lock : lookup (codes "/a.toolset.lock") cached ≡ none
unfolding lookup text_eq
no_lock = refl

no_local : lookup (codes "/a.toolset.local.json") cached ≡ none
unfolding lookup text_eq
no_local = refl

path_parses : parse_module_path path ≡ ok path
unfolding parse_module_path split_on contains has_prefix
path_parses = refl

version_parses : parse_version (codes "v1.0.0") ≡ ok (codes "v1.0.0")
unfolding parse_version semver_pattern pseudo_pattern has_prefix
version_parses = refl

key_parses :
    parse_package_ver (package_key digit_store around none path (codes "v1.0.0"))
    ≡ ok (record { module_path = path; version = codes "v1.0.0" })
unfolding parse_package_ver parse_module_path parse_version semver_pattern pseudo_pattern split_on
    contains has_prefix
key_parses = refl

hash_fits : is_sha256_hex (digits (codes "pkg")) ≡ true
unfolding is_sha256_hex
hash_fits = refl

has_run : cache_has (cache_paths (codes "/cache") path (codes "v1.0.0")) cached ≡ true
unfolding cache_has cache_paths lookup text_eq clean_path render segments
has_run = refl

hash_run :
    archive_sha256 digit_store (cache_paths (codes "/cache") path (codes "v1.0.0")) cached
    ≡ ok (digits (codes "pkg"))
unfolding archive_sha256 cache_paths lookup text_eq clean_path render segments
hash_run = refl

load_run :
    cache_load digit_store (cache_paths (codes "/cache") path (codes "v1.0.0")) cached
    ≡ ok (codes "pkg")
unfolding cache_load cache_paths lookup text_eq clean_path render segments
load_run = refl

resolve_file_cached_example :
    resolve_file digit_store around (some resolver) no_fault (codes "/a.tmp-1") old_file cached ≡ (
      cached,
      err (
          unwritable_lock (
            bad_entry
              (package_key digit_store around none path (codes "v1.0.0"))
              (invalid_commit []))),
    )
resolve_file_cached_example =
    resolve_file_cached digit_store around resolver path (codes "v1.0.0") cached old_file
      (digits (codes "pkg")) (codes "pkg") (record { module_path = path; version = codes "v1.0.0" })
      no_fault (codes "/a.tmp-1") b'/' b'/' (codes "a.toolset.lock") (codes "a.toolset.local.json")
      refl refl refl no_lock no_local path_parses version_parses key_parses hash_fits has_run
      hash_run load_run
