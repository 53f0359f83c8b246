-- ===== src/Toolsetfile/Lock.antt =====
-- toolsetfile/: the lock file, the local overlay, the stable encodings and the writing of files.
use toolbox.Prelude.{
  ℕ, Bool, true, false, List, [], ◌∷◌, ◌++◌, if◌then◌else◌, map, take, Option, none, some, Result,
  ok, err, guard, ◌>>=◌, ◌>>◌,
}
use toolbox.Prelude.Text.{Text, codes}
use toolbox.Prelude.Assoc.{Assoc, lookup, insert, remove}
use toolbox.Tool.Fqn.{ParseError, parse_module_path, parse_package_ver}
use toolbox.Registry.Source.{
  ResolvedFrom, other_origin, SourceError, invalid_sha256, invalid_commit, invalid_origin,
  invalid_time, known_origin, is_sha256_hex, is_git_commit,
}
use toolbox.Registry.Cache.{Disk}
use toolbox.Packaging.Paths.{clean, dir, is_rooted}
use toolbox.Packaging.FileSystem.{join}
use toolbox.Toolsetfile.File.{
  ToolsetFile, ToolEntry, FileError, validate_file, sort_keys, keys_of, or_empty_text,
}

-- ToolsetLockEntry
pub record LockEntry : Type 0 where
  pub archive_sha256 : Text
  pub git_sha : Text
  pub resolved_from : ResolvedFrom
  pub resolved_at : Text

pub data LockError : Type 0 where
  bad_key : Text → ParseError → LockError
  bad_entry : Text → SourceError → LockError
  bad_replace : Text → ParseError → LockError

-- ToolsetLockEntry.validate
unfoldable pub validate_entry : (Text → Bool) → LockEntry → Result SourceError (Unit {0})
unfolding is_sha256_hex is_git_commit
validate_entry is_rfc3339 e = do
  guard (is_sha256_hex e.archive_sha256) (invalid_sha256 e.archive_sha256)
  guard (is_git_commit e.git_sha) (invalid_commit e.git_sha)
  guard (known_origin e.resolved_from) invalid_origin
  guard (is_rfc3339 e.resolved_at) (invalid_time e.resolved_at)

abbrev pub keyed : {A : Type 0} → Text → Result ParseError A → Result LockError A
keyed key (ok a) = ok a
keyed key (err e) = err (bad_key key e)

abbrev pub of_entry : Text → Result SourceError (Unit {0}) → Result LockError (Unit {0})
of_entry key (ok u) = ok u
of_entry key (err e) = err (bad_entry key e)

-- f.Packages[key] of a key that the map has.
abbrev pub entry_or : Option LockEntry → LockEntry
entry_or (some e) = e
entry_or none = record {
  archive_sha256 = [];
  git_sha = [];
  resolved_from = other_origin [];
  resolved_at = [];
}

-- ToolsetLockFile.validate, in the order of the keys; what it parses is not used again.
unfoldable pub validate_lock :
    (Text → Bool) → Assoc LockEntry → List Text → Result LockError (Unit {0})
unfolding validate_entry lookup
validate_lock is_rfc3339 packages [] = ok tt
validate_lock is_rfc3339 packages (key ∷ keys) = do
  _ ← keyed key (parse_package_ver key)
  of_entry key (validate_entry is_rfc3339 (entry_or (lookup key packages)))
  validate_lock is_rfc3339 packages keys

-- The lines of an object or an array: a comma behind each but the last.
unfoldable pub lines : List Text → Text
lines [] = []
lines (l ∷ []) = codes "    " ++ l ++ codes "\n"
lines (l ∷ m ∷ ls) = codes "    " ++ l ++ codes ",\n" ++ lines (m ∷ ls)

-- The encodings of a JSON string and of a lock entry.
pub record Encoder : Type 0 where
  pub json_string : Text → Text
  pub json_entry : LockEntry → Text

module _ (encoder : Encoder) where
  open encoder use {json_string, json_entry}

  abbrev pub lock_line : Assoc LockEntry → Text → Text
  lock_line packages key =
      json_string key ++ codes ": " ++ json_entry (entry_or (lookup key packages))

  abbrev pub lock_body : List Text → Text
  lock_body [] = codes "{\n  \"packages\": {}\n}\n"
  lock_body (l ∷ ls) = codes "{\n  \"packages\": {\n" ++ lines (l ∷ ls) ++ codes "  }\n}\n"

  -- ToolsetLockFile.encodeStable
  unfoldable pub encode_lock : (Text → Bool) → Assoc LockEntry → Result LockError Text
  unfolding validate_lock lines sort_keys
  encode_lock is_rfc3339 packages =
      let keys = sort_keys (keys_of packages) in
      validate_lock is_rfc3339 packages keys >> ok (lock_body (map (lock_line packages) keys))

  abbrev pub package_line : Assoc Text → Text → Text
  package_line packages key =
      json_string key ++ codes ": " ++ json_string (or_empty_text (lookup key packages))

  abbrev pub tool_line : ToolEntry → Text
  tool_line entry = codes "{\"tool\":" ++ json_string entry.tool ++ codes "}"

  abbrev pub block : Text → List Text → Text → Text
  block open_mark [] close_mark = open_mark ++ close_mark
  block open_mark (l ∷ ls) close_mark =
      open_mark ++ codes "\n" ++ lines (l ∷ ls) ++ codes "  " ++ close_mark

  -- What ToolsetFile.encodeStable writes of a file that is valid.
  unfoldable pub encode_file : ToolsetFile → Text
  unfolding lines sort_keys
  encode_file f =
      codes "{\n"
      ++ block (codes "  \"packages\": {")
          (map (package_line f.packages) (sort_keys (keys_of f.packages))) (codes "},\n")
      ++ block (codes "  \"tools\": [") (map tool_line f.tools) (codes "]\n")
      ++ codes "}\n"

-- Where the writing of a file fails: os.CreateTemp; Chmod, or Write after some bytes; Close or Rename.
pub data WriteFault : Type 0 where
  no_fault no_temp at_rename : WriteFault
  after_bytes : ℕ → WriteFault

-- The writing of a file by way of a temporary one, which is removed at the end.
unfoldable pub write_atomic : WriteFault → Text → Text → List ℕ → Disk → Disk × Bool
unfolding insert remove
write_atomic no_temp temp filename bytes disk = (disk, false)
write_atomic (after_bytes n) temp filename bytes disk =
    (remove temp (insert temp (take n bytes) disk), false)
write_atomic at_rename temp filename bytes disk = (remove temp (insert temp bytes disk), false)
write_atomic no_fault temp filename bytes disk =
    (insert filename bytes (remove temp (insert temp bytes disk)), true)

-- ToolsetLocalFile; `parsed_replace` is what validate makes of `replace`.
pub record LocalFile : Type 0 where
  pub replace : Assoc Text
  pub parsed_replace : Assoc Text
  pub filename : Text

abbrev pub replaced : {A : Type 0} → Text → Result ParseError A → Result LockError A
replaced key (ok a) = ok a
replaced key (err e) = err (bad_replace key e)

-- ToolsetLocalFile.validate
unfoldable pub parse_replace : Assoc Text → List Text → Assoc Text → Result LockError (Assoc Text)
unfolding lookup insert
parse_replace replace [] parsed = ok parsed
parse_replace replace (key ∷ keys) parsed = do
  path ← replaced key (parse_module_path key)
  parse_replace replace keys (insert path (or_empty_text (lookup key replace)) parsed)

abbrev pub below_file : Text → Text → Text
below_file [] directory = clean directory
below_file (c ∷ file) directory = clean (join (dir (c ∷ file)) directory)

abbrev pub absolute_dir : Text → Text → Text
absolute_dir file directory =
    if is_rooted directory then clean directory else below_file file directory

-- ToolsetLocalFile.ReplacementDir and ReplacementDirAbs; without a local file nothing is replaced.
unfoldable pub replacement_dir : Option LocalFile → Text → Option Text
replacement_dir none path = none
replacement_dir (some local) path = lookup path local.parsed_replace

unfoldable pub replacement_dir_abs : Option LocalFile → Text → Option Text
unfolding join clean dir lookup
replacement_dir_abs none path = none
replacement_dir_abs (some local) path = elim (lookup path local.parsed_replace) [
  | none ↦ none
  | some directory ↦ some (absolute_dir local.filename directory)
]

abbrev pub encoded_if :
    Encoder → ToolsetFile × Result FileError (Unit {0}) → ToolsetFile × Result FileError Text
encoded_if encoder (f, ok _) = (f, ok (encode_file encoder f))
encoded_if encoder (f, err e) = (f, err e)

-- ToolsetFile.encodeStable, with the file that validation leaves.
unfoldable pub encode_stable : Encoder → ToolsetFile → ToolsetFile × Result FileError Text
unfolding encode_file validate_file
encode_stable encoder f = encoded_if encoder (validate_file f)
