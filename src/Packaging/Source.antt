-- ===== src/Packaging/Source.antt =====
-- packaging/internal/source/: the file system that shows a package's own files only, and the loading of
-- packages from directories. The TypeScript library, the globs and the disk are parameters.
use toolbox.Prelude.{
  ◌+◌, Bool, false, List, [], ◌∷◌, ◌++◌, ◌||◌, if◌then◌else◌, Option, none, some, map, length,
  Result, ok, err,
}
use toolbox.Prelude.Text.{Text, text_eq}
use toolbox.Prelude.Assoc.{Assoc}
use toolbox.Vfs.Path.{dot}
use toolbox.Packaging.Paths.{clean, dir}
use toolbox.Packaging.Types.{Package}
use toolbox.Packaging.FileSystem.{
  FsError, not_exist, FileInfo, DirEntry, Opened, FileSystem, mem, join,
}
use toolbox.Packaging.Ancestors.{ancestors}

abbrev pub dot_if_root : Text → Text
dot_if_root p = if text_eq p (b'/' ∷ []) then dot else p

-- cleanFSPath
unfoldable pub clean_fs_path : Text → Text
unfolding clean text_eq
clean_fs_path name = dot_if_root (clean name)

-- sourceFS
pub record SourceFs : Type 0 where
  pub base : FileSystem
  pub files : List Text
  pub dirs : List Text

module _ (f : SourceFs) where
  abbrev pub is_shown : Text → Bool
  is_shown name = mem name f.files || mem name f.dirs

  -- sourceFS.Open
  unfoldable pub source_open : Text → Result FsError Opened
  unfolding clean_fs_path mem
  source_open name =
      let path = clean_fs_path name in
      if mem path f.files
      then f.base.open_file path
      else if mem path f.dirs
      then f.base.open_file path
      else err not_exist

  -- The entries that sourceFS.ReadDir keeps.
  unfoldable pub filter_entries : Text → List DirEntry → List DirEntry
  unfolding clean_fs_path mem join
  filter_entries path [] = []
  filter_entries path (entry ∷ entries) =
      let rest = filter_entries path entries in
      if is_shown (clean_fs_path (join path entry.name)) then entry ∷ rest else rest

  abbrev pub filtered : Text → Result FsError (List DirEntry) → Result FsError (List DirEntry)
  filtered path (err e) = err e
  filtered path (ok entries) = ok (filter_entries path entries)

  -- sourceFS.ReadDir
  unfoldable pub source_read_dir : Text → Result FsError (List DirEntry)
  unfolding filter_entries
  source_read_dir name =
      let path = clean_fs_path name in
      if mem path f.dirs then filtered path (f.base.read_dir path) else err not_exist

  -- sourceFS.Stat
  unfoldable pub source_stat : Text → Result FsError FileInfo
  unfolding clean_fs_path mem
  source_stat name =
      let path = clean_fs_path name in
      if mem path f.files
      then f.base.stat path
      else if mem path f.dirs
      then f.base.stat path
      else err not_exist

  -- The methods of sourceFS.
  unfoldable pub source_file_system : FileSystem
  unfolding source_open source_read_dir source_stat
  source_file_system = record {
    open_file = source_open;
    stat = source_stat;
    read_dir = source_read_dir;
  }

-- What matches a glob below a directory: the paths, or an error in the pattern; for each path whether
-- it is a directory, if os.Stat succeeds, and the path from the directory to it.
pub record Globs : Type 0 where
  pub matches : Text → Option (List Text)
  pub stat_is_dir : Text → Option Bool
  pub relative : Text → Option Text

module _ (globs : Globs) where
  open globs use {matches, stat_is_dir, relative}

  abbrev pub kept_match : Option Bool → Option Text → List Text → List Text
  kept_match (some false) (some rel) rest = clean_fs_path rel ∷ rest
  kept_match _ _ rest = rest

  abbrev pub kept_matches : List Text → List Text
  kept_matches [] = []
  kept_matches (m ∷ ms) = kept_match (stat_is_dir m) (relative m) (kept_matches ms)

  abbrev pub of_glob : Option (List Text) → List Text
  of_glob none = []
  of_glob (some found) = kept_matches found

  abbrev pub of_globs : List Text → List Text
  of_globs [] = []
  of_globs (pattern_text ∷ rest) = of_glob (matches pattern_text) ++ of_globs rest

  abbrev pub values : Assoc Text → List Text
  values [] = []
  values ((_, v) ∷ m) = v ∷ values m

  -- allowedTypeScriptFiles
  unfoldable pub allowed_typescript_files : {Sig Schema : Type 0} → Package Sig Schema → List Text
  unfolding clean_fs_path
  allowed_typescript_files pkg =
      map (λ tool. clean_fs_path tool.entry_ts) pkg.tools
      ++ map clean_fs_path (values pkg.executables)
      ++ of_globs pkg.globs

abbrev pub both : Option (List Text) → Option (List Text) → Option (List Text)
both none o = none
both (some l) none = none
both (some l) (some m) = some (l ++ m)

-- allowedDirectories; `none` stands for a loop that does not end.
unfoldable pub allowed_directories : List Text → Option (List Text)
unfolding ancestors
allowed_directories [] = some (dot ∷ [])
allowed_directories (file ∷ files) =
    both (ancestors (length file + 2) (dir file)) (allowed_directories files)

abbrev pub with_dirs : FileSystem → List Text → Option (List Text) → Option SourceFs
with_dirs base files none = none
with_dirs base files (some dirs) = some (record { base = base; files = files; dirs = dirs })

-- NewSourceFS
unfoldable pub new_source_fs :
    {Sig Schema : Type 0} → Globs → FileSystem → Package Sig Schema → Option SourceFs
unfolding allowed_typescript_files allowed_directories
new_source_fs globs base pkg =
    let files = allowed_typescript_files globs pkg in
    with_dirs base files (allowed_directories files)
