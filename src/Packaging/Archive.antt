-- ===== src/Packaging/Archive.antt =====
-- packaging/internal/archive/archive.go: the file system in memory that an archive is read into.
use toolbox.Prelude.{
  ℕ, suc, ◌+◌, ◌-◌, ◌^◌, zero, Bool, true, false, not, List, [], ◌∷◌, ◌++◌, ltb, leb, if◌then◌else◌,
  Option, none, some, length, take, drop, Result, ok, err,
}
use toolbox.Prelude.Int.{ℤ, pos, negsuc}
use toolbox.Prelude.Text.{Text, codes, text_eq, has_prefix}
use toolbox.Prelude.Assoc.{Assoc, lookup}
use toolbox.Vfs.Path.{dot, has_slash}
use toolbox.Packaging.Paths.{base}
use toolbox.Packaging.FileSystem.{
  FsError, not_exist, FileInfo, DirEntry, Opened, a_file, a_dir, FileSystem, mem,
}

-- archiveMemFS
pub record ArchiveFs : Type 0 where
  pub files : Assoc (List ℕ)
  pub dirs : List Text

-- strings.TrimPrefix(name, "./")
unfoldable pub trim_dot_slash : Text → Text
unfolding has_prefix
trim_dot_slash name = if has_prefix name (codes "./") then drop 2 name else name

abbrev pub dot_if_empty : Text → Text
dot_if_empty [] = dot
dot_if_empty (c ∷ name) = c ∷ name

-- cleanName
unfoldable pub clean_name : Text → Text
unfolding trim_dot_slash
clean_name name = dot_if_empty (trim_dot_slash name)

-- The prefix of what stands below a directory.
unfoldable pub prefix_of : Text → Text
unfolding text_eq
prefix_of dir = if text_eq dir dot then [] else dir ++ (b'/' ∷ [])

-- The rest of a name behind a prefix, if the name has the prefix and the rest no slash.
unfoldable pub direct_child : Text → Text → Option Text
unfolding has_prefix
direct_child prefix name =
    if not (has_prefix name prefix)
    then none
    else if has_slash (drop (length prefix) name)
    then none
    else some (drop (length prefix) name)

-- The loop over the files, then the one over the directories; `seen` are the names that have an entry.
-- The order is the one of the maps, which Go leaves open.
abbrev pub add_entry :
    Option Text → List Text → ℕ → Bool → (List Text → List DirEntry) → List DirEntry
add_entry none seen size is_dir next = next seen
add_entry (some rest) seen size is_dir next =
    if mem rest seen
    then next seen
    else record { name = rest; size = size; is_dir = is_dir } ∷ next (rest ∷ seen)

unfoldable pub dir_children : Text → Text → List Text → List Text → List DirEntry
unfolding direct_child mem text_eq
dir_children dir prefix [] seen = []
dir_children dir prefix (name ∷ dirs) seen =
    if text_eq name dir
    then dir_children dir prefix dirs seen
    else add_entry (direct_child prefix name) seen 0 true (dir_children dir prefix dirs)

unfoldable pub file_children :
    Text → Assoc (List ℕ) → (List Text → List DirEntry) → List Text → List DirEntry
unfolding direct_child mem
file_children prefix [] next seen = next seen
file_children prefix ((name, bytes) ∷ files) next seen =
    add_entry (direct_child prefix name) seen (length bytes) false (file_children prefix files next)

module _ (a : ArchiveFs) where
  -- archiveMemFS.dirEntries
  unfoldable pub dir_entries : Text → List DirEntry
  unfolding file_children dir_children prefix_of
  dir_entries dir =
      let prefix = prefix_of dir in file_children prefix a.files (dir_children dir prefix a.dirs) []

  abbrev pub open_data : Text → Option (List ℕ) → Result FsError Opened
  open_data name none = err not_exist
  open_data name (some bytes) = ok (a_file (base name) bytes)

  -- archiveMemFS.Open
  unfoldable pub archive_open : Text → Result FsError Opened
  unfolding clean_name mem dir_entries base
  archive_open name =
      let name' = clean_name name in
      if mem name' a.dirs
      then ok (a_dir name' (dir_entries name'))
      else open_data name' (lookup name' a.files)

  abbrev pub or_not_exist : {A : Type 0} → Option A → Result FsError A
  or_not_exist none = err not_exist
  or_not_exist (some bytes) = ok bytes

  -- archiveMemFS.ReadFile
  unfoldable pub archive_read_file : Text → Result FsError (List ℕ)
  unfolding clean_name
  archive_read_file name = or_not_exist (lookup (clean_name name) a.files)

  abbrev pub data_info : Text → Option (List ℕ) → Result FsError FileInfo
  data_info name none = err not_exist
  data_info name (some bytes) =
      ok (record { name = base name; size = length bytes; is_dir = false })

  -- archiveMemFS.Stat
  unfoldable pub archive_stat : Text → Result FsError FileInfo
  unfolding clean_name mem base
  archive_stat name =
      let name' = clean_name name in
      if mem name' a.dirs
      then ok (record { name = base name'; size = 0; is_dir = true })
      else data_info name' (lookup name' a.files)

  -- archiveMemFS.ReadDir
  unfoldable pub archive_read_dir : Text → Result FsError (List DirEntry)
  unfolding clean_name mem dir_entries
  archive_read_dir name =
      let name' = clean_name name in
      if mem name' a.dirs then ok (dir_entries name') else err not_exist

  -- The methods of archiveMemFS.
  unfoldable pub archive_file_system : FileSystem
  unfolding archive_open archive_stat archive_read_dir
  archive_file_system = record {
    open_file = archive_open;
    stat = archive_stat;
    read_dir = archive_read_dir;
  }

-- memDir: the entries of an open directory and how many of them were read.
pub record MemDir : Type 0 where
  pub name : Text
  pub entries : List DirEntry
  pub offset : ℕ

-- What memDir.ReadDir answers: entries, or entries with io.EOF.
pub data Listed : Type 0 where
  more : List DirEntry → Listed
  at_end : List DirEntry → Listed

abbrev pub at_least : ℕ → ℕ → ℕ
at_least n limit = if ltb limit n then limit else n

-- memDir.ReadDir with a positive count.
unfoldable pub read_some : MemDir → ℕ → MemDir × Listed
read_some d n =
    if leb (length d.entries) d.offset
    then (d, at_end [])
    else let end = at_least (d.offset + n) (length d.entries) in
      let entries = take (end - d.offset) (drop d.offset d.entries) in
      (
        record d { offset = end },
        if leb (length d.entries) end then at_end entries else more entries,
      )

unfoldable pub read_rest : MemDir → MemDir × Listed
read_rest d = (record d { offset = length d.entries }, more (drop d.offset d.entries))

-- memDir.ReadDir
unfoldable pub read_mem_dir : MemDir → ℤ → MemDir × Listed
unfolding read_some read_rest
read_mem_dir d (negsuc n) = read_rest d
read_mem_dir d (pos zero) = read_rest d
read_mem_dir d (pos (suc n)) = read_some d (suc n)

-- fs.ModeDir
abbrev pub mode_dir : ℕ
mode_dir = 2 ^ 31

-- memFileInfo.Mode: 0o755 for a directory and 0o644 for a file.
unfoldable pub info_mode : FileInfo → ℕ
info_mode info = if info.is_dir then mode_dir + 493 else 420

-- memDirEntry.Type
unfoldable pub entry_type : DirEntry → ℕ
entry_type entry = if entry.is_dir then mode_dir else 0

-- memDirEntry.Info
unfoldable pub entry_info : DirEntry → FileInfo
entry_info entry = record { name = entry.name; size = entry.size; is_dir = entry.is_dir }

-- memFile.Stat and memDir.Stat
unfoldable pub opened_stat : Opened → FileInfo
unfolding base
opened_stat (a_file name bytes) = record { name = name; size = length bytes; is_dir = false }
opened_stat (a_dir name entries) = record { name = base name; size = 0; is_dir = true }
