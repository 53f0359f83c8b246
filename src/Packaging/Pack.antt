-- ===== src/Packaging/Pack.antt =====
-- packaging/internal/archive/archive.go: an archive is written from a loaded package.
use toolbox.Prelude.{
  ℕ, Bool, true, false, List, [], ◌∷◌, ◌++◌, if◌then◌else◌, Option, none, some, length, Result,
  or_fail, ok, err, ◌>>=◌,
}
use toolbox.Prelude.Text.{Text, text_eq}
use toolbox.Vfs.Path.{dot}
use toolbox.Packaging.FileSystem.{FsError, DirEntry, FileSystem, Opened, a_file, a_dir, join}
use toolbox.Packaging.Loading.{LoadedPackage, pkg_manifest_filename}
use toolbox.Packaging.Tar.{
  reg_entry, normalize_tar_header, TarEntry, Tar, Visit, visit, walk_failed, ArchiveError,
  cannot_marshal, cannot_walk, cannot_open, cannot_write_tar, cannot_write_archive,
  cannot_write_manifest, Outside, PackResult, archive_extension, with_sha256,
}

module _ (tar : Tar) where
  abbrev pub content_of : Result FsError Opened → Result ArchiveError (List ℕ)
  content_of (err e) = err cannot_open
  content_of (ok (a_file name bytes)) = ok bytes
  content_of (ok (a_dir name entries)) = err cannot_open

  -- The content that follows a header.
  abbrev pub body_of : FileSystem → Text → DirEntry → Result ArchiveError (List ℕ)
  body_of fs path entry = if entry.is_dir then ok [] else content_of (fs.open_file path)

  -- One visit of the walk: nothing is written for the root.
  unfoldable pub visit_entry : FileSystem → Text → DirEntry → Result ArchiveError (List TarEntry)
  unfolding text_eq normalize_tar_header
  visit_entry fs path entry = if text_eq path dot then ok [] else do
    header ← or_fail cannot_walk (tar.info_header entry)
    body ← body_of fs path entry
    ok ((normalize_tar_header (record header { name = path }), body) ∷ [])

  -- addFSToTar
  unfoldable pub add_fs_to_tar : FileSystem → List Visit → Result ArchiveError (List TarEntry)
  unfolding visit_entry
  add_fs_to_tar fs [] = ok []
  add_fs_to_tar fs (walk_failed ∷ visits) = err cannot_walk
  add_fs_to_tar fs (visit path entry ∷ visits) = do
    written ← visit_entry fs path entry
    rest ← add_fs_to_tar fs visits
    ok (written ++ rest)

-- addBytesToTar
unfoldable pub add_bytes_to_tar : Text → List ℕ → TarEntry
unfolding normalize_tar_header
add_bytes_to_tar name bytes = (
  normalize_tar_header (record {
    name = name;
    kind = reg_entry;
    mode = 420;
    size = length bytes;
    mod_time = 0;
    access_time = 0;
    change_time = 0;
    uid = 0;
    gid = 0;
    uname = [];
    gname = [];
  }),
  bytes,
)

module _ {Sig Schema Disk : Type 0} (tar : Tar) (outside : Outside Sig Schema Disk) where
  open outside use {read_file, write_file, sha256_hex, marshal, marshal_indent, walk_dir}

  -- The bytes of the archive that Pack makes.
  unfoldable pub archive_data : LoadedPackage Sig Schema → Result ArchiveError (List ℕ)
  unfolding add_fs_to_tar add_bytes_to_tar
  archive_data loaded = do
    internal ← or_fail cannot_marshal (marshal_indent (with_sha256 [] loaded.pkg))
    entries ← add_fs_to_tar tar loaded.files (walk_dir loaded.files)
    or_fail cannot_write_tar
        (tar.write (entries ++ (add_bytes_to_tar pkg_manifest_filename internal ∷ [])))

  abbrev pub written :
      ArchiveError
      → Disk × Bool
      → (Disk → Disk × Result ArchiveError PackResult)
      → Disk × Result ArchiveError PackResult
  written e (disk, true) next = next disk
  written e (disk, false) next = (disk, err e)

  abbrev pub write_manifest :
      PackResult → Option (List ℕ) → Disk → Disk × Result ArchiveError PackResult
  write_manifest paths none disk = (disk, err cannot_marshal)
  write_manifest paths (some external) disk =
      written cannot_write_manifest (write_file paths.manifest_path (external ++ (b'\n' ∷ [])) disk)
        (λ disk'. (disk', ok paths))

  abbrev pub paths_of : LoadedPackage Sig Schema → Text → PackResult
  paths_of loaded out_dir = record {
    archive_path = join out_dir (loaded.pkg.name ++ archive_extension);
    manifest_path = join out_dir pkg_manifest_filename;
  }

  -- What Pack does with the bytes of the archive.
  abbrev pub write_archive :
      LoadedPackage Sig Schema
      → Text
      → Result ArchiveError (List ℕ)
      → Disk
      → Disk × Result ArchiveError PackResult
  write_archive loaded out_dir (err e) disk = (disk, err e)
  write_archive loaded out_dir (ok bytes) disk =
      written cannot_write_archive (write_file (paths_of loaded out_dir).archive_path bytes disk) (
        write_manifest (paths_of loaded out_dir)
          (marshal_indent (with_sha256 (sha256_hex bytes) loaded.pkg)))

  -- Pack
  unfoldable pub pack :
      LoadedPackage Sig Schema → Text → Disk → Disk × Result ArchiveError PackResult
  unfolding archive_data join
  pack loaded out_dir disk = write_archive loaded out_dir (archive_data loaded) disk
