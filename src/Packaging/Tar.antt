-- ===== src/Packaging/Tar.antt =====
-- packaging/internal/archive/archive.go: the entries of an archive, and what the reading and writing of
-- archives uses: the tar and zstd libraries, JSON, SHA-256, the walk over a file system and the disk.
use toolbox.Prelude.{ℕ, Bool, List, [], Option}
use toolbox.Prelude.Text.{Text, codes}
use toolbox.Packaging.Types.{Package}
use toolbox.Packaging.FileSystem.{DirEntry, FileSystem}
use toolbox.Packaging.Manifest.{ManifestError}

-- tar.TypeDir, tar.TypeReg, and any other type of entry.
pub data EntryType : Type 0 where
  dir_entry reg_entry other_entry : EntryType

-- tar.Header, with times in seconds.
pub record Header : Type 0 where
  pub name : Text
  pub kind : EntryType
  pub mode : ℕ
  pub size : ℕ
  pub mod_time : ℕ
  pub access_time : ℕ
  pub change_time : ℕ
  pub uid : ℕ
  pub gid : ℕ
  pub uname : Text
  pub gname : Text

-- normalizeTarHeader
unfoldable pub normalize_tar_header : Header → Header
normalize_tar_header header = record header {
  mod_time = 0;
  access_time = 0;
  change_time = 0;
  uid = 0;
  gid = 0;
  uname = [];
  gname = [];
}

-- An entry of an archive that is written: its header and its content.
abbrev pub TarEntry : Type 0
TarEntry = Header × List ℕ

-- What the reader of an archive meets: an entry with its content, or an error.
pub data TarStep : Type 0 where
  an_entry : Header → List ℕ → TarStep
  unreadable : TarStep

-- The writer gives the bytes of some entries, unless one is refused; the reader gives what it meets, up
-- to the end of the archive; FileInfoHeader gives the header of an entry.
pub record Tar : Type 0 where
  pub write : List TarEntry → Option (List ℕ)
  pub read : List ℕ → Option (List TarStep)
  pub info_header : DirEntry → Option Header

-- What fs.WalkDir comes to: a path with its entry, or an error.
pub data Visit : Type 0 where
  visit : Text → DirEntry → Visit
  walk_failed : Visit

pub data ArchiveError : Type 0 where
  cannot_marshal cannot_walk cannot_open cannot_write_tar : ArchiveError
  cannot_write_archive cannot_write_manifest : ArchiveError
  cannot_read_manifest cannot_read_archive missing_sha256 : ArchiveError
  sha256_mismatch : Text → Text → ArchiveError
  cannot_read_tar missing_manifest manifest_mismatch : ArchiveError
  bad_external bad_internal not_for_distribution : ManifestError → ArchiveError
  endless : ArchiveError

-- The rest of what archive.go uses: the disk, which os.WriteFile changes, SHA-256 in hexadecimal, the
-- compact and the indented form of a manifest, and the walk over a file system.
pub record Outside (Sig Schema Disk : Type 0) : Type 0 where
  pub read_file : Text → Disk → Option (List ℕ)
  pub write_file : Text → List ℕ → Disk → Disk × Bool
  pub sha256_hex : List ℕ → Text
  pub marshal : Package Sig Schema → Text
  pub marshal_indent : Package Sig Schema → Option (List ℕ)
  pub walk_dir : FileSystem → List Visit

pub record PackResult : Type 0 where
  pub archive_path : Text
  pub manifest_path : Text

abbrev pub archive_extension : Text
archive_extension = codes ".toolbox.pkg"

module _ {Sig Schema : Type 0} where
  abbrev pub with_sha256 : Text → Package Sig Schema → Package Sig Schema
  with_sha256 hash pkg = record pkg { sha256 = hash }
