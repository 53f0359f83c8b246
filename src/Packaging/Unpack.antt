-- ===== src/Packaging/Unpack.antt =====
-- packaging/internal/archive/archive.go: an archive is read, checked and extracted.
use toolbox.Prelude.{
  ℕ, ◌+◌, Bool, true, false, not, List, [], ◌∷◌, ◌++◌, if◌then◌else◌, Option, none, some, length,
  take, ◌-◌, Result, or_fail, ok, err, guard, ◌>>=◌, ◌>>◌,
}
use toolbox.Prelude.Text.{Text, text_eq, has_suffix}
use toolbox.Prelude.Assoc.{insert}
use toolbox.Vfs.Path.{dot}
use toolbox.Packaging.Paths.{dir}
use toolbox.Packaging.Types.{Package}
use toolbox.Packaging.Ancestors.{ancestors}
use toolbox.Packaging.Archive.{ArchiveFs, trim_dot_slash, archive_file_system}
use toolbox.Packaging.Manifest.{ManifestError, Json, dist_mode, parse_pkg, validate_compiled}
use toolbox.Packaging.Loading.{
  LoadedPackage, Extractor, enrich_tool_metadata, pkg_manifest_filename,
}
use toolbox.Packaging.Tar.{
  EntryType, dir_entry, reg_entry, other_entry, TarStep, an_entry, unreadable, Tar, ArchiveError,
  cannot_read_manifest, cannot_read_archive, missing_sha256, sha256_mismatch, cannot_read_tar,
  missing_manifest, manifest_mismatch, bad_external, bad_internal, not_for_distribution, endless,
  Outside, with_sha256,
}

-- strings.TrimSuffix(name, "/")
unfoldable pub trim_slash : Text → Text
unfolding has_suffix
trim_slash name = if has_suffix name (b'/' ∷ []) then take (length name - 1) name else name

-- What extractArchive has built so far: the file system and the internal manifest.
abbrev pub Extracted : Type 0 → Type 0 → Type 0
Extracted Sig Schema = ArchiveFs × Option (Package Sig Schema)

module _ {Sig Schema : Type 0} (json : Json Sig Schema) where
  abbrev pub internal_manifest :
      Text
      → List ℕ
      → Option (Package Sig Schema)
      → Result ArchiveError (Option (Package Sig Schema))
  internal_manifest name content found =
      if text_eq name pkg_manifest_filename
      then (elim (parse_pkg json content) [ ok pkg ↦ ok (some pkg) | err e ↦ err (bad_internal e) ])
      else ok found

  abbrev pub put_file : Text → List ℕ → ArchiveFs → List Text → ArchiveFs
  put_file name content a above = record {
    files = insert name content a.files;
    dirs = above ++ a.dirs;
  }

  -- The case of a regular file.
  unfoldable pub extract_file :
      Text → List ℕ → Extracted Sig Schema → Result ArchiveError (Extracted Sig Schema)
  unfolding ancestors dir parse_pkg text_eq insert
  extract_file name content (a, found) = do
    above ← or_fail endless (ancestors (length name + 2) (dir name))
    found' ← internal_manifest name content found
    ok (put_file name content a above, found')

  -- One entry of the archive.
  unfoldable pub extract_entry :
      EntryType → Text → List ℕ → Extracted Sig Schema → Result ArchiveError (Extracted Sig Schema)
  unfolding extract_file trim_slash
  extract_entry dir_entry name content (a, found) =
      ok (record { files = a.files; dirs = trim_slash name ∷ a.dirs }, found)
  extract_entry reg_entry name content so_far = extract_file name content so_far
  extract_entry other_entry name content so_far = ok so_far

  -- The loop of extractArchive.
  unfoldable pub extract_steps :
      List TarStep → Extracted Sig Schema → Result ArchiveError (Extracted Sig Schema)
  unfolding extract_entry trim_dot_slash
  extract_steps [] so_far = ok so_far
  extract_steps (unreadable ∷ steps) so_far = err cannot_read_tar
  extract_steps (an_entry header content ∷ steps) so_far = do
    next ← extract_entry header.kind (trim_dot_slash header.name) content so_far
    extract_steps steps next

  abbrev pub new_archive_fs : ArchiveFs
  new_archive_fs = record { files = []; dirs = dot ∷ [] }

  abbrev pub demand_manifest :
      Extracted Sig Schema → Result ArchiveError (ArchiveFs × Package Sig Schema)
  demand_manifest (a, none) = err missing_manifest
  demand_manifest (a, some pkg) = ok (a, pkg)

  -- extractArchive
  unfoldable pub extract_archive :
      Tar → List ℕ → Result ArchiveError (ArchiveFs × Package Sig Schema)
  unfolding extract_steps
  extract_archive tar bytes = do
    steps ← or_fail cannot_read_tar (tar.read bytes)
    extracted ← extract_steps steps (new_archive_fs, none)
    demand_manifest extracted

abbrev pub as_external : {A : Type 0} → Result ManifestError A → Result ArchiveError A
as_external (ok a) = ok a
as_external (err e) = err (bad_external e)

abbrev pub as_distribution : {A : Type 0} → Result ManifestError A → Result ArchiveError A
as_distribution (ok a) = ok a
as_distribution (err e) = err (not_for_distribution e)

abbrev pub is_empty : Text → Bool
is_empty [] = true
is_empty (c ∷ s) = false

module _ {Sig Schema Disk : Type 0} (tar : Tar) (outside : Outside Sig Schema Disk)
    (json : Json Sig Schema) (extractor : Extractor Sig Schema) where
  open outside use {read_file, sha256_hex, marshal}

  -- LoadArchive
  unfoldable pub load_archive : Text → Text → Disk → Result ArchiveError (LoadedPackage Sig Schema)
  unfolding parse_pkg text_eq extract_archive validate_compiled archive_file_system
      enrich_tool_metadata
  load_archive archive_path manifest_path disk = do
    external_raw ← or_fail cannot_read_manifest (read_file manifest_path disk)
    external ← as_external (parse_pkg json external_raw)
    bytes ← or_fail cannot_read_archive (read_file archive_path disk)
    guard (not (is_empty external.sha256)) missing_sha256
    let actual = sha256_hex bytes
    guard (text_eq external.sha256 actual) (sha256_mismatch external.sha256 actual)
    (a, internal) ← extract_archive json tar bytes
    guard (text_eq (marshal (with_sha256 [] external)) (marshal (with_sha256 [] internal)))
        manifest_mismatch
    _ ← as_distribution (validate_compiled json external dist_mode)
    let files = archive_file_system a
    ok (record { pkg = enrich_tool_metadata extractor files external; files = files; dir = [] })
