-- ===== src/Packaging/PackLoad.antt =====
-- packaging/internal/archive/archive.go: what LoadArchive returns for what Pack wrote.
use toolbox.Prelude.{
  if◌then◌else◌, some_injective, ℕ, Bool, true, false, List, [], ◌∷◌, ◌++◌, map, Option, none, some,
  Result, ok, err, or_fail, or_fail-ok, >>=-ok, ok_injective, All, ◌≡◌, ◌≢◌, refl, ap, sym, ◌∙◌,
  subst,
}
use toolbox.Prelude.Text.{Text, text_eq}
use toolbox.Prelude.Assoc.{lookup}
use toolbox.Packaging.Types.{Package}
use toolbox.Packaging.Archive.{ArchiveFs, archive_file_system, trim_dot_slash}
use toolbox.Packaging.Manifest.{ManifestError, Json, dist_mode, parse_pkg, validate_compiled}
use toolbox.Packaging.Loading.{
  LoadedPackage, Extractor, enrich_tool_metadata, pkg_manifest_filename,
}
use toolbox.Packaging.Tar.{
  TarEntry, Tar, Outside, PackResult, ArchiveError, cannot_marshal, cannot_write_tar,
  cannot_write_archive, cannot_write_manifest, with_sha256,
}
use toolbox.Packaging.Pack.{
  add_fs_to_tar, add_bytes_to_tar, archive_data, written, write_archive, write_manifest, paths_of,
  pack,
}
use toolbox.Packaging.Unpack.{
  extract_entry, extract_steps, extract_archive, new_archive_fs, put_file, load_archive, is_empty,
}
use toolbox.Packaging.Extract.{content_in, extract_archive-IsTree}
use toolbox.Packaging.Verified.{load_archive-accepts}
use toolbox.Packaging.Walked.{HasKinds, walked_bytes, content_in-append, content_in-walked_bytes}
use toolbox.Packaging.Plain.{PlainVisit, read_back, extract_steps-IsPlain, add_fs_to_tar-IsPlain}

-- What is relied on: the tar reader meets the entries that were written; a manifest that was encoded
-- decodes to the package as it is stored (without what is not part of the encoding, but with its hash),
-- also with a newline behind it; a file that was written can be read, and the others stay as they were;
-- a hash is not empty; and FileInfoHeader gives directories and regular files, of which a package
-- consists, their types.
pub record Reliable {Sig Schema Disk : Type 0} (tar : Tar) (outside : Outside Sig Schema Disk)
    (json : Json Sig Schema) (stored : Package Sig Schema → Package Sig Schema) : Type 0 where
  pub tar_read :
      (entries : List TarEntry) (bytes : List ℕ)
      → tar.write entries ≡ some bytes
      → tar.read bytes ≡ some (map read_back entries)
  pub decoded :
      (pkg : Package Sig Schema) (raw : List ℕ)
      → outside.marshal_indent pkg ≡ some raw
      → json.decode_package raw ≡ some (stored pkg)
  pub decoded_line :
      (pkg : Package Sig Schema) (raw : List ℕ)
      → outside.marshal_indent pkg ≡ some raw
      → json.decode_package (raw ++ (b'\n' ∷ [])) ≡ some (stored pkg)
  pub stored_hash :
      (hash : Text) (pkg : Package Sig Schema)
      → stored (with_sha256 hash pkg) ≡ with_sha256 hash (stored pkg)
  pub file_written :
      (path : Text) (bytes : List ℕ) (disk disk' : Disk)
      → outside.write_file path bytes disk ≡ (disk', true)
      → outside.read_file path disk' ≡ some bytes
  pub file_kept :
      (path other : Text) (bytes : List ℕ) (disk disk' : Disk)
      → outside.write_file path bytes disk ≡ (disk', true)
      → other ≢ path
      → outside.read_file other disk' ≡ outside.read_file other disk
  pub has_kinds : HasKinds tar
  pub hash_not_empty : (bytes : List ℕ) → is_empty (outside.sha256_hex bytes) ≡ false

module _ {Sig Schema Disk : Type 0} (tar : Tar) (outside : Outside Sig Schema Disk)
    (json : Json Sig Schema) (stored : Package Sig Schema → Package Sig Schema)
    (reliable : Reliable tar outside json stored) where
  open outside use {read_file, write_file, sha256_hex, marshal, marshal_indent, walk_dir}

  -- What Pack has done when it succeeds.
  record Packed (loaded : LoadedPackage Sig Schema) (out_dir : Text) (disk : Disk) : Type 0 where
    bytes : List ℕ
    external : List ℕ
    data_made : archive_data tar outside loaded ≡ ok bytes
    encoded : marshal_indent (with_sha256 (sha256_hex bytes) loaded.pkg) ≡ some external
    archive_there : read_file (paths_of tar outside loaded out_dir).archive_path disk ≡ some bytes
    manifest_there :
        read_file (paths_of tar outside loaded out_dir).manifest_path disk
        ≡ some (external ++ (b'\n' ∷ []))

  written-ok :
      (e : ArchiveError) (step : Disk × Bool) (next : Disk → Disk × Result ArchiveError PackResult)
      (disk' : Disk) (paths : PackResult)
      → written tar outside e step next ≡ (disk', ok paths)
      → (disk1 : Disk) × (step ≡ (disk1, true)) × (next disk1 ≡ (disk', ok paths))
  written-ok e (disk1, true) next disk' paths h = (disk1, refl, h)
  written-ok e (disk1, false) next disk' paths h = absurd (cc (ap (λ r. r.1) h))

  write_manifest-ok :
      (paths : PackResult) (external : Option (List ℕ)) (disk disk' : Disk) (result : PackResult)
      → write_manifest tar outside paths external disk ≡ (disk', ok result)
      → (raw : List ℕ) × (external ≡ some raw)
        × (write_file paths.manifest_path (raw ++ (b'\n' ∷ [])) disk ≡ (disk', true))
        × (result ≡ paths)
  write_manifest-ok paths none disk disk' result h = absurd (cc (ap (λ r. r.1) h))
  write_manifest-ok paths (some raw) disk disk' result h =
      let (disk1, step, next) =
        written-ok cannot_write_manifest (write_file paths.manifest_path (raw ++ (b'\n' ∷ [])) disk)
          (λ d. (d, ok paths)) disk' result h in
      (raw, refl, step ∙ ap (λ r. (r.0, true)) next, sym (ok_injective (ap (λ r. r.1) next)))

  write_archive-Packed :
      (loaded : LoadedPackage Sig Schema) (out_dir : Text) (made : Result ArchiveError (List ℕ))
      (disk disk' : Disk) (result : PackResult)
      → made ≡ archive_data tar outside loaded
      → write_archive tar outside loaded out_dir made disk ≡ (disk', ok result)
      → (paths_of tar outside loaded out_dir).archive_path
        ≢ (paths_of tar outside loaded out_dir).manifest_path
      → Packed loaded out_dir disk' × (result ≡ paths_of tar outside loaded out_dir)
  write_archive-Packed loaded out_dir (err e) disk disk' result hd h apart =
      absurd (cc (ap (λ r. r.1) h))
  write_archive-Packed loaded out_dir (ok bytes) disk disk' result hd h apart =
      let paths = paths_of tar outside loaded out_dir in
      let external = marshal_indent (with_sha256 (sha256_hex bytes) loaded.pkg) in
      let (disk1, step, next) =
        written-ok cannot_write_archive (write_file paths.archive_path bytes disk)
          (write_manifest tar outside paths external) disk' result h in
      let (raw, encoded, step2, same) = write_manifest-ok paths external disk1 disk' result next in
      (
        record {
          bytes = bytes;
          external = raw;
          data_made = sym hd;
          encoded = encoded;
          archive_there =
              reliable.file_kept paths.manifest_path paths.archive_path (raw ++ (b'\n' ∷ [])) disk1
                disk' step2 apart
              ∙ reliable.file_written paths.archive_path bytes disk disk1 step;
          manifest_there =
              reliable.file_written paths.manifest_path (raw ++ (b'\n' ∷ [])) disk1 disk' step2;
        },
        same,
      )

  -- The last entry, the manifest.
  extract_manifest :
      (internal : List ℕ) (pkg : Package Sig Schema) (b : ArchiveFs)
      (found : Option (Package Sig Schema))
      → json.decode_package internal ≡ some pkg
      → (c : ArchiveFs) × (extract_steps json
            (read_back (add_bytes_to_tar pkg_manifest_filename internal) ∷ [])
            (b, found)
          ≡ ok (c, some pkg))
  unfolding extract_steps extract_entry add_bytes_to_tar trim_dot_slash parse_pkg text_eq
  extract_manifest internal pkg b found h =
      (put_file json pkg_manifest_filename internal b [], rw h)

  data_made :
      (loaded : LoadedPackage Sig Schema) (bytes : List ℕ)
      → archive_data tar outside loaded ≡ ok bytes
      → (internal : List ℕ) × (entries : List TarEntry) × (marshal_indent
            (with_sha256 [] loaded.pkg)
          ≡ some internal)
        × (add_fs_to_tar tar loaded.files (walk_dir loaded.files) ≡ ok entries)
        × (tar.write (entries ++ (add_bytes_to_tar pkg_manifest_filename internal ∷ []))
            ≡ some bytes)
  unfolding archive_data
  data_made loaded bytes h =
      let (internal, e, h1) =
        >>=-ok (or_fail cannot_marshal (marshal_indent (with_sha256 [] loaded.pkg))) _ h in
      let (entries, es, h2) =
        >>=-ok (add_fs_to_tar tar loaded.files (walk_dir loaded.files)) _ h1 in
      let last = entries ++ (add_bytes_to_tar pkg_manifest_filename internal ∷ []) in
      (
        internal,
        entries,
        or_fail-ok cannot_marshal (marshal_indent (with_sha256 [] loaded.pkg)) internal e,
        es,
        or_fail-ok cannot_write_tar (tar.write last) bytes h2,
      )

  content_in_manifest :
      (k : Text) (internal : List ℕ) (o : Option (List ℕ))
      → content_in k (map read_back (add_bytes_to_tar pkg_manifest_filename internal ∷ [])) o
        ≡ (if text_eq pkg_manifest_filename k then some internal else o)
  unfolding content_in add_bytes_to_tar trim_dot_slash
  content_in_manifest k internal o = refl

  map-read_back :
      (entries more : List TarEntry)
      → map read_back (entries ++ more) ≡ map read_back entries ++ map read_back more
  map-read_back [] more = refl
  map-read_back (e ∷ entries) more = ap (λ l. read_back e ∷ l) (map-read_back entries more)

  -- The archive that was made is extracted, with the package as it was stored in it.
  extracted :
      (loaded : LoadedPackage Sig Schema) (bytes : List ℕ)
      → archive_data tar outside loaded ≡ ok bytes
      → All PlainVisit (walk_dir loaded.files)
      → (a : ArchiveFs) × (extract_archive json tar bytes
          ≡ ok (a, stored (with_sha256 [] loaded.pkg)))
  unfolding extract_archive
  extracted loaded bytes h plain =
      let (internal, entries, encoded, walked, put) = data_made loaded bytes h in
      let last = add_bytes_to_tar pkg_manifest_filename internal in
      let start = new_archive_fs json in
      let (b, e) =
        extract_steps-IsPlain json entries (read_back last ∷ []) start none
          (add_fs_to_tar-IsPlain tar loaded.files (walk_dir loaded.files) entries walked plain) in
      let (c, ec) =
        extract_manifest internal (stored (with_sha256 [] loaded.pkg)) b none
          (reliable.decoded (with_sha256 [] loaded.pkg) internal encoded) in
      (
        c,
        rw (
          reliable.tar_read (entries ++ (last ∷ [])) bytes put,
          map-read_back entries (last ∷ []),
          e,
          ec,
        ),
      )

  -- What is loaded from the archive and the manifest that Pack left: the package, with the hash of the
  -- archive, and the files that the walk over the loaded package has found, each with its bytes; and of
  -- these files, in the place of any with that name, the package's manifest.
  pub record LoadsBack (extractor : Extractor Sig Schema) (loaded : LoadedPackage Sig Schema)
      (result : PackResult) (disk : Disk) : Type 0 where
    pub bytes : List ℕ
    pub internal : List ℕ
    pub a : ArchiveFs
    pub made : archive_data tar outside loaded ≡ ok bytes
    pub encoded : marshal_indent (with_sha256 [] loaded.pkg) ≡ some internal
    pub contents :
        (k : Text)
        → lookup k a.files ≡ (
            if text_eq pkg_manifest_filename k
            then some internal
            else walked_bytes loaded.files k (walk_dir loaded.files) none)
    pub loads :
        load_archive tar outside json extractor result.archive_path result.manifest_path disk
        ≡ ok (record {
          pkg =
              enrich_tool_metadata extractor
                (archive_file_system a)
                (stored (with_sha256 (sha256_hex bytes) loaded.pkg));
          files = archive_file_system a;
          dir = [];
        })

  load_Packed :
      (extractor : Extractor Sig Schema) (loaded : LoadedPackage Sig Schema) (out_dir : Text)
      (disk : Disk)
      → All PlainVisit (walk_dir loaded.files)
      → ((hash : Text)
          → (warnings : List ManifestError) × (validate_compiled json
                (stored (with_sha256 hash loaded.pkg))
                dist_mode
              ≡ ok warnings))
      → Packed loaded out_dir disk
      → LoadsBack extractor loaded (paths_of tar outside loaded out_dir) disk
  unfolding parse_pkg
  load_Packed extractor loaded out_dir disk plain valid p =
      let (internal, entries, encoded, walked, put) = data_made loaded p.bytes p.data_made in
      let (a, out) = extracted loaded p.bytes p.data_made plain in
      let hash = sha256_hex p.bytes in
      let external = stored (with_sha256 hash loaded.pkg) in
      let (warnings, accepted) = valid hash in
      record {
        bytes = p.bytes;
        internal = internal;
        a = a;
        made = p.data_made;
        encoded = encoded;
        contents = λ k.
            let (steps, read, c, _) =
              extract_archive-IsTree json tar p.bytes a (stored (with_sha256 [] loaded.pkg)) k
                out in
            subst (λ l. lookup k a.files ≡ content_in k l none)
              (some_injective (
                sym read
                ∙ reliable.tar_read
                    (entries ++ (add_bytes_to_tar pkg_manifest_filename internal ∷ [])) p.bytes
                    put))
              c
            ∙ content_in-append k entries (add_bytes_to_tar pkg_manifest_filename internal ∷ [])
                none
            ∙ content_in_manifest k internal (content_in k (map read_back entries) none)
            ∙ ap (λ o. if text_eq pkg_manifest_filename k then some internal else o)
                (content_in-walked_bytes tar loaded.files k (walk_dir loaded.files) entries none
                  reliable.has_kinds walked);
        loads =
            load_archive-accepts tar outside json extractor
              (paths_of tar outside loaded out_dir).archive_path
              (paths_of tar outside loaded out_dir).manifest_path disk (p.external ++ (b'\n' ∷ []))
              p.bytes external (stored (with_sha256 [] loaded.pkg)) a warnings p.manifest_there
              (rw (reliable.decoded_line (with_sha256 hash loaded.pkg) p.external p.encoded))
              p.archive_there
              (ap (λ g. is_empty g.sha256) (reliable.stored_hash hash loaded.pkg)
                ∙ reliable.hash_not_empty p.bytes)
              (ap (λ g. g.sha256) (reliable.stored_hash hash loaded.pkg)) out
              (ap (with_sha256 []) (reliable.stored_hash hash loaded.pkg)
                ∙ sym (ap (with_sha256 []) (reliable.stored_hash [] loaded.pkg)))
              accepted;
      }

  -- If Pack succeeds, LoadArchive succeeds on the two files that it wrote and gives back the package and
  -- its files: a name has the bytes that the loaded package's file system has for the last file of the
  -- walk with this path, less a leading `./`, and only the name of the manifest has the manifest of the
  -- package. This holds when the paths of the two files are different, no file of the package has an
  -- absolute path or the manifest's, the package with its hash fits the schema for distribution, and the
  -- tar library, the encoding of a manifest and the disk are reliable.
  pub load_archive-pack :
      (extractor : Extractor Sig Schema) (loaded : LoadedPackage Sig Schema) (out_dir : Text)
      (disk disk' : Disk) (result : PackResult)
      → pack tar outside loaded out_dir disk ≡ (disk', ok result)
      → (paths_of tar outside loaded out_dir).archive_path
        ≢ (paths_of tar outside loaded out_dir).manifest_path
      → All PlainVisit (walk_dir loaded.files)
      → ((hash : Text)
          → (warnings : List ManifestError) × (validate_compiled json
                (stored (with_sha256 hash loaded.pkg))
                dist_mode
              ≡ ok warnings))
      → LoadsBack extractor loaded result disk'
  unfolding pack
  load_archive-pack extractor loaded out_dir disk disk' result h apart plain valid =
      let (p, same) =
        write_archive-Packed loaded out_dir (archive_data tar outside loaded) disk disk' result refl
          h apart in
      subst (λ r. LoadsBack extractor loaded r disk') (sym same)
        (load_Packed extractor loaded out_dir disk' plain valid p)
