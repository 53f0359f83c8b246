-- ===== src/Packaging/Verified.antt =====
-- packaging/internal/archive/archive.go: what LoadArchive has checked of the package that it returns.
use toolbox.Prelude.{
  ℕ, Bool, true, false, not, List, [], ◌∷◌, some, Result, or_fail, or_fail-ok, guard-ok, ok, err,
  guard, >>=-ok, ok_injective, ◌≡◌, refl, ap, subst, ◌≢◌,
}
use toolbox.Prelude.Text.{Text, text_eq, text_eq_iff}
use toolbox.Packaging.Types.{Package}
use toolbox.Packaging.Tar.{
  Tar, Outside, with_sha256, cannot_read_manifest, cannot_read_archive, missing_sha256,
  sha256_mismatch, manifest_mismatch,
}
use toolbox.Packaging.Archive.{ArchiveFs, archive_file_system}
use toolbox.Packaging.Manifest.{
  ManifestError, cannot_marshal, cannot_parse, against_dev, Json, dist_mode, dist_verdict,
  parse_pkg, validate_compiled,
}
use toolbox.Packaging.Loading.{LoadedPackage, Extractor, enrich_tool_metadata}
use toolbox.Packaging.Unpack.{extract_archive, load_archive, as_external, as_distribution, is_empty}

as_external-ok : {A : Type 0} (r : Result ManifestError A) (a : A) → as_external r ≡ ok a → r ≡ ok a
as_external-ok (err e) a h = cc
as_external-ok (ok x) a h = ap ok (ok_injective h)

as_distribution-ok :
    {A : Type 0} (r : Result ManifestError A) (a : A) → as_distribution r ≡ ok a → r ≡ ok a
as_distribution-ok (err e) a h = cc
as_distribution-ok (ok x) a h = ap ok (ok_injective h)

dist_verdict-ok :
    {Sig Schema : Type 0} (json : Json Sig Schema) (fits : Bool) (warnings : List ManifestError)
    → dist_verdict json dist_mode fits ≡ ok warnings
    → fits ≡ true
dist_verdict-ok json true warnings h = refl
dist_verdict-ok json false warnings h = cc

-- ValidateCompiled for distribution has held a package's encoding against the schema.
validate_compiled-ok :
    {Sig Schema : Type 0} (json : Json Sig Schema) (pkg : Package Sig Schema)
    (warnings : List ManifestError)
    → validate_compiled json pkg dist_mode ≡ ok warnings
    → (raw : List ℕ) × (json.encode_package pkg ≡ some raw) × (json.fits_dist raw ≡ true)
unfolding validate_compiled
validate_compiled-ok json pkg warnings h =
    let (raw, encoded, h1) = >>=-ok (or_fail cannot_marshal (json.encode_package pkg)) _ h in
    let (_, _, h2) = >>=-ok (guard (json.is_object raw) cannot_parse) _ h1 in
    let (_, _, h3) = >>=-ok (guard (json.fits_dev raw) against_dev) _ h2 in
    (
      raw,
      or_fail-ok cannot_marshal (json.encode_package pkg) raw encoded,
      dist_verdict-ok json (json.fits_dist raw) warnings h3,
    )

not_empty : (s : Text) → not (is_empty s) ≡ true → s ≢ []
not_empty [] h = cc
not_empty (c ∷ s) h = cc

module _ {Sig Schema Disk : Type 0} (tar : Tar) (outside : Outside Sig Schema Disk)
    (json : Json Sig Schema) (extractor : Extractor Sig Schema) (archive_path manifest_path : Text)
    (disk : Disk) where
  open outside use {read_file, sha256_hex, marshal}

  -- The package is the one that the manifest beside the archive describes; the archive has the SHA-256
  -- that this manifest states; the manifest in the archive is the same but for the SHA-256; and the
  -- schema for distribution holds of it.
  pub record IsVerified (loaded : LoadedPackage Sig Schema) : Type 0 where
    pub raw : List ℕ
    pub external : Package Sig Schema
    pub bytes : List ℕ
    pub extracted : ArchiveFs
    pub internal : Package Sig Schema
    pub dist_raw : List ℕ
    pub manifest_read : read_file manifest_path disk ≡ some raw
    pub manifest_parsed : parse_pkg json raw ≡ ok external
    pub archive_read : read_file archive_path disk ≡ some bytes
    pub hash_stated : external.sha256 ≢ []
    pub hash_true : external.sha256 ≡ sha256_hex bytes
    pub archive_extracted : extract_archive json tar bytes ≡ ok (extracted, internal)
    pub same_manifest : marshal (with_sha256 [] external) ≡ marshal (with_sha256 [] internal)
    pub encoded : json.encode_package external ≡ some dist_raw
    pub fits : json.fits_dist dist_raw ≡ true
    pub its_package :
        loaded.pkg ≡ enrich_tool_metadata extractor (archive_file_system extracted) external
    pub its_files : loaded.files ≡ archive_file_system extracted

  -- LoadArchive returns a package only if it is verified.
  pub load_archive-IsVerified :
      (loaded : LoadedPackage Sig Schema)
      → load_archive tar outside json extractor archive_path manifest_path disk ≡ ok loaded
      → IsVerified loaded
  unfolding load_archive
  load_archive-IsVerified loaded h =
      let (raw, read, h1) =
        >>=-ok (or_fail cannot_read_manifest (read_file manifest_path disk)) _ h in
      let (external, parsed, h2) = >>=-ok (as_external (parse_pkg json raw)) _ h1 in
      let (bytes, got, h3) =
        >>=-ok (or_fail cannot_read_archive (read_file archive_path disk)) _ h2 in
      let (u, stated, h4) = >>=-ok (guard (not (is_empty external.sha256)) missing_sha256) _ h3 in
      let (v, matched, h5) =
        >>=-ok
          (guard (text_eq external.sha256 (sha256_hex bytes))
            (sha256_mismatch external.sha256 (sha256_hex bytes)))
          _ h4 in
      let ((a, internal), out, h6) = >>=-ok (extract_archive json tar bytes) _ h5 in
      let (w, same, h7) =
        >>=-ok
          (guard (text_eq (marshal (with_sha256 [] external)) (marshal (with_sha256 [] internal)))
            manifest_mismatch)
          _ h6 in
      let (warnings, valid, h8) =
        >>=-ok (as_distribution (validate_compiled json external dist_mode)) _ h7 in
      let (dist_raw, encoded, fits) =
        validate_compiled-ok json external warnings
          (as_distribution-ok (validate_compiled json external dist_mode) warnings valid) in
      subst IsVerified (ok_injective h8) (record {
        raw = raw;
        external = external;
        bytes = bytes;
        extracted = a;
        internal = internal;
        dist_raw = dist_raw;
        manifest_read = or_fail-ok cannot_read_manifest (read_file manifest_path disk) raw read;
        manifest_parsed = as_external-ok (parse_pkg json raw) external parsed;
        archive_read = or_fail-ok cannot_read_archive (read_file archive_path disk) bytes got;
        hash_stated =
            not_empty external.sha256
              (guard-ok (not (is_empty external.sha256)) missing_sha256 u stated);
        hash_true = (text_eq_iff external.sha256 (sha256_hex bytes)).0 (
            guard-ok (text_eq external.sha256 (sha256_hex bytes))
              (sha256_mismatch external.sha256 (sha256_hex bytes)) v matched);
        archive_extracted = out;
        same_manifest =
            (text_eq_iff (marshal (with_sha256 [] external)) (marshal (with_sha256 [] internal))).0
              (guard-ok
                (text_eq (marshal (with_sha256 [] external)) (marshal (with_sha256 [] internal)))
                manifest_mismatch w same);
        encoded = encoded;
        fits = fits;
        its_package = refl;
        its_files = refl;
      })

  -- The converse: what passes every check is returned.
  pub load_archive-accepts :
      (raw bytes : List ℕ) (external internal : Package Sig Schema) (a : ArchiveFs)
      (warnings : List ManifestError)
      → read_file manifest_path disk ≡ some raw
      → parse_pkg json raw ≡ ok external
      → read_file archive_path disk ≡ some bytes
      → is_empty external.sha256 ≡ false
      → external.sha256 ≡ sha256_hex bytes
      → extract_archive json tar bytes ≡ ok (a, internal)
      → with_sha256 [] external ≡ with_sha256 [] internal
      → validate_compiled json external dist_mode ≡ ok warnings
      → load_archive tar outside json extractor archive_path manifest_path disk
        ≡ ok (record {
          pkg = enrich_tool_metadata extractor (archive_file_system a) external;
          files = archive_file_system a;
          dir = [];
        })
  unfolding load_archive
  load_archive-accepts raw bytes external internal a warnings read parsed got stated hash out same
        valid =
      let matched = (text_eq_iff external.sha256 (sha256_hex bytes)).1 hash in
      let agree =
        (text_eq_iff (marshal (with_sha256 [] external)) (marshal (with_sha256 [] internal))).1
          (ap marshal same) in
      rw (read, parsed, got, stated, matched, out, agree, valid)
