-- ===== src/Tests/Bundles.antt =====
-- Runs and instances for packaging/: packages that are packed, calc_loaded and shown.
use toolbox.Prelude.{
  ◌⊎◌, ℕ, true, false, List, [], ◌∷◌, All, none, some, ok, err, ◌≡◌, ◌≢◌, ◌↔◌, refl, false≢true,
}
use toolbox.Prelude.Text.{Text, codes, text_eq, text_eq_iff}
use toolbox.Prelude.Assoc.{lookup, remove}
use toolbox.Vfs.Path.{dot, render, segments}
use toolbox.Packaging.Types.{Package, read_only, ts_sandbox}
use toolbox.Packaging.FileSystem.{join, FileSystem, not_exist, a_file, DirEntry}
use toolbox.Packaging.Paths.{is_rooted}
use toolbox.Packaging.Names.{kebab_to_camel, is_kebab_byte}
use toolbox.Packaging.Camel.{camel_to_kebab, is_lettered, camel_to_kebab-kebab_to_camel}
use toolbox.Packaging.Loading.{LoadedPackage, Extractor, enrich_tool_metadata}
use toolbox.Packaging.Manifest.{ManifestError, dist_mode, validate_compiled}
use toolbox.Packaging.Archive.{trim_dot_slash, ArchiveFs, archive_file_system}
use toolbox.Packaging.Source.{
  source_read_dir, Globs, SourceFs, clean_fs_path, allowed_typescript_files, new_source_fs,
  source_open,
}
use toolbox.Packaging.Shown.{IsDirectories, new_source_fs_end}
use toolbox.Packaging.Declared.{
  IsDeclared, IsAboveDeclared, new_source_fs-source_open, new_source_fs-source_read_dir,
}
use toolbox.Packaging.Tar.{
  Visit, visit, Tar, TarStep, an_entry, Header, reg_entry, with_sha256, PackResult, endless,
}
use toolbox.Packaging.Pack.{pack, paths_of}
use toolbox.Packaging.Unpack.{extract_archive, extract_file, new_archive_fs}
use toolbox.Packaging.Extract.{IsTree, content_in, extract_archive-IsTree, extract_file-endless}
use toolbox.Packaging.Verified.{IsVerified, load_archive-IsVerified}
use toolbox.Packaging.Plain.{PlainVisit}
use toolbox.Packaging.PackLoad.{LoadsBack, load_archive-pack}
use toolbox.Tests.TarToy.{tar, json, outside, stored, reliable, Disk}

get_user-is_lettered : is_lettered false (codes "get-user-by-id2") ≡ true
unfolding is_lettered is_kebab_byte
get_user-is_lettered = refl

camel_to_kebab-kebab_to_camel_example :
    camel_to_kebab (kebab_to_camel (codes "get-user-by-id2")) ≡ codes "get-user-by-id2"
camel_to_kebab-kebab_to_camel_example =
    camel_to_kebab-kebab_to_camel (codes "get-user-by-id2") get_user-is_lettered

abbrev file_bytes : List ℕ
file_bytes = codes "export const add = 1"

abbrev disk_fs : FileSystem
disk_fs = record {
  open_file = λ name. ok (a_file name file_bytes);
  stat = λ name. err not_exist;
  read_dir = λ name. ok [];
}

abbrev entry : DirEntry
entry = record { name = codes "add.ts"; size = 20; is_dir = false }

abbrev visits : List Visit
visits =
    visit dot (record { name = dot; size = 0; is_dir = true })
    ∷ visit (codes "math/add.ts") entry
    ∷ []

abbrev calc : Package Unit Unit
calc = record {
  name = codes "calc";
  runtime = ts_sandbox;
  sha256 = [];
  globs = codes "*.ts" ∷ [];
  executables = [];
  tools =
      record {
        entry_ts = codes "math/add.ts";
        idempotent = none;
        effect = read_only;
        description = [];
        params_schema = none;
        sig = none;
        resource_params = [];
      }
      ∷ [];
}

abbrev calc_loaded : LoadedPackage Unit Unit
calc_loaded = record { pkg = calc; files = disk_fs; dir = codes "/src" }

abbrev extractor : Extractor Unit Unit
extractor = record { extract = λ files name. none; tags = λ sig. [] }

abbrev paths : PackResult
paths = record {
  archive_path = codes "/out/calc.toolbox.pkg";
  manifest_path = codes "/out/toolbox.pkg.json";
}

abbrev packed_disk : Disk
packed_disk = (pack tar (outside visits) calc_loaded (codes "/out") []).0

pack_run : pack tar (outside visits) calc_loaded (codes "/out") [] ≡ (packed_disk, ok paths)
unfolding pack render segments
pack_run = refl

apart :
    (paths_of tar (outside visits) calc_loaded (codes "/out")).archive_path
    ≢ (paths_of tar (outside visits) calc_loaded (codes "/out")).manifest_path
unfolding render segments text_eq join
apart h =
    false≢true ((text_eq_iff (codes "/out/calc.toolbox.pkg") (codes "/out/toolbox.pkg.json")).1 h)

plain : All PlainVisit visits
unfolding trim_dot_slash text_eq
plain = (
  record { relative = refl; no_manifest = refl },
  (record { relative = refl; no_manifest = refl }, tt),
)

dist_accepted :
    (hash : Text)
    → (warnings : List ManifestError) × (validate_compiled json
          (stored (with_sha256 hash calc))
          dist_mode
        ≡ ok warnings)
unfolding validate_compiled
dist_accepted hash = ([], refl)

packed_back :
    LoadsBack tar
      (outside visits)
      json
      stored
      (reliable visits)
      extractor
      calc_loaded
      paths
      packed_disk
packed_back =
    load_archive-pack tar (outside visits) json stored (reliable visits) extractor calc_loaded
      (codes "/out") [] packed_disk paths pack_run apart plain dist_accepted

load_archive-pack_example :
    LoadsBack tar
      (outside visits)
      json
      stored
      (reliable visits)
      extractor
      calc_loaded
      paths
      packed_disk
load_archive-pack_example =
    load_archive-pack tar (outside visits) json stored (reliable visits) extractor calc_loaded
      (codes "/out") [] packed_disk paths pack_run apart plain dist_accepted

abbrev loaded_back : LoadedPackage Unit Unit
loaded_back = record {
  pkg =
      enrich_tool_metadata extractor (archive_file_system packed_back.a)
        (stored (with_sha256 ((outside visits).sha256_hex packed_back.bytes) calc));
  files = archive_file_system packed_back.a;
  dir = [];
}

load_archive-IsVerified_example :
    IsVerified tar
      (outside visits)
      json
      extractor
      paths.archive_path
      paths.manifest_path
      packed_disk
      loaded_back
load_archive-IsVerified_example =
    load_archive-IsVerified tar (outside visits) json extractor paths.archive_path
      paths.manifest_path packed_disk loaded_back packed_back.loads

abbrev small_header : Text → Header
small_header name = record {
  name = name;
  kind = reg_entry;
  mode = 420;
  size = 1;
  mod_time = 0;
  access_time = 0;
  change_time = 0;
  uid = 0;
  gid = 0;
  uname = [];
  gname = [];
}

abbrev small_steps : List TarStep
small_steps =
    an_entry (small_header (codes "./a/b.ts")) (codes "x")
    ∷ an_entry (small_header (codes "toolbox.pkg.json")) (0 ∷ [])
    ∷ []

abbrev small_tar : Tar
small_tar = record { write = λ es. none; read = λ bytes. some small_steps; info_header = λ e. none }

abbrev small_fs : ArchiveFs
small_fs = record {
  files = (codes "toolbox.pkg.json", 0 ∷ []) ∷ (codes "a/b.ts", codes "x") ∷ [];
  dirs = codes "a" ∷ dot ∷ [];
}

small_run : extract_archive json small_tar [] ≡ ok (small_fs, stored calc)
unfolding extract_archive remove
small_run = refl

extract_archive-IsTree_example :
    (steps : List TarStep) × (small_tar.read [] ≡ some steps)
    × (lookup (codes "a/b.ts") small_fs.files ≡ content_in (codes "a/b.ts") steps none)
    × IsTree small_fs
extract_archive-IsTree_example =
    extract_archive-IsTree json small_tar [] small_fs (stored calc) (codes "a/b.ts") small_run

extract_file-endless_example :
    (extract_file json (codes "/etc/a.ts") (codes "x") (new_archive_fs json, none) ≡ err endless)
    ↔ (is_rooted (codes "/etc/a.ts") ≡ true)
extract_file-endless_example =
    extract_file-endless json (codes "/etc/a.ts") (codes "x") (new_archive_fs json, none)

abbrev globs : Globs
globs = record {
  matches = λ p. some (codes "/src/math/util.ts" ∷ []);
  stat_is_dir = λ p. some false;
  relative = λ p. some (codes "math/util.ts");
}

abbrev shown_fs : SourceFs
shown_fs = record {
  base = disk_fs;
  files = codes "math/add.ts" ∷ codes "math/util.ts" ∷ [];
  dirs = codes "math" ∷ codes "math" ∷ dot ∷ [];
}

shown_run : new_source_fs globs disk_fs calc ≡ some shown_fs
unfolding new_source_fs
shown_run = refl

open_run :
    source_open shown_fs (codes "./math//util.ts") ≡ ok (a_file (codes "math/util.ts") file_bytes)
unfolding source_open
open_run = refl

new_source_fs-source_open_example :
    (IsDeclared globs calc (clean_fs_path (codes "./math//util.ts"))
      ⊎ IsAboveDeclared globs calc (clean_fs_path (codes "./math//util.ts")))
    × (disk_fs.open_file (clean_fs_path (codes "./math//util.ts"))
        ≡ ok (a_file (codes "math/util.ts") file_bytes))
new_source_fs-source_open_example =
    new_source_fs-source_open globs disk_fs calc shown_fs (codes "./math//util.ts")
      (a_file (codes "math/util.ts") file_bytes) shown_run open_run

relative_files : All (λ file. is_rooted file ≡ false) (allowed_typescript_files globs calc)
unfolding allowed_typescript_files
relative_files = (refl, (refl, tt))

new_source_fs_end_example :
    (f : SourceFs) × (new_source_fs globs disk_fs calc ≡ some f)
    × (f.files ≡ allowed_typescript_files globs calc)
    × IsDirectories f.files f.dirs
new_source_fs_end_example = new_source_fs_end globs disk_fs calc relative_files

-- A directory with a declared file and another one.
abbrev util_entry : DirEntry
util_entry = record { name = codes "util.ts"; size = 20; is_dir = false }

abbrev listing_fs : FileSystem
listing_fs = record disk_fs {
  read_dir =
      λ name. ok (util_entry ∷ record { name = codes "key.pem"; size = 7; is_dir = false } ∷ []);
}

abbrev listing_shown : SourceFs
listing_shown = record shown_fs { base = listing_fs }

listing_shown_run : new_source_fs globs listing_fs calc ≡ some listing_shown
unfolding new_source_fs
listing_shown_run = refl

read_dir_run : source_read_dir listing_shown (codes "math") ≡ ok (util_entry ∷ [])
unfolding source_read_dir
read_dir_run = refl

new_source_fs-source_read_dir_example :
    IsAboveDeclared globs calc (clean_fs_path (codes "math"))
    × All
        (λ e.
          IsDeclared globs calc (clean_fs_path (join (clean_fs_path (codes "math")) e.name))
          ⊎ IsAboveDeclared globs calc (clean_fs_path (join (clean_fs_path (codes "math")) e.name)))
        (util_entry ∷ [])
new_source_fs-source_read_dir_example =
    new_source_fs-source_read_dir globs listing_fs calc listing_shown (codes "math")
      (util_entry ∷ []) listing_shown_run read_dir_run
