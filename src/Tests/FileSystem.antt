-- ===== src/Tests/FileSystem.antt =====
-- Runs and instances for vfs/memfs.go.
use toolbox.Prelude.{◌≡◌, refl, true, false, if◌then◌else◌, some, ok, arith}
use toolbox.Prelude.Text.{Text, codes, text_eq}
use toolbox.Prelude.Assoc.{lookup, insert, remove}
use toolbox.Prelude.Int.{pos}
use toolbox.Vfs.Path.{clean_path, path_dir, render, segments, up_to_last_slash}
use toolbox.Vfs.MemFs.{
  MemFs, new_mem_fs, new_file, put, rename, read_all, write_file, exists_at, is_dir_at,
}
use toolbox.Vfs.Handle.{Handle, returns, read, write}
use toolbox.Vfs.Contents.{read_all-write_file, read-write}
use toolbox.Vfs.Faults.{rename_self}

cleans : clean_path (codes "a//b/./../c/") ≡ codes "/a/c"
unfolding clean_path render segments
cleans = refl

stays_in_root : clean_path (codes "../../etc") ≡ codes "/etc"
unfolding clean_path render segments
stays_in_root = refl

abbrev note : Text
note = codes "/note"

abbrev one_file : MemFs
one_file = put note (new_file 1 (codes "abc")) (new_mem_fs 0)

root_is_dir : is_dir_at (path_dir (clean_path note)) one_file ≡ true
unfolding is_dir_at path_dir clean_path render segments lookup insert remove text_eq new_mem_fs
    up_to_last_slash
root_is_dir = refl

read_all-write_file_example : (read_all note (write_file 2 note (codes "xy") one_file).0).1 ≡ (
    if text_eq (clean_path note) (clean_path note)
    then ok (codes "xy")
    else (read_all note one_file).1)
read_all-write_file_example = read_all-write_file 2 note note (codes "xy") one_file root_is_dir

abbrev cursor : Handle
cursor = record { path = note; offset = 2; read = true; write = true; append = false }

note_found : lookup note one_file.nodes ≡ some (new_file 1 (codes "abc"))
unfolding lookup insert remove text_eq new_mem_fs
note_found = refl

note_found_clean : lookup (clean_path note) one_file.nodes ≡ some (new_file 1 (codes "abc"))
unfolding clean_path render segments lookup insert remove text_eq new_mem_fs
note_found_clean = refl

read-write_example :
    let (fs', h', r) = write 100 2 (codes "xyz") one_file cursor in
    (r ≡ returns 3) × ((read (pos 3) fs' (record h' { offset = 2 })).2 ≡ returns (codes "xyz"))
read-write_example =
    read-write 100 2 (codes "xyz") one_file cursor (new_file 1 (codes "abc")) note_found
      (omega arith) (omega arith) (omega arith)

rename_self_example :
    ((rename note note one_file).1 ≡ ok tt)
    × (exists_at (clean_path note) (rename note note one_file).0 ≡ false)
rename_self_example =
    rename_self note note one_file (new_file 1 (codes "abc")) refl note_found_clean refl root_is_dir
