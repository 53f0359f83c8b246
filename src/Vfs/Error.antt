-- ===== src/Vfs/Error.antt =====
-- vfs/memfs.go and vfs/server.go: the errors of the file system, their texts, and `errResp`, which
-- reads the wire's error code back out of the text.
use toolbox.Prelude.{ℕ, Bool, [], ◌∷◌, ◌++◌, ◌&&◌, ◌||◌, if◌then◌else◌, leb, ltb, length, take}
use toolbox.Prelude.Text.{Text, codes, text_eq}

-- One constructor for each `fmt.Errorf`, with the path that it prints.
pub data FsError : Type 0 where
  not_found : Text → FsError
  not_a_directory : Text → FsError
  already_exists : Text → FsError
  parent_not_found : Text → FsError
  directory_not_empty : Text → FsError
  destination_parent_not_found : Text → FsError
  is_a_directory : Text → FsError
  symlinks_not_supported : FsError
  file_deleted : FsError
  invalid_seek_origin : Text → FsError
  negative_seek : FsError
  eof : FsError

-- err.Error(); a bad seek origin carries its decimal text.
unfoldable pub message : FsError → Text
message (not_found p) = codes "not found: " ++ p
message (not_a_directory p) = codes "not a directory: " ++ p
message (already_exists p) = codes "already exists: " ++ p
message (parent_not_found p) = codes "parent not found: " ++ p
message (directory_not_empty p) = codes "directory not empty: " ++ p
message (destination_parent_not_found p) = codes "destination parent not found: " ++ p
message (is_a_directory p) = codes "is a directory: " ++ p
message symlinks_not_supported = codes "symlinks not supported"
message file_deleted = codes "file deleted"
message (invalid_seek_origin n) = codes "invalid seek origin: " ++ n
message negative_seek = codes "negative seek position"
message eof = codes "EOF"

-- The error codes of protocol.go.
abbrev pub err_ok : ℕ
err_ok = 0

abbrev pub err_not_found : ℕ
err_not_found = 1

abbrev pub err_already_exists : ℕ
err_already_exists = 2

abbrev pub err_permission : ℕ
err_permission = 3

abbrev pub err_not_dir : ℕ
err_not_dir = 4

abbrev pub err_not_file : ℕ
err_not_file = 5

abbrev pub err_not_empty : ℕ
err_not_empty = 6

abbrev pub err_io : ℕ
err_io = 7

abbrev pub err_invalid_input : ℕ
err_invalid_input = 8

abbrev pub err_unsupported : ℕ
err_unsupported = 9

-- Whether the loop finds `sub` at some index of `s`.
unfoldable pub contains_linear : Text → Text → Bool
unfolding text_eq
contains_linear [] sub = text_eq [] sub
contains_linear (c ∷ s) sub = text_eq (take (length sub) (c ∷ s)) sub || contains_linear s sub

-- `contains` of server.go
unfoldable pub contains_text : Text → Text → Bool
contains_text s sub =
    leb (length sub) (length s) && (text_eq s sub || ltb 0 (length s) && contains_linear s sub)

-- The `switch` of `errResp`.
unfoldable pub error_code : Text → ℕ
error_code msg =
    if contains_text msg (codes "not found")
    then err_not_found
    else if contains_text msg (codes "already exists")
    then err_already_exists
    else if contains_text msg (codes "not a directory")
    then err_not_dir
    else if contains_text msg (codes "is a directory")
    then err_not_file
    else if contains_text msg (codes "not empty")
    then err_not_empty
    else if contains_text msg (codes "not supported")
    then err_unsupported
    else if contains_text msg (codes "permission")
    then err_permission
    else err_io
