-- ===== src/Vfs/Handle.antt =====
-- vfs/memfs.go: opening a file, and reading, writing, seeking and resizing through a handle.
use toolbox.Prelude.{
  ℕ, ◌+◌, ◌-◌, Bool, List, [], ◌++◌, ◌&&◌, ◌==◌, leb, ltb, Option, none, some, if◌then◌else◌,
  length, take, drop, replicate, ok, err,
}
use toolbox.Prelude.Text.{Text}
use toolbox.Prelude.Assoc.{lookup}
use toolbox.Prelude.Int.{ℤ, pos, negsuc, ◌+ℤ◌, wrap_int64}
use toolbox.Vfs.Path.{clean_path, path_dir}
use toolbox.Vfs.Error.{
  FsError, not_found, already_exists, parent_not_found, is_a_directory, file_deleted,
  invalid_seek_origin, negative_seek, eof,
}
use toolbox.Vfs.MemFs.{
  Node, MemFs, Op, Found, absent, directory, file, kind_of, is_dir_at, put, new_file,
}

pub record OpenOpts : Type 0 where
  pub read : Bool
  pub write : Bool
  pub create : Bool
  pub create_new : Bool
  pub append : Bool
  pub truncate : Bool

-- memFileHandle. `offset` is its `pos`, an int64 that is never negative: `Seek` refuses a negative
-- position, and the other methods panic before they could store one.
pub record Handle : Type 0 where
  pub path : Text
  pub offset : ℕ
  pub read : Bool
  pub write : Bool
  pub append : Bool

abbrev pub fresh_handle : Text → OpenOpts → Handle
fresh_handle q opts = record {
  path = q;
  offset = 0;
  read = opts.read;
  write = opts.write;
  append = opts.append;
}

-- A new file in a directory that exists.
abbrev pub create_file : ℕ → Text → OpenOpts → MemFs → Op Handle
create_file now q opts fs =
    let parent = path_dir q in
    if is_dir_at parent fs
    then (put q (new_file now []) fs, ok (fresh_handle q opts))
    else (fs, err (parent_not_found parent))

abbrev pub open_found : ℕ → Text → OpenOpts → Found → MemFs → Op Handle
open_found now q opts absent fs =
    if opts.create_new
    then create_file now q opts fs
    else if opts.create
    then create_file now q opts fs
    else (fs, err (not_found q))
open_found now q opts (directory node) fs =
    if opts.create_new then (fs, err (already_exists q)) else (fs, err (is_a_directory q))
open_found now q opts (file node) fs =
    if opts.create_new
    then (fs, err (already_exists q))
    else if opts.truncate && opts.write
    then (put q (new_file now []) fs, ok (fresh_handle q opts))
    else (fs, ok (fresh_handle q opts))

-- MemFS.Open
unfoldable pub open_file : ℕ → Text → OpenOpts → MemFs → Op Handle
open_file now p opts fs =
    let q = clean_path p in open_found now q opts (kind_of (lookup q fs.nodes)) fs

-- How a handle's method ends: with a value, with an error, or with a panic, which nothing recovers.
pub data Ending (A : Type 0) : Type 0 where
  returns : A → Ending A
  fails : FsError → Ending A
  panics : Ending A

-- A method leaves a file system and a handle.
abbrev pub Method : Type 0 → Type 0
Method A = MemFs × Handle × Ending A

-- The data from `offset` up to `end`, or up to the data's end if that comes first.
abbrev pub read_up_to : List ℕ → Handle → ℤ → Handle × Ending (List ℕ)
read_up_to content h (negsuc n) = (h, panics)
read_up_to content h (pos end) =
    let stop = if ltb (length content) end then length content else end in
    if ltb stop h.offset
    then (h, panics)
    else (record h { offset = stop }, returns (take (stop - h.offset) (drop h.offset content)))

abbrev pub read_node : ℤ → MemFs → Handle → Option Node → Method (List ℕ)
read_node len fs h none = (fs, h, fails file_deleted)
read_node len fs h (some node) =
    if leb (length node.content) h.offset
    then (fs, h, fails eof)
    else let (h', r) = read_up_to node.content h (wrap_int64 (pos h.offset +ℤ len)) in (fs, h', r)

-- memFileHandle.Read; the count that it returns is the length of the data.
unfoldable pub read : ℤ → MemFs → Handle → Method (List ℕ)
unfolding wrap_int64 ◌+ℤ◌
read len fs h = read_node len fs h (lookup h.path fs.nodes)

-- copy(data[p:], bytes) where `data` reaches the end of the copy
unfoldable pub overwrite : ℕ → List ℕ → List ℕ → List ℕ
overwrite p bytes content = take p content ++ (bytes ++ drop (p + length bytes) content)

-- make([]byte, n) and the copy into it: zeros behind the old data
unfoldable pub grow : ℕ → List ℕ → List ℕ
grow n content = content ++ replicate (n - length content) 0

-- The data after a write that ends at `end`; `max_alloc` is the longest slice that `make` makes.
abbrev pub write_to : ℕ → ℕ → List ℕ → List ℕ → ℤ → Ending (List ℕ)
write_to max_alloc p bytes content (negsuc n) = panics
write_to max_alloc p bytes content (pos end) =
    if ltb (length content) end
    then (if ltb max_alloc end then panics else returns (overwrite p bytes (grow end content)))
    else if ltb end p
    then panics
    else returns (overwrite p bytes content)

abbrev pub store_written : ℕ → ℕ → List ℕ → MemFs → Handle → Node → Ending (List ℕ) → Method ℕ
store_written now p bytes fs h node (returns content') = (
  put h.path (record node { content = content'; mod_time = now }) fs,
  record h { offset = p + length bytes },
  returns (length bytes),
)
store_written now p bytes fs h node (fails e) = (fs, h, fails e)
store_written now p bytes fs h node panics = (fs, h, panics)

abbrev pub write_node : ℕ → ℕ → List ℕ → MemFs → Handle → Option Node → Method ℕ
write_node max_alloc now bytes fs h none = (fs, h, fails file_deleted)
write_node max_alloc now bytes fs h (some node) =
    let p = if h.append then length node.content else h.offset in
    let end = wrap_int64 (pos p +ℤ pos (length bytes)) in
    store_written now p bytes fs h node (write_to max_alloc p bytes node.content end)

-- memFileHandle.Write
unfoldable pub write : ℕ → ℕ → List ℕ → MemFs → Handle → Method ℕ
unfolding wrap_int64 ◌+ℤ◌
write max_alloc now bytes fs h = write_node max_alloc now bytes fs h (lookup h.path fs.nodes)

-- The decimal text of a bad origin is left to the caller.
abbrev pub seek_to : MemFs → Handle → ℤ → Method ℕ
seek_to fs h (pos n) = (fs, record h { offset = n }, returns n)
seek_to fs h (negsuc n) = (fs, h, fails negative_seek)

abbrev pub seek_node : (ℕ → Text) → ℕ → ℤ → MemFs → Handle → Option Node → Method ℕ
seek_node show_int from by fs h none = (fs, h, fails file_deleted)
seek_node show_int from by fs h (some node) =
    if from == 0
    then seek_to fs h by
    else if from == 1
    then seek_to fs h (wrap_int64 (pos h.offset +ℤ by))
    else if from == 2
    then seek_to fs h (wrap_int64 (pos (length node.content) +ℤ by))
    else (fs, h, fails (invalid_seek_origin (show_int from)))

-- memFileHandle.Seek; `show_int` is the `%d` of its error.
unfoldable pub seek : (ℕ → Text) → ℕ → ℤ → MemFs → Handle → Method ℕ
unfolding wrap_int64 ◌+ℤ◌
seek show_int from by fs h = seek_node show_int from by fs h (lookup h.path fs.nodes)

abbrev pub resized : ℕ → List ℕ → ℤ → Ending (List ℕ)
resized max_alloc content (negsuc n) = panics
resized max_alloc content (pos n) =
    if ltb (length content) n
    then (if ltb max_alloc n then panics else returns (grow n content))
    else returns (take n content)

abbrev pub store_resized : ℕ → MemFs → Handle → Node → Ending (List ℕ) → Method (Unit {0})
store_resized now fs h node (returns content') =
    (put h.path (record node { content = content'; mod_time = now }) fs, h, returns tt)
store_resized now fs h node (fails e) = (fs, h, fails e)
store_resized now fs h node panics = (fs, h, panics)

abbrev pub set_len_node : ℕ → ℕ → ℤ → MemFs → Handle → Option Node → Method (Unit {0})
set_len_node max_alloc now size fs h none = (fs, h, fails file_deleted)
set_len_node max_alloc now size fs h (some node) =
    store_resized now fs h node (resized max_alloc node.content size)

-- memFileHandle.SetLen
unfoldable pub set_len : ℕ → ℕ → ℤ → MemFs → Handle → Method (Unit {0})
set_len max_alloc now size fs h = set_len_node max_alloc now size fs h (lookup h.path fs.nodes)
