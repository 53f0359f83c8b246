-- ===== src/Vfs/MemFs.antt =====
-- vfs/memfs.go: the in-memory file system. `now` is the time that `time.Now` returns, in nanoseconds.
use Prim.Native.Nat.{Ordering}
use toolbox.Prelude.{
  ℕ, Bool, true, false, not, List, [], ◌∷◌, ◌++◌, ◌&&◌, ◌||◌, Option, none, some, if◌then◌else◌,
  length, drop, Result, ok, err,
}
use toolbox.Prelude.Text.{Text, text_eq, has_prefix, compare_text}
use toolbox.Prelude.Assoc.{Assoc, lookup, remove, insert}
use toolbox.Vfs.Path.{clean_path, path_dir, has_slash}
use toolbox.Vfs.Error.{
  FsError, not_found, not_a_directory, already_exists, parent_not_found, directory_not_empty,
  destination_parent_not_found, is_a_directory, symlinks_not_supported,
}

-- memNode
pub record Node : Type 0 where
  pub is_dir : Bool
  pub content : List ℕ
  pub mod_time : ℕ

-- The map of a MemFS, in an order in which it may be iterated.
pub record MemFs : Type 0 where
  pub nodes : Assoc Node

-- An operation leaves a file system and returns a value or an error.
abbrev pub Op : Type 0 → Type 0
Op A = MemFs × Result FsError A

abbrev pub root : Text
root = b'/' ∷ []

abbrev pub new_dir : ℕ → Node
new_dir now = record { is_dir = true; content = []; mod_time = now }

abbrev pub new_file : ℕ → List ℕ → Node
new_file now content = record { is_dir = false; content = content; mod_time = now }

unfoldable pub new_mem_fs : ℕ → MemFs
new_mem_fs now = record { nodes = (root, new_dir now) ∷ [] }

-- MetadataWire
pub record Metadata : Type 0 where
  pub is_dir : Bool
  pub is_file : Bool
  pub len : ℕ
  pub accessed : ℕ
  pub created : ℕ
  pub modified : ℕ

unfoldable pub node_metadata : Node → Metadata
node_metadata node = record {
  is_dir = node.is_dir;
  is_file = not node.is_dir;
  len = length node.content;
  accessed = node.mod_time;
  created = node.mod_time;
  modified = node.mod_time;
}

-- `node, ok := fs.nodes[p]` with `ok` and `node.isDir` in one value
pub data Found : Type 0 where
  absent : Found
  directory : Node → Found
  file : Node → Found

abbrev pub kind_of : Option Node → Found
kind_of none = absent
kind_of (some node) = if node.is_dir then directory node else file node

unfoldable pub metadata : Text → MemFs → Op Metadata
unfolding node_metadata
metadata p fs =
    let q = clean_path p in
    (
      fs,
      elim (lookup q fs.nodes) [ none ↦ err (not_found q) | some node ↦ ok (node_metadata node) ],
    )

-- pNode, ok := fs.nodes[parent]; ok && pNode.isDir
unfoldable pub is_dir_at : Text → MemFs → Bool
is_dir_at p fs = elim (lookup p fs.nodes) [ none ↦ false | some node ↦ node.is_dir ]

unfoldable pub exists_at : Text → MemFs → Bool
exists_at p fs = elim (lookup p fs.nodes) [ none ↦ false | some _ ↦ true ]

abbrev pub is_less : Text → Text → Bool
is_less s t = elim (compare_text s t) [ Ordering.lt ↦ true | _ ↦ false ]

abbrev pub put : Text → Node → MemFs → MemFs
put p node fs = record { nodes = insert p node fs.nodes }

abbrev pub erase : Text → MemFs → MemFs
erase p fs = record { nodes = remove p fs.nodes }

unfoldable pub create_dir : ℕ → Text → MemFs → Op (Unit {0})
create_dir now p fs =
    let q = clean_path p in
    let parent = path_dir q in
    if exists_at q fs
    then (fs, err (already_exists q))
    else if is_dir_at parent fs
    then (put q (new_dir now) fs, ok tt)
    else (fs, err (parent_not_found parent))

-- Whether some key begins with a text.
unfoldable pub any_below : Text → Assoc Node → Bool
any_below prefix [] = false
any_below prefix ((name, node) ∷ m) = has_prefix name prefix || any_below prefix m

abbrev remove_dir_at : Text → Found → MemFs → Op (Unit {0})
remove_dir_at q absent fs = (fs, err (not_found q))
remove_dir_at q (file node) fs = (fs, err (not_a_directory q))
remove_dir_at q (directory node) fs =
    if any_below (q ++ root) fs.nodes
    then (fs, err (directory_not_empty q))
    else (erase q fs, ok tt)

unfoldable pub remove_dir : Text → MemFs → Op (Unit {0})
remove_dir p fs = let q = clean_path p in remove_dir_at q (kind_of (lookup q fs.nodes)) fs

abbrev remove_file_at : Text → Found → MemFs → Op (Unit {0})
remove_file_at q absent fs = (fs, err (not_found q))
remove_file_at q (directory node) fs = (fs, err (is_a_directory q))
remove_file_at q (file node) fs = (erase q fs, ok tt)

unfoldable pub remove_file : Text → MemFs → Op (Unit {0})
remove_file p fs = let q = clean_path p in remove_file_at q (kind_of (lookup q fs.nodes)) fs

unfoldable pub readlink : Text → MemFs → Op Text
readlink p fs = (fs, err symlinks_not_supported)

-- toMove: the keys below `from`, each with its new name
unfoldable pub moves : Text → Text → Assoc Node → List (Text × Text)
moves from to [] = []
moves from to ((name, node) ∷ m) =
    let rest = moves from to m in
    if has_prefix name (from ++ root) then (name, to ++ drop (length from) name) ∷ rest else rest

-- fs.nodes[m.new] = fs.nodes[m.old]; delete(fs.nodes, m.old). A key is deleted in its own round
-- only, so the node at `m.old` is there.
unfoldable pub move_node : Text → Text → Assoc Node → Assoc Node
move_node old new m = elim (lookup old m) [
  | none ↦ remove old m
  | some node ↦ remove old (insert new node m)
]

unfoldable pub move_all : List (Text × Text) → Assoc Node → Assoc Node
move_all [] m = m
move_all ((old, new) ∷ rest) m = move_all rest (move_node old new m)

abbrev moved_below : Text → Text → Node → Assoc Node → Assoc Node
moved_below from to node m = if node.is_dir then move_all (moves from to m) m else m

unfoldable pub rename : Text → Text → MemFs → Op (Unit {0})
unfolding moves move_all move_node
rename p p' fs =
    let from = clean_path p in
    let to = clean_path p' in
    let parent = path_dir to in
    elim (lookup from fs.nodes) [
      | none ↦ (fs, err (not_found from))
      | some node ↦
          if is_dir_at parent fs
          then (
            record { nodes = remove from (insert to node (moved_below from to node fs.nodes)) },
            ok tt,
          )
          else (fs, err (destination_parent_not_found parent))
    ]

-- DirEntryWire
pub record DirEntry : Type 0 where
  pub name : Text
  pub meta : Metadata

-- name[len(prefix):] of a key right below a directory: not empty, and with no slash in it
unfoldable pub child_name : Text → Text → Option Text
child_name prefix name =
    let rest = drop (length prefix) name in
    if has_prefix name prefix && not (text_eq rest [] || has_slash rest) then some rest else none

unfoldable pub children : Text → Assoc Node → List DirEntry
unfolding child_name node_metadata
children prefix [] = []
children prefix ((name, node) ∷ m) =
    let rest = children prefix m in
    elim (child_name prefix name) [
      | none ↦ rest
      | some r ↦ record { name = r; meta = node_metadata node } ∷ rest
    ]

-- sort.Slice by name; the names of one directory are different, so any sort gives this order.
unfoldable pub insert_entry : DirEntry → List DirEntry → List DirEntry
insert_entry e [] = e ∷ []
insert_entry e (d ∷ ds) =
    let rest = insert_entry e ds in if is_less d.name e.name then d ∷ rest else e ∷ d ∷ ds

unfoldable pub sort_entries : List DirEntry → List DirEntry
unfolding insert_entry
sort_entries [] = []
sort_entries (e ∷ es) = insert_entry e (sort_entries es)

abbrev pub dir_prefix : Text → Text
dir_prefix q = if text_eq q root then q else q ++ root

abbrev read_dir_at : Text → Found → MemFs → Op (List DirEntry)
read_dir_at q absent fs = (fs, err (not_found q))
read_dir_at q (file node) fs = (fs, err (not_a_directory q))
read_dir_at q (directory node) fs = (fs, ok (sort_entries (children (dir_prefix q) fs.nodes)))

unfoldable pub read_dir : Text → MemFs → Op (List DirEntry)
unfolding sort_entries children text_eq
read_dir p fs = let q = clean_path p in read_dir_at q (kind_of (lookup q fs.nodes)) fs

abbrev read_all_at : Text → Found → MemFs → Op (List ℕ)
read_all_at q absent fs = (fs, err (not_found q))
read_all_at q (directory node) fs = (fs, err (is_a_directory q))
read_all_at q (file node) fs = (fs, ok node.content)

unfoldable pub read_all : Text → MemFs → Op (List ℕ)
read_all p fs = let q = clean_path p in read_all_at q (kind_of (lookup q fs.nodes)) fs

unfoldable pub write_file : ℕ → Text → List ℕ → MemFs → Op (Unit {0})
write_file now p content fs =
    let q = clean_path p in
    let parent = path_dir q in
    if is_dir_at parent fs
    then (put q (new_file now content) fs, ok tt)
    else (fs, err (parent_not_found parent))
