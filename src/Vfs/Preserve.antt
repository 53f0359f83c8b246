-- ===== src/Vfs/Preserve.antt =====
-- vfs/memfs.go: the operations of the file system and its tree, each on its own.
use toolbox.Prelude.{
  ℕ, true, false, List, ◌++◌, [], ◌&&◌, none, some, ◌≡◌, refl, arith, sym, ◌∙◌, Bool-cases,
  Option-cases, inl, inr,
}
use toolbox.Prelude.Text.{Text, text_eq}
use toolbox.Prelude.Assoc.{lookup}
use toolbox.Prelude.Int.{ℤ}
use toolbox.Vfs.Path.{clean_path, path_dir}
use toolbox.Vfs.Clean.{clean_path_idem}
use toolbox.Vfs.MemFs.{
  Node, MemFs, absent, kind_of, root, put, new_dir, new_file, is_dir_at, exists_at, any_below,
  create_dir, remove_dir, remove_file,
}
use toolbox.Vfs.Handle.{
  OpenOpts, Handle, Ending, returns, fails, panics, open_found, create_file, open_file, read, write,
  seek, set_len, store_written, store_resized,
}
use toolbox.Vfs.Tree.{IsTree, put-IsTree, erase-IsTree, erase_file-IsTree, no_child_below}

is_dir_of :
    (k : Text) (fs : MemFs) (node : Node)
    → lookup k fs.nodes ≡ some node
    → is_dir_at k fs ≡ node.is_dir
unfolding is_dir_at
is_dir_of k fs node e = rw (e, is_dir_at)

exists_of :
    (k : Text) (fs : MemFs) (node : Node) → lookup k fs.nodes ≡ some node → exists_at k fs ≡ true
unfolding exists_at
exists_of k fs node e = rw (e, exists_at)

not_dir_of_absent : (k : Text) (fs : MemFs) → exists_at k fs ≡ false → is_dir_at k fs ≡ false
unfolding exists_at is_dir_at
not_dir_of_absent k fs h = ground arith

not_dir_of_none : (k : Text) (fs : MemFs) → lookup k fs.nodes ≡ none → is_dir_at k fs ≡ false
unfolding is_dir_at
not_dir_of_none k fs e = rw (e, is_dir_at)

-- A new node where no directory stands, in a directory that exists.
put_new-IsTree :
    (p : Text) (node : Node) (fs : MemFs)
    → IsTree fs
    → is_dir_at (clean_path p) fs ≡ false
    → is_dir_at (path_dir (clean_path p)) fs ≡ true
    → IsTree (put (clean_path p) node fs)
put_new-IsTree p node fs t no_dir parent =
    put-IsTree (clean_path p) node fs t (λ h. cc) (clean_path_idem p) parent

pub create_dir-IsTree :
    (now : ℕ) (p : Text) (fs : MemFs) → IsTree fs → IsTree (create_dir now p fs).0
unfolding create_dir
create_dir-IsTree now p fs t = elim (Bool-cases (exists_at (clean_path p) fs)) [
  | inl e ↦ rw e t
  | inr e ↦ elim (Bool-cases (is_dir_at (path_dir (clean_path p)) fs)) [
    | inl d ↦
        rw (e, d) (put_new-IsTree p (new_dir now) fs t (not_dir_of_absent (clean_path p) fs e) d)
    | inr d ↦ rw (e, d) t
  ]
]

pub remove_file-IsTree : (p : Text) (fs : MemFs) → IsTree fs → IsTree (remove_file p fs).0
unfolding remove_file
remove_file-IsTree p fs t = elim (Option-cases (lookup (clean_path p) fs.nodes)) [
  | inl e ↦ rw e t
  | inr (node, e) ↦ elim (Bool-cases node.is_dir) [
    | inl d ↦ rw (e, d) t
    | inr d ↦
        rw (e, d) (erase_file-IsTree (clean_path p) fs t (is_dir_of (clean_path p) fs node e ∙ d))
  ]
]

pub remove_dir-IsTree :
    (p : Text) (fs : MemFs)
    → IsTree fs
    → text_eq (clean_path p) root ≡ false
    → IsTree (remove_dir p fs).0
unfolding remove_dir
remove_dir-IsTree p fs t not_root = elim (Option-cases (lookup (clean_path p) fs.nodes)) [
  | inl e ↦ rw e t
  | inr (node, e) ↦ elim (Bool-cases node.is_dir) [
    | inr d ↦ rw (e, d) t
    | inl d ↦ elim (Bool-cases (any_below (clean_path p ++ root) fs.nodes)) [
      | inl b ↦ rw (e, d, b) t
      | inr b ↦
          rw (e, d, b)
            (erase-IsTree (clean_path p) fs t not_root
              (λ k h n. no_child_below (clean_path p) fs t not_root b k h))
    ]
  ]
]

-- A node whose content changes in its place.
put_same-IsTree :
    (k : Text) (node node' : Node) (fs : MemFs)
    → IsTree fs
    → lookup k fs.nodes ≡ some node
    → node'.is_dir ≡ node.is_dir
    → IsTree (put k node' fs)
put_same-IsTree k node node' fs t e same =
    let here = exists_of k fs node e in
    put-IsTree k node' fs t (λ h. same ∙ sym (is_dir_of k fs node e) ∙ h) (t.clean k here)
      (t.parents k here)

create_file-IsTree :
    (now : ℕ) (p : Text) (opts : OpenOpts) (fs : MemFs)
    → IsTree fs
    → is_dir_at (clean_path p) fs ≡ false
    → IsTree (create_file now (clean_path p) opts fs).0
create_file-IsTree now p opts fs t no_dir =
    elim (Bool-cases (is_dir_at (path_dir (clean_path p)) fs)) [
      | inl d ↦ rw d (put_new-IsTree p (new_file now []) fs t no_dir d)
      | inr d ↦ rw d t
    ]

open_absent-IsTree :
    (now : ℕ) (p : Text) (opts : OpenOpts) (fs : MemFs)
    → IsTree fs
    → is_dir_at (clean_path p) fs ≡ false
    → IsTree (open_found now (clean_path p) opts absent fs).0
open_absent-IsTree now p opts fs t no_dir =
    let made = create_file-IsTree now p opts fs t no_dir in
    elim (Bool-cases opts.create_new) [
      | inl c ↦ rw c made
      | inr c ↦ elim (Bool-cases opts.create) [ inl d ↦ rw (c, d) made | inr d ↦ rw (c, d) t ]
    ]

open_present-IsTree :
    (now : ℕ) (p : Text) (opts : OpenOpts) (fs : MemFs) (node : Node)
    → IsTree fs
    → lookup (clean_path p) fs.nodes ≡ some node
    → IsTree (open_found now (clean_path p) opts (kind_of (some node)) fs).0
open_present-IsTree now p opts fs node t e = elim (Bool-cases node.is_dir) [
  | inl d ↦ rw d (elim (Bool-cases opts.create_new) [ inl c ↦ rw c t | inr c ↦ rw c t ])
  | inr d ↦
      let emptied = put_same-IsTree (clean_path p) node (new_file now []) fs t e (sym d) in
      rw d (elim (Bool-cases opts.create_new) [
        | inl c ↦ rw c t
        | inr c ↦ elim (Bool-cases (opts.truncate && opts.write)) [
          | inl r ↦ rw (c, r) emptied
          | inr r ↦ rw (c, r) t
        ]
      ])
]

pub open_file-IsTree :
    (now : ℕ) (p : Text) (opts : OpenOpts) (fs : MemFs)
    → IsTree fs
    → IsTree (open_file now p opts fs).0
unfolding open_file
open_file-IsTree now p opts fs t = elim (Option-cases (lookup (clean_path p) fs.nodes)) [
  | inl e ↦ rw e (open_absent-IsTree now p opts fs t (not_dir_of_none (clean_path p) fs e))
  | inr (node, e) ↦ rw e (open_present-IsTree now p opts fs node t e)
]

-- The methods of a handle change at most the content of a node.
pub fs-read : (len : ℤ) (fs : MemFs) (h : Handle) → (read len fs h).0 ≡ fs
unfolding read
fs-read len fs h = ground arith

pub fs-seek :
    (show_int : ℕ → Text) (from : ℕ) (by : ℤ) (fs : MemFs) (h : Handle)
    → (seek show_int from by fs h).0 ≡ fs
unfolding seek
fs-seek show_int from by fs h = ground arith

module _ (fs : MemFs) (h : Handle) (node : Node) (t : IsTree fs)
    (e : lookup h.path fs.nodes ≡ some node) where
  store_written-IsTree :
      (now p : ℕ) (bytes : List ℕ) (r : Ending (List ℕ))
      → IsTree (store_written now p bytes fs h node r).0
  store_written-IsTree now p bytes (returns content') =
      put_same-IsTree h.path node (record node { content = content'; mod_time = now }) fs t e refl
  store_written-IsTree now p bytes (fails x) = t
  store_written-IsTree now p bytes panics = t

  store_resized-IsTree : (now : ℕ) (r : Ending (List ℕ)) → IsTree (store_resized now fs h node r).0
  store_resized-IsTree now (returns content') =
      put_same-IsTree h.path node (record node { content = content'; mod_time = now }) fs t e refl
  store_resized-IsTree now (fails x) = t
  store_resized-IsTree now panics = t

pub write-IsTree :
    (max_alloc now : ℕ) (bytes : List ℕ) (fs : MemFs) (h : Handle)
    → IsTree fs
    → IsTree (write max_alloc now bytes fs h).0
unfolding write
write-IsTree max_alloc now bytes fs h t = elim (Option-cases (lookup h.path fs.nodes)) [
  | inl e ↦ rw e t
  | inr (node, e) ↦ rw e (store_written-IsTree fs h node t e now _ bytes _)
]

pub set_len-IsTree :
    (max_alloc now : ℕ) (size : ℤ) (fs : MemFs) (h : Handle)
    → IsTree fs
    → IsTree (set_len max_alloc now size fs h).0
unfolding set_len
set_len-IsTree max_alloc now size fs h t = elim (Option-cases (lookup h.path fs.nodes)) [
  | inl e ↦ rw e t
  | inr (node, e) ↦ rw e (store_resized-IsTree fs h node t e now _)
]
