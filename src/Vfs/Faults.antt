-- ===== src/Vfs/Faults.antt =====
-- vfs/: a rename onto itself and a read of a negative length.
use toolbox.Prelude.{
  ℕ, ◌+◌, ◌-◌, ◌<◌, ◌^◌, true, false, List, none, some, leb, if◌then◌else◌, length, ok, ◌≡◌, refl,
  arith, sym, ◌∙◌, subst,
}
use toolbox.Prelude.Text.{Text, text_eq_refl}
use toolbox.Prelude.Assoc.{lookup}
use toolbox.Prelude.Int.{pos, negsuc, ◌+ℤ◌, wrap_int64}
use toolbox.Vfs.Path.{clean_path, path_dir}
use toolbox.Vfs.MemFs.{Node, MemFs, put, erase, is_dir_at, exists_at, rename}
use toolbox.Vfs.Handle.{Handle, Method, returns, fails, panics, read, read_up_to}
use toolbox.Vfs.Server.{
  Env, Request, Response, Server, op_file_read, op_tag, get_handle, with_found, after_method,
  eof_as_empty, dispatch_tag, dispatch,
}
use toolbox.Vfs.Tree.{exists_at-erase}

rename_same :
    (p p' : Text) (fs : MemFs) (node : Node)
    → clean_path p' ≡ clean_path p
    → lookup (clean_path p) fs.nodes ≡ some node
    → node.is_dir ≡ false
    → is_dir_at (path_dir (clean_path p)) fs ≡ true
    → rename p p' fs ≡ (erase (clean_path p) (put (clean_path p) node fs), ok tt)
unfolding rename
rename_same p p' fs node same found no_dir parent =
    rw (found, rename) (rw same (rw parent (rw no_dir)))

-- Renaming a file in a directory that exists to a path that is cleaned to the file's own succeeds
-- and deletes the file.
pub rename_self :
    (p p' : Text) (fs : MemFs) (node : Node)
    → clean_path p' ≡ clean_path p
    → lookup (clean_path p) fs.nodes ≡ some node
    → node.is_dir ≡ false
    → is_dir_at (path_dir (clean_path p)) fs ≡ true
    → ((rename p p' fs).1 ≡ ok tt) × (exists_at (clean_path p) (rename p p' fs).0 ≡ false)
rename_self p p' fs node same found no_dir parent =
    let q : Text = clean_path p in
    rw (rename_same p p' fs node same found no_dir parent)
      (refl, exists_at-erase q q (put q node fs) ∙ rw (text_eq_refl q))

-- Taking n + 1 bytes from a position.
back_by :
    (p n : ℕ)
    → p < 2 ^ 63
    → n < 2 ^ 63
    → wrap_int64 (pos p +ℤ negsuc n) ≡ (if leb (n + 1) p then pos (p - (n + 1)) else negsuc (n - p))
unfolding wrap_int64 ◌+ℤ◌
back_by p n hp hn = ground arith

read_up_to-back :
    (content : List ℕ) (h : Handle) (n : ℕ)
    → (read_up_to content h
        (if leb (n + 1) h.offset then pos (h.offset - (n + 1)) else negsuc (n - h.offset))).1
      ≡ panics
read_up_to-back content h n = ground arith

-- A read of a negative length through a handle that stands inside its file panics.
pub read_negative :
    (n : ℕ) (fs : MemFs) (h : Handle) (node : Node)
    → n < 2 ^ 63
    → length node.content < 2 ^ 63
    → lookup h.path fs.nodes ≡ some node
    → h.offset < length node.content
    → (read (negsuc n) fs h).2 ≡ panics
unfolding read
read_negative n fs h node small len found inside =
    let more : leb (length node.content) h.offset ≡ false = ground arith in
    rw found
      (rw more (rw (back_by h.offset n (omega arith) small) (read_up_to-back node.content h n)))

after_method-panics :
    (s : Server) (id : ℕ) (m : Method (List ℕ)) (resp : List ℕ → Response)
    → m.2 ≡ panics
    → after_method s id (eof_as_empty m) resp ≡ none
unfolding after_method
after_method-panics s id (fs, h, returns a) resp e = cc
after_method-panics s id (fs, h, fails x) resp e = cc
after_method-panics s id (fs, h, panics) resp e = refl

-- A request to read a negative length ends the server, when its handle is open and stands inside
-- the data of a file that exists, and both lengths are below 2 ^ 63.
pub dispatch_negative :
    (env : Env) (req : Request) (s : Server) (h : Handle) (node : Node) (n : ℕ)
    → op_tag req.op ≡ op_file_read
    → get_handle req.handle s.handles ≡ some h
    → lookup h.path s.fs.nodes ≡ some node
    → h.offset < length node.content
    → length node.content < 2 ^ 63
    → req.len ≡ negsuc n
    → n < 2 ^ 63
    → dispatch env req s ≡ none
unfolding dispatch dispatch_tag with_found
dispatch_negative env req s h node n tag open_at found inside size len small =
    let panic =
      subst (λ k. (read k s.fs h).2 ≡ panics) (sym len)
        (read_negative n s.fs h node small size found inside) in
    rw tag (rw open_at (after_method-panics s req.handle (read req.len s.fs h) _ panic))
