-- ===== src/Vfs/Steps.antt =====
-- vfs/server.go: one request and the tree of the file system.
use toolbox.Prelude.{ℕ, false, List, Option, none, some, ◌≡◌, arith, sym, ◌∙◌, subst, ok, err}
use toolbox.Prelude.Text.{Text, text_eq}
use toolbox.Vfs.Path.{clean_path}
use toolbox.Vfs.MemFs.{Op, MemFs, root, readlink, metadata, read_dir}
use toolbox.Vfs.Handle.{Handle, returns, fails, panics, Method, read}
use toolbox.Vfs.Server.{
  OpTag, op_readlink, op_read_dir, op_create_dir, op_remove_dir, op_rename, op_metadata,
  op_symlink_metadata, op_remove_file, op_open, op_mount, op_file_read, op_file_write, op_file_seek,
  op_file_flush, op_file_close, op_file_set_len, op_other, op_tag, Request, Response, Server, Env,
  Step, answer, register, after_method, with_found, eof_as_empty, opts_of, dispatch_tag, dispatch,
}
use toolbox.Vfs.Tree.{IsTree}
use toolbox.Vfs.Preserve.{
  create_dir-IsTree, remove_file-IsTree, remove_dir-IsTree, open_file-IsTree, fs-read, fs-seek,
  write-IsTree, set_len-IsTree,
}

-- The file system after a step of the server.
unfoldable pub Keeps : Step → Type 0
Keeps none = Unit
Keeps (some (s, resp)) = IsTree s.fs

Keeps-some : (s : Server) (resp : Response) → IsTree s.fs → Keeps (some (s, resp))
unfolding Keeps
Keeps-some s resp t = t

answer-Keeps :
    {A : Type 0} (s : Server) (o : Op A) (resp : A → Response)
    → IsTree o.0
    → Keeps (answer s o resp)
unfolding Keeps answer
answer-Keeps s (fs, ok a) resp t = t
answer-Keeps s (fs, err e) resp t = t

register-Keeps : (s : Server) (o : Op Handle) → IsTree o.0 → Keeps (register s o)
unfolding Keeps register
register-Keeps s (fs, ok h) t = t
register-Keeps s (fs, err e) t = t

after_method-Keeps :
    {A : Type 0} (s : Server) (id : ℕ) (m : Method A) (resp : A → Response)
    → IsTree m.0
    → Keeps (after_method s id m resp)
unfolding Keeps after_method
after_method-Keeps s id (fs, h, returns a) resp t = t
after_method-Keeps s id (fs, h, fails e) resp t = t
after_method-Keeps s id (fs, h, panics) resp t = tt

with_found-Keeps :
    (s : Server) (o : Option Handle) (k : Handle → Step)
    → IsTree s.fs
    → ((h : Handle) → Keeps (k h))
    → Keeps (with_found s o k)
unfolding Keeps with_found
with_found-Keeps s none k t keeps = t
with_found-Keeps s (some h) k t keeps = keeps h

fs-eof_as_empty : (m : Method (List ℕ)) → (eof_as_empty m).0 ≡ m.0
fs-eof_as_empty m = ground arith

fs-read_dir : (p : Text) (fs : MemFs) → (read_dir p fs).0 ≡ fs
unfolding read_dir
fs-read_dir p fs = ground arith

-- The requests that may break the tree: a rename, and the removal of the root.
abbrev pub IsPlain : OpTag → Request → Type 0
IsPlain op_rename req = ⊥
IsPlain op_remove_dir req = text_eq (clean_path req.path) root ≡ false
IsPlain _ req = Unit

dispatch_tag-Keeps :
    (env : Env) (tag : OpTag) (req : Request) (s : Server)
    → IsPlain tag req
    → IsTree s.fs
    → Keeps (dispatch_tag env tag req s)
unfolding dispatch_tag
dispatch_tag-Keeps env op_readlink req s p t = answer-Keeps s _ _ (unfold readlink in t)
dispatch_tag-Keeps env op_read_dir req s p t =
    answer-Keeps s _ _ (subst IsTree (sym (fs-read_dir req.path s.fs)) t)
dispatch_tag-Keeps env op_create_dir req s p t =
    answer-Keeps s _ _ (create_dir-IsTree env.now req.path s.fs t)
dispatch_tag-Keeps env op_remove_dir req s p t =
    answer-Keeps s _ _ (remove_dir-IsTree req.path s.fs t p)
dispatch_tag-Keeps env op_rename req s p t = absurd p
dispatch_tag-Keeps env op_metadata req s p t = answer-Keeps s _ _ (unfold metadata in t)
dispatch_tag-Keeps env op_symlink_metadata req s p t = answer-Keeps s _ _ (unfold metadata in t)
dispatch_tag-Keeps env op_remove_file req s p t =
    answer-Keeps s _ _ (remove_file-IsTree req.path s.fs t)
dispatch_tag-Keeps env op_open req s p t =
    register-Keeps s _ (open_file-IsTree env.now req.path (opts_of req.open_opts) s.fs t)
dispatch_tag-Keeps env op_mount req s p t = Keeps-some s _ t
dispatch_tag-Keeps env op_file_read req s p t = with_found-Keeps s _ _ t λ h.
    after_method-Keeps s req.handle _ _
      (subst IsTree (sym (fs-eof_as_empty (read req.len s.fs h) ∙ fs-read req.len s.fs h)) t)
dispatch_tag-Keeps env op_file_write req s p t =
    with_found-Keeps s _ _ t λ h.
      after_method-Keeps s req.handle _ _ (write-IsTree env.max_alloc env.now req.bytes s.fs h t)
dispatch_tag-Keeps env op_file_seek req s p t = with_found-Keeps s _ _ t λ h.
    after_method-Keeps s req.handle _ _
      (subst IsTree (sym (fs-seek env.show_int req.seek_from req.seek_pos s.fs h)) t)
dispatch_tag-Keeps env op_file_flush req s p t = with_found-Keeps s _ _ t λ h. Keeps-some s _ t
dispatch_tag-Keeps env op_file_close req s p t = Keeps-some _ _ t
dispatch_tag-Keeps env op_file_set_len req s p t =
    with_found-Keeps s _ _ t λ h.
      after_method-Keeps s req.handle _ _ (set_len-IsTree env.max_alloc env.now req.len s.fs h t)
dispatch_tag-Keeps env op_other req s p t = Keeps-some s _ t

-- From a tree, a request that is no rename and does not remove the root leaves a tree.
pub dispatch-IsTree :
    (env : Env) (req : Request) (s : Server)
    → IsPlain (op_tag req.op) req
    → IsTree s.fs
    → Keeps (dispatch env req s)
unfolding dispatch
dispatch-IsTree env req s = dispatch_tag-Keeps env (op_tag req.op) req s
