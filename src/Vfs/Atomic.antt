-- ===== src/Vfs/Atomic.antt =====
-- vfs/: what a request that is answered with an error leaves behind.
use toolbox.Prelude.{
  ℕ, List, [], Option, none, some, ok, err, ◌≡◌, ◌≢◌, ◌⊎◌, refl, arith, subst, inl, inr,
}
use toolbox.Prelude.Text.{Text}
use toolbox.Prelude.Int.{ℤ}
use toolbox.Vfs.Error.{err_ok}
use toolbox.Vfs.MemFs.{
  Op, MemFs, readlink, metadata, read_dir, create_dir, remove_dir, remove_file, rename,
}
use toolbox.Vfs.Handle.{
  OpenOpts, Handle, returns, fails, panics, Method, open_file, read, write, seek, set_len,
}
use toolbox.Vfs.Server.{
  OpTag, op_readlink, op_read_dir, op_create_dir, op_remove_dir, op_rename, op_metadata,
  op_symlink_metadata, op_remove_file, op_open, op_mount, op_file_read, op_file_write, op_file_seek,
  op_file_flush, op_file_close, op_file_set_len, op_other, op_tag, Request, Response, Server, Env,
  Step, answer, register, after_method, with_found, eof_as_empty, opts_of, dispatch_tag, dispatch,
}
use toolbox.Vfs.Preserve.{fs-seek}

-- An operation that ends in an error leaves the file system `fs`.
abbrev pub IsAtomic : {A : Type 0} → MemFs → Op A → Type 0
IsAtomic fs (fs', ok a) = Unit
IsAtomic fs (fs', err e) = fs' ≡ fs

abbrev pub IsAtomicMethod : {A : Type 0} → MemFs → Method A → Type 0
IsAtomicMethod fs (fs', h, fails e) = fs' ≡ fs
IsAtomicMethod fs _ = Unit

module _ (now : ℕ) (p p' : Text) (fs : MemFs) where
  create_dir-IsAtomic : IsAtomic fs (create_dir now p fs)
  unfolding create_dir
  create_dir-IsAtomic = ground arith

  remove_dir-IsAtomic : IsAtomic fs (remove_dir p fs)
  unfolding remove_dir
  remove_dir-IsAtomic = ground arith

  remove_file-IsAtomic : IsAtomic fs (remove_file p fs)
  unfolding remove_file
  remove_file-IsAtomic = ground arith

  rename-IsAtomic : IsAtomic fs (rename p p' fs)
  unfolding rename
  rename-IsAtomic = ground arith

  read_dir-IsAtomic : IsAtomic fs (read_dir p fs)
  unfolding read_dir
  read_dir-IsAtomic = ground arith

  metadata-IsAtomic : IsAtomic fs (metadata p fs)
  unfolding metadata
  metadata-IsAtomic = ground arith

  open_file-IsAtomic : (opts : OpenOpts) → IsAtomic fs (open_file now p opts fs)
  unfolding open_file
  open_file-IsAtomic opts = ground arith

module _ (max_alloc now : ℕ) (bytes : List ℕ) (len : ℤ) (show_int : ℕ → Text) (fs : MemFs)
    (h : Handle) where
  read-IsAtomic : IsAtomicMethod fs (eof_as_empty (read len fs h))
  unfolding read
  read-IsAtomic = ground arith

  write-IsAtomic : IsAtomicMethod fs (write max_alloc now bytes fs h)
  unfolding write
  write-IsAtomic = ground arith

  set_len-IsAtomic : IsAtomicMethod fs (set_len max_alloc now len fs h)
  unfolding set_len
  set_len-IsAtomic = ground arith

unmoved-IsAtomicMethod : {A : Type 0} (fs : MemFs) (m : Method A) → m.0 ≡ fs → IsAtomicMethod fs m
unmoved-IsAtomicMethod fs (fs', h, returns a) e = tt
unmoved-IsAtomicMethod fs (fs', h, fails x) e = e
unmoved-IsAtomicMethod fs (fs', h, panics) e = tt

-- A step that answers with ErrOK or leaves the files as they were.
unfoldable pub Leaves : Server → Step → Type 0
Leaves s none = Unit
Leaves s (some (s', resp)) = (resp.err_code ≡ err_ok) ⊎ (s'.fs ≡ s.fs)

answer-Leaves :
    {A : Type 0} (s : Server) (o : Op A) (resp : A → Response)
    → ((a : A) → (resp a).err_code ≡ err_ok)
    → IsAtomic s.fs o
    → Leaves s (answer s o resp)
unfolding Leaves answer
answer-Leaves s (fs, ok a) resp good atomic = inl (good a)
answer-Leaves s (fs, err e) resp good atomic = inr atomic

register-Leaves : (s : Server) (o : Op Handle) → IsAtomic s.fs o → Leaves s (register s o)
unfolding Leaves register
register-Leaves s (fs, ok h) atomic = inl refl
register-Leaves s (fs, err e) atomic = inr atomic

after_method-Leaves :
    {A : Type 0} (s : Server) (id : ℕ) (m : Method A) (resp : A → Response)
    → ((a : A) → (resp a).err_code ≡ err_ok)
    → IsAtomicMethod s.fs m
    → Leaves s (after_method s id m resp)
unfolding Leaves after_method
after_method-Leaves s id (fs, h, returns a) resp good atomic = inl (good a)
after_method-Leaves s id (fs, h, fails e) resp good atomic = inr atomic
after_method-Leaves s id (fs, h, panics) resp good atomic = tt

with_found-Leaves :
    (s : Server) (o : Option Handle) (k : Handle → Step)
    → ((h : Handle) → Leaves s (k h))
    → Leaves s (with_found s o k)
unfolding Leaves with_found
with_found-Leaves s none k leaves = inr refl
with_found-Leaves s (some h) k leaves = leaves h

dispatch_tag-Leaves :
    (env : Env) (tag : OpTag) (req : Request) (s : Server) → Leaves s (dispatch_tag env tag req s)
unfolding dispatch_tag
dispatch_tag-Leaves env op_readlink req s =
    answer-Leaves s _ _ (λ _. refl) (unfold readlink in refl)
dispatch_tag-Leaves env op_read_dir req s =
    answer-Leaves s _ _ (λ _. refl) (read_dir-IsAtomic 0 req.path [] s.fs)
dispatch_tag-Leaves env op_create_dir req s =
    answer-Leaves s _ _ (λ _. refl) (create_dir-IsAtomic env.now req.path [] s.fs)
dispatch_tag-Leaves env op_remove_dir req s =
    answer-Leaves s _ _ (λ _. refl) (remove_dir-IsAtomic 0 req.path [] s.fs)
dispatch_tag-Leaves env op_rename req s =
    answer-Leaves s _ _ (λ _. refl) (rename-IsAtomic 0 req.path req.to_path s.fs)
dispatch_tag-Leaves env op_metadata req s =
    answer-Leaves s _ _ (λ _. refl) (metadata-IsAtomic 0 req.path [] s.fs)
dispatch_tag-Leaves env op_symlink_metadata req s =
    answer-Leaves s _ _ (λ _. refl) (metadata-IsAtomic 0 req.path [] s.fs)
dispatch_tag-Leaves env op_remove_file req s =
    answer-Leaves s _ _ (λ _. refl) (remove_file-IsAtomic 0 req.path [] s.fs)
dispatch_tag-Leaves env op_open req s =
    register-Leaves s _ (open_file-IsAtomic env.now req.path [] s.fs (opts_of req.open_opts))
dispatch_tag-Leaves env op_mount req s = unfold Leaves in inr refl
dispatch_tag-Leaves env op_file_read req s = with_found-Leaves s _ _ λ h.
    after_method-Leaves s req.handle _ _ (λ _. refl)
      (read-IsAtomic 0 0 [] req.len env.show_int s.fs h)
dispatch_tag-Leaves env op_file_write req s = with_found-Leaves s _ _ λ h.
    after_method-Leaves s req.handle _ _ (λ _. refl)
      (write-IsAtomic env.max_alloc env.now req.bytes req.len env.show_int s.fs h)
dispatch_tag-Leaves env op_file_seek req s = with_found-Leaves s _ _ λ h.
    after_method-Leaves s req.handle _ _ (λ _. refl)
      (unmoved-IsAtomicMethod s.fs (seek env.show_int req.seek_from req.seek_pos s.fs h)
        (fs-seek env.show_int req.seek_from req.seek_pos s.fs h))
dispatch_tag-Leaves env op_file_flush req s = with_found-Leaves s _ _ λ h. unfold Leaves in inl refl
dispatch_tag-Leaves env op_file_close req s = unfold Leaves in inl refl
dispatch_tag-Leaves env op_file_set_len req s = with_found-Leaves s _ _ λ h.
    after_method-Leaves s req.handle _ _ (λ _. refl)
      (set_len-IsAtomic env.max_alloc env.now [] req.len env.show_int s.fs h)
dispatch_tag-Leaves env op_other req s = unfold Leaves in inr refl

-- A request that is answered with an error code leaves the file system as it was.
pub dispatch_atomic :
    (env : Env) (req : Request) (s s' : Server) (resp : Response)
    → dispatch env req s ≡ some (s', resp)
    → resp.err_code ≢ err_ok
    → s'.fs ≡ s.fs
unfolding dispatch
dispatch_atomic env req s s' resp steps bad =
    let leaves : (resp.err_code ≡ err_ok) ⊎ (s'.fs ≡ s.fs) =
      unfold Leaves in subst (Leaves s) steps (dispatch_tag-Leaves env (op_tag req.op) req s) in
    elim leaves [ inl good ↦ absurd (bad good) | inr same ↦ same ]
