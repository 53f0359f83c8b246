-- ===== src/Vfs/Server.antt =====
-- vfs/protocol.go and the dispatch of vfs/server.go: one request and the response to it. Each file
-- system method holds the lock of the MemFS for its whole run, so a request is one step.
use toolbox.Prelude.{
  ℕ, ◌+◌, ◌%◌, ◌^◌, false, List, [], ◌∷◌, ◌==◌, Option, none, some, if◌then◌else◌, length, ok, err,
}
use toolbox.Prelude.Text.{Text}
use toolbox.Prelude.Int.{ℤ}
use toolbox.Vfs.Error.{
  FsError, eof, message, error_code, err_ok, err_invalid_input, err_unsupported,
}
use toolbox.Vfs.MemFs.{
  MemFs, Op, Metadata, DirEntry, metadata, create_dir, remove_dir, remove_file, readlink, rename,
  read_dir,
}
use toolbox.Vfs.Handle.{
  OpenOpts, Handle, Ending, returns, fails, panics, Method, open_file, read, write, seek, set_len,
}

-- The op tags of protocol.go.
pub data OpTag : Type 0 where
  op_readlink op_read_dir op_create_dir op_remove_dir op_rename op_metadata : OpTag
  op_symlink_metadata op_remove_file op_open op_mount op_file_read op_file_write : OpTag
  op_file_seek op_file_flush op_file_close op_file_set_len op_other : OpTag

abbrev file_op_tag : ℕ → OpTag
file_op_tag n =
    if n == 20
    then op_file_read
    else if n == 21
    then op_file_write
    else if n == 22
    then op_file_seek
    else if n == 23
    then op_file_flush
    else if n == 24
    then op_file_close
    else if n == 25
    then op_file_set_len
    else op_other

unfoldable pub op_tag : ℕ → OpTag
op_tag n =
    if n == 1
    then op_readlink
    else if n == 2
    then op_read_dir
    else if n == 3
    then op_create_dir
    else if n == 4
    then op_remove_dir
    else if n == 5
    then op_rename
    else if n == 6
    then op_metadata
    else if n == 7
    then op_symlink_metadata
    else if n == 8
    then op_remove_file
    else if n == 9
    then op_open
    else if n == 10
    then op_mount
    else file_op_tag n

pub record Request : Type 0 where
  pub op : ℕ
  pub path : Text
  pub to_path : Text
  pub open_opts : Option OpenOpts
  pub handle : ℕ
  pub bytes : List ℕ
  pub len : ℤ
  pub seek_from : ℕ
  pub seek_pos : ℤ

pub record Response : Type 0 where
  pub err_code : ℕ
  pub target : Text
  pub entries : List DirEntry
  pub meta : Option Metadata
  pub handle : ℕ
  pub bytes : List ℕ
  pub offset : ℕ
  pub n : ℕ

-- Response{}
abbrev pub empty_response : Response
empty_response = record {
  err_code = err_ok;
  target = [];
  entries = [];
  meta = none;
  handle = 0;
  bytes = [];
  offset = 0;
  n = 0;
}

-- Server: the file system, the last handle given out, and the open handles.
pub record Server : Type 0 where
  pub fs : MemFs
  pub next_handle : ℕ
  pub handles : List (ℕ × Handle)

abbrev pub new_server : MemFs → Server
new_server fs = record { fs = fs; next_handle = 0; handles = [] }

-- s.handles[id]
unfoldable pub get_handle : ℕ → List (ℕ × Handle) → Option Handle
get_handle id [] = none
get_handle id ((j, h) ∷ hs) = if j == id then some h else get_handle id hs

-- delete(s.handles, id)
unfoldable pub delete_handle : ℕ → List (ℕ × Handle) → List (ℕ × Handle)
delete_handle id [] = []
delete_handle id ((j, h) ∷ hs) =
    let rest = delete_handle id hs in if j == id then rest else (j, h) ∷ rest

-- s.handles[id] = h, and the update of a handle through its pointer
unfoldable pub set_handle : ℕ → Handle → List (ℕ × Handle) → List (ℕ × Handle)
unfolding delete_handle
set_handle id h hs = (id, h) ∷ delete_handle id hs

-- errResp
unfoldable pub err_resp : FsError → Response
err_resp e = record empty_response { err_code = error_code (message e) }

abbrev pub coded : ℕ → Response
coded code = record empty_response { err_code = code }

-- What the server has around a request: the clock, the longest slice, and `%d`.
pub record Env : Type 0 where
  pub now : ℕ
  pub max_alloc : ℕ
  pub show_int : ℕ → Text

-- A response and the server after it; `none` is a panic, which ends the process.
abbrev pub Step : Type 0
Step = Option (Server × Response)

-- `if err != nil { return errResp(err) }` and the response for the value.
unfoldable pub answer : {A : Type 0} → Server → Op A → (A → Response) → Step
answer s (fs, ok a) resp = some (record s { fs = fs }, resp a)
answer s (fs, err e) resp = some (record s { fs = fs }, err_resp e)

abbrev pub done : Unit {0} → Response
done _ = empty_response

-- s.nextHandle++ and the registration of the new handle
unfoldable pub register : Server → Op Handle → Step
register s (fs, ok h) =
    let id = (s.next_handle + 1) % 2 ^ 64 in
    some (
      record { fs = fs; next_handle = id; handles = set_handle id h s.handles },
      record empty_response { handle = id },
    )
register s (fs, err e) = some (record s { fs = fs }, err_resp e)

-- `if err == io.EOF { return Response{Data: data, N: n} }`, where both are empty
abbrev pub eof_as_empty : Method (List ℕ) → Method (List ℕ)
eof_as_empty (fs, h, fails eof) = (fs, h, returns [])
eof_as_empty (fs, h, r) = (fs, h, r)

abbrev pub ending_response : {A : Type 0} → Ending A → (A → Response) → Option Response
ending_response (returns a) resp = some (resp a)
ending_response (fails e) resp = some (err_resp e)
ending_response panics resp = none

unfoldable pub after_method : {A : Type 0} → Server → ℕ → Method A → (A → Response) → Step
after_method s id (fs, h, r) resp = elim (ending_response r resp) [
  | none ↦ none
  | some response ↦ some (record s { fs = fs; handles = set_handle id h s.handles }, response)
]

-- h := s.getHandle(req.Handle); if h == nil { return Response{Err: ErrInvalidInput} }
unfoldable pub with_found : Server → Option Handle → (Handle → Step) → Step
with_found s none k = some (s, coded err_invalid_input)
with_found s (some h) k = k h

abbrev pub with_handle : Server → ℕ → (Handle → Step) → Step
with_handle s id k = with_found s (get_handle id s.handles) k

abbrev pub opts_of : Option OpenOpts → OpenOpts
opts_of none = record {
  read = false;
  write = false;
  create = false;
  create_new = false;
  append = false;
  truncate = false;
}
opts_of (some opts) = opts

unfoldable pub dispatch_tag : Env → OpTag → Request → Server → Step
dispatch_tag env op_readlink req s =
    answer s (readlink req.path s.fs) (λ t. record empty_response { target = t })
dispatch_tag env op_read_dir req s =
    answer s (read_dir req.path s.fs) (λ es. record empty_response { entries = es })
dispatch_tag env op_create_dir req s = answer s (create_dir env.now req.path s.fs) done
dispatch_tag env op_remove_dir req s = answer s (remove_dir req.path s.fs) done
dispatch_tag env op_rename req s = answer s (rename req.path req.to_path s.fs) done
dispatch_tag env op_metadata req s =
    answer s (metadata req.path s.fs) (λ m. record empty_response { meta = some m })
dispatch_tag env op_symlink_metadata req s =
    answer s (metadata req.path s.fs) (λ m. record empty_response { meta = some m })
dispatch_tag env op_remove_file req s = answer s (remove_file req.path s.fs) done
dispatch_tag env op_open req s =
    register s (open_file env.now req.path (opts_of req.open_opts) s.fs)
dispatch_tag env op_mount req s = some (s, coded err_unsupported)
dispatch_tag env op_file_read req s = with_handle s req.handle λ h.
    after_method s req.handle (eof_as_empty (read req.len s.fs h))
      (λ bytes. record empty_response { bytes = bytes; n = length bytes })
dispatch_tag env op_file_write req s = with_handle s req.handle λ h.
    after_method s req.handle (write env.max_alloc env.now req.bytes s.fs h)
      (λ n. record empty_response { n = n })
dispatch_tag env op_file_seek req s = with_handle s req.handle λ h.
    after_method s req.handle (seek env.show_int req.seek_from req.seek_pos s.fs h)
      (λ p. record empty_response { offset = p })
dispatch_tag env op_file_flush req s = with_handle s req.handle λ h. some (s, empty_response)
dispatch_tag env op_file_close req s =
    some (record s { handles = delete_handle req.handle s.handles }, empty_response)
dispatch_tag env op_file_set_len req s =
    with_handle s req.handle
      λ h. after_method s req.handle (set_len env.max_alloc env.now req.len s.fs h) done
dispatch_tag env op_other req s = some (s, coded err_unsupported)

-- Server.dispatch
unfoldable pub dispatch : Env → Request → Server → Step
unfolding op_tag
dispatch env req s = dispatch_tag env (op_tag req.op) req s

-- The requests of all connections, in the order in which their steps take place.
unfoldable pub serve : List (Env × Request) → Server → Option (Server × List Response)
serve [] s = some (s, [])
serve ((env, req) ∷ reqs) s = elim (dispatch env req s) [
  | none ↦ none
  | some (s', resp) ↦ elim (serve reqs s') [
    | none ↦ none
    | some (s'', resps) ↦ some (s'', resp ∷ resps)
  ]
]
