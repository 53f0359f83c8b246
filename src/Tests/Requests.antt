-- ===== src/Tests/Requests.antt =====
-- Runs and instances for vfs/server.go.
use toolbox.Prelude.{
  ℕ, ltb, length, ◌++◌, err, if◌then◌else◌, ◌≡◌, ◌≢◌, refl, true, false, List, [], ◌∷◌, Option,
  none, some, ok, arith,
}
use toolbox.Prelude.Text.{Text, codes, text_eq}
use toolbox.Prelude.Assoc.{lookup, insert, remove}
use toolbox.Prelude.Int.{ℤ, pos, negsuc}
use toolbox.Vfs.Path.{clean_path, path_dir, render, segments, up_to_last_slash}
use toolbox.Vfs.Error.{
  is_a_directory, already_exists, directory_not_empty, message, error_code, contains_linear,
  contains_text, err_ok, err_not_found,
}
use toolbox.Vfs.MemFs.{new_mem_fs, new_file, put, create_dir, exists_at, is_dir_at}
use toolbox.Vfs.Handle.{Handle}
use toolbox.Vfs.Server.{
  Request, Response, Server, Env, op_tag, get_handle, dispatch, dispatch_tag, answer, err_resp,
  serve, new_server,
}
use toolbox.Vfs.Runs.{KeepsAll, serve-IsTree}
use toolbox.Vfs.Atomic.{dispatch_atomic}
use toolbox.Vfs.Frame.{frame_limit, frame_too_large, read_frame, write_frame, handle_conn}
use toolbox.Vfs.Wire.{request_frames, written_back, read_frame-write_frame, handle_conn-serve}
use toolbox.Vfs.Codes.{error_code_misread}
use toolbox.Vfs.Faults.{dispatch_negative}

abbrev env : Env
env = record { now = 5; max_alloc = 100; show_int = λ n. n ∷ [] }

abbrev request : ℕ → Text → ℤ → Request
request op path len = record {
  op = op;
  path = path;
  to_path = [];
  open_opts = none;
  handle = 1;
  bytes = [];
  len = len;
  seek_from = 0;
  seek_pos = pos 0;
}

abbrev make_dir : Request
make_dir = request 3 (codes "/sub") (pos 0)

abbrev start : Server
start = new_server (new_mem_fs 0)

makes_sub : (create_dir 5 (codes "/sub") (new_mem_fs 0)).1 ≡ ok tt
unfolding create_dir clean_path path_dir render segments up_to_last_slash lookup text_eq exists_at
    is_dir_at new_mem_fs
makes_sub = refl

serve-IsTree_example :
    KeepsAll (serve ((env, make_dir) ∷ (env, make_dir) ∷ []) (new_server (new_mem_fs 0)))
serve-IsTree_example =
    serve-IsTree 0 ((env, make_dir) ∷ (env, make_dir) ∷ []) (unfold op_tag in (tt, (tt, tt)))

abbrev make_root : Request
make_root = request 3 (codes "/") (pos 0)

root_is_there : dispatch env make_root start ≡ some (start, err_resp (already_exists (codes "/")))
unfolding dispatch op_tag dispatch_tag answer create_dir clean_path path_dir render segments
    up_to_last_slash lookup text_eq exists_at is_dir_at new_mem_fs
root_is_there = refl

has_code : (err_resp (already_exists (codes "/"))).err_code ≢ err_ok
unfolding err_resp message error_code contains_text contains_linear text_eq
has_code h = omega (arith, h)

dispatch_atomic_example : start.fs ≡ start.fs
dispatch_atomic_example =
    dispatch_atomic env make_root start start (err_resp (already_exists (codes "/"))) root_is_there
      has_code

has_words : contains_linear (codes "/not found") (codes "not found") ≡ true
unfolding contains_linear text_eq
has_words = refl

error_code_misread_example :
    (error_code (message (is_a_directory (codes "/not found"))) ≡ err_not_found)
    × (error_code (message (already_exists (codes "/not found"))) ≡ err_not_found)
    × (error_code (message (directory_not_empty (codes "/not found"))) ≡ err_not_found)
error_code_misread_example = error_code_misread (codes "/not found") has_words

abbrev note : Text
note = codes "/note"

abbrev cursor : Handle
cursor = record { path = note; offset = 2; read = true; write = false; append = false }

abbrev opened : Server
opened = record {
  fs = put note (new_file 1 (codes "abc")) (new_mem_fs 0);
  next_handle = 1;
  handles = (1, cursor) ∷ [];
}

cursor_open : get_handle 1 opened.handles ≡ some cursor
unfolding get_handle
cursor_open = refl

note_there : lookup note opened.fs.nodes ≡ some (new_file 1 (codes "abc"))
unfolding lookup insert remove text_eq new_mem_fs
note_there = refl

dispatch_negative_example : dispatch env (request 20 [] (negsuc 0)) opened ≡ none
dispatch_negative_example =
    dispatch_negative env (request 20 [] (negsuc 0)) opened cursor (new_file 1 (codes "abc")) 0
      (unfold op_tag in refl) cursor_open note_there (omega arith) (omega arith) refl (omega arith)

read_frame-write_frame_example :
    (frame : List ℕ) × (write_frame some (codes "ping") ≡ ok frame)
    × (read_frame some (frame ++ (7 ∷ [])) ≡ (
        if ltb frame_limit (length (codes "ping"))
        then err (frame_too_large (length (codes "ping")))
        else ok (codes "ping", 7 ∷ [])))
read_frame-write_frame_example =
    read_frame-write_frame some some (codes "ping") (codes "ping") refl refl (omega arith) (7 ∷ [])

abbrev decode_make_dir : List ℕ → Option Request
decode_make_dir bytes = some make_dir

abbrev wire_make_dir : Request → List ℕ
wire_make_dir req = codes "mkdir"

abbrev wire_code : Response → List ℕ
wire_code resp = resp.err_code ∷ []

abbrev encode_code : Response → Option (List ℕ)
encode_code resp = some (wire_code resp)

handle_conn-serve_example :
    handle_conn decode_make_dir encode_code
      (env ∷ [])
      (request_frames decode_make_dir encode_code wire_make_dir wire_code
        (λ _. refl)
        ((env, make_dir) ∷ []))
      start
    ≡ written_back decode_make_dir encode_code wire_make_dir wire_code
        (λ _. refl)
        (serve ((env, make_dir) ∷ []) start)
handle_conn-serve_example =
    handle_conn-serve decode_make_dir encode_code wire_make_dir wire_code (λ _. refl)
      ((env, make_dir) ∷ []) start ((refl, omega arith), tt)
