-- ===== src/Vfs/Frame.antt =====
-- vfs/server.go: frames, which are a length of 4 bytes and a payload, and the loop of a connection.
-- `encode` and `decode` stand for MessagePack, and a stream is the list of the bytes that are left.
use toolbox.Prelude.{
  ℕ, ◌+◌, ◌*◌, ◌/◌, ◌%◌, ◌^◌, not, List, [], ◌∷◌, ◌++◌, ltb, Option, none, some, if◌then◌else◌,
  length, take, drop, Result, ok, err, ◌>>=◌, ◌>>◌, guard,
}
use toolbox.Vfs.Server.{Request, Response, Server, Env, dispatch}

pub data FrameError : Type 0 where
  unexpected_end : FrameError
  frame_too_large : ℕ → FrameError
  bad_payload : FrameError

-- io.ReadFull of n bytes
unfoldable pub read_full : ℕ → List ℕ → Result FrameError (List ℕ × List ℕ)
read_full n bytes =
    if ltb (length bytes) n then err unexpected_end else ok (take n bytes, drop n bytes)

-- binary.BigEndian.PutUint32
unfoldable pub put_uint32 : ℕ → List ℕ
put_uint32 n = n / 2 ^ 24 % 256 ∷ n / 2 ^ 16 % 256 ∷ n / 2 ^ 8 % 256 ∷ n % 256 ∷ []

-- binary.BigEndian.Uint32
unfoldable pub uint32 : List ℕ → ℕ
uint32 (a ∷ b ∷ c ∷ d ∷ _) = a * 2 ^ 24 + b * 2 ^ 16 + c * 2 ^ 8 + d
uint32 _ = 0

abbrev pub frame_limit : ℕ
frame_limit = 16 * 1024 * 1024

abbrev pub unmarshaled : {A : Type 0} → Option A → Result FrameError A
unmarshaled none = err bad_payload
unmarshaled (some a) = ok a

-- readFrame: the message, and the stream behind its frame
unfoldable pub read_frame :
    {A : Type 0} → (List ℕ → Option A) → List ℕ → Result FrameError (A × List ℕ)
unfolding read_full uint32
read_frame decode bytes = do
  (header, rest) ← read_full 4 bytes
  let n = uint32 header
  guard (not (ltb frame_limit n)) (frame_too_large n)
  (payload, rest') ← read_full n rest
  message ← unmarshaled (decode payload)
  ok (message, rest')

-- writeFrame: the bytes that it writes; the length is converted to 32 bits
unfoldable pub write_frame : {A : Type 0} → (A → Option (List ℕ)) → A → Result FrameError (List ℕ)
unfolding put_uint32
write_frame encode message = do
  payload ← unmarshaled (encode message)
  ok (put_uint32 (length payload % 2 ^ 32) ++ payload)

module _ (decode : List ℕ → Option Request) (encode : Response → Option (List ℕ)) where
  -- What a connection has done when its loop ends: the server and the bytes written; `none` is a
  -- panic.
  abbrev pub Served : Type 0
  Served = Option (Server × List ℕ)

  abbrev pub behind : List ℕ → Served → Served
  behind written none = none
  behind written (some (s, more)) = some (s, written ++ more)

  -- The loop of handleConn, with the surroundings of each of its turns; it ends early on an error.
  unfoldable pub handle_conn : List Env → List ℕ → Server → Served
  unfolding read_frame write_frame dispatch
  handle_conn [] bytes s = some (s, [])
  handle_conn (env ∷ envs) bytes s = elim (read_frame decode bytes) [
    | err e ↦ some (s, [])
    | ok (req, rest) ↦ elim (dispatch env req s) [
      | none ↦ none
      | some (s', resp) ↦ elim (write_frame encode resp) [
        | err e ↦ some (s', [])
        | ok written ↦ behind written (handle_conn envs rest s')
      ]
    ]
  ]
