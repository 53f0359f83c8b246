-- ===== src/Vfs/Wire.antt =====
-- vfs/server.go: frames written and read, and the loop of a connection over them.
use toolbox.Prelude.{
  ℕ, ◌%◌, ◌^◌, ◌<◌, ◌≤◌, false, List, [], ◌∷◌, ◌++◌, ltb, Option, none, some, if◌then◌else◌, length,
  length-append, take_exact, drop_exact, append_assoc, ok, err, ◌≡◌, refl, arith, ap, ◌∙◌,
  Bool-cases, Option-cases, inl, inr, map, All,
}
use toolbox.Vfs.Server.{Request, Response, Server, Env, dispatch, serve}
use toolbox.Vfs.Frame.{
  frame_too_large, read_full, put_uint32, uint32, frame_limit, read_frame, write_frame, Served,
  handle_conn,
}

uint32-put_uint32 : (n : ℕ) → n < 2 ^ 32 → uint32 (put_uint32 n) ≡ n
unfolding uint32 put_uint32
uint32-put_uint32 n h = omega arith

-- Reading as many bytes as a first part has gives that part.
read_full-append : (xs ys : List ℕ) (n : ℕ) → length xs ≡ n → read_full n (xs ++ ys) ≡ ok (xs, ys)
unfolding read_full
read_full-append xs ys n h =
    let enough : ltb (length (xs ++ ys)) n ≡ false = ground (arith, length-append xs ys) in
    rw (read_full, enough, take_exact n xs ys h, drop_exact n xs ys h)

module _ {A : Type 0} (encode : A → Option (List ℕ)) (decode : List ℕ → Option A) (message : A)
    (payload : List ℕ) (encoded : encode message ≡ some payload)
    (decoded : decode payload ≡ some message) (fits : length payload < 2 ^ 32) where
  pub write_frame_value : write_frame encode message ≡ ok (put_uint32 (length payload) ++ payload)
  unfolding write_frame
  write_frame_value =
      rw (write_frame, encoded) (ap (λ n. ok (put_uint32 n ++ payload)) (omega arith))

  abbrev size : ℕ
  size = length payload

  header_read :
      (rest : List ℕ)
      → read_full 4 ((put_uint32 size ++ payload) ++ rest) ≡ ok (put_uint32 size, payload ++ rest)
  header_read rest =
      ap (read_full 4) (append_assoc (put_uint32 size) payload rest)
      ∙ read_full-append (put_uint32 size) (payload ++ rest) 4 (unfold put_uint32 in refl)

  -- A message whose encoding decodes to it and has less than 2 ^ 32 bytes is written as a frame; in
  -- front of any other bytes, this frame is read back as the message with the other bytes left, if
  -- the encoding has at most 16 MB, and is refused if it is longer.
  pub read_frame-write_frame :
      (rest : List ℕ)
      → (frame : List ℕ) × (write_frame encode message ≡ ok frame)
        × (read_frame decode (frame ++ rest) ≡ (
            if ltb frame_limit (length payload)
            then err (frame_too_large (length payload))
            else ok (message, rest)))
  unfolding read_frame
  read_frame-write_frame rest = (
    put_uint32 size ++ payload,
    write_frame_value,
    elim (Bool-cases (ltb frame_limit size)) [
      | inl long ↦ rw (read_frame, header_read rest, uint32-put_uint32 size fits, long) refl
      | inr short ↦ rw (
        read_frame,
        header_read rest,
        uint32-put_uint32 size fits,
        short,
        read_full-append payload rest size refl,
        decoded,
      )
    ],
  )

-- The frame of an encoding.
abbrev pub frame_of : List ℕ → List ℕ
frame_of payload = put_uint32 (length payload % 2 ^ 32) ++ payload

module _ (decode : List ℕ → Option Request) (encode : Response → Option (List ℕ))
    (wire : Request → List ℕ) (wire_back : Response → List ℕ)
    (encodes : (resp : Response) → encode resp ≡ some (wire_back resp)) where
  abbrev pub request_frames : List (Env × Request) → List ℕ
  request_frames [] = []
  request_frames ((env, req) ∷ reqs) = frame_of (wire req) ++ request_frames reqs

  abbrev pub response_frames : List Response → List ℕ
  response_frames [] = []
  response_frames (resp ∷ resps) = frame_of (wire_back resp) ++ response_frames resps

  -- A run of the server, with its responses as the bytes written.
  abbrev pub written_back : Option (Server × List Response) → Served decode encode
  written_back none = none
  written_back (some (s, resps)) = some (s, response_frames resps)

  -- A request that is decoded from its encoding, which fits into a frame.
  abbrev pub IsWired : Env × Request → Type 0
  IsWired (env, req) = (decode (wire req) ≡ some req) × (length (wire req) ≤ frame_limit)

  read_request :
      (req : Request) (rest : List ℕ)
      → decode (wire req) ≡ some req
      → length (wire req) ≤ frame_limit
      → read_frame decode (frame_of (wire req) ++ rest) ≡ ok (req, rest)
  unfolding read_frame
  read_request req rest decodes small =
      let n : ℕ = length (wire req) in
      let kept : n % 2 ^ 32 ≡ n = omega (arith, small) in
      let short : ltb frame_limit n ≡ false = ground (arith, small) in
      rw kept (
        rw (
          read_frame,
          append_assoc (put_uint32 n) (wire req) rest,
          read_full-append (put_uint32 n) (wire req ++ rest) 4 (unfold put_uint32 in refl),
          uint32-put_uint32 n (omega (arith, small)),
          short,
          read_full-append (wire req) rest n refl,
          decodes,
        ))

  write_response : (resp : Response) → write_frame encode resp ≡ ok (frame_of (wire_back resp))
  unfolding write_frame
  write_response resp = rw (write_frame, encodes resp)

  -- If every request decodes from its encoding, which has at most 16 MB, and every response has an
  -- encoding, then the loop of a connection on the frames of some requests does what the server does
  -- on these requests, and writes the frames of its responses in order.
  pub handle_conn-serve :
      (reqs : List (Env × Request)) (s : Server)
      → All IsWired reqs
      → handle_conn decode encode (map (λ r. r.0) reqs) (request_frames reqs) s
        ≡ written_back (serve reqs s)
  unfolding handle_conn serve
  handle_conn-serve [] s wired = refl
  handle_conn-serve ((env, req) ∷ reqs) s wired =
      let read = read_request req (request_frames reqs) wired.0.0 wired.0.1 in
      elim (Option-cases (dispatch env req s)) [
        | inl stops ↦ rw (handle_conn, serve, read, stops) refl
        | inr ((s', resp), steps) ↦
            let later = handle_conn-serve reqs s' wired.1 in
            elim (Option-cases (serve reqs s')) [
              | inl stops ↦
                  rw (handle_conn, serve, read, steps, write_response resp, later, stops) refl
              | inr ((s'', resps), runs) ↦
                  rw (handle_conn, serve, read, steps, write_response resp, later, runs) refl
            ]
      ]
