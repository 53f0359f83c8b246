-- ===== src/Vfs/Contents.antt =====
-- vfs/memfs.go: what is written to a file, and what is read from it.
use toolbox.Prelude.{
  ℕ, ◌+◌, ◌-◌, ◌≤◌, ◌<◌, ◌^◌, max, true, false, List, ◌++◌, some, ltb, leb, if◌then◌else◌, length,
  take, drop, replicate, length-append, length-take, length-drop, length-replicate, take_exact,
  drop_exact, Result, ok, err, ◌≡◌, refl, arith, ap, ◌∙◌, Bool-cases, inl, inr,
}
use toolbox.Prelude.Text.{Text, text_eq, text_eq_refl}
use toolbox.Prelude.Assoc.{lookup, lookup-insert}
use toolbox.Prelude.Int.{pos, ◌+ℤ◌, wrap_int64, wrap_int64-pos}
use toolbox.Vfs.Path.{clean_path, path_dir}
use toolbox.Vfs.Error.{FsError, not_found, is_a_directory}
use toolbox.Vfs.MemFs.{
  Node, MemFs, Found, absent, directory, file, kind_of, new_file, put, is_dir_at, read_all,
  write_file,
}
use toolbox.Vfs.Handle.{Handle, returns, read, write, write_to, read_node, overwrite, grow}

abbrev content_of : Text → Found → Result FsError (List ℕ)
content_of q absent = err (not_found q)
content_of q (directory node) = err (is_a_directory q)
content_of q (file node) = ok node.content

read_all_value :
    (q : Text) (fs : MemFs)
    → (read_all q fs).1 ≡ content_of (clean_path q) (kind_of (lookup (clean_path q) fs.nodes))
unfolding read_all
read_all_value q fs = ground arith

write_file_state :
    (now : ℕ) (p : Text) (content : List ℕ) (fs : MemFs)
    → is_dir_at (path_dir (clean_path p)) fs ≡ true
    → (write_file now p content fs).0 ≡ put (clean_path p) (new_file now content) fs
unfolding write_file
write_file_state now p content fs parent = rw (parent, write_file)

-- After a file is written to a directory that exists, reading its path gives the new data, and
-- reading any other path what it gave before.
pub read_all-write_file :
    (now : ℕ) (p q : Text) (content : List ℕ) (fs : MemFs)
    → is_dir_at (path_dir (clean_path p)) fs ≡ true
    → (read_all q (write_file now p content fs).0).1
      ≡ (if text_eq (clean_path p) (clean_path q) then ok content else (read_all q fs).1)
read_all-write_file now p q content fs parent =
    let found = lookup-insert (clean_path p) (clean_path q) (new_file now content) fs.nodes in
    rw (write_file_state now p content fs parent) (
      read_all_value q (put (clean_path p) (new_file now content) fs)
      ∙ ground (arith, found, read_all_value q fs))

length-grow : (n : ℕ) (content : List ℕ) → length (grow n content) ≡ max (length content) n
unfolding grow
length-grow n content = omega (
  arith,
  length-append content (replicate (n - length content) 0),
  length-replicate {A = ℕ} (n - length content) 0,
)

-- The bytes that a copy puts in place are read from there.
overwrite_window :
    (p : ℕ) (bytes content : List ℕ)
    → p + length bytes ≤ length content
    → take (length bytes) (drop p (overwrite p bytes content)) ≡ bytes
unfolding overwrite
overwrite_window p bytes content h =
    rw
      (drop_exact p (take p content) (bytes ++ drop (p + length bytes) content)
        (omega (arith, length-take p content)))
      (take_exact (length bytes) bytes (drop (p + length bytes) content) refl)

length-overwrite :
    (p : ℕ) (bytes content : List ℕ)
    → p + length bytes ≤ length content
    → length (overwrite p bytes content) ≡ length content
unfolding overwrite
length-overwrite p bytes content h = omega (
  arith,
  length-append (take p content) (bytes ++ drop (p + length bytes) content),
  length-append bytes (drop (p + length bytes) content),
  length-take p content,
  length-drop (p + length bytes) content,
)

-- A write that fits: the data after it is a copy over data that reaches the write's end.
write_to_lem :
    (max_alloc p : ℕ) (bytes content : List ℕ)
    → p + length bytes ≤ max_alloc
    → (base : List ℕ) × (write_to max_alloc p bytes content (pos (p + length bytes))
        ≡ returns (overwrite p bytes base))
      × (length base ≡ max (length content) (p + length bytes))
write_to_lem max_alloc p bytes content h =
    elim (Bool-cases (ltb (length content) (p + length bytes))) [
      | inl e ↦
          (grow (p + length bytes) content, ground arith, length-grow (p + length bytes) content)
      | inr e ↦ (content, ground arith, ground arith)
    ]

sum_fits : (p n : ℕ) → p + n < 2 ^ 63 → wrap_int64 (pos p +ℤ pos n) ≡ pos (p + n)
unfolding ◌+ℤ◌
sum_fits p n h = ap wrap_int64 (ground arith) ∙ wrap_int64-pos (p + n) h

-- A read within the data, through a handle at `h.offset`.
read_node_window :
    (n : ℕ) (fs : MemFs) (h : Handle) (node : Node)
    → 0 < n
    → h.offset + n ≤ length node.content
    → h.offset + n < 2 ^ 63
    → (read_node (pos n) fs h (some node)).2 ≡ returns (take n (drop h.offset node.content))
read_node_window n fs h node some_bytes within fits =
    let more : leb (length node.content) h.offset ≡ false = ground arith in
    let short : ltb (length node.content) (h.offset + n) ≡ false = ground arith in
    let forward : ltb (h.offset + n) h.offset ≡ false = ground arith in
    let count : h.offset + n - h.offset ≡ n = omega arith in
    rw more (rw (sum_fits h.offset n fits) (rw short (rw forward (rw count))))

-- Where a write of a handle begins.
abbrev pub write_start : Handle → Node → ℕ
write_start h node = if h.append then length node.content else h.offset

-- The file system and the handle after a write, when the write fits.
module _ (max_alloc now : ℕ) (bytes : List ℕ) (fs : MemFs) (h : Handle) (node : Node)
    (found : lookup h.path fs.nodes ≡ some node) (fits : write_start h node + length bytes < 2 ^ 63)
    (room : write_start h node + length bytes ≤ max_alloc) where
  abbrev start : ℕ
  start = write_start h node

  abbrev base : List ℕ
  base = (write_to_lem max_alloc start bytes node.content room).0

  abbrev written : Node
  written = record node { content = overwrite start bytes base; mod_time = now }

  write_result :
      write max_alloc now bytes fs h
      ≡ (put h.path written fs, record h { offset = start + length bytes }, returns (length bytes))
  unfolding write
  write_result =
      let (_, made, _) = write_to_lem max_alloc start bytes node.content room in
      rw found (rw (sum_fits start (length bytes) fits) (rw made))

  kept : lookup h.path (put h.path written fs).nodes ≡ some written
  kept = lookup-insert h.path h.path written fs.nodes ∙ rw (text_eq_refl h.path)

  long_enough : start + length bytes ≤ length written.content
  long_enough =
      let (_, _, len) = write_to_lem max_alloc start bytes node.content room in
      omega (arith, len, length-overwrite start bytes base (omega (arith, len)))

  room' : start + length bytes ≤ length base
  room' =
      let (_, _, len) = write_to_lem max_alloc start bytes node.content room in omega (arith, len)

  -- A write of at least one byte through a handle whose file exists, which begins at the end of the
  -- file where the handle appends, and ends below 2 ^ 63 and within the longest slice, returns the
  -- number of bytes written; a read of as many bytes from where it began then returns these bytes.
  pub read-write :
      0 < length bytes
      → let (fs', h', r) = write max_alloc now bytes fs h in
        (r ≡ returns (length bytes))
        × ((read (pos (length bytes)) fs' (record h' { offset = start })).2 ≡ returns bytes)
  unfolding read
  read-write some_bytes = rw write_result (
    refl,
    rw kept (
        read_node_window (length bytes) (put h.path written fs) (record h { offset = start })
          written some_bytes long_enough fits
        ∙ ap returns (overwrite_window start bytes base room')),
  )
