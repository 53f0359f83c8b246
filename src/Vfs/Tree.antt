-- ===== src/Vfs/Tree.antt =====
-- vfs/memfs.go: file systems whose map is a tree: each key is a clean path in a directory that
-- exists, and the root is a directory.
use toolbox.Prelude.{
  true, false, List, [], ◌∷◌, ◌++◌, some, if◌then◌else◌, All, ◌≡◌, refl, arith, ap, sym, ◌∙◌, subst,
  append_assoc, Bool-cases, Option-cases, false≢true, inl, inr,
}
use toolbox.Prelude.Text.{
  Text, text_eq, text_eq_iff, text_eq_refl, has_prefix, append-has_prefix, join_with,
}
use toolbox.Prelude.Assoc.{Assoc, lookup, lookup-insert, lookup-remove}
use toolbox.Vfs.Path.{segments, render, clean_path, path_dir}
use toolbox.Vfs.Clean.{IsSegment, init, segments-IsSegment, path_dir-render}
use toolbox.Vfs.MemFs.{Node, MemFs, root, put, erase, is_dir_at, exists_at, any_below}

pub record IsTree (fs : MemFs) : Type 0 where
  pub root_dir : is_dir_at root fs ≡ true
  pub clean : (k : Text) → exists_at k fs ≡ true → clean_path k ≡ k
  pub parents : (k : Text) → exists_at k fs ≡ true → is_dir_at (path_dir k) fs ≡ true

module _ (q k : Text) (node : Node) (fs : MemFs) where
  pub exists_at-put : exists_at k (put q node fs) ≡ (if text_eq q k then true else exists_at k fs)
  unfolding exists_at
  exists_at-put = ground (arith, lookup-insert q k node fs.nodes)

  pub is_dir_at-put :
      is_dir_at k (put q node fs) ≡ (if text_eq q k then node.is_dir else is_dir_at k fs)
  unfolding is_dir_at
  is_dir_at-put = ground (arith, lookup-insert q k node fs.nodes)

module _ (q k : Text) (fs : MemFs) where
  pub exists_at-erase : exists_at k (erase q fs) ≡ (if text_eq q k then false else exists_at k fs)
  unfolding exists_at
  exists_at-erase = ground (arith, lookup-remove q k fs.nodes)

  pub is_dir_at-erase : is_dir_at k (erase q fs) ≡ (if text_eq q k then false else is_dir_at k fs)
  unfolding is_dir_at
  is_dir_at-erase = ground (arith, lookup-remove q k fs.nodes)

-- A directory stays one when the node that is put is one wherever it takes a directory's place.
module _ (q : Text) (node : Node) (fs : MemFs) (t : IsTree fs)
    (kept : is_dir_at q fs ≡ true → node.is_dir ≡ true) where
  dir_kept : (k : Text) → is_dir_at k fs ≡ true → is_dir_at k (put q node fs) ≡ true
  dir_kept k h = ground (arith, is_dir_at-put q k node fs, text_eq_iff q k, kept)

  old_key :
      (k : Text) → exists_at k (put q node fs) ≡ true → text_eq q k ≡ false → exists_at k fs ≡ true
  old_key k h n = ground (arith, exists_at-put q k node fs)

  pub put-IsTree : clean_path q ≡ q → is_dir_at (path_dir q) fs ≡ true → IsTree (put q node fs)
  put-IsTree cq parent = record {
    root_dir = dir_kept root t.root_dir;
    clean = λ k h. elim (Bool-cases (text_eq q k)) [
      | inl e ↦ subst (λ j. clean_path j ≡ j) ((text_eq_iff q k).0 e) cq
      | inr n ↦ t.clean k (old_key k h n)
    ];
    parents = λ k h. dir_kept (path_dir k) (elim (Bool-cases (text_eq q k)) [
      | inl e ↦ subst (λ j. is_dir_at (path_dir j) fs ≡ true) ((text_eq_iff q k).0 e) parent
      | inr n ↦ t.parents k (old_key k h n)
    ]);
  }

-- Removing a key that is not the root and is the directory of no other key.
module _ (q : Text) (fs : MemFs) (t : IsTree fs) where
  pub erase-IsTree :
      text_eq q root ≡ false
      → ((k : Text) → exists_at k fs ≡ true → text_eq q k ≡ false → text_eq q (path_dir k) ≡ false)
      → IsTree (erase q fs)
  erase-IsTree not_root no_child = record {
    root_dir = ground (arith, is_dir_at-erase q root fs, t.root_dir);
    clean = λ k h. t.clean k (ground (arith, exists_at-erase q k fs));
    parents = λ k h.
        ground (
          arith,
          exists_at-erase q k fs,
          is_dir_at-erase q (path_dir k) fs,
          no_child k,
          t.parents k,
        );
  }

  -- A file is the directory of no key.
  pub erase_file-IsTree : is_dir_at q fs ≡ false → IsTree (erase q fs)
  erase_file-IsTree no_dir =
      erase-IsTree (ground (arith, text_eq_iff q root, t.root_dir))
        (λ k h n. ground (arith, text_eq_iff q (path_dir k), t.parents k h))

-- The text of two segments or more is the text of all but the last, a slash, and the last.
last : Text → List Text → Text
last s [] = s
last s (r ∷ segs) = last r segs

join_with-init :
    (s r : Text) (segs : List Text)
    → join_with b'/' (s ∷ r ∷ segs) ≡ join_with b'/' (init (s ∷ r ∷ segs)) ++ (b'/' ∷ last r segs)
unfolding join_with last
join_with-init s r [] = refl
join_with-init s r (u ∷ segs) =
    ap (λ l. s ++ (b'/' ∷ l)) (join_with-init r u segs)
    ∙ sym (append_assoc s (b'/' ∷ join_with b'/' (init (r ∷ u ∷ segs))) (b'/' ∷ last u segs))

prefix_of_init : (l x : Text) → has_prefix (b'/' ∷ (x ++ (b'/' ∷ l))) ((b'/' ∷ x) ++ root) ≡ true
prefix_of_init l x =
    subst (λ y. has_prefix y ((b'/' ∷ x) ++ root) ≡ true) (append_assoc (b'/' ∷ x) root l)
      (append-has_prefix ((b'/' ∷ x) ++ root) l)

not_the_root {ℓ} : {A : Type ℓ} → text_eq root root ≡ false → A
not_the_root h = absurd (false≢true (sym h ∙ text_eq_refl root))

-- A clean path lies below its directory, if that is not the root.
below_dir :
    (segs : List Text)
    → All IsSegment segs
    → text_eq (path_dir (render segs)) root ≡ false
    → has_prefix (render segs) (path_dir (render segs) ++ root) ≡ true
unfolding render
below_dir [] h not_root =
    not_the_root (subst (λ p. text_eq p root ≡ false) (path_dir-render [] h) not_root)
below_dir (s ∷ []) h not_root =
    not_the_root (subst (λ p. text_eq p root ≡ false) (path_dir-render (s ∷ []) h) not_root)
below_dir (s ∷ r ∷ segs) h not_root = rw (path_dir-render (s ∷ r ∷ segs) h) (
    rw (join_with-init s r segs)
      (prefix_of_init (last r segs) (join_with b'/' (init (s ∷ r ∷ segs)))))

any_below_sound :
    (prefix : Text) (k : Text) (m : Assoc Node) (node : Node)
    → lookup k m ≡ some node
    → has_prefix k prefix ≡ true
    → any_below prefix m ≡ true
unfolding any_below lookup
any_below_sound prefix k [] node found h = cc
any_below_sound prefix k ((j, n) ∷ m) node found h =
    ground (arith, any_below_sound prefix k m node, text_eq_iff j k)

key_below_dir :
    (k : Text)
    → clean_path k ≡ k
    → text_eq (path_dir k) root ≡ false
    → has_prefix k (path_dir k ++ root) ≡ true
unfolding clean_path
key_below_dir k c =
    subst (λ j. text_eq (path_dir j) root ≡ false → has_prefix j (path_dir j ++ root) ≡ true) c
      (below_dir (segments k) (segments-IsSegment k))

-- In a tree no key has an empty directory other than the root for its own.
module _ (q : Text) (fs : MemFs) (t : IsTree fs) where
  found_below :
      (k : Text)
      → exists_at k fs ≡ true
      → has_prefix k (q ++ root) ≡ true
      → any_below (q ++ root) fs.nodes ≡ true
  unfolding exists_at
  found_below k h p = elim (Option-cases (lookup k fs.nodes)) [
    | inl e ↦ ground arith
    | inr (node, e) ↦ any_below_sound (q ++ root) k fs.nodes node e p
  ]

  pub no_child_below :
      text_eq q root ≡ false
      → any_below (q ++ root) fs.nodes ≡ false
      → (k : Text) → exists_at k fs ≡ true
      → text_eq q (path_dir k) ≡ false
  no_child_below not_root empty k h = elim (Bool-cases (text_eq q (path_dir k))) [
    | inr n ↦ n
    | inl e ↦
        let same = (text_eq_iff q (path_dir k)).0 e in
        let below =
          key_below_dir k (t.clean k h) (subst (λ d. text_eq d root ≡ false) same not_root) in
        absurd (false≢true (sym empty ∙ found_below k h (rw same below)))
  ]
