-- ===== src/Packaging/Declared.antt =====
-- packaging/internal/source/sourcefs.go: a file system of a package opens what the package declares.
use toolbox.Prelude.{
  All, All-map, ℕ, zero, suc, ◌+◌, Bool, true, false, List, [], ◌∷◌, ◌++◌, ◌||◌, map, Option, none,
  some, some_injective, length, ok, ◌≡◌, ◌⊎◌, inl, inr, refl, ap, sym, subst, Bool-cases,
}
use toolbox.Prelude.Text.{Text, text_eq, text_eq_iff}
use toolbox.Prelude.Assoc.{Assoc}
use toolbox.Vfs.Path.{dot}
use toolbox.Packaging.Paths.{dir}
use toolbox.Packaging.Types.{Package}
use toolbox.Packaging.FileSystem.{
  DirEntry, join, Opened, FileSystem, mem, mem-head, mem-cons, mem-tail, mem-nil,
}
use toolbox.Packaging.Ancestors.{ancestors}
use toolbox.Packaging.Source.{
  is_shown, source_read_dir, Globs, SourceFs, clean_fs_path, source_open, kept_match, kept_matches,
  of_glob, of_globs, values, allowed_typescript_files, allowed_directories, with_dirs,
  new_source_fs,
}
use toolbox.Packaging.Shown.{
  ShownEntries, source_read_dir-shown, source_open-shown, onto-inversion, both-some,
}

-- Some element of a list has a property.
abbrev pub AnyOf : {A : Type 0} → (A → Type 0) → List A → Type 0
AnyOf P [] = ⊥
AnyOf P (x ∷ xs) = P x ⊎ AnyOf P xs

-- A path that a glob matches and that is no directory, as a path of the package.
abbrev pub IsMatch : Globs → Text → Text → Type 0
IsMatch globs k path =
    (globs.stat_is_dir path ≡ some false)
    × ((rel : Text) × (globs.relative path ≡ some rel) × (clean_fs_path rel ≡ k))

-- The declared files of a package: the entries of its tools, its executables, and what its globs match.
abbrev pub IsDeclared : {Sig Schema : Type 0} → Globs → Package Sig Schema → Text → Type 0
IsDeclared globs pkg k =
    AnyOf (λ tool. clean_fs_path tool.entry_ts ≡ k) pkg.tools
    ⊎ (AnyOf (λ executable. clean_fs_path executable.1 ≡ k) pkg.executables
        ⊎ AnyOf
            (λ g.
              (found : List Text) × (globs.matches g ≡ some found) × AnyOf (IsMatch globs k) found)
            pkg.globs)

-- The directory that is n steps above a directory.
abbrev pub up : ℕ → Text → Text
up zero d = d
up (suc n) d = up n (dir d)

-- The root of the package, or a directory above a declared file.
abbrev pub IsAboveDeclared : {Sig Schema : Type 0} → Globs → Package Sig Schema → Text → Type 0
IsAboveDeclared globs pkg k =
    (k ≡ dot) ⊎ ((file : Text) × (n : ℕ) × IsDeclared globs pkg file × (k ≡ up n (dir file)))

mem-append :
    (k : Text) (l m : List Text) → mem k (l ++ m) ≡ true → (mem k l ≡ true) ⊎ (mem k m ≡ true)
unfolding mem
mem-append k [] m h = inr h
mem-append k (j ∷ l) m h = elim (Bool-cases (text_eq j k)) [
  | inl e ↦ inl (rw e refl)
  | inr n ↦ rw n (mem-append k l m (rw n at h))
]

mem-map :
    {A : Type 0} (f : A → Text) (k : Text) (xs : List A)
    → mem k (map f xs) ≡ true
    → AnyOf (λ x. f x ≡ k) xs
unfolding mem
mem-map f k [] h = cc
mem-map f k (x ∷ xs) h = elim (Bool-cases (text_eq (f x) k)) [
  | inl e ↦ inl ((text_eq_iff (f x) k).0 e)
  | inr n ↦ inr (mem-map f k xs (rw n at h))
]

mem-values :
    (k : Text) (m : Assoc Text) (globs : Globs)
    → mem k (map clean_fs_path (values globs m)) ≡ true
    → AnyOf (λ e. clean_fs_path e.1 ≡ k) m
unfolding mem
mem-values k [] globs h = cc
mem-values k ((_, v) ∷ m) globs h = elim (Bool-cases (text_eq (clean_fs_path v) k)) [
  | inl e ↦ inl ((text_eq_iff (clean_fs_path v) k).0 e)
  | inr n ↦ inr (mem-values k m globs (rw n at h))
]

module _ (globs : Globs) (k : Text) where
  kept_match-inversion :
      (path : Text) (is_dir : Option Bool) (rel : Option Text) (rest : List Text)
      → globs.stat_is_dir path ≡ is_dir
      → globs.relative path ≡ rel
      → mem k (kept_match globs is_dir rel rest) ≡ true
      → IsMatch globs k path ⊎ (mem k rest ≡ true)
  unfolding mem
  kept_match-inversion path none rel rest hd hr h = inr h
  kept_match-inversion path (some true) rel rest hd hr h = inr h
  kept_match-inversion path (some false) none rest hd hr h = inr h
  kept_match-inversion path (some false) (some r) rest hd hr h =
      elim (Bool-cases (text_eq (clean_fs_path r) k)) [
        | inl e ↦ inl (hd, (r, hr, (text_eq_iff (clean_fs_path r) k).0 e))
        | inr n ↦ inr (rw n at h)
      ]

  kept_matches-inversion :
      (found : List Text) → mem k (kept_matches globs found) ≡ true → AnyOf (IsMatch globs k) found
  unfolding mem
  kept_matches-inversion [] h = cc
  kept_matches-inversion (m ∷ ms) h =
      elim (kept_match-inversion m (globs.stat_is_dir m) (globs.relative m) (kept_matches globs ms)
        refl refl h) [ inl now ↦ inl now | inr later ↦ inr (kept_matches-inversion ms later) ]

  of_glob-inversion :
      (g : Text) (o : Option (List Text))
      → globs.matches g ≡ o
      → mem k (of_glob globs o) ≡ true
      → (found : List Text) × (globs.matches g ≡ some found) × AnyOf (IsMatch globs k) found
  unfolding mem
  of_glob-inversion g none e h = cc
  of_glob-inversion g (some found) e h = (found, e, kept_matches-inversion found h)

  of_globs-inversion :
      (gs : List Text)
      → mem k (of_globs globs gs) ≡ true
      → AnyOf
          (λ g.
            (found : List Text) × (globs.matches g ≡ some found) × AnyOf (IsMatch globs k) found)
          gs
  unfolding mem
  of_globs-inversion [] h = cc
  of_globs-inversion (g ∷ gs) h =
      elim (mem-append k (of_glob globs (globs.matches g)) (of_globs globs gs) h) [
        | inl now ↦ inl (of_glob-inversion g (globs.matches g) refl now)
        | inr later ↦ inr (of_globs-inversion gs later)
      ]

  allowed-IsDeclared :
      {Sig Schema : Type 0} (pkg : Package Sig Schema)
      → mem k (allowed_typescript_files globs pkg) ≡ true
      → IsDeclared globs pkg k
  unfolding allowed_typescript_files
  allowed-IsDeclared pkg h =
      let entries = map (λ tool. clean_fs_path tool.entry_ts) pkg.tools in
      let executables = map clean_fs_path (values globs pkg.executables) in
      elim (mem-append k (entries ++ executables) (of_globs globs pkg.globs) h) [
        | inl named ↦ elim (mem-append k entries executables named) [
          | inl tool ↦ inl (mem-map (λ t. clean_fs_path t.entry_ts) k pkg.tools tool)
          | inr executable ↦ inr (inl (mem-values k pkg.executables globs executable))
        ]
        | inr glob ↦ inr (inr (of_globs-inversion pkg.globs glob))
      ]

ancestors-up :
    (k : Text) (fuel : ℕ) (d : Text) (ds : List Text)
    → ancestors fuel d ≡ some ds
    → mem k ds ≡ true
    → (n : ℕ) × (k ≡ up n d)
unfolding ancestors
ancestors-up k zero d ds h hk = cc
ancestors-up k (suc fuel) d ds h hk = elim (Bool-cases (text_eq d dot)) [
  | inl e ↦ absurd (mem-nil k (subst (λ l. mem k l ≡ true) (sym (some_injective (rw e at h))) hk))
  | inr other ↦
      let (above, e, same) = onto-inversion d (ancestors fuel (dir d)) ds (rw other at h) in
      elim (Bool-cases (text_eq d k)) [
        | inl now ↦ (zero, sym ((text_eq_iff d k).0 now))
        | inr later ↦
            let (n, is_up) =
              ancestors-up k fuel (dir d) above e
                (mem-tail k d above later (subst (λ l. mem k l ≡ true) same hk)) in
            (suc n, is_up)
      ]
]

allowed_directories-up :
    (k : Text) (files dirs : List Text)
    → allowed_directories files ≡ some dirs
    → mem k dirs ≡ true
    → (k ≡ dot) ⊎ ((file : Text) × (n : ℕ) × (mem file files ≡ true) × (k ≡ up n (dir file)))
unfolding allowed_directories mem
allowed_directories-up k [] dirs h hk = elim (Bool-cases (text_eq dot k)) [
  | inl e ↦ inl (sym ((text_eq_iff dot k).0 e))
  | inr n ↦
      absurd
        (mem-nil k (mem-tail k dot [] n (subst (λ l. mem k l ≡ true) (sym (some_injective h)) hk)))
]
allowed_directories-up k (file ∷ files) dirs h hk =
    let (above, rest, e, er, same) =
      both-some (ancestors (length file + 2) (dir file)) (allowed_directories files) dirs h in
    elim (mem-append k above rest (subst (λ l. mem k l ≡ true) same hk)) [
      | inl now ↦
          let (n, is_up) = ancestors-up k (length file + 2) (dir file) above e now in
          inr (file, n, mem-head file files, is_up)
      | inr later ↦ elim (allowed_directories-up k files rest er later) [
        | inl e' ↦ inl e'
        | inr (other, n, has, is_up) ↦ inr (other, n, mem-cons other file files has, is_up)
      ]
    ]

module _ {Sig Schema : Type 0} (globs : Globs) (base : FileSystem) (pkg : Package Sig Schema) where
  built :
      (files : List Text) (dirs : Option (List Text)) (f : SourceFs)
      → with_dirs base files dirs ≡ some f
      → (f.base ≡ base) × (f.files ≡ files) × (dirs ≡ some f.dirs)
  built files none f h = cc
  built files (some ds) f h =
      let same = sym (some_injective h) in
      (ap (λ g. g.base) same, ap (λ g. g.files) same, ap (λ g. some g.dirs) (sym same))

  either : (a b : Bool) → (a || b) ≡ true → (a ≡ true) ⊎ (b ≡ true)
  either true b h = inl refl
  either false b h = inr h

  dirs-IsAboveDeclared :
      (f : SourceFs) (k : Text)
      → new_source_fs globs base pkg ≡ some f
      → mem k f.dirs ≡ true
      → IsAboveDeclared globs pkg k
  unfolding new_source_fs
  dirs-IsAboveDeclared f k h above =
      let files = allowed_typescript_files globs pkg in
      let (_, _, has_dirs) = built files (allowed_directories files) f h in
      elim (allowed_directories-up k files f.dirs has_dirs above) [
        | inl root ↦ inl root
        | inr (file, n, has, is_up) ↦ inr (file, n, allowed-IsDeclared globs file pkg has, is_up)
      ]

  -- What a file system made for a package shows.
  shown-IsDeclared :
      (f : SourceFs) (k : Text)
      → new_source_fs globs base pkg ≡ some f
      → is_shown f k ≡ true
      → IsDeclared globs pkg k ⊎ IsAboveDeclared globs pkg k
  unfolding new_source_fs
  shown-IsDeclared f k h shown =
      let files = allowed_typescript_files globs pkg in
      let (_, same_files, _) = built files (allowed_directories files) f h in
      elim (either (mem k f.files) (mem k f.dirs) shown) [
        | inl file ↦
            inl (allowed-IsDeclared globs k pkg (subst (λ fs. mem k fs ≡ true) same_files file))
        | inr above ↦ inr (dirs-IsAboveDeclared f k h above)
      ]

  -- A file system made for a package opens a name only if its clean form is a file that the package
  -- declares (the entry of a tool, an executable, or a match of a glob that is no directory), the dot,
  -- or a directory above a declared file; and what it gives is what its base gives for the clean form.
  pub new_source_fs-source_open :
      (f : SourceFs) (name : Text) (opened : Opened)
      → new_source_fs globs base pkg ≡ some f
      → source_open f name ≡ ok opened
      → (IsDeclared globs pkg (clean_fs_path name) ⊎ IsAboveDeclared globs pkg (clean_fs_path name))
        × (base.open_file (clean_fs_path name) ≡ ok opened)
  unfolding new_source_fs
  new_source_fs-source_open f name opened h ho =
      let files = allowed_typescript_files globs pkg in
      let (same_base, _, _) = built files (allowed_directories files) f h in
      let (shown, given) = source_open-shown f name opened ho in
      (
        shown-IsDeclared f (clean_fs_path name) h shown,
        subst (λ b. b.open_file (clean_fs_path name) ≡ ok opened) same_base given,
      )

  -- A file system made for a package lists a name only if its clean form is the dot or a directory above
  -- a file that the package declares; and each entry that it lists is, by the clean form of its path, a
  -- declared file, the dot, or a directory above a declared file.
  pub new_source_fs-source_read_dir :
      (f : SourceFs) (name : Text) (entries : List DirEntry)
      → new_source_fs globs base pkg ≡ some f
      → source_read_dir f name ≡ ok entries
      → IsAboveDeclared globs pkg (clean_fs_path name)
        × All
            (λ e.
              IsDeclared globs pkg (clean_fs_path (join (clean_fs_path name) e.name))
              ⊎ IsAboveDeclared globs pkg (clean_fs_path (join (clean_fs_path name) e.name)))
            entries
  unfolding ShownEntries
  new_source_fs-source_read_dir f name entries h listed =
      let k = clean_fs_path name in
      let (in_dirs, shown) = source_read_dir-shown f name entries listed in
      (
        dirs-IsAboveDeclared f k h in_dirs,
        All-map (λ e. is_shown f (clean_fs_path (join k e.name)) ≡ true)
            (λ e.
              IsDeclared globs pkg (clean_fs_path (join k e.name))
              ⊎ IsAboveDeclared globs pkg (clean_fs_path (join k e.name)))
            entries (λ e seen. shown-IsDeclared f (clean_fs_path (join k e.name)) h seen) shown,
      )
