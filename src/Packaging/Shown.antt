-- ===== src/Packaging/Shown.antt =====
-- packaging/internal/source/sourcefs.go: what of its base a file system of a package shows.
use toolbox.Prelude.{
  some_injective, ℕ, zero, suc, ◌+◌, Bool, true, false, List, [], ◌∷◌, ◌++◌, ◌||◌, if◌then◌else◌,
  Option, none, some, length, Result, ok, err, ◌≡◌, inl, inr, refl, sym, Bool-cases, All, All-map,
  subst, ok_injective,
}
use toolbox.Prelude.Text.{Text, text_eq, text_eq_iff}
use toolbox.Vfs.Path.{dot}
use toolbox.Packaging.Paths.{is_rooted, dir}
use toolbox.Packaging.Types.{Package}
use toolbox.Packaging.FileSystem.{
  FsError, not_exist, DirEntry, Opened, FileSystem, mem, join, mem-cons, mem-head, mem-tail,
  mem-nil, mem-append_right,
}
use toolbox.Packaging.Ancestors.{ancestors, onto, ancestors_end}
use toolbox.Packaging.Source.{
  SourceFs, clean_fs_path, is_shown, source_open, source_read_dir, filtered, filter_entries,
  allowed_typescript_files, allowed_directories, both, new_source_fs, Globs,
}

-- Every entry of a list has a child path that is shown.
unfoldable pub ShownEntries : SourceFs → Text → List DirEntry → Type 0
ShownEntries f path = All (λ e. is_shown f (clean_fs_path (join path e.name)) ≡ true)

filter_entries-shown :
    (f : SourceFs) (path : Text) (entries : List DirEntry)
    → ShownEntries f path (filter_entries f path entries)
unfolding ShownEntries filter_entries
filter_entries-shown f path [] = tt
filter_entries-shown f path (e ∷ entries) =
    elim (Bool-cases (is_shown f (clean_fs_path (join path e.name)))) [
      | inl kept ↦ rw kept (kept, filter_entries-shown f path entries)
      | inr out ↦ rw out (filter_entries-shown f path entries)
    ]

-- What a guarded answer was.
guarded-ok :
    {A : Type 0} (in_files in_dirs : Bool) (answer : Result FsError A) (a : A)
    → (if in_files then answer else if in_dirs then answer else err not_exist) ≡ ok a
    → ((in_files || in_dirs) ≡ true) × (answer ≡ ok a)
guarded-ok true in_dirs answer a h = (refl, h)
guarded-ok false true answer a h = (refl, h)
guarded-ok false false answer a h = cc

listed-ok :
    {A : Type 0} (in_dirs : Bool) (answer : Result FsError A) (a : A)
    → (if in_dirs then answer else err not_exist) ≡ ok a
    → (in_dirs ≡ true) × (answer ≡ ok a)
listed-ok true answer a h = (refl, h)
listed-ok false answer a h = cc

filtered-ok :
    (f : SourceFs) (path : Text) (answer : Result FsError (List DirEntry)) (entries : List DirEntry)
    → filtered f path answer ≡ ok entries
    → ShownEntries f path entries
filtered-ok f path (err e) entries h = cc
filtered-ok f path (ok all_entries) entries h =
    subst (ShownEntries f path) (ok_injective h) (filter_entries-shown f path all_entries)

module _ (f : SourceFs) (name : Text) where
  pub source_open-shown :
      (opened : Opened)
      → source_open f name ≡ ok opened
      → (is_shown f (clean_fs_path name) ≡ true)
        × (f.base.open_file (clean_fs_path name) ≡ ok opened)
  unfolding source_open
  source_open-shown opened h =
      guarded-ok (mem (clean_fs_path name) f.files) (mem (clean_fs_path name) f.dirs)
        (f.base.open_file (clean_fs_path name)) opened h

  pub source_read_dir-shown :
      (entries : List DirEntry)
      → source_read_dir f name ≡ ok entries
      → (mem (clean_fs_path name) f.dirs ≡ true) × ShownEntries f (clean_fs_path name) entries
  unfolding source_read_dir
  source_read_dir-shown entries h =
      let (listed, answer) =
        listed-ok (mem (clean_fs_path name) f.dirs)
          (filtered f (clean_fs_path name) (f.base.read_dir (clean_fs_path name))) entries h in
      (
        listed,
        filtered-ok f (clean_fs_path name) (f.base.read_dir (clean_fs_path name)) entries answer,
      )

-- A set of paths with the directory of each of its paths.
pub ClosedUp : List Text → Type 0
ClosedUp set = (p : Text) → mem p set ≡ true → mem (dir p) set ≡ true

ClosedUp-cons :
    (d : Text) (set : List Text) → mem (dir d) set ≡ true → ClosedUp set → ClosedUp (d ∷ set)
unfolding ClosedUp
ClosedUp-cons d set hd closed p hp = elim (Bool-cases (text_eq d p)) [
  | inl same ↦
      mem-cons (dir p) d set (subst (λ q. mem (dir q) set ≡ true) ((text_eq_iff d p).0 same) hd)
  | inr other ↦ mem-cons (dir p) d set (closed p (mem-tail p d set other hp))
]

pub onto-inversion :
    (d : Text) (o : Option (List Text)) (ds : List Text)
    → onto d o ≡ some ds
    → (rest : List Text) × (o ≡ some rest) × (ds ≡ d ∷ rest)
onto-inversion d none ds h = cc
onto-inversion d (some rest) ds h = (rest, refl, cc)

at_dot :
    (d : Text) (ds set : List Text)
    → d ≡ dot
    → ds ≡ []
    → mem dot set ≡ true
    → ClosedUp set
    → (mem d (ds ++ set) ≡ true) × ClosedUp (ds ++ set)
at_dot d ds set hd hs has closed = rw (hd, hs) (has, closed)

pub ancestors-ClosedUp :
    (fuel : ℕ) (d : Text) (ds set : List Text)
    → ancestors fuel d ≡ some ds
    → mem dot set ≡ true
    → ClosedUp set
    → (mem d (ds ++ set) ≡ true) × ClosedUp (ds ++ set)
unfolding ancestors
ancestors-ClosedUp zero d ds set h hd closed = cc
ancestors-ClosedUp (suc fuel) d ds set h hd closed = elim (Bool-cases (text_eq d dot)) [
  | inl e ↦ at_dot d ds set ((text_eq_iff d dot).0 e) (cc (rw e at h)) hd closed
  | inr other ↦
      let (above, e, same) = onto-inversion d (ancestors fuel (dir d)) ds (rw other at h) in
      let (has, up) = ancestors-ClosedUp fuel (dir d) above set e hd closed in
      subst (λ l. (mem d (l ++ set) ≡ true) × ClosedUp (l ++ set)) (sym same)
        (mem-head d (above ++ set), ClosedUp-cons d (above ++ set) has up)
]

-- The directories of a set of files: the dot, the directory of every file, and with a directory the
-- one that it stands in.
pub record IsDirectories (files dirs : List Text) : Type 0 where
  pub has_dot : mem dot dirs ≡ true
  pub closed : ClosedUp dirs
  pub holds : All (λ file. mem (dir file) dirs ≡ true) files

pub both-some :
    (o p : Option (List Text)) (l : List Text)
    → both o p ≡ some l
    → (a : List Text) × (b : List Text) × (o ≡ some a) × (p ≡ some b) × (l ≡ a ++ b)
both-some none p l h = cc
both-some (some a) none l h = cc
both-some (some a) (some b) l h = (a, b, refl, refl, cc)

ClosedUp-dot : ClosedUp (dot ∷ [])
unfolding ClosedUp
ClosedUp-dot p h = elim (Bool-cases (text_eq dot p)) [
  | inl same ↦
      subst (λ q. mem (dir q) (dot ∷ []) ≡ true) ((text_eq_iff dot p).0 same)
        (unfold mem text_eq dir in refl)
  | inr other ↦ absurd (mem-nil p (mem-tail p dot [] other h))
]

pub allowed_directories-IsDirectories :
    (files dirs : List Text) → allowed_directories files ≡ some dirs → IsDirectories files dirs
unfolding allowed_directories
allowed_directories-IsDirectories [] dirs h =
    subst (IsDirectories []) (some_injective h)
      (record { has_dot = mem-head dot []; closed = ClosedUp-dot; holds = tt })
allowed_directories-IsDirectories (file ∷ files) dirs h =
    let (above, rest, e, er, same) =
      both-some (ancestors (length file + 2) (dir file)) (allowed_directories files) dirs h in
    let ih = allowed_directories-IsDirectories files rest er in
    let (has, up) =
      ancestors-ClosedUp (length file + 2) (dir file) above rest e ih.has_dot ih.closed in
    subst (IsDirectories (file ∷ files)) (sym same) (record {
      has_dot = mem-append_right dot above rest ih.has_dot;
      closed = up;
      holds = (
        has,
        All-map (λ f. mem (dir f) rest ≡ true) (λ f. mem (dir f) (above ++ rest) ≡ true) files
            (λ f k. mem-append_right (dir f) above rest k) ih.holds,
      );
    })

pub allowed_directories_end :
    (files : List Text)
    → All (λ file. is_rooted file ≡ false) files
    → (dirs : List Text) × (allowed_directories files ≡ some dirs)
unfolding allowed_directories
allowed_directories_end [] h = (dot ∷ [], refl)
allowed_directories_end (file ∷ files) h =
    let (above, e) = ancestors_end file h.0 in
    let (rest, er) = allowed_directories_end files h.1 in (above ++ rest, rw (e, er))

module _ {Sig Schema : Type 0} (globs : Globs) (base : FileSystem) (pkg : Package Sig Schema) where
  -- If no declared file has a clean path that begins with a slash, the file system of a package is made;
  -- it has the declared files, the dot, the directory of each declared file, and with each directory
  -- the one that it stands in.
  pub new_source_fs_end :
      All (λ file. is_rooted file ≡ false) (allowed_typescript_files globs pkg)
      → (f : SourceFs) × (new_source_fs globs base pkg ≡ some f)
        × (f.files ≡ allowed_typescript_files globs pkg)
        × IsDirectories f.files f.dirs
  unfolding new_source_fs
  new_source_fs_end relative =
      let files = allowed_typescript_files globs pkg in
      let (ds, e) = allowed_directories_end files relative in
      (
        record { base = base; files = files; dirs = ds },
        rw e,
        refl,
        allowed_directories-IsDirectories files ds e,
      )
