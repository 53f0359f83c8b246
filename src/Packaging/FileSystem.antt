-- ===== src/Packaging/FileSystem.antt =====
-- Package io/fs, as packaging/ uses it: what a file system answers. The answers are those of one
-- moment; nothing that packaging/ does changes a file system that it reads.
use toolbox.Prelude.{
  ℕ, Bool, true, false, List, [], ◌∷◌, ◌++◌, Result, if◌then◌else◌, ◌≡◌, arith, All, All-map,
}
use toolbox.Prelude.Text.{Text, text_eq, text_eq_refl}
use toolbox.Packaging.Paths.{clean}

-- fs.ErrNotExist, and any other error.
pub data FsError : Type 0 where
  not_exist : FsError
  failed : Text → FsError

pub record FileInfo : Type 0 where
  pub name : Text
  pub size : ℕ
  pub is_dir : Bool

pub record DirEntry : Type 0 where
  pub name : Text
  pub size : ℕ
  pub is_dir : Bool

-- What Open gives: a file with its name and its bytes, or a directory with its name and entries.
pub data Opened : Type 0 where
  a_file : Text → List ℕ → Opened
  a_dir : Text → List DirEntry → Opened

-- fs.FS, with fs.Stat and fs.ReadDir.
pub record FileSystem : Type 0 where
  pub open_file : Text → Result FsError Opened
  pub stat : Text → Result FsError FileInfo
  pub read_dir : Text → Result FsError (List DirEntry)

-- A key of a Go map that is used as a set.
unfoldable pub mem : Text → List Text → Bool
unfolding text_eq
mem k [] = false
mem k (j ∷ set) = if text_eq j k then true else mem k set

-- path.Join of two elements
unfoldable pub join : Text → Text → Text
unfolding clean
join [] [] = []
join [] (c ∷ q) = clean (c ∷ q)
join (c ∷ p) [] = clean (c ∷ p)
join (c ∷ p) (d ∷ q) = clean ((c ∷ p) ++ (b'/' ∷ d ∷ q))

pub mem-cons : (k d : Text) (set : List Text) → mem k set ≡ true → mem k (d ∷ set) ≡ true
unfolding mem
mem-cons k d set h = ground (arith, h)

pub mem-head : (d : Text) (set : List Text) → mem d (d ∷ set) ≡ true
unfolding mem
mem-head d set = rw (text_eq_refl d)

pub mem-tail :
    (k d : Text) (set : List Text) → text_eq d k ≡ false → mem k (d ∷ set) ≡ true → mem k set ≡ true
unfolding mem
mem-tail k d set h hk = ground (arith, h, hk)

pub mem-nil : (k : Text) → mem k [] ≡ true → ⊥
unfolding mem
mem-nil k h = cc

pub mem-append_right : (k : Text) (l m : List Text) → mem k m ≡ true → mem k (l ++ m) ≡ true
mem-append_right k [] m h = h
mem-append_right k (j ∷ l) m h = mem-cons k j (l ++ m) (mem-append_right k l m h)

pub mem-append-All : (l m : List Text) → All (λ d. mem d (l ++ m) ≡ true) l
mem-append-All [] m = tt
mem-append-All (d ∷ l) m = (
  mem-head d (l ++ m),
  All-map (λ e. mem e (l ++ m) ≡ true) (λ e. mem e (d ∷ l ++ m) ≡ true) l
      (λ e. mem-cons e d (l ++ m)) (mem-append-All l m),
)
