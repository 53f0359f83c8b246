-- ===== src/Packaging/Walked.antt =====
-- packaging/internal/archive/archive.go: the files of a walk, in the archive that is written from it.
use toolbox.Prelude.{
  ℕ, Bool, true, false, List, [], ◌∷◌, ◌++◌, map, if◌then◌else◌, Option, none, some, Result, ok,
  err, or_fail, or_fail-ok, >>=-ok, ok_injective, Bool-cases, inl, inr, ◌≡◌, refl, ap, sym, ◌∙◌,
}
use toolbox.Prelude.Text.{Text, text_eq}
use toolbox.Vfs.Path.{dot}
use toolbox.Packaging.FileSystem.{FsError, FileSystem, DirEntry, Opened, a_file, a_dir}
use toolbox.Packaging.Archive.{trim_dot_slash}
use toolbox.Packaging.Tar.{
  EntryType, dir_entry, reg_entry, Header, TarEntry, Tar, Visit, visit, walk_failed,
  normalize_tar_header, cannot_walk,
}
use toolbox.Packaging.Pack.{body_of, content_of, visit_entry, add_fs_to_tar}
use toolbox.Packaging.Extract.{content_in}
use toolbox.Packaging.Plain.{read_back}

-- The bytes of a file that can be opened.
abbrev pub bytes_of : Result FsError Opened → Option (List ℕ)
bytes_of (ok (a_file name bytes)) = some bytes
bytes_of (ok (a_dir name entries)) = none
bytes_of (err e) = none

-- The bytes of a name after the visit of a file or a directory, from those before it.
abbrev pub after_visited : FileSystem → Text → Text → Bool → Option (List ℕ) → Option (List ℕ)
after_visited fs k path true o = o
after_visited fs k path false o =
    if text_eq (trim_dot_slash path) k then bytes_of (fs.open_file path) else o

-- The bytes that a file system has for a name: those of the last file of a walk, other than the root,
-- whose path, less a leading `./`, is the name.
unfoldable pub walked_bytes : FileSystem → Text → List Visit → Option (List ℕ) → Option (List ℕ)
walked_bytes fs k [] o = o
walked_bytes fs k (walk_failed ∷ visits) o = walked_bytes fs k visits o
walked_bytes fs k (visit path entry ∷ visits) o =
    walked_bytes fs k visits
      (if text_eq path dot then o else after_visited fs k path entry.is_dir o)

-- FileInfoHeader gives directories and regular files their types.
abbrev pub HasKinds : Tar → Type 0
HasKinds tar =
    (entry : DirEntry) (header : Header)
    → tar.info_header entry ≡ some header
    → header.kind ≡ (if entry.is_dir then dir_entry else reg_entry)

pub content_in-append :
    (k : Text) (entries more : List TarEntry) (o : Option (List ℕ))
    → content_in k (map read_back (entries ++ more)) o
      ≡ content_in k (map read_back more) (content_in k (map read_back entries) o)
unfolding content_in
content_in-append k [] more o = refl
content_in-append k ((header, body) ∷ entries) more o =
    content_in-append k entries more (content_in k (map read_back ((header, body) ∷ [])) o)

content_of-ok :
    (tar : Tar) (r : Result FsError Opened) (body : List ℕ)
    → content_of tar r ≡ ok body
    → bytes_of r ≡ some body
content_of-ok tar (err e) body h = cc
content_of-ok tar (ok (a_file name bytes)) body h = ap some (ok_injective h)
content_of-ok tar (ok (a_dir name entries)) body h = cc

after_entry-body :
    (tar : Tar) (fs : FileSystem) (k path : Text) (is_dir : Bool) (kind : EntryType)
    (header : Header) (body : List ℕ) (o : Option (List ℕ))
    → kind ≡ (if is_dir then dir_entry else reg_entry)
    → header.kind ≡ kind
    → header.name ≡ path
    → (if is_dir then ok [] else content_of tar (fs.open_file path)) ≡ ok body
    → content_in k (read_back (header, body) ∷ []) o ≡ after_visited fs k path is_dir o
unfolding content_in
after_entry-body tar fs k path true kind header body o hk hh hn hb = rw (hh, hk) refl
after_entry-body tar fs k path false kind header body o hk hh hn hb =
    rw (hh, hk, hn, content_of-ok tar (fs.open_file path) body hb) refl

visited :
    (tar : Tar) (fs : FileSystem) (k path : Text) (entry : DirEntry) (written : List TarEntry)
    (o : Option (List ℕ))
    → HasKinds tar
    → visit_entry tar fs path entry ≡ ok written
    → content_in k (map read_back written) o
      ≡ (if text_eq path dot then o else after_visited fs k path entry.is_dir o)
unfolding visit_entry normalize_tar_header content_in
visited tar fs k path entry written o kinds h = elim (Bool-cases (text_eq path dot)) [
  | inl e ↦ ap (λ l. content_in k (map read_back l) o) (sym (ok_injective (rw e at h))) ∙ rw e refl
  | inr n ↦
      let (header, has, h1) = >>=-ok (or_fail cannot_walk (tar.info_header entry)) _ (rw n at h) in
      let (body, read, h2) = >>=-ok (body_of tar fs path entry) _ h1 in
      let kind = kinds entry header (or_fail-ok cannot_walk (tar.info_header entry) header has) in
      ap (λ l. content_in k (map read_back l) o) (sym (ok_injective h2))
      ∙ after_entry-body tar fs k path entry.is_dir header.kind
          (normalize_tar_header (record header { name = path })) body o kind refl refl read
      ∙ rw n refl
]

-- What is written of a walk has the bytes of the files that were visited.
pub content_in-walked_bytes :
    (tar : Tar) (fs : FileSystem) (k : Text) (visits : List Visit) (entries : List TarEntry)
    (o : Option (List ℕ))
    → HasKinds tar
    → add_fs_to_tar tar fs visits ≡ ok entries
    → content_in k (map read_back entries) o ≡ walked_bytes fs k visits o
unfolding add_fs_to_tar content_in walked_bytes
content_in-walked_bytes tar fs k [] entries o kinds h =
    ap (λ l. content_in k (map read_back l) o) (sym (ok_injective h))
content_in-walked_bytes tar fs k (walk_failed ∷ visits) entries o kinds h = cc
content_in-walked_bytes tar fs k (visit path entry ∷ visits) entries o kinds h =
    let (written, e, h1) = >>=-ok (visit_entry tar fs path entry) _ h in
    let (rest, er, h2) = >>=-ok (add_fs_to_tar tar fs visits) _ h1 in
    ap (λ l. content_in k (map read_back l) o) (sym (ok_injective h2))
    ∙ content_in-append k written rest o
    ∙ ap (content_in k (map read_back rest)) (visited tar fs k path entry written o kinds e)
    ∙ content_in-walked_bytes tar fs k visits rest
        (if text_eq path dot then o else after_visited fs k path entry.is_dir o) kinds er
