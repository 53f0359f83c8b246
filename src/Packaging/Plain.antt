-- ===== src/Packaging/Plain.antt =====
-- packaging/internal/archive/archive.go: archives of which every entry has a relative name, read back
-- after they were written.
use toolbox.Prelude.{
  ℕ, false, List, [], ◌∷◌, ◌++◌, map, if◌then◌else◌, Option, ok, or_fail, ◌>>=◌, >>=-ok,
  ok_injective, Bool-cases, inl, inr, All, All-append, ◌≡◌, refl, ◌∙◌, subst,
}
use toolbox.Prelude.Text.{Text, text_eq}
use toolbox.Vfs.Path.{dot}
use toolbox.Packaging.Paths.{is_rooted}
use toolbox.Packaging.Types.{Package}
use toolbox.Packaging.FileSystem.{FileSystem, DirEntry}
use toolbox.Packaging.Ancestors.{ancestors_end}
use toolbox.Packaging.Archive.{ArchiveFs, trim_dot_slash}
use toolbox.Packaging.Manifest.{Json}
use toolbox.Packaging.Loading.{pkg_manifest_filename}
use toolbox.Packaging.Tar.{
  EntryType, dir_entry, reg_entry, other_entry, normalize_tar_header, TarEntry, TarStep, an_entry,
  Tar, Visit, visit, walk_failed, cannot_walk,
}
use toolbox.Packaging.Pack.{body_of, visit_entry, add_fs_to_tar}
use toolbox.Packaging.Unpack.{
  internal_manifest, put_file, trim_slash, extract_file, extract_entry, extract_steps,
}

-- The writer puts a slash behind the name of a directory that has none.
abbrev pub name_read_back : EntryType → Text → Text
name_read_back dir_entry name = if text_eq (trim_slash name) name then name ++ (b'/' ∷ []) else name
name_read_back reg_entry name = name
name_read_back other_entry name = name

-- An entry as the reader meets it.
abbrev pub read_back : TarEntry → TarStep
read_back (header, body) =
    an_entry (record header { name = name_read_back header.kind header.name }) body

-- A name that is relative, less a leading `./`, and is not the one of the manifest.
pub record IsPlain (name : Text) : Type 0 where
  pub relative : is_rooted (trim_dot_slash name) ≡ false
  pub no_manifest : text_eq (trim_dot_slash name) pkg_manifest_filename ≡ false

abbrev pub name_of : TarEntry → Text
name_of (header, body) = header.name

abbrev pub PlainVisit : Visit → Type 0
PlainVisit (visit path entry) = IsPlain path
PlainVisit walk_failed = Unit

module _ {Sig Schema : Type 0} (json : Json Sig Schema) where
  pub extract_file-relative :
      (name : Text) (content : List ℕ) (a : ArchiveFs) (found : Option (Package Sig Schema))
      → is_rooted name ≡ false
      → (b : ArchiveFs) × (extract_file json name content (a, found)
          ≡ (internal_manifest json name content found >>= λ f. ok (b, f)))
  unfolding extract_file
  extract_file-relative name content a found h =
      let (above, e) = ancestors_end name h in (put_file json name content a above, rw e)

  extract_entry-IsPlain :
      (kind : EntryType) (name : Text) (content : List ℕ) (a : ArchiveFs)
      (found : Option (Package Sig Schema))
      → IsPlain name
      → (b : ArchiveFs) × (extract_entry json kind
            (trim_dot_slash (name_read_back kind name))
            content
            (a, found)
          ≡ ok (b, found))
  unfolding extract_entry
  extract_entry-IsPlain dir_entry name content a found h = (
    record {
      files = a.files;
      dirs = trim_slash (trim_dot_slash (name_read_back dir_entry name)) ∷ a.dirs;
    },
    refl,
  )
  extract_entry-IsPlain reg_entry name content a found h =
      let (b, e) = extract_file-relative (trim_dot_slash name) content a found h.relative in
      (b, e ∙ rw h.no_manifest)
  extract_entry-IsPlain other_entry name content a found h = (a, refl)

  -- Plain entries are extracted, and leave the manifest as it was found.
  pub extract_steps-IsPlain :
      (entries : List TarEntry) (rest : List TarStep) (a : ArchiveFs)
      (found : Option (Package Sig Schema))
      → All (λ e. IsPlain (name_of e)) entries
      → (b : ArchiveFs) × (extract_steps json (map read_back entries ++ rest) (a, found)
          ≡ extract_steps json rest (b, found))
  unfolding extract_steps
  extract_steps-IsPlain [] rest a found h = (a, refl)
  extract_steps-IsPlain ((header, body) ∷ entries) rest a found h =
      let (b, e) = extract_entry-IsPlain header.kind header.name body a found h.0 in
      let (c, es) = extract_steps-IsPlain entries rest b found h.1 in (c, rw e es)

visit_entry-IsPlain :
    (tar : Tar) (fs : FileSystem) (path : Text) (entry : DirEntry) (written : List TarEntry)
    → visit_entry tar fs path entry ≡ ok written
    → IsPlain path
    → All (λ e. IsPlain (name_of e)) written
unfolding visit_entry normalize_tar_header
visit_entry-IsPlain tar fs path entry written h plain = elim (Bool-cases (text_eq path dot)) [
  | inl e ↦ subst (All (λ e. IsPlain (name_of e))) (ok_injective (rw e at h)) tt
  | inr n ↦
      let (header, _, h1) = >>=-ok (or_fail cannot_walk (tar.info_header entry)) _ (rw n at h) in
      let (body, _, h2) = >>=-ok (body_of tar fs path entry) _ h1 in
      subst (All (λ e. IsPlain (name_of e))) (ok_injective h2) (plain, tt)
]

-- What is written for plain visits is plain.
pub add_fs_to_tar-IsPlain :
    (tar : Tar) (fs : FileSystem) (visits : List Visit) (entries : List TarEntry)
    → add_fs_to_tar tar fs visits ≡ ok entries
    → All PlainVisit visits
    → All (λ e. IsPlain (name_of e)) entries
unfolding add_fs_to_tar
add_fs_to_tar-IsPlain tar fs [] entries h plain =
    subst (All (λ e. IsPlain (name_of e))) (ok_injective h) tt
add_fs_to_tar-IsPlain tar fs (walk_failed ∷ visits) entries h plain = cc
add_fs_to_tar-IsPlain tar fs (visit path entry ∷ visits) entries h plain =
    let (written, e, h1) = >>=-ok (visit_entry tar fs path entry) _ h in
    let (rest, er, h2) = >>=-ok (add_fs_to_tar tar fs visits) _ h1 in
    subst (All (λ e. IsPlain (name_of e))) (ok_injective h2) (
      All-append (λ e. IsPlain (name_of e)) written rest
        (visit_entry-IsPlain tar fs path entry written e plain.0)
        (add_fs_to_tar-IsPlain tar fs visits rest er plain.1))
