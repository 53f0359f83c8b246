-- ===== src/Packaging/Extract.antt =====
-- packaging/internal/archive/archive.go: what extractArchive makes of the entries of an archive.
use toolbox.Prelude.{
  ℕ, ◌+◌, true, List, [], ◌∷◌, ◌++◌, if◌then◌else◌, Option, none, some, length, Result, ok, err,
  or_fail, or_fail-ok, ◌>>=◌, >>=-ok, ok_injective, Bool-cases, inl, inr, All, All-map, ◌≡◌, ◌≢◌,
  ◌↔◌, ap, sym, ◌∙◌, subst,
}
use toolbox.Prelude.Text.{Text, text_eq, text_eq_iff}
use toolbox.Prelude.Assoc.{lookup, lookup-insert}
use toolbox.Vfs.Path.{dot}
use toolbox.Packaging.Paths.{dir, is_rooted}
use toolbox.Packaging.Types.{Package}
use toolbox.Packaging.FileSystem.{mem, mem-head, mem-cons, mem-append_right, mem-append-All}
use toolbox.Packaging.Ancestors.{ancestors, ancestors_end, ancestors_forever}
use toolbox.Packaging.Archive.{ArchiveFs, trim_dot_slash}
use toolbox.Packaging.Manifest.{ManifestError, Json, parse_pkg}
use toolbox.Packaging.Loading.{pkg_manifest_filename}
use toolbox.Packaging.Tar.{
  EntryType, dir_entry, reg_entry, other_entry, TarStep, an_entry, unreadable, Tar, ArchiveError,
  endless, cannot_read_tar, bad_internal,
}
use toolbox.Packaging.Unpack.{
  Extracted, internal_manifest, put_file, trim_slash, extract_file, extract_entry, extract_steps,
  new_archive_fs, demand_manifest, extract_archive,
}

-- The content of a name after an entry, from the one before it.
abbrev pub after_entry : EntryType → Text → List ℕ → Text → Option (List ℕ) → Option (List ℕ)
after_entry reg_entry name content k o = if text_eq name k then some content else o
after_entry dir_entry name content k o = o
after_entry other_entry name content k o = o

-- The content of the last regular entry with a name.
unfoldable pub content_in : Text → List TarStep → Option (List ℕ) → Option (List ℕ)
content_in k [] o = o
content_in k (unreadable ∷ steps) o = o
content_in k (an_entry header content ∷ steps) o =
    content_in k steps (after_entry header.kind (trim_dot_slash header.name) content k o)

module _ {Sig Schema : Type 0} (json : Json Sig Schema) where
  extract_file-ok :
      (name : Text) (content : List ℕ) (a : ArchiveFs) (found : Option (Package Sig Schema))
      (next : Extracted Sig Schema)
      → extract_file json name content (a, found) ≡ ok next
      → (above : List Text) × (ancestors (length name + 2) (dir name) ≡ some above)
        × (next.0 ≡ put_file json name content a above)
        × (internal_manifest json name content found ≡ ok next.1)
  unfolding extract_file
  extract_file-ok name content a found next h =
      let (above, e, h1) = >>=-ok (or_fail endless (ancestors (length name + 2) (dir name))) _ h in
      let (found', i, h2) = >>=-ok (internal_manifest json name content found) _ h1 in
      (
        above,
        or_fail-ok endless (ancestors (length name + 2) (dir name)) above e,
        sym (ap (λ r. r.0) (ok_injective h2)),
        i ∙ ap (λ r. ok r.1) (ok_injective h2),
      )

  lookup-extract_entry :
      (kind : EntryType) (name : Text) (content : List ℕ) (so_far next : Extracted Sig Schema)
      (k : Text)
      → extract_entry json kind name content so_far ≡ ok next
      → lookup k next.0.files ≡ after_entry kind name content k (lookup k so_far.0.files)
  unfolding extract_entry
  lookup-extract_entry dir_entry name content (a, found) next k h =
      sym (ap (λ r. lookup k r.0.files) (ok_injective h))
  lookup-extract_entry reg_entry name content (a, found) next k h =
      let (above, e, made, i) = extract_file-ok name content a found next h in
      ap (λ f. lookup k f.files) made ∙ lookup-insert name k content a.files
  lookup-extract_entry other_entry name content so_far next k h =
      sym (ap (λ r. lookup k r.0.files) (ok_injective h))

  lookup-extract_steps :
      (steps : List TarStep) (so_far last : Extracted Sig Schema) (k : Text)
      → extract_steps json steps so_far ≡ ok last
      → lookup k last.0.files ≡ content_in k steps (lookup k so_far.0.files)
  unfolding extract_steps content_in
  lookup-extract_steps [] so_far last k h = sym (ap (λ r. lookup k r.0.files) (ok_injective h))
  lookup-extract_steps (unreadable ∷ steps) so_far last k h = cc
  lookup-extract_steps (an_entry header content ∷ steps) so_far last k h =
      let name = trim_dot_slash header.name in
      let (next, step, h1) = >>=-ok (extract_entry json header.kind name content so_far) _ h in
      lookup-extract_steps steps next last k h1
      ∙ ap (content_in k steps) (lookup-extract_entry header.kind name content so_far next k step)

-- The directories above a name are all in a set.
pub record IsBelow (dirs : List Text) (name : Text) : Type 0 where
  pub above : List Text
  pub all_above : ancestors (length name + 2) (dir name) ≡ some above
  pub present : All (λ d. mem d dirs ≡ true) above

-- A file system with the dot, in which the directories above every file are directories.
pub record IsTree (a : ArchiveFs) : Type 0 where
  pub has_dot : mem dot a.dirs ≡ true
  pub below :
      (name : Text) (content : List ℕ) → lookup name a.files ≡ some content → IsBelow a.dirs name

module _ (dirs more : List Text) (sub : (d : Text) → mem d dirs ≡ true → mem d more ≡ true) where
  IsBelow-more : (name : Text) → IsBelow dirs name → IsBelow more name
  IsBelow-more name b = record {
    above = b.above;
    all_above = b.all_above;
    present = All-map (λ d. mem d dirs ≡ true) (λ d. mem d more ≡ true) b.above sub b.present;
  }

put_file-IsTree :
    {Sig Schema : Type 0} (json : Json Sig Schema) (name : Text) (content : List ℕ) (a : ArchiveFs)
    (above : List Text)
    → ancestors (length name + 2) (dir name) ≡ some above
    → IsTree a
    → IsTree (put_file json name content a above)
put_file-IsTree json name content a above e t = record {
  has_dot = mem-append_right dot above a.dirs t.has_dot;
  below = λ n c h. elim (Bool-cases (text_eq name n)) [
    | inl same ↦
        subst (IsBelow (above ++ a.dirs)) ((text_eq_iff name n).0 same)
          (record { above = above; all_above = e; present = mem-append-All above a.dirs })
    | inr other ↦
        IsBelow-more a.dirs (above ++ a.dirs) (λ d. mem-append_right d above a.dirs) n
          (t.below n c (sym (rw other at (lookup-insert name n content a.files)) ∙ h))
  ];
}

module _ {Sig Schema : Type 0} (json : Json Sig Schema) where
  extract_entry-IsTree :
      (kind : EntryType) (name : Text) (content : List ℕ) (so_far next : Extracted Sig Schema)
      → extract_entry json kind name content so_far ≡ ok next
      → IsTree so_far.0
      → IsTree next.0
  unfolding extract_entry
  extract_entry-IsTree dir_entry name content (a, found) next h t =
      subst (λ r. IsTree r.0) (ok_injective h)
        (record {
          has_dot = mem-cons dot (trim_slash name) a.dirs t.has_dot;
          below = λ n c k.
              IsBelow-more a.dirs (trim_slash name ∷ a.dirs)
                (λ d. mem-cons d (trim_slash name) a.dirs) n (t.below n c k);
        })
  extract_entry-IsTree reg_entry name content (a, found) next h t =
      let (above, e, made, i) = extract_file-ok json name content a found next h in
      subst IsTree (sym made) (put_file-IsTree json name content a above e t)
  extract_entry-IsTree other_entry name content so_far next h t =
      subst (λ r. IsTree r.0) (ok_injective h) t

  extract_steps-IsTree :
      (steps : List TarStep) (so_far last : Extracted Sig Schema)
      → extract_steps json steps so_far ≡ ok last
      → IsTree so_far.0
      → IsTree last.0
  unfolding extract_steps
  extract_steps-IsTree [] so_far last h t = subst (λ r. IsTree r.0) (ok_injective h) t
  extract_steps-IsTree (unreadable ∷ steps) so_far last h t = cc
  extract_steps-IsTree (an_entry header content ∷ steps) so_far last h t =
      let name = trim_dot_slash header.name in
      let (next, step, h1) = >>=-ok (extract_entry json header.kind name content so_far) _ h in
      extract_steps-IsTree steps next last h1
        (extract_entry-IsTree header.kind name content so_far next step t)

  demand_manifest-ok :
      (last : Extracted Sig Schema) (out : ArchiveFs × Package Sig Schema)
      → demand_manifest json last ≡ ok out
      → last.0 ≡ out.0
  demand_manifest-ok (a, none) out h = cc
  demand_manifest-ok (a, some pkg) out h = ap (λ r. r.0) (ok_injective h)

  empty≢some : (c : List ℕ) → ◌≡◌ {A = Option (List ℕ)} none (some c) → ⊥
  empty≢some c h = cc

  new_archive_fs-IsTree : IsTree (new_archive_fs json)
  unfolding lookup
  new_archive_fs-IsTree = record {
    has_dot = mem-head dot [];
    below = λ n c h. absurd (empty≢some c h);
  }

  -- An archive that extractArchive accepts can be read, and in the file system that it gives: a name has
  -- the content of the last regular entry with this name, less a leading `./`; and every directory above
  -- a file is a directory.
  pub extract_archive-IsTree :
      (tar : Tar) (bytes : List ℕ) (a : ArchiveFs) (pkg : Package Sig Schema) (k : Text)
      → extract_archive json tar bytes ≡ ok (a, pkg)
      → (steps : List TarStep) × (tar.read bytes ≡ some steps)
        × (lookup k a.files ≡ content_in k steps none)
        × IsTree a
  unfolding extract_archive lookup
  extract_archive-IsTree tar bytes a pkg k h =
      let (steps, read, h1) = >>=-ok (or_fail cannot_read_tar (tar.read bytes)) _ h in
      let (last, out, h2) = >>=-ok (extract_steps json steps (new_archive_fs json, none)) _ h1 in
      let same = demand_manifest-ok last (a, pkg) h2 in
      (
        steps,
        or_fail-ok cannot_read_tar (tar.read bytes) steps read,
        ap (λ f. lookup k f.files) (sym same)
            ∙ lookup-extract_steps json steps (new_archive_fs json, none) last k out,
        subst IsTree same
            (extract_steps-IsTree steps (new_archive_fs json, none) last out new_archive_fs-IsTree),
      )

  parsed-ends :
      (r : Result ManifestError (Package Sig Schema))
      → ◌≢◌ {A = Result ArchiveError (Option (Package Sig Schema))}
          (elim r [ ok pkg ↦ ok (some pkg) | err e ↦ err (bad_internal e) ])
          (err endless)
  parsed-ends (ok pkg) k = cc
  parsed-ends (err e) k = cc

  internal_manifest-ends :
      (name : Text) (content : List ℕ) (found : Option (Package Sig Schema))
      → internal_manifest json name content found ≢ err endless
  internal_manifest-ends name content found =
      elim (Bool-cases (text_eq name pkg_manifest_filename)) [
        | inl e ↦ rw e (parsed-ends (parse_pkg json content))
        | inr n ↦ rw n (λ h. cc)
      ]

  after_bind :
      {X : Type 0} (r : Result ArchiveError X) (f : X → Extracted Sig Schema)
      → r ≢ err endless
      → (r >>= λ x. ok (f x)) ≢ err endless
  after_bind (ok x) f h k = cc
  after_bind (err e) f h k = h (cc)

  -- The loop over the directories above a regular entry does not end exactly if the entry's name, less a
  -- leading `./`, begins with a slash.
  pub extract_file-endless :
      (name : Text) (content : List ℕ) (so_far : Extracted Sig Schema)
      → (extract_file json name content so_far ≡ err endless) ↔ (is_rooted name ≡ true)
  unfolding extract_file
  extract_file-endless name content (a, found) = elim (Bool-cases (is_rooted name)) [
    | inl e ↦ (λ h. e, λ k. rw (ancestors_forever name (length name + 2) e))
    | inr n ↦
        let (above, ends) = ancestors_end name n in
        (
          λ h. absurd (
              after_bind (internal_manifest json name content found)
                (λ f. (put_file json name content a above, f))
                (internal_manifest-ends name content found) (rw ends at h)),
          λ k. absurd (cc (n, k)),
        )
  ]
