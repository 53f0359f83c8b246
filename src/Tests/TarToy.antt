-- ===== src/Tests/TarToy.antt =====
-- A concrete archive format, manifest encoding and disk, on which packing and loading runs.
use toolbox.Prelude.{
  ℕ, zero, suc, if◌then◌else◌, true, false, List, [], ◌∷◌, ◌++◌, map, take, drop, Option, none,
  some, length, append_assoc, take-append_left, drop-append_left, ◌≡◌, ◌≢◌, refl, ap, sym, ◌∙◌,
  Option-cases, Bool-cases, inl, inr, some_injective,
}
use toolbox.Prelude.Text.{Text, text_eq_iff, text_eq_refl, text_eq, codes}
use toolbox.Prelude.Assoc.{Assoc, lookup, insert, lookup-insert}
use toolbox.Packaging.Types.{Package, ts_sandbox}
use toolbox.Packaging.Tar.{
  EntryType, dir_entry, reg_entry, other_entry, Header, TarEntry, TarStep, an_entry, Tar, Visit,
  Outside, with_sha256,
}
use toolbox.Packaging.Manifest.{Json}
use toolbox.Packaging.Plain.{read_back}
use toolbox.Packaging.PackLoad.{Reliable}

-- A list behind its length.
abbrev pub counted : List ℕ → List ℕ → List ℕ
counted l more = length l ∷ (l ++ more)

abbrev first_of : List ℕ → List ℕ
first_of [] = []
first_of (n ∷ more) = take n more

abbrev after_counted : List ℕ → List ℕ
after_counted [] = []
after_counted (n ∷ more) = drop n more

-- A regular entry: its numbers, then its texts. Other entries are refused.
abbrev encode_as : EntryType → Header → List ℕ → List ℕ → Option (List ℕ)
encode_as reg_entry h body more = some (
    h.mode
    ∷ h.size
    ∷ h.mod_time
    ∷ h.access_time
    ∷ h.change_time
    ∷ h.uid
    ∷ h.gid
    ∷ counted h.name (counted h.uname (counted h.gname (counted body more))))
encode_as dir_entry h body more = none
encode_as other_entry h body more = none

abbrev encode_onto : TarEntry → Option (List ℕ) → Option (List ℕ)
encode_onto (h, body) none = none
encode_onto (h, body) (some more) = encode_as h.kind h body more

abbrev encode_all : List TarEntry → Option (List ℕ)
encode_all [] = some []
encode_all (e ∷ es) = encode_onto e (encode_all es)

abbrev decode_texts : ℕ → ℕ → ℕ → ℕ → ℕ → ℕ → ℕ → List ℕ → TarStep
decode_texts mode size mt at ct uid gid t =
    let u = after_counted t in
    let g = after_counted u in
    an_entry
      (record {
        name = first_of t;
        kind = reg_entry;
        mode = mode;
        size = size;
        mod_time = mt;
        access_time = at;
        change_time = ct;
        uid = uid;
        gid = gid;
        uname = first_of u;
        gname = first_of g;
      })
      (first_of (after_counted g))

abbrev decode_n : ℕ → List ℕ → List TarStep
decode_n zero l = []
decode_n (suc n) (m ∷ s ∷ mt ∷ at ∷ ct ∷ uid ∷ gid ∷ t) =
    decode_texts m s mt at ct uid gid t
    ∷ decode_n n (after_counted (after_counted (after_counted (after_counted t))))
decode_n (suc n) _ = []

abbrev with_count : ℕ → Option (List ℕ) → Option (List ℕ)
with_count n none = none
with_count n (some l) = some (n ∷ l)

abbrev read_tar : List ℕ → Option (List TarStep)
read_tar [] = none
read_tar (n ∷ l) = some (decode_n n l)

decode_counted :
    (l more : List ℕ) → (first_of (counted l more) ≡ l) × (after_counted (counted l more) ≡ more)
decode_counted l more = (take-append_left l more, drop-append_left l more)

decode_entry :
    (n : ℕ) (h : Header) (body more l : List ℕ) (kind : EntryType)
    → h.kind ≡ kind
    → encode_as kind h body more ≡ some l
    → decode_n (suc n) l ≡ read_back (h, body) ∷ decode_n n more
decode_entry n h body more l dir_entry hk e = cc
decode_entry n h body more l other_entry hk e = cc
decode_entry n h body more l reg_entry hk e =
    let b = counted body more in
    let g = counted h.gname b in
    let u = counted h.uname g in
    rw (sym (some_injective e)) (
      rw (
        hk,
        drop-append_left h.name u,
        drop-append_left h.uname g,
        drop-append_left h.gname b,
        drop-append_left body more,
        take-append_left h.name u,
        take-append_left h.uname g,
        take-append_left h.gname b,
        take-append_left body more,
      ))

decode_all :
    (es : List TarEntry) (l : List ℕ)
    → encode_all es ≡ some l
    → decode_n (length es) l ≡ map read_back es
decode_all [] l e = refl
decode_all ((h, body) ∷ es) l e = elim (Option-cases (encode_all es)) [
  | inl absent ↦ absurd (cc (rw absent at e))
  | inr (more, eo) ↦
      decode_entry (length es) h body more l h.kind refl (rw eo at e)
      ∙ ap (λ r. read_back (h, body) ∷ r) (decode_all es more eo)
]

abbrev pub tar : Tar
tar = record {
  write = λ es. with_count (length es) (encode_all es);
  read = read_tar;
  info_header = λ entry. some (record {
    name = entry.name;
    kind = if entry.is_dir then dir_entry else reg_entry;
    mode = 420;
    size = entry.size;
    mod_time = 7;
    access_time = 7;
    change_time = 7;
    uid = 501;
    gid = 20;
    uname = codes "me";
    gname = codes "staff";
  });
}

tar_read :
    (es : List TarEntry) (bytes : List ℕ)
    → tar.write es ≡ some bytes
    → tar.read bytes ≡ some (map read_back es)
tar_read es bytes e = elim (Option-cases (encode_all es)) [
  | inl absent ↦ absurd (cc (rw absent at e))
  | inr (l, eo) ↦
      let same : some (length es ∷ l) ≡ some bytes = rw eo at e in
      rw (sym (some_injective same)) (ap some (decode_all es l eo))
]

-- Of a package, the hash is stored.
abbrev stored_package : Package Unit Unit
stored_package = record {
  name = codes "calc";
  runtime = ts_sandbox;
  sha256 = [];
  globs = [];
  executables = [];
  tools = [];
}

abbrev pub stored : Package Unit Unit → Package Unit Unit
stored pkg = with_sha256 pkg.sha256 stored_package

abbrev decode_hash : List ℕ → Option (Package Unit Unit)
decode_hash raw = some (with_sha256 (first_of raw) stored_package)

abbrev pub json : Json Unit Unit
json = record {
  is_object = λ raw. true;
  fits_dev = λ raw. true;
  fits_dist = λ raw. true;
  decode_dev = λ raw. none;
  decode_package = decode_hash;
  encode_package = λ pkg. some (counted pkg.sha256 []);
}

abbrev pub Disk : Type 0
Disk = Assoc (List ℕ)

abbrev toy_hash : List ℕ → Text
toy_hash bytes = length bytes ∷ []

abbrev pub outside : List Visit → Outside Unit Unit Disk
outside visits = record {
  read_file = lookup;
  write_file = λ path bytes disk. (insert path bytes disk, true);
  sha256_hex = toy_hash;
  marshal = λ pkg. pkg.sha256;
  marshal_indent = λ pkg. some (counted pkg.sha256 []);
  walk_dir = λ fs. visits;
}

other_differs : (path other : Text) → other ≢ path → text_eq path other ≡ false
other_differs path other apart = elim (Bool-cases (text_eq path other)) [
  | inl same ↦ absurd (apart (sym ((text_eq_iff path other).0 same)))
  | inr h ↦ h
]

pub reliable : (visits : List Visit) → Reliable tar (outside visits) json stored
reliable visits = record {
  tar_read = tar_read;
  decoded = λ pkg raw h.
      rw (sym (some_injective h))
        (ap (λ t. some (with_sha256 t stored_package)) (take-append_left pkg.sha256 []));
  decoded_line = λ pkg raw h. rw (sym (some_injective h)) (
      ap (λ t. some (with_sha256 t stored_package))
        (ap (take (length pkg.sha256)) (append_assoc pkg.sha256 [] (b'\n' ∷ []))
          ∙ take-append_left pkg.sha256 (b'\n' ∷ [])));
  stored_hash = λ hash pkg. refl;
  file_written = λ path bytes disk disk' h.
      let same : insert path bytes disk ≡ disk' = ap (λ r. r.0) h in
      ap (lookup path) (sym same) ∙ lookup-insert path path bytes disk ∙ rw (text_eq_refl path);
  file_kept = λ path other bytes disk disk' h apart.
      let same : insert path bytes disk ≡ disk' = ap (λ r. r.0) h in
      ap (lookup other) (sym same)
      ∙ lookup-insert path other bytes disk
      ∙ rw (other_differs path other apart);
  has_kinds = λ entry header h. ap (λ e. e.kind) (sym (some_injective h));
  hash_not_empty = λ bytes. refl;
}
