-- ===== src/Secrets/Kept.antt =====
-- secrets/local.go: what a change of the store leaves on disk and in memory.
use toolbox.Prelude.{
  ◌≡◌, refl, ap, sym, ◌∙◌, ℕ, List, Option, none, some, Bool, true, false, ok, err, guard, or_fail,
  if◌then◌else◌, >>=-ok, ok_injective, arith,
}
use toolbox.Prelude.Text.{Text, text_eq, text_eq_iff}
use toolbox.Prelude.Assoc.{Assoc, lookup, insert, lookup-insert}
use toolbox.Registry.Cache.{Disk}
use toolbox.Toolsetfile.Lock.{WriteFault, no_fault, write_atomic}
use toolbox.Toolsetfile.Cached.{write_atomic-or_same}
use toolbox.Secrets.{
  Age, not_found, bad_identities, cannot_replace, Opened, LocalSecretStore, opened, locked, is_key,
  get, set, unlock, store_data, identity_data, first_recipient,
}

module _ {Identity Recipient Seed : Type 0} (age : Age Identity Recipient Seed) where
  -- A store that opens has an identity file that is read, with identities of which the first has a recipient.
  abbrev IsOpened : Text → Disk → Opened Identity Recipient → Type 0
  IsOpened identity_path disk o =
      (file : List ℕ) × (identity_data age identity_path (lookup identity_path disk) ≡ ok file)
      × (or_fail bad_identities (age.parse_identities file) ≡ ok o.identities)
      × (first_recipient age o.identities ≡ ok o.recipient)

  unlock-IsOpened :
      (store_path identity_path : Text) (disk : Disk) (o : Opened Identity Recipient)
      → unlock age store_path identity_path disk ≡ ok o
      → IsOpened identity_path disk o
  unfolding unlock
  unlock-IsOpened p q disk o gave =
      let (file, has_file, more) = >>=-ok (identity_data age q (lookup q disk)) _ gave in
      let (identities, parsed, rest) =
        >>=-ok (or_fail bad_identities (age.parse_identities file)) _ more in
      let (recipient, first, last) = >>=-ok (first_recipient age identities) _ rest in
      let (secrets, read, done) = >>=-ok (store_data age p identities (lookup p disk)) _ last in
      let same = ok_injective done in
      (
        file,
        has_file,
        parsed ∙ ap (λ x. ok x.identities) same,
        ap (first_recipient age) (ap (λ x. x.identities) (sym same))
            ∙ first
            ∙ ap (λ x. ok x.recipient) same,
      )

  -- The store opens with other secrets where only the store's file is another.
  unlock-again :
      (store_path identity_path : Text) (disk : Disk) (o : Opened Identity Recipient)
      (secrets : Assoc (List ℕ))
      → IsOpened identity_path disk o
      → store_data age store_path o.identities (lookup store_path disk) ≡ ok secrets
      → unlock age store_path identity_path disk ≡ ok (record o { secrets = secrets })
  unfolding unlock
  unlock-again p q disk o secrets (file, has_file, parsed, first) read =
      rw (has_file, parsed, first, read)

  -- A store that is not opened yet.
  abbrev pub closed : Text → Text → LocalSecretStore Identity Recipient
  closed p q = record { store_path = p; identity_path = q; lock = locked }

  get-closed :
      (p q key : Text) (disk : Disk) (o : Opened Identity Recipient)
      → is_key key ≡ true
      → unlock age p q disk ≡ ok o
      → (get age key disk (closed p q)).1 ≡ or_fail not_found (lookup key o.secrets)
  unfolding get
  get-closed p q key disk o is_a_key gave = rw (is_a_key, gave)

  set-closed :
      (p q key : Text) (disk : Disk) (o : Opened Identity Recipient) (seed : Seed)
      (fault : WriteFault) (temp : Text) (value plaintext : List ℕ)
      → is_key key ≡ true
      → unlock age p q disk ≡ ok o
      → age.marshal (insert key value o.secrets) ≡ some plaintext
      → set age seed fault temp key value disk (closed p q) ≡ (
        (write_atomic fault temp p (age.encrypt o.recipient seed plaintext) disk).0,
        record {
          store_path = p;
          identity_path = q;
          lock = opened (record o { secrets = insert key value o.secrets });
        },
        guard
            (write_atomic fault temp p (age.encrypt o.recipient seed plaintext) disk).1
            cannot_replace,
      )
  unfolding set
  set-closed p q key disk o seed fault temp value plaintext is_a_key gave marshals =
      rw (is_a_key, gave, marshals)

  -- The store's file is read back, and the identity file is as it was.
  unlock-written :
      (p q temp : Text) (disk : Disk) (o : Opened Identity Recipient) (bytes plaintext : List ℕ)
      (back : Assoc (List ℕ))
      → unlock age p q disk ≡ ok o
      → text_eq p q ≡ false
      → age.unreadable p ≡ false
      → lookup temp disk ≡ none
      → age.decrypt o.identities bytes ≡ some plaintext
      → age.unmarshal plaintext ≡ some back
      → unlock age p q (write_atomic no_fault temp p bytes disk).0
        ≡ ok (record o { secrets = back })
  unfolding write_atomic
  unlock-written p q temp disk o bytes plaintext back gave apart readable fresh decrypts decodes =
      let written = write_atomic-or_same no_fault temp p bytes disk p fresh in
      let same = write_atomic-or_same no_fault temp p bytes disk q fresh in
      let (file, has_file, parsed, first) = unlock-IsOpened p q disk o gave in
      unlock-again p q (write_atomic no_fault temp p bytes disk).0 o back
        (file, rw (same, apart, has_file), parsed, first)
        (rw (written, (text_eq_iff p p).1 refl, readable, decrypts, decodes))

  write_atomic_done :
      (temp p : Text) (bytes : List ℕ) (disk : Disk)
      → guard (write_atomic no_fault temp p bytes disk).1 cannot_replace ≡ ok tt
  unfolding write_atomic
  write_atomic_done temp p bytes disk = refl

  get-opened :
      (p q key : Text) (disk : Disk) (o : Opened Identity Recipient) (value : List ℕ)
      → is_key key ≡ true
      → lookup key o.secrets ≡ some value
      → (get age key disk (record { store_path = p; identity_path = q; lock = opened o })).1
        ≡ ok value
  unfolding get
  get-opened p q key disk o value is_a_key has = rw (is_a_key, has)

  get_insert :
      (test : Bool) (value : List ℕ) (found : Option (List ℕ))
      → or_fail not_found (if test then some value else found)
        ≡ (if test then ok value else or_fail not_found found)
  get_insert false value found = refl
  get_insert true value found = refl

  -- A store that is not opened yet takes a new secret. If it opens, its file is not that of the identities
  -- and can be read and replaced, by way of a temporary file with a new name, and age and JSON give back what
  -- was encrypted and marshalled, then Set with a key that is not empty returns no error, and a store
  -- that is opened on what is now on disk gives the new value for the key, and for every other key that
  -- is not empty what a store opened before the change gives.
  pub get-set :
      (p q key j temp : Text) (disk : Disk) (o : Opened Identity Recipient) (seed : Seed)
      (value plaintext : List ℕ) (back : Assoc (List ℕ))
      → is_key key ≡ true
      → is_key j ≡ true
      → unlock age p q disk ≡ ok o
      → text_eq p q ≡ false
      → age.unreadable p ≡ false
      → lookup temp disk ≡ none
      → age.marshal (insert key value o.secrets) ≡ some plaintext
      → age.decrypt o.identities (age.encrypt o.recipient seed plaintext) ≡ some plaintext
      → age.unmarshal plaintext ≡ some back
      → ((k : Text) → lookup k back ≡ lookup k (insert key value o.secrets))
      → ((set age seed no_fault temp key value disk (closed p q)).2 ≡ ok tt)
        × ((get age j (set age seed no_fault temp key value disk (closed p q)).0 (closed p q)).1
            ≡ (if text_eq key j then ok value else (get age j disk (closed p q)).1))
  get-set p q key j temp disk o seed value plaintext back is_a_key is_another gave apart readable
        fresh marshals decrypts decodes same =
      let done =
        set-closed p q key disk o seed no_fault temp value plaintext is_a_key gave marshals in
      let bytes = age.encrypt o.recipient seed plaintext in
      let after =
        unlock-written p q temp disk o bytes plaintext back gave apart readable fresh decrypts
          decodes in
      (
        ap (λ x. x.2) done ∙ write_atomic_done temp p bytes disk,
        ap (λ x. (get age j x.0 (closed p q)).1) done
            ∙ get-closed p q j (write_atomic no_fault temp p bytes disk).0
                (record o { secrets = back }) is_another after
            ∙ ap (or_fail not_found) (same j ∙ lookup-insert key j value o.secrets)
            ∙ get_insert (text_eq key j) value (lookup j o.secrets)
            ∙ ap (λ x. if text_eq key j then ok value else x)
                (sym (get-closed p q j disk o is_another gave)),
      )

  kept_disk :
      (fault : WriteFault) (p temp k : Text) (bytes : List ℕ) (disk : Disk)
      → lookup temp disk ≡ none
      → guard (write_atomic fault temp p bytes disk).1 cannot_replace ≡ err cannot_replace
      → lookup k (write_atomic fault temp p bytes disk).0 ≡ lookup k disk
  kept_disk fault p temp k bytes disk fresh failed =
      ground (arith, write_atomic-or_same fault temp p bytes disk k fresh, failed)

  -- A store that is not opened yet opens, and JSON can marshal its new secrets. If Set with a key that is
  -- not empty then cannot replace the file, by way of a temporary file with a new name, the disk is as it
  -- was, but the store gives the value that was not stored.
  pub get-set_failed :
      (p q key k temp : Text) (disk : Disk) (o : Opened Identity Recipient) (seed : Seed)
      (fault : WriteFault) (value plaintext : List ℕ)
      → is_key key ≡ true
      → unlock age p q disk ≡ ok o
      → lookup temp disk ≡ none
      → age.marshal (insert key value o.secrets) ≡ some plaintext
      → (set age seed fault temp key value disk (closed p q)).2 ≡ err cannot_replace
      → (lookup k (set age seed fault temp key value disk (closed p q)).0 ≡ lookup k disk)
        × ((get age key
              (set age seed fault temp key value disk (closed p q)).0
              (set age seed fault temp key value disk (closed p q)).1).1
            ≡ ok value)
  get-set_failed p q key k temp disk o seed fault value plaintext is_a_key gave fresh marshals
        failed =
      let done = set-closed p q key disk o seed fault temp value plaintext is_a_key gave marshals in
      let bytes = age.encrypt o.recipient seed plaintext in
      (
        ap (λ x. lookup k x.0) done
            ∙ kept_disk fault p temp k bytes disk fresh (ap (λ x. x.2) (sym done) ∙ failed),
        ap (λ x. (get age key x.0 x.1).1) done
            ∙ get-opened p q key (write_atomic fault temp p bytes disk).0
                (record o { secrets = insert key value o.secrets }) value is_a_key
                (lookup-insert key key value o.secrets
                  ∙ ap (λ x. if x then some value else lookup key o.secrets)
                      ((text_eq_iff key key).1 refl)),
      )
