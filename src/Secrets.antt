-- ===== src/Secrets.antt =====
-- secrets/local.go and secrets/secrets.go: the encrypted store of secrets, which is decrypted at its first
-- use and encrypted again after each change. age and encoding/json are parameters.
pub mod Kept
use toolbox.Prelude.{
  ℕ, List, [], ◌∷◌, Option, none, some, Bool, true, false, not, Result, ok, err, guard, or_fail,
  ◌>>=◌, ◌>>◌, if◌then◌else◌,
}
use toolbox.Prelude.Text.{Text, has_prefix}
use toolbox.Prelude.Assoc.{Assoc, lookup, insert, remove}
use toolbox.Registry.Cache.{Disk}
use toolbox.Toolsetfile.File.{sort_keys, keys_of}
use toolbox.Toolsetfile.Lock.{WriteFault, write_atomic}

-- The libraries: `encrypt` takes what it draws at random, and `unreadable` tells the files that are there
-- and cannot be read.
pub record Age (Identity Recipient Seed : Type 0) : Type 0 where
  pub parse_identities : List ℕ → Option (List Identity)
  pub recipient_of : Identity → Option Recipient
  pub encrypt : Recipient → Seed → List ℕ → List ℕ
  pub decrypt : List Identity → List ℕ → Option (List ℕ)
  pub marshal : Assoc (List ℕ) → Option (List ℕ)
  pub unmarshal : List ℕ → Option (Assoc (List ℕ))
  pub unreadable : Text → Bool

pub data SecretError : Type 0 where
  invalid_key not_found : SecretError
  no_identity_file bad_identities no_identities no_recipient : SecretError
  unreadable_store cannot_decrypt bad_store_data : SecretError
  cannot_marshal cannot_replace : SecretError

-- The fields that unlock sets.
pub record Opened (Identity Recipient : Type 0) : Type 0 where
  pub identities : List Identity
  pub recipient : Recipient
  pub secrets : Assoc (List ℕ)

-- What the sync.Once of a store has come to.
pub data Lock (Identity Recipient : Type 0) : Type 0 where
  locked : Lock Identity Recipient
  refused : SecretError → Lock Identity Recipient
  opened : Opened Identity Recipient → Lock Identity Recipient

-- LocalSecretStore
pub record LocalSecretStore (Identity Recipient : Type 0) : Type 0 where
  pub store_path : Text
  pub identity_path : Text
  pub lock : Lock Identity Recipient

abbrev pub or_default : Text → Text → Text
or_default [] default = default
or_default (c ∷ path) default = c ∷ path

-- validateKey gives no error.
abbrev pub is_key : Text → Bool
is_key [] = false
is_key (c ∷ key) = true

module _ {Identity Recipient : Type 0} where
  -- NewLocalSecretStore, with the paths that it takes by default.
  unfoldable pub new_local_secret_store :
      Text → Text → Text → Text → LocalSecretStore Identity Recipient
  new_local_secret_store default_store default_identity store_path identity_path = record {
    store_path = or_default store_path default_store;
    identity_path = or_default identity_path default_identity;
    lock = locked;
  }

module _ {Identity Recipient Seed : Type 0} (age : Age Identity Recipient Seed) where
  abbrev pub first_recipient : List Identity → Result SecretError Recipient
  first_recipient [] = err no_identities
  first_recipient (identity ∷ identities) = or_fail no_recipient (age.recipient_of identity)

  abbrev pub store_data :
      Text → List Identity → Option (List ℕ) → Result SecretError (Assoc (List ℕ))
  store_data path identities none = ok []
  store_data path identities (some bytes) = do
    _ ← guard (not (age.unreadable path)) unreadable_store
    plaintext ← or_fail cannot_decrypt (age.decrypt identities bytes)
    or_fail bad_store_data (age.unmarshal plaintext)

  abbrev pub identity_data : Text → Option (List ℕ) → Result SecretError (List ℕ)
  identity_data path none = err no_identity_file
  identity_data path (some bytes) = if age.unreadable path then err no_identity_file else ok bytes

  -- unlock
  unfoldable pub unlock : Text → Text → Disk → Result SecretError (Opened Identity Recipient)
  unfolding lookup
  unlock store_path identity_path disk = do
    file ← identity_data identity_path (lookup identity_path disk)
    identities ← or_fail bad_identities (age.parse_identities file)
    recipient ← first_recipient identities
    secrets ← store_data store_path identities (lookup store_path disk)
    ok (record { identities = identities; recipient = recipient; secrets = secrets })

  abbrev pub lock_of : Result SecretError (Opened Identity Recipient) → Lock Identity Recipient
  lock_of (ok o) = opened o
  lock_of (err e) = refused e

  abbrev pub unlocked :
      Text → Text → Disk → Lock Identity Recipient → Result SecretError (Opened Identity Recipient)
  unlocked store_path identity_path disk locked = unlock store_path identity_path disk
  unlocked store_path identity_path disk (refused e) = err e
  unlocked store_path identity_path disk (opened o) = ok o

  abbrev pub with_lock :
      LocalSecretStore Identity Recipient
      → Result SecretError (Opened Identity Recipient)
      → LocalSecretStore Identity Recipient
  with_lock s r = record s { lock = lock_of r }

  -- ensureUnlocked
  unfoldable pub ensure_unlocked :
      Disk
      → LocalSecretStore Identity Recipient
      → LocalSecretStore Identity Recipient × Result SecretError (Opened Identity Recipient)
  unfolding unlock
  ensure_unlocked disk s =
      let r = unlocked s.store_path s.identity_path disk s.lock in (with_lock s r, r)

  abbrev pub get_unlocked :
      Text
      → LocalSecretStore Identity Recipient × Result SecretError (Opened Identity Recipient)
      → LocalSecretStore Identity Recipient × Result SecretError (List ℕ)
  get_unlocked key (s, err e) = (s, err e)
  get_unlocked key (s, ok o) = (s, or_fail not_found (lookup key o.secrets))

  -- LocalSecretStore.Get
  unfoldable pub get :
      Text
      → Disk
      → LocalSecretStore Identity Recipient
      → LocalSecretStore Identity Recipient × Result SecretError (List ℕ)
  unfolding ensure_unlocked lookup
  get key disk s =
      if is_key key then get_unlocked key (ensure_unlocked disk s) else (s, err invalid_key)

  abbrev pub replaced_store :
      LocalSecretStore Identity Recipient
      → Disk × Bool
      → Disk × LocalSecretStore Identity Recipient × Result SecretError (Unit {0})
  replaced_store s (disk, written) = (disk, s, guard written cannot_replace)

  abbrev pub flush_marshalled :
      Seed
      → WriteFault
      → Text
      → Disk
      → LocalSecretStore Identity Recipient
      → Recipient
      → Option (List ℕ)
      → Disk × LocalSecretStore Identity Recipient × Result SecretError (Unit {0})
  flush_marshalled seed fault temp disk s recipient none = (disk, s, err cannot_marshal)
  flush_marshalled seed fault temp disk s recipient (some plaintext) =
      replaced_store s
        (write_atomic fault temp s.store_path (age.encrypt recipient seed plaintext) disk)

  -- flush, of the secrets as they are after the change; `temp` is the name that CreateTemp gives.
  unfoldable pub flush :
      Seed
      → WriteFault
      → Text
      → Disk
      → LocalSecretStore Identity Recipient
      → Opened Identity Recipient
      → Disk × LocalSecretStore Identity Recipient × Result SecretError (Unit {0})
  unfolding write_atomic
  flush seed fault temp disk s o =
      flush_marshalled seed fault temp disk (record s { lock = opened o }) o.recipient
        (age.marshal o.secrets)

  abbrev pub set_unlocked :
      Seed
      → WriteFault
      → Text
      → Text
      → List ℕ
      → Disk
      → LocalSecretStore Identity Recipient × Result SecretError (Opened Identity Recipient)
      → Disk × LocalSecretStore Identity Recipient × Result SecretError (Unit {0})
  set_unlocked seed fault temp key value disk (s, err e) = (disk, s, err e)
  set_unlocked seed fault temp key value disk (s, ok o) =
      flush seed fault temp disk s (record o { secrets = insert key value o.secrets })

  -- LocalSecretStore.Set
  unfoldable pub set :
      Seed
      → WriteFault
      → Text
      → Text
      → List ℕ
      → Disk
      → LocalSecretStore Identity Recipient
      → Disk × LocalSecretStore Identity Recipient × Result SecretError (Unit {0})
  unfolding ensure_unlocked flush insert
  set seed fault temp key value disk s =
      if is_key key
      then set_unlocked seed fault temp key value disk (ensure_unlocked disk s)
      else (disk, s, err invalid_key)

  abbrev pub delete_found :
      Seed
      → WriteFault
      → Text
      → Text
      → Disk
      → LocalSecretStore Identity Recipient
      → Opened Identity Recipient
      → Option (List ℕ)
      → Disk × LocalSecretStore Identity Recipient × Result SecretError (Unit {0})
  delete_found seed fault temp key disk s o none = (disk, s, err not_found)
  delete_found seed fault temp key disk s o (some value) =
      flush seed fault temp disk s (record o { secrets = remove key o.secrets })

  abbrev pub delete_unlocked :
      Seed
      → WriteFault
      → Text
      → Text
      → Disk
      → LocalSecretStore Identity Recipient × Result SecretError (Opened Identity Recipient)
      → Disk × LocalSecretStore Identity Recipient × Result SecretError (Unit {0})
  delete_unlocked seed fault temp key disk (s, err e) = (disk, s, err e)
  delete_unlocked seed fault temp key disk (s, ok o) =
      delete_found seed fault temp key disk s o (lookup key o.secrets)

  -- LocalSecretStore.Delete
  unfoldable pub delete :
      Seed
      → WriteFault
      → Text
      → Text
      → Disk
      → LocalSecretStore Identity Recipient
      → Disk × LocalSecretStore Identity Recipient × Result SecretError (Unit {0})
  unfolding ensure_unlocked flush remove lookup
  delete seed fault temp key disk s =
      if is_key key
      then delete_unlocked seed fault temp key disk (ensure_unlocked disk s)
      else (disk, s, err invalid_key)

  abbrev pub with_prefix : Text → List Text → List Text
  with_prefix prefix [] = []
  with_prefix prefix (k ∷ keys) =
      let rest = with_prefix prefix keys in if has_prefix k prefix then k ∷ rest else rest

  abbrev pub list_unlocked :
      Text
      → LocalSecretStore Identity Recipient × Result SecretError (Opened Identity Recipient)
      → LocalSecretStore Identity Recipient × Result SecretError (List Text)
  list_unlocked prefix (s, err e) = (s, err e)
  list_unlocked prefix (s, ok o) = (s, ok (sort_keys (with_prefix prefix (keys_of o.secrets))))

  -- LocalSecretStore.List
  unfoldable pub list :
      Text
      → Disk
      → LocalSecretStore Identity Recipient
      → LocalSecretStore Identity Recipient × Result SecretError (List Text)
  unfolding ensure_unlocked sort_keys has_prefix
  list prefix disk s = list_unlocked prefix (ensure_unlocked disk s)
