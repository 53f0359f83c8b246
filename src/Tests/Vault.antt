-- ===== src/Tests/Vault.antt =====
-- Runs of the store of secrets, with toy versions of age and JSON.
use toolbox.Prelude.{
  ◌≡◌, refl, ℕ, zero, suc, List, [], ◌∷◌, ◌++◌, Option, none, some, false, ok, err, length, take,
  drop, ◌==◌, if◌then◌else◌,
}
use toolbox.Prelude.Text.{Text, codes, text_eq}
use toolbox.Prelude.Assoc.{Assoc, lookup, insert, remove}
use toolbox.Registry.Cache.{Disk}
use toolbox.Toolsetfile.Lock.{no_fault, no_temp}
use toolbox.Secrets.{
  Age, Opened, LocalSecretStore, cannot_replace, invalid_key, get, set, delete, list, unlock,
  new_local_secret_store,
}
use toolbox.Secrets.Kept.{closed, get-set, get-set_failed}

-- A map is written as its texts with their lengths before them.
abbrev written : Assoc (List ℕ) → List ℕ
written [] = []
written ((k, v) ∷ m) = length k ∷ (k ++ (length v ∷ (v ++ written m)))

abbrev field : List ℕ → List ℕ × List ℕ
field [] = ([], [])
field (n ∷ bytes) = (take n bytes, drop n bytes)

abbrev entries : ℕ → List ℕ → Assoc (List ℕ)
entries zero bytes = []
entries (suc n) [] = []
entries (suc n) (b ∷ bytes) =
    let (k, more) = field (b ∷ bytes) in let (v, rest) = field more in (k, v) ∷ entries n rest

-- The bytes of a file of identities are the identities, and an encrypted text begins with the recipient.
abbrev opens : List ℕ → List ℕ → Option (List ℕ)
opens (i ∷ ids) (r ∷ seed ∷ bytes) = if i == r then some bytes else none
opens ids bytes = none

abbrev toy : Age ℕ ℕ ℕ
toy = record {
  parse_identities = some;
  recipient_of = some;
  encrypt = λ r seed bytes. r ∷ seed ∷ bytes;
  decrypt = opens;
  marshal = λ m. some (written m);
  unmarshal = λ bytes. some (entries (length bytes) bytes);
  unreadable = λ path. false;
}

abbrev old_secrets : Assoc (List ℕ)
old_secrets = (codes "b", 1 ∷ 2 ∷ []) ∷ []

abbrev disk : Disk
disk = (codes "/keys", 7 ∷ []) ∷ (codes "/secrets", 7 ∷ 9 ∷ written old_secrets) ∷ []

abbrev state : Opened ℕ ℕ
state = record { identities = 7 ∷ []; recipient = 7; secrets = old_secrets }

abbrev store : LocalSecretStore ℕ ℕ
store =
    new_local_secret_store (codes "/default") (codes "/default-keys") (codes "/secrets")
      (codes "/keys")

opens_at_first_use : unlock toy (codes "/secrets") (codes "/keys") disk ≡ ok state
unfolding unlock text_eq
opens_at_first_use = refl

no_temp_yet : lookup (codes "/.secrets-1.tmp") disk ≡ none
unfolding lookup text_eq
no_temp_yet = refl

get_b : (get toy (codes "b") disk store).1 ≡ ok (1 ∷ 2 ∷ [])
unfolding get new_local_secret_store text_eq
get_b = refl

get_no_key : (get toy [] disk store).1 ≡ err invalid_key
unfolding get new_local_secret_store text_eq
get_no_key = refl

list_after_set :
    (list toy [] disk
      (set toy 3 no_fault (codes "/.secrets-1.tmp") (codes "a") (5 ∷ []) disk store).1).1
    ≡ ok (codes "a" ∷ codes "b" ∷ [])
unfolding list set new_local_secret_store text_eq remove
list_after_set = refl

list_after_delete :
    (list toy [] (delete toy 3 no_fault (codes "/.secrets-1.tmp") (codes "b") disk store).0 store).1
    ≡ ok []
unfolding list delete new_local_secret_store text_eq
list_after_delete = refl

abbrev after_set : Assoc (List ℕ)
after_set = (codes "a", 5 ∷ []) ∷ old_secrets

inserted : insert (codes "a") (5 ∷ []) old_secrets ≡ after_set
unfolding insert text_eq remove
inserted = refl

marshals_inserted : toy.marshal (insert (codes "a") (5 ∷ []) old_secrets) ≡ some (written after_set)
unfolding insert text_eq remove
marshals_inserted = refl

reads_back : (k : Text) → lookup k after_set ≡ lookup k (insert (codes "a") (5 ∷ []) old_secrets)
unfolding insert text_eq remove
reads_back k = refl

apart : text_eq (codes "/secrets") (codes "/keys") ≡ false
unfolding text_eq
apart = refl

get-set_example :
    ((set toy 3 no_fault
        (codes "/.secrets-1.tmp")
        (codes "a")
        (5 ∷ [])
        disk
        (closed toy (codes "/secrets") (codes "/keys"))).2
      ≡ ok tt)
    × ((get toy
          (codes "b")
          (set toy 3 no_fault
            (codes "/.secrets-1.tmp")
            (codes "a")
            (5 ∷ [])
            disk
            (closed toy (codes "/secrets") (codes "/keys"))).0
          (closed toy (codes "/secrets") (codes "/keys"))).1
        ≡ (if text_eq (codes "a") (codes "b")
            then ok (5 ∷ [])
            else (get toy (codes "b") disk (closed toy (codes "/secrets") (codes "/keys"))).1))
get-set_example =
    get-set toy (codes "/secrets") (codes "/keys") (codes "a") (codes "b") (codes "/.secrets-1.tmp")
      disk state 3 (5 ∷ []) (written after_set) after_set refl refl opens_at_first_use apart refl
      no_temp_yet marshals_inserted refl refl reads_back

no_temp_fails :
    (set toy 3 no_temp
      (codes "/.secrets-1.tmp")
      (codes "a")
      (5 ∷ [])
      disk
      (closed toy (codes "/secrets") (codes "/keys"))).2
    ≡ err cannot_replace
unfolding set text_eq remove
no_temp_fails = refl

get-set_failed_example :
    (lookup
        (codes "/secrets")
        (set toy 3 no_temp
          (codes "/.secrets-1.tmp")
          (codes "a")
          (5 ∷ [])
          disk
          (closed toy (codes "/secrets") (codes "/keys"))).0
      ≡ lookup (codes "/secrets") disk)
    × ((get toy
          (codes "a")
          (set toy 3 no_temp
            (codes "/.secrets-1.tmp")
            (codes "a")
            (5 ∷ [])
            disk
            (closed toy (codes "/secrets") (codes "/keys"))).0
          (set toy 3 no_temp
            (codes "/.secrets-1.tmp")
            (codes "a")
            (5 ∷ [])
            disk
            (closed toy (codes "/secrets") (codes "/keys"))).1).1
        ≡ ok (5 ∷ []))
get-set_failed_example =
    get-set_failed toy (codes "/secrets") (codes "/keys") (codes "a") (codes "/secrets")
      (codes "/.secrets-1.tmp") disk state 3 no_temp (5 ∷ []) (written after_set) refl
      opens_at_first_use no_temp_yet marshals_inserted no_temp_fails
