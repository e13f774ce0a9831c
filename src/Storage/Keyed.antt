-- ===== src/Storage/Keyed.antt =====
-- The primary key of the contacts in client/src/storage/ContactRepository.ts: each row stands under its
-- own hash, in lower case.
use tor_e2ee_messenger.Common.{
  ◌≡◌, refl, sym, subst, Option, none, some, List, [], ◌∷◌, ◌++◌, Text, to_lower, to_lower_twice,
  text_eq_iff, lookup, put, text_keys, Bool-cases, inl, inr, ◌==◌, Option-cases,
}
use tor_e2ee_messenger.Common.Result.{ok}
use tor_e2ee_messenger.Storage.Database.{ContactRecord, StoredMessage, Database}
use tor_e2ee_messenger.Storage.Messages.{
  save_message, find_message, update_where, has_id, merge_message, message_row,
}
use tor_e2ee_messenger.Storage.Keys.{written}
use tor_e2ee_messenger.Storage.Contacts.{contact_row, merge_contact, save_contact}

abbrev pub HasKey : Text → ContactRecord → Type 0
HasKey k row = (row.recipient_pubkey_hash ≡ k) × (to_lower k ≡ k)

abbrev pub IsKeyed : List (Text × ContactRecord) → Type 0
IsKeyed [] = Unit
IsKeyed ((k, row) ∷ rows) = HasKey k row × IsKeyed rows

pub lookup-Keyed :
    (k : Text) (rows : List (Text × ContactRecord)) (row : ContactRecord)
    → IsKeyed rows
    → lookup k rows ≡ some row
    → HasKey k row
unfolding lookup
lookup-Keyed k [] row h e = cc
lookup-Keyed k ((j, r) ∷ rows) row (first, rest) e = elim (Bool-cases (j == k)) [
  | inl same ↦
      let found : some r ≡ some row = rw same at e in
      let key : j ≡ k = (text_eq_iff j k).0 same in (cc, cc)
  | inr other ↦ lookup-Keyed k rows row rest (rw other at e)
]

put-Keyed :
    (k : Text) (row : ContactRecord) (rows : List (Text × ContactRecord))
    → HasKey k row
    → IsKeyed rows
    → IsKeyed (put k row rows)
unfolding put
put-Keyed k row [] h t = (h, tt)
put-Keyed k row ((j, r) ∷ rows) h (first, rest) = elim (Bool-cases (j == k)) [
  | inl e ↦
      let key : j ≡ k = (text_eq_iff j k).0 e in rw e (subst (λ i. HasKey i row) (sym key) h, rest)
  | inr e ↦ rw e (first, put-Keyed k row rows h rest)
]

pub save_contact-Keyed :
    (c : ContactRecord) (db : Database) → IsKeyed db.contacts → IsKeyed (save_contact c db).contacts
unfolding save_contact contact_row merge_contact
save_contact-Keyed c db h =
    put-Keyed _ _ db.contacts (merged (lookup _ db.contacts), to_lower_twice _) h
  where
    merged :
        (old : Option ContactRecord)
        → (merge_contact old (contact_row c)).recipient_pubkey_hash
          ≡ to_lower c.recipient_pubkey_hash
    merged none = refl
    merged (some row) = refl

pub save_message-contacts :
    (m : StoredMessage) (db : Database) → (written (save_message m db) db).contacts ≡ db.contacts
unfolding save_message written
save_message-contacts m db = elim (Option-cases (find_message m.id db.messages)) [
  | inr (old, e) ↦ rw (e, save_message) refl
  | inl e ↦ elim (Option-cases (lookup (to_lower m.contact_pubkey_hash) db.contacts)) [
    | inl e' ↦ rw (e, save_message) (rw e' refl)
    | inr (c, e') ↦ rw (e, save_message) (rw e' refl)
  ]
]

-- A message of a contact that is in the table can always be saved.
pub save_message-ok :
    (m : StoredMessage) (db : Database) (row : ContactRecord)
    → lookup (to_lower m.contact_pubkey_hash) db.contacts ≡ some row
    → (after : Database) × (save_message m db ≡ ok after)
unfolding save_message
save_message-ok m db row found = elim (Option-cases (find_message m.id db.messages)) [
  | inr (old, e) ↦ (
    record db { messages = update_where (has_id m.id) (merge_message (message_row m)) db.messages },
    rw (e, save_message) refl,
  )
  | inl e ↦ (
    record db { messages = db.messages ++ message_row m ∷ [] },
    rw (e, save_message) (rw found refl),
  )
]
