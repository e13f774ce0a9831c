-- ===== src/Storage/Keys.antt =====
-- The foreign key from messages to contacts: what client/src/storage/MessageRepository.ts and
-- ContactRepository.ts write keeps it.
use tor_e2ee_messenger.Common.{
  ◌≡◌, refl, Bool, true, false, Option, none, some, List, [], ◌∷◌, ◌++◌, Text, to_lower, text_eq,
  text_eq_iff, lookup, put, remove, lookup-put, lookup-remove, text_keys, keep_if, All, Bool-cases,
  Option-cases, inl, inr, arith,
}
use tor_e2ee_messenger.Common.Result.{Result, ok, err}
use tor_e2ee_messenger.Storage.Database.{
  StoredMessage, DeliveryStatus, ContactRecord, DeviceRecord, Database, DatabaseError,
}
use tor_e2ee_messenger.Storage.Messages.{
  message_row, find_message, update_where, has_id, merge_message, save_message,
  mark_messages_as_read, update_delivery_status, delete_message, clear_conversation,
}
use tor_e2ee_messenger.Storage.Contacts.{
  save_contact, add_linked_device, update_alias, delete_contact, refers_to, get_contact_by_hash,
}

-- The contact of a message is in the table.
unfoldable pub known : List (Text × ContactRecord) → StoredMessage → Bool
known contacts m = elim (lookup m.contact_pubkey_hash contacts) [ none ↦ false | some _ ↦ true ]

-- Every message belongs to a contact.
abbrev pub IsConsistent : Database → Type 0
IsConsistent db = All (λ m. known db.contacts m ≡ true) db.messages

All-update {ℓ} :
    (P : StoredMessage → Type ℓ) (test : StoredMessage → Bool)
    (change : StoredMessage → StoredMessage) (ms : List StoredMessage)
    → ((m : StoredMessage) → P m → P (change m))
    → All P ms
    → All P (update_where test change ms)
unfolding update_where
All-update P test change [] keeps h = tt
All-update P test change (m ∷ ms) keeps (first, rest) = elim (Bool-cases (test m)) [
  | inl e ↦ rw e (keeps m first, All-update P test change ms keeps rest)
  | inr e ↦ rw e (first, All-update P test change ms keeps rest)
]

All-keep_if {ℓ} :
    (P : StoredMessage → Type ℓ) (test : StoredMessage → Bool) (ms : List StoredMessage)
    → All P ms
    → All P (keep_if test ms)
All-keep_if P test [] h = tt
All-keep_if P test (m ∷ ms) (first, rest) = elim (Bool-cases (test m)) [
  | inl e ↦ rw e (first, All-keep_if P test ms rest)
  | inr e ↦ rw e (All-keep_if P test ms rest)
]

All-append_one {ℓ} :
    (P : StoredMessage → Type ℓ) (ms : List StoredMessage) (m : StoredMessage)
    → All P ms
    → P m
    → All P (ms ++ m ∷ [])
All-append_one P [] m h q = (q, tt)
All-append_one P (n ∷ ms) m (first, rest) q = (first, All-append_one P ms m rest q)

-- What a repository can write: each is one call, and those that throw leave the tables as they are.
pub data Write : Type 0 where
  saves_message : StoredMessage → Write
  marks_as_read : Text → Write
  updates_status : Text → DeliveryStatus → Write
  deletes_message : Text → Write
  clears_conversation : Text → Write
  saves_contact : ContactRecord → Write
  adds_device : Text → DeviceRecord → Write
  updates_alias : Text → Option Text → Write
  deletes_contact : Text → Write

unfoldable pub written : Result DatabaseError Database → Database → Database
written (ok after) before = after
written (err _) before = before

unfoldable pub write : Write → Database → Database
unfolding written
write (saves_message m) db = written (save_message m db) db
write (marks_as_read hash) db = mark_messages_as_read hash db
write (updates_status id status) db = update_delivery_status id status db
write (deletes_message id) db = delete_message id db
write (clears_conversation hash) db = clear_conversation hash db
write (saves_contact contact) db = save_contact contact db
write (adds_device hash device) db = written (add_linked_device hash device db) db
write (updates_alias hash name) db = update_alias hash name db
write (deletes_contact hash) db = written (delete_contact hash db) db

unfoldable pub write_all : List Write → Database → Database
unfolding write
write_all [] db = db
write_all (w ∷ ws) db = write_all ws (write w db)

known-put :
    (contacts : List (Text × ContactRecord)) (k : Text) (row : ContactRecord) (m : StoredMessage)
    → known contacts m ≡ true
    → known (put k row contacts) m ≡ true
unfolding known
known-put contacts k row m h =
    rw (lookup-put m.contact_pubkey_hash k row contacts, known) (ground arith)

All-known-put :
    (contacts : List (Text × ContactRecord)) (k : Text) (row : ContactRecord)
    (ms : List StoredMessage)
    → All (λ m. known contacts m ≡ true) ms
    → All (λ m. known (put k row contacts) m ≡ true) ms
All-known-put contacts k row [] h = tt
All-known-put contacts k row (m ∷ ms) (first, rest) =
    (known-put contacts k row m first, All-known-put contacts k row ms rest)

known-remove :
    (contacts : List (Text × ContactRecord)) (k : Text) (m : StoredMessage)
    → text_eq m.contact_pubkey_hash k ≡ false
    → known contacts m ≡ true
    → known (remove k contacts) m ≡ true
unfolding known
known-remove contacts k m other h =
    rw (lookup-remove m.contact_pubkey_hash k contacts, known)
      (ground (arith, text_eq_iff k m.contact_pubkey_hash, text_eq_iff m.contact_pubkey_hash k))

All-known-remove :
    (contacts : List (Text × ContactRecord)) (k : Text) (ms : List StoredMessage)
    → refers_to k ms ≡ false
    → All (λ m. known contacts m ≡ true) ms
    → All (λ m. known (remove k contacts) m ≡ true) ms
unfolding refers_to
All-known-remove contacts k [] none_refers h = tt
All-known-remove contacts k (m ∷ ms) none_refers (first, rest) =
    elim (Bool-cases (text_eq m.contact_pubkey_hash k)) [
      | inl e ↦ absurd (let bad : true ≡ false = rw e at none_refers in cc)
      | inr e ↦ (
        known-remove contacts k m e first,
        All-known-remove contacts k ms (rw e at none_refers) rest,
      )
    ]

pub save_message-Consistent :
    (m : StoredMessage) (db : Database)
    → IsConsistent db
    → IsConsistent (written (save_message m db) db)
unfolding save_message written
save_message-Consistent m db h = elim (Option-cases (find_message m.id db.messages)) [
  | inr (old, e) ↦
      rw (e, save_message)
        (All-update _ (has_id m.id) (merge_message (message_row m)) db.messages
          (λ n q. unfold known in q) h)
  | inl e ↦ elim (Option-cases (lookup (to_lower m.contact_pubkey_hash) db.contacts)) [
    | inl e' ↦ rw (e, save_message) (rw e' h)
    | inr (c, e') ↦
        rw (e, save_message)
          (rw e' (
            All-append_one _ db.messages (message_row m) h
              (unfold known message_row in rw (e', known) refl)))
  ]
]

pub save_contact-Consistent :
    (c : ContactRecord) (db : Database) → IsConsistent db → IsConsistent (save_contact c db)
unfolding save_contact
save_contact-Consistent c db h = All-known-put db.contacts _ _ db.messages h

add_device-Consistent :
    (hash : Text) (d : DeviceRecord) (db : Database)
    → IsConsistent db
    → IsConsistent (written (add_linked_device hash d db) db)
unfolding add_linked_device written
add_device-Consistent hash d db h = elim (Option-cases (get_contact_by_hash hash db)) [
  | inl e ↦ rw (e, add_linked_device) h
  | inr (c, e) ↦ rw (e, add_linked_device) (save_contact-Consistent _ db h)
]

alias-Consistent :
    (hash : Text) (name : Option Text) (db : Database)
    → IsConsistent db
    → IsConsistent (update_alias hash name db)
unfolding update_alias
alias-Consistent hash name db h = elim (Option-cases (lookup (to_lower hash) db.contacts)) [
  | inl e ↦ rw (e, update_alias) h
  | inr (row, e) ↦ rw (e, update_alias) (All-known-put db.contacts _ _ db.messages h)
]

delete-Consistent :
    (hash : Text) (db : Database)
    → IsConsistent db
    → IsConsistent (written (delete_contact hash db) db)
unfolding delete_contact written
delete-Consistent hash db h = elim (Option-cases (lookup (to_lower hash) db.contacts)) [
  | inl e ↦ rw (e, delete_contact) h
  | inr (row, e) ↦ elim (Bool-cases (refers_to (to_lower hash) db.messages)) [
    | inl e' ↦ rw (e, delete_contact) (rw e' h)
    | inr e' ↦
        rw (e, delete_contact)
          (rw e' (All-known-remove db.contacts (to_lower hash) db.messages e' h))
  ]
]

write-Consistent : (w : Write) (db : Database) → IsConsistent db → IsConsistent (write w db)
unfolding write
write-Consistent (saves_message m) db h = save_message-Consistent m db h
write-Consistent (marks_as_read hash) db h =
    unfold mark_messages_as_read in All-update _ _ _ db.messages (λ n q. unfold known in q) h
write-Consistent (updates_status id status) db h =
    unfold update_delivery_status in All-update _ _ _ db.messages (λ n q. unfold known in q) h
write-Consistent (deletes_message id) db h = unfold delete_message in All-keep_if _ _ db.messages h
write-Consistent (clears_conversation hash) db h =
    unfold clear_conversation in All-keep_if _ _ db.messages h
write-Consistent (saves_contact c) db h = save_contact-Consistent c db h
write-Consistent (adds_device hash d) db h = add_device-Consistent hash d db h
write-Consistent (updates_alias hash name) db h = alias-Consistent hash name db h
write-Consistent (deletes_contact hash) db h = delete-Consistent hash db h

-- Whatever the repositories write, in whatever order and with whatever failures in between: if every
-- message belonged to a contact before, every message does afterwards.
pub write_all-IsConsistent :
    (ws : List Write) (db : Database) → IsConsistent db → IsConsistent (write_all ws db)
unfolding write_all
write_all-IsConsistent [] db h = h
write_all-IsConsistent (w ∷ ws) db h =
    write_all-IsConsistent ws (write w db) (write-Consistent w db h)
