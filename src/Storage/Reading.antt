-- ===== src/Storage/Reading.antt =====
-- What client/src/storage/MessageRepository.ts reads back of what it wrote.
use tor_e2ee_messenger.Common.{
  ◌≡◌, ◌≢◌, refl, ap, sym, ◌∙◌, true, false, not, ◌&&◌, Option, none, some, List, [], ◌∷◌, ◌++◌,
  Text, to_lower, text_eq, text_eq_iff, lookup, text_keys, keep_if, is_empty, length, Bool-cases,
  Option-cases, inl, inr, if◌then◌else◌, arith,
}
use tor_e2ee_messenger.Common.Result.{Result, ok, err}
use tor_e2ee_messenger.Storage.Database.{
  StoredMessage, ContactRecord, Database, DatabaseError, foreign_key_failed,
}
use tor_e2ee_messenger.Storage.Messages.{
  message_row, find_message, update_where, has_id, of_contact, is_unread, merge_message,
  save_message, get_message_by_id, mark_messages_as_read, get_unread_count,
}

-- The row that a save is meant to leave, field by field, where its id was new or stood in an old row.
unfoldable pub saved_row : StoredMessage → Option StoredMessage → StoredMessage
saved_row m none = record {
  id = m.id;
  contact_pubkey_hash = to_lower m.contact_pubkey_hash;
  sender_identity_hex = to_lower m.sender_identity_hex;
  recipient_identity_hex = to_lower m.recipient_identity_hex;
  body = m.body;
  timestamp = m.timestamp;
  is_outgoing = m.is_outgoing;
  is_read = m.is_read;
  delivery_status = m.delivery_status;
}
saved_row m (some old) = record {
  id = old.id;
  contact_pubkey_hash = old.contact_pubkey_hash;
  sender_identity_hex = old.sender_identity_hex;
  recipient_identity_hex = old.recipient_identity_hex;
  body = m.body;
  timestamp = old.timestamp;
  is_outgoing = old.is_outgoing;
  is_read = m.is_read;
  delivery_status = m.delivery_status;
}

find-append :
    (id : Text) (ms : List StoredMessage) (m : StoredMessage)
    → find_message id (ms ++ m ∷ []) ≡ elim (find_message id ms) [
      | some old ↦ some old
      | none ↦ if text_eq m.id id then some m else none
    ]
unfolding find_message
find-append id [] m = refl
find-append id (n ∷ ms) m = elim (Bool-cases (text_eq n.id id)) [
  | inl e ↦ rw e refl
  | inr e ↦ rw e (find-append id ms m)
]

find-update :
    (id k : Text) (row : StoredMessage) (ms : List StoredMessage)
    → find_message id (update_where (has_id k) (merge_message row) ms) ≡ elim (find_message id ms) [
      | none ↦ none
      | some old ↦ if text_eq k id then some (merge_message row old) else some old
    ]
unfolding find_message update_where
find-update id k row [] = refl
find-update id k row (n ∷ ms) =
    ground
      (arith, find-update id k row ms, text_eq_iff n.id id, text_eq_iff n.id k, text_eq_iff k id)

found_id :
    (id : Text) (ms : List StoredMessage) (m : StoredMessage)
    → find_message id ms ≡ some m
    → m.id ≡ id
unfolding find_message
found_id id [] m h = cc
found_id id (n ∷ ms) m h = ground (arith, found_id id ms m, text_eq_iff n.id id)

abbrev messages_of : Result DatabaseError Database → List StoredMessage
messages_of (ok db) = db.messages
messages_of (err _) = []

module _ (m : StoredMessage) (db after : Database) (id : Text)
    (saved : save_message m db ≡ ok after) where
  updated :
      (old : StoredMessage)
      → find_message m.id db.messages ≡ some old
      → find_message id after.messages ≡ (
          if text_eq m.id id
          then some (saved_row m (find_message m.id db.messages))
          else find_message id db.messages)
  unfolding saved_row save_message
  updated old e =
      let stored : after.messages
          ≡ update_where (has_id m.id) (merge_message (message_row m)) db.messages =
        sym (ap messages_of (rw (e, save_message) at saved)) in
      ap (find_message id) stored
      ∙ find-update id m.id (message_row m) db.messages
      ∙ elim (Bool-cases (text_eq m.id id)) [
        | inl same ↦
            let i : m.id ≡ id = (text_eq_iff m.id id).0 same in
            let e' : find_message id db.messages ≡ some old =
              ap (λ j. find_message j db.messages) (sym i) ∙ e in
            rw e' (rw e (rw same refl))
        | inr other ↦ elim (Option-cases (find_message id db.messages)) [
          | inl none_there ↦ rw none_there (rw other refl)
          | inr (x, there) ↦ rw there (rw other refl)
        ]
      ]

  added :
      find_message m.id db.messages ≡ none
      → (row : ContactRecord) → lookup (to_lower m.contact_pubkey_hash) db.contacts ≡ some row
      → find_message id after.messages ≡ (
          if text_eq m.id id
          then some (saved_row m (find_message m.id db.messages))
          else find_message id db.messages)
  unfolding saved_row save_message
  added e row e' =
      let stored : after.messages ≡ db.messages ++ message_row m ∷ [] =
        sym (ap messages_of (rw e' at (rw (e, save_message) at saved))) in
      ap (find_message id) stored
      ∙ find-append id db.messages (message_row m)
      ∙ elim (Bool-cases (text_eq m.id id)) [
        | inl same ↦
            let i : m.id ≡ id = (text_eq_iff m.id id).0 same in
            let gone : find_message id db.messages ≡ none =
              ap (λ j. find_message j db.messages) (sym i) ∙ e in
            rw gone (unfold message_row in rw same (rw e refl))
        | inr other ↦ elim (Option-cases (find_message id db.messages)) [
          | inl none_there ↦ rw none_there (unfold message_row in rw other refl)
          | inr (x, there) ↦ rw there (rw other refl)
        ]
      ]

-- A message whose save succeeded is read back under its id, and no other message changes. Where the id
-- was new, the row has every field of the message, the hash and the two identities in lower case. Where
-- the id was there before, the body, the read mark and the delivery status are those of the message, and
-- the hash of the contact, the two identities, the time and the direction are those of the old row.
pub get_message_by_id-save_message :
    (m : StoredMessage) (db after : Database) (id : Text)
    → save_message m db ≡ ok after
    → get_message_by_id id after ≡ (
        if text_eq m.id id
        then some (saved_row m (get_message_by_id m.id db))
        else get_message_by_id id db)
unfolding save_message get_message_by_id
get_message_by_id-save_message m db after id h =
    elim (Option-cases (find_message m.id db.messages)) [
      | inr (old, e) ↦ updated m db after id h old e
      | inl e ↦ elim (Option-cases (lookup (to_lower m.contact_pubkey_hash) db.contacts)) [
        | inl e' ↦ absurd (
            let bad : err foreign_key_failed ≡ ok after = rw e' at (rw (e, save_message) at h) in
            cc)
        | inr (row, e') ↦ added m db after id h e row e'
      ]
    ]

reads_all :
    (hash : Text) (ms : List StoredMessage)
    → length (
        keep_if
          (λ m. of_contact hash m && is_unread m)
          (update_where
            (λ m. of_contact hash m && not m.is_outgoing)
            (λ m. record m { is_read = true })
            ms))
      ≡ 0
unfolding update_where
reads_all hash [] = refl
reads_all hash (m ∷ ms) = ground (arith, reads_all hash ms)

reads_no_other :
    (hash other : Text) (ms : List StoredMessage)
    → to_lower hash ≢ to_lower other
    → length (
        keep_if
          (λ m. of_contact other m && is_unread m)
          (update_where
            (λ m. of_contact hash m && not m.is_outgoing)
            (λ m. record m { is_read = true })
            ms))
      ≡ length (keep_if (λ m. of_contact other m && is_unread m) ms)
unfolding update_where
reads_no_other hash other [] h = refl
reads_no_other hash other (m ∷ ms) h = ground (
  arith,
  reads_no_other hash other ms h,
  text_eq_iff m.contact_pubkey_hash (to_lower hash),
  text_eq_iff m.contact_pubkey_hash (to_lower other),
)

-- After the messages of a contact are marked as read, that contact has no unread messages, and any
-- other contact has as many as before. The two hashes are not empty, since an empty one counts all.
pub get_unread_count-mark_messages_as_read :
    (hash other : Text) (db : Database)
    → is_empty hash ≡ false
    → is_empty other ≡ false
    → to_lower hash ≢ to_lower other
    → (get_unread_count (some hash) (mark_messages_as_read hash db) ≡ 0)
      × (get_unread_count (some other) (mark_messages_as_read hash db)
          ≡ get_unread_count (some other) db)
unfolding get_unread_count mark_messages_as_read
get_unread_count-mark_messages_as_read hash other db h k apart =
    (rw h (reads_all hash db.messages), rw k (reads_no_other hash other db.messages apart))
