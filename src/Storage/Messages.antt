-- ===== src/Storage/Messages.antt =====
-- client/src/storage/MessageRepository.ts. Of messages with one time, SQL may order any way; here they
-- keep the order of the table.
use tor_e2ee_messenger.Common.{
  ℕ, Bool, true, not, ◌&&◌, Option, none, some, List, [], ◌∷◌, ◌++◌, Text, to_lower, leb, text_eq,
  lookup, text_keys, length, if◌then◌else◌, take, drop, keep_if, is_empty,
}
use tor_e2ee_messenger.Common.Result.{Result, ok, err}
use tor_e2ee_messenger.Storage.Database.{
  StoredMessage, DeliveryStatus, Database, DatabaseError, foreign_key_failed,
}

-- The parameters of the INSERT.
unfoldable pub message_row : StoredMessage → StoredMessage
message_row message = record message {
  contact_pubkey_hash = to_lower message.contact_pubkey_hash;
  sender_identity_hex = to_lower message.sender_identity_hex;
  recipient_identity_hex = to_lower message.recipient_identity_hex;
}

-- `WHERE id = ?`
unfoldable pub find_message : Text → List StoredMessage → Option StoredMessage
find_message id [] = none
find_message id (m ∷ rest) = if text_eq m.id id then some m else find_message id rest

-- An UPDATE of the rows that pass a test.
unfoldable pub update_where :
    (StoredMessage → Bool)
    → (StoredMessage → StoredMessage)
    → List StoredMessage
    → List StoredMessage
update_where test change [] = []
update_where test change (m ∷ rest) =
    let changed = update_where test change rest in
    if test m then change m ∷ changed else m ∷ changed

abbrev pub has_id : Text → StoredMessage → Bool
has_id id m = text_eq m.id id

abbrev pub of_contact : Text → StoredMessage → Bool
of_contact hash m = text_eq m.contact_pubkey_hash (to_lower hash)

abbrev pub is_unread : StoredMessage → Bool
is_unread m = not m.is_read && not m.is_outgoing

-- `ON CONFLICT(id) DO UPDATE`
abbrev pub merge_message : StoredMessage → StoredMessage → StoredMessage
merge_message new old = record old {
  body = new.body;
  is_read = new.is_read;
  delivery_status = new.delivery_status;
}

unfoldable pub save_message : StoredMessage → Database → Result DatabaseError Database
unfolding message_row find_message update_where lookup
save_message message db =
    let row = message_row message in
    elim (find_message row.id db.messages) [
      | some _ ↦
          ok (record db { messages = update_where (has_id row.id) (merge_message row) db.messages })
      | none ↦ elim (lookup row.contact_pubkey_hash db.contacts) [
        | none ↦ err foreign_key_failed
        | some _ ↦ ok (record db { messages = db.messages ++ row ∷ [] })
      ]
    ]

unfoldable pub get_message_by_id : Text → Database → Option StoredMessage
unfolding find_message
get_message_by_id id db = find_message id db.messages

-- `ORDER BY timestamp ASC`
unfoldable pub insert_by_time : StoredMessage → List StoredMessage → List StoredMessage
insert_by_time m [] = m ∷ []
insert_by_time m (n ∷ rest) =
    let later = insert_by_time m rest in
    if leb m.timestamp n.timestamp then m ∷ n ∷ rest else n ∷ later

unfoldable pub by_time : List StoredMessage → List StoredMessage
unfolding insert_by_time
by_time [] = []
by_time (m ∷ rest) = insert_by_time m (by_time rest)

unfoldable pub get_messages_for_contact : Text → ℕ → ℕ → Database → List StoredMessage
unfolding by_time
get_messages_for_contact hash limit offset db =
    take limit (drop offset (by_time (keep_if (of_contact hash) db.messages)))

unfoldable pub mark_messages_as_read : Text → Database → Database
unfolding update_where
mark_messages_as_read hash db = record db {
  messages =
      update_where (λ m. of_contact hash m && not m.is_outgoing) (λ m. record m { is_read = true })
        db.messages;
}

unfoldable pub get_unread_count : Option Text → Database → ℕ
get_unread_count none db = length (keep_if is_unread db.messages)
get_unread_count (some hash) db =
    if is_empty hash
    then length (keep_if is_unread db.messages)
    else length (keep_if (λ m. of_contact hash m && is_unread m) db.messages)

unfoldable pub update_delivery_status : Text → DeliveryStatus → Database → Database
unfolding update_where
update_delivery_status id status db = record db {
  messages = update_where (has_id id) (λ m. record m { delivery_status = status }) db.messages;
}

unfoldable pub delete_message : Text → Database → Database
delete_message id db = record db { messages = keep_if (λ m. not (has_id id m)) db.messages }

unfoldable pub clear_conversation : Text → Database → Database
clear_conversation hash db = record db {
  messages = keep_if (λ m. not (of_contact hash m)) db.messages;
}
