-- ===== src/Tests/StorageTests.antt =====
-- The theorems about client/src/storage at concrete rows.
use tor_e2ee_messenger.Common.{
  take, ◌≡◌, refl, false, none, some, List, [], ◌∷◌, codes, lookup, text_eq, if◌then◌else◌, ◌++◌,
  keep_if, arith, ◌+◌,
}
use tor_e2ee_messenger.Common.Result.{ok}
use tor_e2ee_messenger.Storage.Database.{StoredMessage, ContactRecord, Database, delivered}
use tor_e2ee_messenger.Storage.Messages.{
  save_message, find_message, get_message_by_id, mark_messages_as_read, get_unread_count,
  get_messages_for_contact, of_contact,
}
use tor_e2ee_messenger.Storage.Sqlite.{sqlite_store}
use mathlib.Core.List.{Perm}
use tor_e2ee_messenger.Storage.Pages.{IsOrdered, get_messages_for_contact-pages}
use tor_e2ee_messenger.Storage.Migrations.{
  run_again, execute_all, pending_migrations, no_schema, full_schema, run_migrations-after_cut,
}
use tor_e2ee_messenger.Storage.Reading.{
  saved_row, get_message_by_id-save_message, get_unread_count-mark_messages_as_read,
}
use tor_e2ee_messenger.Storage.Keys.{
  IsConsistent, saves_contact, saves_message, deletes_contact, write_all, write_all-IsConsistent,
}
use tor_e2ee_messenger.Storage.Memory.{memory_store}
use tor_e2ee_messenger.Storage.MemoryShows.{new_memory_store, memory_store-Shows}
use tor_e2ee_messenger.Storage.SqliteShows.{new_sqlite_store, sqlite_store-Shows}
use tor_e2ee_messenger.Storage.History.{
  StoreWrite, saves_signed_pre_key, saves_one_time_pre_key, removes_one_time_pre_key, saves_session,
  removes_session, after_writes, Shows, IsStorable,
}
use tor_e2ee_messenger.Tests.Toy.{toy}
use tor_e2ee_messenger.Tests.Sessions.{identity, listening, listening-InSync}

abbrev some_writes : List StoreWrite
some_writes =
    saves_session (codes "AB") listening
    ∷ removes_one_time_pre_key 2
    ∷ saves_one_time_pre_key 2 (record { key_id = 2; key_pair = listening.local_dh_key_pair })
    ∷ saves_one_time_pre_key 1 (record { key_id = 1; key_pair = listening.local_dh_key_pair })
    ∷ saves_signed_pre_key 5 (record {
      key_id = 5;
      key_pair = listening.local_dh_key_pair;
      signature_hex = codes "5a";
      created_at = 4;
    })
    ∷ removes_session (codes "cd")
    ∷ []

abbrev storable : IsStorable toy some_writes
storable = let pair = listening-InSync.pair in (pair, (pair, (pair, (pair, tt))))

sqlite_store-Shows_example :
    Shows
      (sqlite_store toy)
      identity
      some_writes
      (after_writes (sqlite_store toy) some_writes (new_sqlite_store toy identity))
sqlite_store-Shows_example = sqlite_store-Shows toy identity some_writes storable

memory_store-Shows_example :
    Shows memory_store identity some_writes
      (after_writes memory_store some_writes (new_memory_store identity))
memory_store-Shows_example = memory_store-Shows identity some_writes

abbrev friend : ContactRecord
friend = record {
  recipient_pubkey_hash = codes "ab";
  identity_pubkey_hex = codes "01";
  signing_pubkey_hex = codes "02";
  alias_name = none;
  created_at = 5;
  linked_devices = [];
}

abbrev greeting : StoredMessage
greeting = record {
  id = codes "m1";
  contact_pubkey_hash = codes "AB";
  sender_identity_hex = codes "01";
  recipient_identity_hex = codes "03";
  body = codes "hi";
  timestamp = 7;
  is_outgoing = false;
  is_read = false;
  delivery_status = delivered;
}

abbrev no_rows : Database
no_rows = record { contacts = []; messages = []; own_linked_devices = [] }

abbrev one_friend : Database
one_friend = record { contacts = (codes "ab", friend) ∷ []; messages = []; own_linked_devices = [] }

abbrev one_greeting : Database
one_greeting = record one_friend {
  messages = (record greeting { contact_pubkey_hash = codes "ab" }) ∷ [];
}

write_all-IsConsistent_example : IsConsistent (
    write_all
      (saves_contact friend ∷ saves_message greeting ∷ deletes_contact (codes "ab") ∷ [])
      no_rows)
write_all-IsConsistent_example =
    write_all-IsConsistent
      (saves_contact friend ∷ saves_message greeting ∷ deletes_contact (codes "ab") ∷ []) no_rows tt

greeting-saved : save_message greeting one_friend ≡ ok one_greeting
unfolding save_message find_message lookup
greeting-saved = refl

get_message_by_id-save_message_example : get_message_by_id (codes "m1") one_greeting ≡ (
    if text_eq greeting.id (codes "m1")
    then some (saved_row greeting (get_message_by_id greeting.id one_friend))
    else get_message_by_id (codes "m1") one_friend)
get_message_by_id-save_message_example =
    get_message_by_id-save_message greeting one_friend one_greeting (codes "m1") greeting-saved

get_unread_count-mark_messages_as_read_example :
    (get_unread_count (some (codes "ab")) (mark_messages_as_read (codes "ab") one_greeting) ≡ 0)
    × (get_unread_count (some (codes "cd")) (mark_messages_as_read (codes "ab") one_greeting)
        ≡ get_unread_count (some (codes "cd")) one_greeting)
get_unread_count-mark_messages_as_read_example =
    get_unread_count-mark_messages_as_read (codes "ab") (codes "cd") one_greeting refl refl
      (λ e. cc)

get_messages_for_contact-pages_example :
    IsOrdered (get_messages_for_contact (codes "AB") 50 0 one_greeting)
    × Perm
        (get_messages_for_contact (codes "AB") 50 0 one_greeting)
        (keep_if (of_contact (codes "AB")) one_greeting.messages)
    × (get_messages_for_contact (codes "AB") 2 0 one_greeting
          ++ get_messages_for_contact (codes "AB") 3 (0 + 2) one_greeting
        ≡ get_messages_for_contact (codes "AB") (2 + 3) 0 one_greeting)
get_messages_for_contact-pages_example =
    get_messages_for_contact-pages (codes "AB") one_greeting 50 2 3 0 (omega arith)

run_migrations-after_cut_example :
    run_again (execute_all (take 8 (pending_migrations no_schema)) no_schema) ≡ some full_schema
run_migrations-after_cut_example = run_migrations-after_cut 8
