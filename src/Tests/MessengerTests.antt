-- ===== src/Tests/MessengerTests.antt =====
-- Calls of the messenger on small inputs.
use tor_e2ee_messenger.Common.{
  if◌then◌else◌, ◌≡◌, refl, true, false, some, [], ◌∷◌, codes, to_lower, arith,
}
use tor_e2ee_messenger.Common.Result.{ok}
use tor_e2ee_messenger.Crypto.{EncryptedMessage, SessionRecord}
use tor_e2ee_messenger.Crypto.Cipher.{decrypt}
use tor_e2ee_messenger.Crypto.InSync.{InSync, with_one}
use tor_e2ee_messenger.Storage.Database.{StoredMessage}
use tor_e2ee_messenger.Storage.Messages.{get_message_by_id, message_row}
use tor_e2ee_messenger.Storage.Memory.{memory_store, memory_store-IsSignalStore}
use tor_e2ee_messenger.Messenger.{on_message_sent, on_message_received}
use tor_e2ee_messenger.Messenger.Receive.{handle_incoming_message}
use tor_e2ee_messenger.Messenger.Calls.{sends, receives, app_calls, IsHeld, app_calls-IsHeld}
use tor_e2ee_messenger.Messenger.{App}
use tor_e2ee_messenger.Storage.Memory.{MemoryStore}
use tor_e2ee_messenger.Storage.Messages.{find_message}
use tor_e2ee_messenger.Messenger.Storing.{StoresAs, send_outbound_message-stores}
use tor_e2ee_messenger.Messenger.Reached.{reaches}
use tor_e2ee_messenger.Storage.Database.{sent, delivered}
use tor_e2ee_messenger.Messenger.Send.{target_devices}
use tor_e2ee_messenger.Messenger.Delivered.{handle_incoming_message-delivers}
use tor_e2ee_messenger.Messenger.Synced.{handle_incoming_message-forged}
use tor_e2ee_messenger.Tests.Toy.{toy, toy-IsPlatform}
use tor_e2ee_messenger.Crypto.Delivery.{decrypt-step}
use tor_e2ee_messenger.Crypto.Ratchet.{decrypt_with_key}
use tor_e2ee_messenger.Tests.Chats.{
  named_message, a_sync, toy_json, app, send_draws, receive_draws, payload, ann, ann-found, alone,
  none-found,
}
use tor_e2ee_messenger.Tests.Sessions.{
  first, first_bytes, remote, listening, listening-InSync, no_numbers, incoming-IsSealed, draws,
  sender, holding-found,
}

abbrev first_row : StoredMessage
first_row = record {
  id = codes "m1";
  contact_pubkey_hash = codes "c1";
  sender_identity_hex = codes "a1";
  recipient_identity_hex = codes "b0";
  body = codes "hello";
  timestamp = 3;
  is_outgoing = false;
  is_read = false;
  delivery_status = delivered;
}

abbrev greeted : App MemoryStore
greeted = record app { tables = record app.tables { messages = first_row ∷ [] } }

first_row-found : get_message_by_id (codes "m1") greeted.tables ≡ some first_row
unfolding get_message_by_id find_message
first_row-found = refl

app_calls-IsHeld_example :
    IsHeld
      (codes "m1")
      first_row
      (app_calls toy memory_store toy_json
        (codes "b0")
        (receives receive_draws (payload (codes "hi"))
          ∷ sends send_draws (codes "c1") (codes "yo")
          ∷ [])
        greeted).tables
app_calls-IsHeld_example =
    app_calls-IsHeld toy memory_store toy_json (codes "b0") (codes "m1") first_row
      (receives receive_draws (payload (codes "hi"))
        ∷ sends send_draws (codes "c1") (codes "yo")
        ∷ [])
      greeted first_row-found

send_outbound_message-stores_example :
    StoresAs toy memory_store toy_json send_draws
      (codes "b0")
      (codes "C1")
      (codes "yo")
      ann
      app
      (record {
        id = codes "m1";
        contact_pubkey_hash = codes "c1";
        sender_identity_hex = codes "b0";
        recipient_identity_hex = ann.identity_pubkey_hex;
        body = codes "yo";
        timestamp = 7;
        is_outgoing = true;
        is_read = true;
        delivery_status =
            if reaches toy memory_store toy_json send_draws.to_devices 0
              (codes "yo")
              (target_devices ann)
              app
            then delivered
            else sent;
      })
send_outbound_message-stores_example =
    send_outbound_message-stores toy memory_store toy_json send_draws (codes "b0") (codes "C1")
      (codes "yo") ann app ((refl, refl), tt) ann-found

handle_incoming_message-delivers_example :
    (let out =
        handle_incoming_message toy memory_store toy_json receive_draws
          (codes "b0")
          (payload (codes "hi"))
          alone in
      (m : StoredMessage) × (out.0 ≡ some m)
      × (m.body ≡ codes "hi")
      × (m.sender_identity_hex ≡ to_lower sender)
      × (m.is_outgoing ≡ false)
      × (m.is_read ≡ false)
      × (get_message_by_id (codes "m2") out.1.tables ≡ some (message_row m))
      × (out.1.events ≡ on_message_received m ∷ [])
      × (after : SessionRecord) × (memory_store.get_session out.1.signal_store (to_lower sender)
          ≡ ok (some after))
      × InSync toy first remote (with_one 0 no_numbers) after)
unfolding decrypt_with_key
handle_incoming_message-delivers_example =
    handle_incoming_message-delivers toy toy-IsPlatform memory_store
      (memory_store-IsSignalStore toy) toy_json first first_bytes remote no_numbers listening
      (named_message (codes "hi")) sender (codes "hi") receive_draws (codes "b0")
      (payload (codes "hi")) alone listening-InSync
      (let q = incoming-IsSealed 0 (codes "hi") in
        record { ephemeral = q.ephemeral; opens = q.opens })
      refl (omega arith) (holding-found listening) refl refl refl tt (none-found (codes "m2"))

abbrev forged_message : EncryptedMessage
forged_message = named_message (codes "sync")

forged-opens :
    (decrypt toy memory_store draws (to_lower sender) forged_message alone.signal_store).0
    ≡ ok (codes "sync")
unfolding decrypt_with_key
forged-opens =
    (decrypt-step toy toy-IsPlatform memory_store (memory_store-IsSignalStore toy) first first_bytes
      remote no_numbers listening listening-InSync forged_message (codes "sync")
      (let q = incoming-IsSealed 0 (codes "sync") in
        record { ephemeral = q.ephemeral; opens = q.opens })
      refl draws sender alone.signal_store (holding-found listening) (omega arith)).1

handle_incoming_message-forged_example :
    (let out =
        handle_incoming_message toy memory_store toy_json receive_draws
          (codes "b0")
          (payload (codes "sync"))
          alone in
      (m : StoredMessage) × (out.0 ≡ some m)
      × (m.body ≡ codes "forged")
      × (m.contact_pubkey_hash ≡ codes "ee")
      × (m.is_outgoing ≡ true)
      × (m.is_read ≡ true)
      × (get_message_by_id m.id out.1.tables ≡ some (message_row m))
      × (out.1.events ≡ on_message_sent m ∷ []))
handle_incoming_message-forged_example =
    handle_incoming_message-forged toy memory_store toy_json receive_draws (codes "b0")
      (payload (codes "sync")) forged_message sender (codes "sync") a_sync alone refl refl tt
      forged-opens refl (none-found (codes "m9"))
