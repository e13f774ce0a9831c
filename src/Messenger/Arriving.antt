-- ===== src/Messenger/Arriving.antt =====
-- A message that client/src/orchestration/AppOrchestrator.ts dispatches on one device and handles on another.
use tor_e2ee_messenger.Common.{
  ℕ, ◌+◌, ◌≤◌, ◌≡◌, refl, ap, ◌∙◌, Bool, false, none, some, [], ◌∷◌, ◌++◌, Text, Bytes, to_lower,
  truthy,
}
use tor_e2ee_messenger.Common.Result.{ok}
use tor_e2ee_messenger.Platform.{Platform, IsPlatform, IsUint8Array}
use tor_e2ee_messenger.Crypto.{EncryptedMessage, SessionRecord}
use tor_e2ee_messenger.Crypto.Kdf.{max_skip_messages}
use tor_e2ee_messenger.Crypto.Store.{SignalStore, IsSignalStore}
use tor_e2ee_messenger.Crypto.InSync.{InSync}
use tor_e2ee_messenger.Crypto.Sealing.{Sends, encrypt-seals, encrypt-names}
use tor_e2ee_messenger.Storage.Database.{StoredMessage}
use tor_e2ee_messenger.Storage.Messages.{get_message_by_id, message_row}
use tor_e2ee_messenger.Storage.Keyed.{IsKeyed}
use tor_e2ee_messenger.Messenger.{App, Json, OutgoingMessageEnvelope, IncomingMessagePayload}
use tor_e2ee_messenger.Messenger.Send.{Dispatch, post, dispatch}
use tor_e2ee_messenger.Messenger.Receive.{ReceiveDraws, handle_incoming_message}
use tor_e2ee_messenger.Messenger.Delivered.{handle_incoming_message-delivers}

module _ (p : Platform) (laws : IsPlatform p) (json : Json) where
  -- What one device dispatches, the other stores. The session of the one sends on the chain that the
  -- session of the other, which stands under the sender's own key, is in step with; the number of the next
  -- message was not received before and lies within the bound on skipped messages; JSON reads back; the
  -- text survives UTF-8 and is no synchronised message. Then one envelope is posted, to the mailbox given,
  -- and the other device, handling it at whatever time with whatever draws and a fresh id, stores an
  -- unread row with that text from that sender. The sender need not be a contact there.
  pub dispatch-arrives :
      {A : Type 0} {B : Type 0} (store_a : SignalStore A) (stores_a : IsSignalStore p store_a)
      (store_b : SignalStore B) (stores_b : IsSignalStore p store_b) (first : Bytes)
      (r key key_a mailbox plaintext : Text) (session_a session_b : SessionRecord) (got : ℕ → Bool)
      (app_a : App A) (app_b : App B) (draw : Dispatch) (draws : ReceiveDraws) (key_b : Text)
      (created_at : ℕ) (nonce_b : Text)
      → IsUint8Array 32 first
      → IsUint8Array 24 draw.nonce
      → Sends p first r session_a
      → InSync p first r got session_b
      → got session_a.send_sequence_number ≡ false
      → session_a.send_sequence_number ≤ session_b.receive_sequence_number + max_skip_messages
      → store_a.get_session app_a.signal_store key ≡ ok (some session_a)
      → (store_a.get_identity app_a.signal_store).encryption_key.public_key_hex ≡ key_a
      → store_b.get_session app_b.signal_store (to_lower key_a) ≡ ok (some session_b)
      → truthy (some key_a) ≡ some key_a
      → p.utf8_decode (p.utf8_encode plaintext) ≡ plaintext
      → ((m : EncryptedMessage) → json.read_message (json.write_message m) ≡ some m)
      → json.read_sync plaintext ≡ none
      → IsKeyed app_b.tables.contacts
      → get_message_by_id draws.message_id app_b.tables ≡ none
      → (e : OutgoingMessageEnvelope) × ((dispatch p store_a json draw key mailbox plaintext
            app_a).1.posted
          ≡ app_a.posted ++ e ∷ [])
        × (e.recipient_pubkey_hash ≡ mailbox)
        × (let payload : IncomingMessagePayload = record {
          encrypted_payload = e.encrypted_payload;
          nonce = nonce_b;
          created_at = created_at;
        } in
            let out = handle_incoming_message p store_b json draws key_b payload app_b in
            (m : StoredMessage) × (out.0 ≡ some m)
            × (m.body ≡ plaintext)
            × (m.sender_identity_hex ≡ to_lower key_a)
            × (m.is_outgoing ≡ false)
            × (m.is_read ≡ false)
            × (get_message_by_id draws.message_id out.1.tables ≡ some (message_row m)))
  unfolding dispatch post
  dispatch-arrives store_a stores_a store_b stores_b first r key key_a mailbox plaintext session_a
        session_b got app_a app_b draw draws key_b created_at nonce_b first_bytes nonce_bytes sends
        sync new near found_a own found_b some_key well_formed round plain keyed fresh =
      let (message, made, number, sealed, held, next) =
        encrypt-seals p laws first first_bytes r session_a sends draw.nonce nonce_bytes plaintext
          well_formed store_a stores_a key app_a.signal_store found_a draw.now none in
      let names =
        encrypt-names p laws first first_bytes r session_a sends draw.nonce nonce_bytes plaintext
          well_formed store_a stores_a key app_a.signal_store found_a draw.now none message made in
      let payload : IncomingMessagePayload = record {
        encrypted_payload = json.write_message message;
        nonce = nonce_b;
        created_at = created_at;
      } in
      let (m, stored, body, sender, incoming, unread, back, event, after, kept, step) =
        handle_incoming_message-delivers p laws store_b stores_b json first first_bytes r got
          session_b message key_a plaintext draws key_b payload app_b sync sealed
          (ap got number ∙ new) (rw number near) found_b (round message)
          (ap truthy (names ∙ ap some own) ∙ some_key) plain keyed fresh in
      (
        record {
          recipient_pubkey_hash = mailbox;
          encrypted_payload = json.write_message message;
          nonce = message.nonce;
        },
        rw made refl,
        refl,
        (m, stored, body, sender, incoming, unread, back),
      )
