-- ===== src/Messenger/Delivered.antt =====
-- `handleIncomingMessage` of client/src/orchestration/AppOrchestrator.ts on a message of a session that
-- is in step with its sender.
use tor_e2ee_messenger.Common.{
  ℕ, ◌≡◌, ◌≤◌, ◌+◌, refl, ap, ◌∙◌, Bool, false, none, some, [], ◌∷◌, ◌++◌, Text, Bytes, to_lower,
  truthy, codes, text_keys,
}
use tor_e2ee_messenger.Common.Result.{ok}
use tor_e2ee_messenger.Platform.{Platform, IsPlatform, IsUint8Array}
use tor_e2ee_messenger.Crypto.{EncryptedMessage, SessionRecord}
use tor_e2ee_messenger.Crypto.Store.{SignalStore, IsSignalStore}
use tor_e2ee_messenger.Crypto.Kdf.{max_skip_messages}
use tor_e2ee_messenger.Crypto.Cipher.{decrypt}
use tor_e2ee_messenger.Crypto.InSync.{InSync, IsSealed, with_one}
use tor_e2ee_messenger.Crypto.Delivery.{decrypt-step}
use tor_e2ee_messenger.Storage.Database.{ContactRecord, StoredMessage, Database}
use tor_e2ee_messenger.Storage.Messages.{save_message, find_message, get_message_by_id, message_row}
use tor_e2ee_messenger.Storage.Reading.{saved_row}
use tor_e2ee_messenger.Storage.Keyed.{IsKeyed}
use tor_e2ee_messenger.Messenger.{App, on_message_received, Json, IncomingMessagePayload}
use tor_e2ee_messenger.Messenger.Sender.{named_sender, resolve_sender}
use tor_e2ee_messenger.Messenger.Receive.{
  ReceiveDraws, Content, read_content, ensure_contact, received_at, received_message, store_read,
  store_content, open_message, receive_message, process_incoming, handle_incoming_message, reported,
}
use tor_e2ee_messenger.Messenger.Storing.{HasRow, saved_lem, read_back}
use tor_e2ee_messenger.Messenger.Known.{named_sender-known}

pub fresh_in :
    (id : Text) (after before : Database)
    → after.messages ≡ before.messages
    → get_message_by_id id before ≡ none
    → get_message_by_id id after ≡ none
unfolding get_message_by_id
fresh_in id after before same h = ap (find_message id) same ∙ h

pub saved_fresh :
    (m : StoredMessage) (db after : Database)
    → save_message m db ≡ ok after
    → get_message_by_id m.id db ≡ none
    → get_message_by_id m.id after ≡ some (message_row m)
unfolding saved_row message_row
saved_fresh m db after e fresh = read_back m db after e ∙ ap (λ o. some (saved_row m o)) fresh

-- What a plaintext that is no synchronised message turns out to be.
abbrev pub message_of : Text → ContactRecord → Text → Content
message_of drawn_id contact plaintext = record {
  is_sync = false;
  body = plaintext;
  contact_hash = contact.recipient_pubkey_hash;
  message_id = drawn_id;
}

pub read_content-plain :
    (json : Json) (drawn_id : Text) (contact : ContactRecord) (plaintext : Text)
    → json.read_sync plaintext ≡ none
    → read_content json drawn_id contact plaintext ≡ message_of drawn_id contact plaintext
unfolding read_content
read_content-plain json drawn_id contact plaintext e = rw (e, read_content) refl

module _ (p : Platform) {S : Type 0} (store : SignalStore S) (json : Json) (draws : ReceiveDraws)
    (own_key : Text) (payload : IncomingMessagePayload) where
  abbrev row_of : Text → ContactRecord → Text → StoredMessage
  row_of sender contact plaintext =
      received_message own_key sender (message_of draws.message_id contact plaintext)
        (received_at payload draws.now)

  store_content-stores :
      (sender : Text) (contact : ContactRecord) (plaintext : Text) (app : App S)
      → json.read_sync plaintext ≡ none
      → HasRow contact.recipient_pubkey_hash app.tables
      → (let m = row_of sender contact plaintext in
          (after : Database) × (save_message m app.tables ≡ ok after)
          × (store_content p store json draws own_key payload sender contact plaintext app ≡ (
            ok m,
            record app { tables = after; events = app.events ++ on_message_received m ∷ [] },
          )))
  unfolding received_message ensure_contact store_read received_at
  store_content-stores sender contact plaintext app plain known =
      let m = row_of sender contact plaintext in
      let (after, e, r) = saved_lem m (on_message_received m) app known in
      (
        after,
        e,
        unfold store_content in
            (ap (λ c. store_read p store json draws own_key payload sender c app)
                (read_content-plain json draws.message_id contact plaintext plain)
              ∙ r),
      )

  -- A message that names its sender, once it decrypts to a text that is no synchronised message.
  pub handled :
      (message : EncryptedMessage) (key plaintext : Text) (contact : ContactRecord)
      (tables : Database) (app : App S)
      → json.read_message payload.encrypted_payload ≡ some message
      → truthy message.initial_identity_key_hex ≡ some key
      → named_sender store (codes "Unknown Contact") draws.contact_created_at key app
        ≡ (ok (to_lower key, contact), record app { tables = tables })
      → (decrypt p store draws.decrypting (to_lower key) message app.signal_store).0 ≡ ok plaintext
      → handle_incoming_message p store json draws own_key payload app ≡ (
          let r =
            store_content p store json draws own_key payload
              (to_lower key)
              contact
              plaintext
              (record app {
                tables = tables;
                signal_store =
                    (decrypt p store draws.decrypting (to_lower key) message app.signal_store).1;
              }) in
          reported p store json r.0 r.1)
  unfolding handle_incoming_message process_incoming receive_message open_message resolve_sender
  handled message key plaintext contact tables app parsed from named opened =
      rw (parsed, handle_incoming_message, process_incoming)
        (rw (from, receive_message, resolve_sender) (rw named (rw (opened, open_message) refl)))

module _ (p : Platform) (laws : IsPlatform p) {S : Type 0} (store : SignalStore S)
    (stores : IsSignalStore p store) (json : Json) (first : Bytes)
    (first_bytes : IsUint8Array 32 first) (r : Text) where
  -- The stored session is in step with a sending chain of the other side. An envelope with a sealed
  -- message of that chain that was not received before, lies within the bound on skipped messages, names
  -- its sender, and is no synchronised message, is stored: the call returns a row with the sealed text,
  -- unread and incoming from that sender, which is read back under the fresh id that was drawn; the last
  -- event is that it was received, and the stored session has received it and is in step again. The
  -- contact need not be known.
  pub handle_incoming_message-delivers :
      (got : ℕ → Bool) (session : SessionRecord) (message : EncryptedMessage) (key plaintext : Text)
      (draws : ReceiveDraws) (own_key : Text) (payload : IncomingMessagePayload) (app : App S)
      → InSync p first r got session
      → IsSealed p first r message plaintext
      → got message.sequence_number ≡ false
      → message.sequence_number ≤ session.receive_sequence_number + max_skip_messages
      → store.get_session app.signal_store (to_lower key) ≡ ok (some session)
      → json.read_message payload.encrypted_payload ≡ some message
      → truthy message.initial_identity_key_hex ≡ some key
      → json.read_sync plaintext ≡ none
      → IsKeyed app.tables.contacts
      → get_message_by_id draws.message_id app.tables ≡ none
      → (let out = handle_incoming_message p store json draws own_key payload app in
          (m : StoredMessage) × (out.0 ≡ some m)
          × (m.body ≡ plaintext)
          × (m.sender_identity_hex ≡ to_lower key)
          × (m.is_outgoing ≡ false)
          × (m.is_read ≡ false)
          × (get_message_by_id draws.message_id out.1.tables ≡ some (message_row m))
          × (out.1.events ≡ app.events ++ on_message_received m ∷ [])
          × (after : SessionRecord) × (store.get_session out.1.signal_store (to_lower key)
              ≡ ok (some after))
          × InSync p first r (with_one message.sequence_number got) after)
  unfolding received_message
  handle_incoming_message-delivers got session message key plaintext draws own_key payload app sync
        sealed new near found parsed from plain keyed fresh =
      let (after, opened, held, next) =
        decrypt-step p laws store stores first first_bytes r got session sync message plaintext
          sealed new draws.decrypting (to_lower key) app.signal_store found near in
      let (contact, tables, known, same, named) =
        named_sender-known store (codes "Unknown Contact") draws.contact_created_at key app keyed in
      let then_app : App S = record app {
        tables = tables;
        signal_store = (decrypt p store draws.decrypting (to_lower key) message app.signal_store).1;
      } in
      let m = row_of p store json draws own_key payload (to_lower key) contact plaintext in
      let (stored, e, done) =
        store_content-stores p store json draws own_key payload (to_lower key) contact plaintext
          then_app plain known in
      rw
        (handled p store json draws own_key payload message key plaintext contact tables app parsed
          from named opened)
        (rw done (
          m,
          refl,
          refl,
          refl,
          refl,
          refl,
          saved_fresh m tables stored e (fresh_in draws.message_id tables app.tables same fresh),
          refl,
          after,
          held,
          next,
        ))
