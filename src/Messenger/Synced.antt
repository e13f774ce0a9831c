-- ===== src/Messenger/Synced.antt =====
-- `handleIncomingMessage` of client/src/orchestration/AppOrchestrator.ts on a plaintext that reads as a
-- synchronised message.
use tor_e2ee_messenger.Common.{
  ℕ, ◌≡◌, refl, ap, ◌∙◌, true, none, some, [], ◌∷◌, ◌++◌, Text, to_lower, lookup, truthy, codes,
  text_keys, Option-cases, inl, inr,
}
use tor_e2ee_messenger.Common.Result.{ok}
use tor_e2ee_messenger.Platform.{Platform}
use tor_e2ee_messenger.Crypto.{EncryptedMessage}
use tor_e2ee_messenger.Crypto.Store.{SignalStore}
use tor_e2ee_messenger.Crypto.Cipher.{decrypt}
use tor_e2ee_messenger.Storage.Database.{ContactRecord, StoredMessage, Database}
use tor_e2ee_messenger.Storage.Contacts.{get_contact_by_hash, save_contact}
use tor_e2ee_messenger.Storage.Messages.{save_message, get_message_by_id, message_row}
use tor_e2ee_messenger.Storage.Keyed.{IsKeyed}
use tor_e2ee_messenger.Messenger.{
  App, on_message_sent, Json, DeviceSyncPayload, IncomingMessagePayload,
}
use tor_e2ee_messenger.Messenger.Sender.{placeholder}
use tor_e2ee_messenger.Messenger.Receive.{
  ReceiveDraws, Content, or_drawn, read_content, ensure_contact, received_at, received_message,
  store_read, store_content, handle_incoming_message,
}
use tor_e2ee_messenger.Messenger.Storing.{HasRow, saved_lem}
use tor_e2ee_messenger.Messenger.Known.{named_sender-known, save_contact-HasRow}
use tor_e2ee_messenger.Messenger.Delivered.{handled, fresh_in, saved_fresh}

ensured :
    (now : ℕ) (content : Content) (tables : Database)
    → content.is_sync ≡ true
    → HasRow content.contact_hash (ensure_contact now content tables)
      × ((ensure_contact now content tables).messages ≡ tables.messages)
unfolding ensure_contact get_contact_by_hash
ensured now content tables sync =
    rw (sync, ensure_contact)
      (elim (Option-cases (lookup (to_lower content.contact_hash) tables.contacts)) [
        | inl e ↦ rw e (
          save_contact-HasRow (placeholder (codes "Synced Conversation") content.contact_hash now)
              tables,
          unfold save_contact in refl,
        )
        | inr (row, e) ↦ rw e ((row, e), refl)
      ])

-- What a synchronised message turns out to be.
abbrev synced_of : Text → DeviceSyncPayload → Content
synced_of drawn_id sync = record {
  is_sync = true;
  body = sync.body;
  contact_hash = sync.original_recipient_hash;
  message_id = or_drawn drawn_id sync.message_id;
}

read_content-synced :
    (json : Json) (drawn_id : Text) (contact : ContactRecord) (plaintext : Text)
    (sync : DeviceSyncPayload)
    → json.read_sync plaintext ≡ some sync
    → read_content json drawn_id contact plaintext ≡ synced_of drawn_id sync
unfolding read_content
read_content-synced json drawn_id contact plaintext sync e = rw (e, read_content) refl

module _ (p : Platform) {S : Type 0} (store : SignalStore S) (json : Json) (draws : ReceiveDraws)
    (own_key : Text) (payload : IncomingMessagePayload) where
  abbrev row_of : Text → DeviceSyncPayload → StoredMessage
  row_of sender sync =
      received_message own_key sender (synced_of draws.message_id sync)
        (received_at payload draws.now)

  abbrev tables_of : DeviceSyncPayload → Database → Database
  tables_of sync tables =
      ensure_contact draws.synced_created_at (synced_of draws.message_id sync) tables

  store_content-synced :
      (sender : Text) (contact : ContactRecord) (plaintext : Text) (sync : DeviceSyncPayload)
      (app : App S)
      → json.read_sync plaintext ≡ some sync
      → (let m = row_of sender sync in
          (after : Database) × (save_message m (tables_of sync app.tables) ≡ ok after)
          × (store_content p store json draws own_key payload sender contact plaintext app ≡ (
            ok m,
            record app { tables = after; events = app.events ++ on_message_sent m ∷ [] },
          )))
  unfolding received_message store_read received_at
  store_content-synced sender contact plaintext sync app reads =
      let m = row_of sender sync in
      let (known, same) =
        ensured draws.synced_created_at (synced_of draws.message_id sync) app.tables refl in
      let (after, e, r) =
        saved_lem m (on_message_sent m) (record app { tables = tables_of sync app.tables }) known in
      (
        after,
        e,
        unfold store_content in
            (ap (λ c. store_read p store json draws own_key payload sender c app)
                (read_content-synced json draws.message_id contact plaintext sync reads)
              ∙ r),
      )

  -- An envelope that names its sender, whoever that is, and decrypts to a text that reads as a
  -- synchronised message with a fresh id, is stored as a message that this user sent: outgoing, read, in
  -- the conversation that the text names, with the body that the text names; the last event is that a
  -- message was sent. That conversation is made up where there is none. Nothing asks whether the sender
  -- is a linked device of the user.
  pub handle_incoming_message-forged :
      (message : EncryptedMessage) (key plaintext : Text) (sync : DeviceSyncPayload) (app : App S)
      → json.read_message payload.encrypted_payload ≡ some message
      → truthy message.initial_identity_key_hex ≡ some key
      → IsKeyed app.tables.contacts
      → (decrypt p store draws.decrypting (to_lower key) message app.signal_store).0 ≡ ok plaintext
      → json.read_sync plaintext ≡ some sync
      → get_message_by_id (or_drawn draws.message_id sync.message_id) app.tables ≡ none
      → (let out = handle_incoming_message p store json draws own_key payload app in
          (m : StoredMessage) × (out.0 ≡ some m)
          × (m.body ≡ sync.body)
          × (m.contact_pubkey_hash ≡ sync.original_recipient_hash)
          × (m.is_outgoing ≡ true)
          × (m.is_read ≡ true)
          × (get_message_by_id m.id out.1.tables ≡ some (message_row m))
          × (out.1.events ≡ app.events ++ on_message_sent m ∷ []))
  unfolding received_message
  handle_incoming_message-forged message key plaintext sync app parsed from keyed opened reads
        fresh =
      let (contact, tables, known, same, named) =
        named_sender-known store (codes "Unknown Contact") draws.contact_created_at key app keyed in
      let then_app : App S = record app {
        tables = tables;
        signal_store = (decrypt p store draws.decrypting (to_lower key) message app.signal_store).1;
      } in
      let m = row_of (to_lower key) sync in
      let (row, ensured_same) =
        ensured draws.synced_created_at (synced_of draws.message_id sync) tables refl in
      let (stored, e, done) =
        store_content-synced (to_lower key) contact plaintext sync then_app reads in
      rw
        (handled p store json draws own_key payload message key plaintext contact tables app parsed
          from named opened)
        (rw done (
          m,
          refl,
          refl,
          refl,
          refl,
          refl,
          saved_fresh m (tables_of sync tables) stored e
              (fresh_in m.id (tables_of sync tables) app.tables (ensured_same ∙ same) fresh),
          refl,
        ))
