-- ===== src/Background/Agrees.antt =====
-- `processIncomingEnvelope` of client/src/background/BackgroundSyncService.ts beside
-- `handleIncomingMessage` of client/src/orchestration/AppOrchestrator.ts.
use tor_e2ee_messenger.Common.{◌≡◌, refl, ap, ◌∙◌, Bool, none, some, Text, truthy, to_lower}
use tor_e2ee_messenger.Common.Result.{Result, ok, err}
use tor_e2ee_messenger.Common.Action.{continue, pure, writes, ◌>>◌}
use tor_e2ee_messenger.Platform.{Platform}
use tor_e2ee_messenger.Crypto.{EncryptedMessage, CryptoError}
use tor_e2ee_messenger.Crypto.Store.{SignalStore}
use tor_e2ee_messenger.Crypto.Cipher.{decrypt}
use tor_e2ee_messenger.Storage.Database.{ContactRecord, StoredMessage, Database, DatabaseError}
use tor_e2ee_messenger.Storage.Contacts.{get_contact_by_identity_key}
use tor_e2ee_messenger.Storage.Messages.{save_message}
use tor_e2ee_messenger.Messenger.{
  App, AppError, AppEvent, on_message_received, IncomingMessagePayload, Json, emit, as_crypto,
  stored,
}
use tor_e2ee_messenger.Messenger.Sender.{named_sender, resolve_sender}
use tor_e2ee_messenger.Messenger.Receive.{
  ReceiveDraws, ensure_contact, received_at, received_message, store_read, store_content,
  open_message, receive_message, process_incoming, handle_incoming_message, reported,
}
use tor_e2ee_messenger.Messenger.Delivered.{read_content-plain, message_of}
use tor_e2ee_messenger.Background.{SyncApp}
use tor_e2ee_messenger.Background.Envelope.{
  envelope_row, save_envelope, open_envelope, receive_envelope, store_envelope, notified,
  process_incoming_envelope,
}

-- The same tables and the same signal store.
abbrev pub Alike : {S : Type 0} → App S → App S → Type 0
Alike a b = (a.tables ≡ b.tables) × (a.signal_store ≡ b.signal_store)

module _ {S : Type 0} where
  saved-Alike :
      (r : Result DatabaseError Database) (event : AppEvent) (m : StoredMessage)
      (out : ContactRecord × Text) (app : App S)
      → Alike ((continue {E = AppError} (stored r app).0 (λ _. pure out) (stored r app).1).1) (
          (continue {E = AppError}
            (stored r app).0
            (λ _. writes (emit event) >> pure m)
            (stored r app).1).1)
  saved-Alike (ok t) event m out app = (refl, refl)
  saved-Alike (err e) event m out app = (refl, refl)

module _ (p : Platform) {S : Type 0} (store : SignalStore S) (json : Json) (draws : ReceiveDraws)
    (own_key : Text) (payload : IncomingMessagePayload) where
  plain-Alike :
      (from : Text × ContactRecord) (t : Text) (app : App S)
      → json.read_sync t ≡ none
      → Alike
          (save_envelope p store json draws own_key payload from t app).1
          (store_content p store json draws own_key payload from.0 from.1 t app).1
  unfolding save_envelope store_content store_read ensure_contact received_message envelope_row
  plain-Alike from t app plain = rw (read_content-plain json draws.message_id from.1 t plain) (
      let m =
        received_message own_key from.0 (message_of draws.message_id from.1 t)
          (received_at payload draws.now) in
      saved-Alike (save_message m app.tables) (on_message_received m) m (from.1, t) app)

  opened-Alike :
      (from : Text × ContactRecord) (r : Result CryptoError Text) (app : App S)
      → ((t : Text) → r ≡ ok t → json.read_sync t ≡ none)
      → Alike
          (continue (as_crypto r) (save_envelope p store json draws own_key payload from) app).1
          (continue
            (as_crypto r)
            (store_content p store json draws own_key payload from.0 from.1)
            app).1
  opened-Alike from (ok t) app plain = plain-Alike from t app (plain t refl)
  opened-Alike from (err e) app plain = (refl, refl)

  open-Alike :
      (message : EncryptedMessage) (from : Text × ContactRecord) (app : App S)
      → ((t : Text)
          → (decrypt p store draws.decrypting from.0 message app.signal_store).0 ≡ ok t
          → json.read_sync t ≡ none)
      → Alike
          (open_envelope p store json draws own_key payload message from app).1
          (open_message p store json draws own_key payload message from app).1
  unfolding open_envelope open_message
  open-Alike message from app plain =
      let r = decrypt p store draws.decrypting from.0 message app.signal_store in
      opened-Alike from r.0 (record app { signal_store = r.1 }) plain

  caught-Alike :
      (r : Result AppError StoredMessage) (app : App S) → Alike app (reported p store json r app).1
  caught-Alike (ok m) app = (refl, refl)
  caught-Alike (err e) app = (refl, refl)

  notified-Alike :
      (id : Text) (privacy : Bool) (r : Result AppError (ContactRecord × Text)) (s : SyncApp S)
      → (notified p store json id privacy r s).1.app ≡ s.app
  notified-Alike id privacy (ok c) s = refl
  notified-Alike id privacy (err e) s = refl

  stored-Alike :
      (key : Text) (message : EncryptedMessage) (contact : ContactRecord) (app : App S)
      → json.read_message payload.encrypted_payload ≡ some message
      → truthy message.initial_identity_key_hex ≡ some key
      → get_contact_by_identity_key (to_lower key) app.tables ≡ some contact
      → ((t : Text)
          → (decrypt p store draws.decrypting (to_lower key) message app.signal_store).0 ≡ ok t
          → json.read_sync t ≡ none)
      → Alike
          (store_envelope p store json draws own_key payload app).1
          (process_incoming p store json draws own_key payload app).1
  unfolding store_envelope receive_envelope process_incoming receive_message resolve_sender
      named_sender
  stored-Alike key message contact app parsed from found plain =
      rw (parsed, store_envelope, process_incoming)
        (rw (from, receive_envelope, receive_message, resolve_sender)
          (rw (found, named_sender) (open-Alike message (to_lower key, contact) app plain)))

  -- For an envelope from a sender who is in the table, unless it decrypts to a synchronised message: the
  -- synchronisation in the background and the running messenger leave the same tables and the same signal
  -- store, whether the envelope decrypts and is stored or not.
  pub process_incoming_envelope-agrees :
      (notification_id key : Text) (privacy : Bool) (message : EncryptedMessage)
      (contact : ContactRecord) (s : SyncApp S)
      → json.read_message payload.encrypted_payload ≡ some message
      → truthy message.initial_identity_key_hex ≡ some key
      → get_contact_by_identity_key (to_lower key) s.app.tables ≡ some contact
      → ((t : Text)
          → (decrypt p store draws.decrypting (to_lower key) message s.app.signal_store).0 ≡ ok t
          → json.read_sync t ≡ none)
      → Alike
          (process_incoming_envelope p store json draws notification_id own_key privacy payload
            s).1.app
          (handle_incoming_message p store json draws own_key payload s.app).1
  unfolding process_incoming_envelope handle_incoming_message
  process_incoming_envelope-agrees notification_id key privacy message contact s parsed from found
        plain =
      let back = store_envelope p store json draws own_key payload s.app in
      let fore = process_incoming p store json draws own_key payload s.app in
      let caught = caught-Alike fore.0 fore.1 in
      let told = notified-Alike notification_id privacy back.0 (record s { app = back.1 }) in
      let (tables, signals) = stored-Alike key message contact s.app parsed from found plain in
      (
        ap (λ a. a.tables) told ∙ tables ∙ caught.0,
        ap (λ a. a.signal_store) told ∙ signals ∙ caught.1,
      )
