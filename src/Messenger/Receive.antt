-- ===== src/Messenger/Receive.antt =====
-- `handleIncomingMessage` of client/src/orchestration/AppOrchestrator.ts.
use tor_e2ee_messenger.Common.{
  ℕ, ◌*◌, Bool, true, false, Option, none, some, [], ◌∷◌, Text, codes, nat_eq, if◌then◌else◌,
}
use tor_e2ee_messenger.Common.Result.{Result, ok, err, require}
use tor_e2ee_messenger.Common.Action.{Action, pure, lift, ◌>>=◌, ◌>>◌, writes}
use tor_e2ee_messenger.Platform.{Platform}
use tor_e2ee_messenger.Crypto.{EncryptedMessage}
use tor_e2ee_messenger.Crypto.Store.{SignalStore}
use tor_e2ee_messenger.Crypto.Chains.{Draws}
use tor_e2ee_messenger.Crypto.Cipher.{decrypt}
use tor_e2ee_messenger.Storage.Database.{ContactRecord, StoredMessage, Database, delivered}
use tor_e2ee_messenger.Storage.Contacts.{get_contact_by_hash, save_contact}
use tor_e2ee_messenger.Storage.Messages.{save_message}
use tor_e2ee_messenger.Messenger.{
  App, AppError, bad_json, on_message_sent, on_message_received, on_error, IncomingMessagePayload,
  Json, on_store, on_tables, emit,
}
use tor_e2ee_messenger.Messenger.Sender.{placeholder, resolve_sender}

pub record ReceiveDraws : Type 0 where
  pub decrypting : Draws
  pub message_id : Text
  pub contact_created_at : ℕ
  pub synced_created_at : ℕ
  pub now : ℕ

-- What the plaintext turns out to be: a message of the contact, or one that an own device has sent.
pub record Content : Type 0 where
  pub is_sync : Bool
  pub body : Text
  pub contact_hash : Text
  pub message_id : Text

abbrev pub or_drawn : Text → Text → Text
or_drawn drawn [] = drawn
or_drawn drawn (c ∷ s) = c ∷ s

unfoldable pub read_content : Json → Text → ContactRecord → Text → Content
read_content json drawn_id contact plaintext = elim (json.read_sync plaintext) [
  | none ↦ record {
    is_sync = false;
    body = plaintext;
    contact_hash = contact.recipient_pubkey_hash;
    message_id = drawn_id;
  }
  | some sync ↦ record {
    is_sync = true;
    body = sync.body;
    contact_hash = sync.original_recipient_hash;
    message_id = or_drawn drawn_id sync.message_id;
  }
]

-- The conversation of a synchronised message is made up where it is not known yet.
unfoldable pub ensure_contact : ℕ → Content → Database → Database
unfolding placeholder
ensure_contact now content tables =
    if content.is_sync
    then (elim (get_contact_by_hash content.contact_hash tables) [
      | some _ ↦ tables
      | none ↦
          save_contact (placeholder (codes "Synced Conversation") content.contact_hash now) tables
    ])
    else tables

unfoldable pub received_at : IncomingMessagePayload → ℕ → ℕ
received_at payload now = if nat_eq payload.created_at 0 then now else payload.created_at * 1000

unfoldable pub received_message : Text → Text → Content → ℕ → StoredMessage
received_message own_key sender content timestamp = record {
  id = content.message_id;
  contact_pubkey_hash = content.contact_hash;
  sender_identity_hex = sender;
  recipient_identity_hex = own_key;
  body = content.body;
  timestamp = timestamp;
  is_outgoing = content.is_sync;
  is_read = content.is_sync;
  delivery_status = delivered;
}

module _ (p : Platform) {S : Type 0} (store : SignalStore S) (json : Json) where
  -- The rows that a content makes.
  unfoldable pub store_read :
      ReceiveDraws
      → Text
      → IncomingMessagePayload
      → Text
      → Content
      → Action (App S) AppError StoredMessage
  unfolding ensure_contact received_at received_message
  store_read draws own_key payload sender content = do
    writes
        (λ app. record app { tables = ensure_contact draws.synced_created_at content app.tables })
    let message = received_message own_key sender content (received_at payload draws.now)
    on_tables (save_message message)
    writes (emit (if content.is_sync then on_message_sent message else on_message_received message))
    pure message

  -- What follows once the message is decrypted.
  unfoldable pub store_content :
      ReceiveDraws
      → Text
      → IncomingMessagePayload
      → Text
      → ContactRecord
      → Text
      → Action (App S) AppError StoredMessage
  unfolding read_content store_read
  store_content draws own_key payload sender contact plaintext =
      store_read draws own_key payload sender (read_content json draws.message_id contact plaintext)

  -- What follows once the sender is known.
  unfoldable pub open_message :
      ReceiveDraws
      → Text
      → IncomingMessagePayload
      → EncryptedMessage
      → Text × ContactRecord
      → Action (App S) AppError StoredMessage
  unfolding store_content
  open_message draws own_key payload message from = do
    plaintext ← on_store (decrypt p store draws.decrypting from.0 message)
    store_content draws own_key payload from.0 from.1 plaintext

  -- What follows once the envelope is parsed.
  unfoldable pub receive_message :
      ReceiveDraws
      → Text
      → IncomingMessagePayload
      → EncryptedMessage
      → Action (App S) AppError StoredMessage
  unfolding resolve_sender open_message
  receive_message draws own_key payload message = do
    from ← resolve_sender store (codes "Unknown Contact") draws.contact_created_at message
    open_message draws own_key payload message from

  -- The body of the `try`.
  unfoldable pub process_incoming :
      ReceiveDraws → Text → IncomingMessagePayload → Action (App S) AppError StoredMessage
  unfolding receive_message
  process_incoming draws own_key payload = do
    message ← lift (require (json.read_message payload.encrypted_payload) bad_json)
    receive_message draws own_key payload message

  -- The `catch`.
  abbrev pub reported : Result AppError StoredMessage → App S → Option StoredMessage × App S
  reported (ok message) app = (some message, app)
  reported (err e) app = (none, emit (on_error e) app)

  unfoldable pub handle_incoming_message :
      ReceiveDraws → Text → IncomingMessagePayload → App S → Option StoredMessage × App S
  unfolding process_incoming
  handle_incoming_message draws own_key payload app =
      let r = process_incoming draws own_key payload app in reported r.0 r.1
