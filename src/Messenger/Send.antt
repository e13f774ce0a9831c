-- ===== src/Messenger/Send.antt =====
-- `sendOutboundMessage` of client/src/orchestration/AppOrchestrator.ts.
use tor_e2ee_messenger.Common.{
  ℕ, ◌+◌, Bool, true, false, ◌||◌, Option, none, List, [], ◌∷◌, ◌++◌, Text, Bytes, if◌then◌else◌,
}
use tor_e2ee_messenger.Common.Result.{Result, ok, err, require}
use tor_e2ee_messenger.Common.Action.{Action, pure, lift, ◌>>=◌, ◌>>◌, writes, reads}
use tor_e2ee_messenger.Platform.{Platform}
use tor_e2ee_messenger.Crypto.Store.{SignalStore}
use tor_e2ee_messenger.Crypto.Cipher.{encrypt}
use tor_e2ee_messenger.Storage.Database.{
  ContactRecord, DeviceRecord, OwnDeviceRecord, StoredMessage, sent, delivered,
}
use tor_e2ee_messenger.Storage.Contacts.{get_contact_by_hash, list_own_linked_devices}
use tor_e2ee_messenger.Storage.Messages.{save_message}
use tor_e2ee_messenger.Messenger.{
  App, AppError, unknown_contact, relay_failed, on_message_sent, OutgoingMessageEnvelope, Json,
  on_store, on_tables, emit,
}

-- What a dispatch draws: the nonce, the clock, and the relay's `delivered_live`; `none` if the request
-- fails.
pub record Dispatch : Type 0 where
  pub nonce : Bytes
  pub now : ℕ
  pub reply : Option Bool

pub record SendDraws : Type 0 where
  pub message_id : Text
  pub now : ℕ
  pub to_devices : ℕ → Dispatch
  pub to_own_devices : ℕ → Dispatch

-- The devices of a contact, or the one that its record describes.
unfoldable pub target_devices : ContactRecord → List DeviceRecord
target_devices contact = elim contact.linked_devices [
  | d ∷ ds ↦ d ∷ ds
  | [] ↦
      (record {
        device_id = 1;
        recipient_pubkey_hash = contact.recipient_pubkey_hash;
        identity_pubkey_hex = contact.identity_pubkey_hex;
        device_name = none;
        created_at = contact.created_at;
      })
      ∷ []
]

module _ (p : Platform) {S : Type 0} (store : SignalStore S) (json : Json) where
  -- `sendMessage`: the request is made, and may fail.
  unfoldable pub post : Option Bool → OutgoingMessageEnvelope → Action (App S) AppError Bool
  post reply envelope = do
    writes (λ app. record app { posted = app.posted ++ envelope ∷ [] })
    lift (require reply relay_failed)

  -- A message to one device, encrypted in the session under its identity key.
  unfoldable pub dispatch : Dispatch → Text → Text → Text → Action (App S) AppError Bool
  unfolding post
  dispatch draw identity_key mailbox plaintext = do
    message ← on_store (encrypt p store draw.nonce draw.now identity_key plaintext none)
    post draw.reply (record {
      recipient_pubkey_hash = mailbox;
      encrypted_payload = json.write_message message;
      nonce = message.nonce;
    })

  -- The `try` around a dispatch.
  abbrev pub caught : Result AppError Bool → Bool
  caught (ok live) = live
  caught (err _) = false

  -- The loop over the recipient's devices: whether one of them was reached live.
  unfoldable pub dispatch_all :
      (ℕ → Dispatch) → ℕ → Text → List DeviceRecord → Bool → App S → Bool × App S
  unfolding dispatch
  dispatch_all draws i plaintext [] live app = (live, app)
  dispatch_all draws i plaintext (d ∷ devices) live app =
      let r = dispatch (draws i) d.identity_pubkey_hex d.recipient_pubkey_hash plaintext app in
      dispatch_all draws (i + 1) plaintext devices (live || caught r.0) r.1

  -- The loop over the own devices.
  unfoldable pub sync_all : (ℕ → Dispatch) → ℕ → Text → List OwnDeviceRecord → App S → App S
  unfolding dispatch
  sync_all draws i sync [] app = app
  sync_all draws i sync (d ∷ devices) app =
      sync_all draws (i + 1) sync devices
        (dispatch (draws i) d.identity_pubkey_hex d.recipient_pubkey_hash sync app).1

  -- The row of the message that was sent.
  unfoldable pub sent_message : Text → Text → ContactRecord → Text → ℕ → Bool → StoredMessage
  sent_message own_key message_id contact plaintext now live = record {
    id = message_id;
    contact_pubkey_hash = contact.recipient_pubkey_hash;
    sender_identity_hex = own_key;
    recipient_identity_hex = contact.identity_pubkey_hex;
    body = plaintext;
    timestamp = now;
    is_outgoing = true;
    is_read = true;
    delivery_status = if live then delivered else sent;
  }

  -- Both loops: whether a device was reached live.
  unfoldable pub send_to_all : SendDraws → ContactRecord → Text → App S → Bool × App S
  unfolding dispatch_all sync_all target_devices
  send_to_all draws contact plaintext app =
      let out = dispatch_all draws.to_devices 0 plaintext (target_devices contact) false app in
      let sync = json.write_sync (record {
        original_recipient_hash = contact.recipient_pubkey_hash;
        body = plaintext;
        timestamp = draws.now;
        message_id = draws.message_id;
      }) in
      (out.0, sync_all draws.to_own_devices 0 sync (list_own_linked_devices out.1.tables) out.1)

  -- What is sent and stored once the contact is found.
  unfoldable pub send_to_contact :
      SendDraws → Text → Text → ContactRecord → Action (App S) AppError StoredMessage
  unfolding send_to_all sent_message
  send_to_contact draws own_key plaintext contact = do
    live ← λ app. (let r = send_to_all draws contact plaintext app in (ok r.0, r.1))
    let message = sent_message own_key draws.message_id contact plaintext draws.now live
    on_tables (save_message message)
    writes (emit (on_message_sent message))
    pure message

  unfoldable pub send_outbound_message :
      SendDraws → Text → Text → Text → Action (App S) AppError StoredMessage
  unfolding send_to_contact
  send_outbound_message draws own_key contact_hash plaintext = do
    found ← reads (λ app. ok (get_contact_by_hash contact_hash app.tables))
    contact ← lift (require found unknown_contact)
    send_to_contact draws own_key plaintext contact
