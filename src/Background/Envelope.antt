-- ===== src/Background/Envelope.antt =====
-- `processIncomingEnvelope` of client/src/background/BackgroundSyncService.ts.
use tor_e2ee_messenger.Common.{ℕ, Bool, false, Option, none, some, Text, codes, truthy}
use tor_e2ee_messenger.Common.Result.{Result, ok, err, require}
use tor_e2ee_messenger.Common.Action.{Action, pure, lift, ◌>>=◌, ◌>>◌}
use tor_e2ee_messenger.Platform.{Platform}
use tor_e2ee_messenger.Crypto.{EncryptedMessage}
use tor_e2ee_messenger.Crypto.Store.{SignalStore}
use tor_e2ee_messenger.Crypto.Cipher.{decrypt}
use tor_e2ee_messenger.Storage.Database.{ContactRecord, StoredMessage, delivered}
use tor_e2ee_messenger.Storage.Messages.{save_message}
use tor_e2ee_messenger.Messenger.{
  App, AppError, bad_json, IncomingMessagePayload, Json, on_store, on_tables,
}
use tor_e2ee_messenger.Messenger.Sender.{resolve_sender}
use tor_e2ee_messenger.Messenger.Receive.{ReceiveDraws, received_at}
use tor_e2ee_messenger.Notifications.{display_message_notification}
use tor_e2ee_messenger.Background.{SyncApp}

unfoldable pub envelope_row : Text → Text → Text → ContactRecord → Text → ℕ → StoredMessage
envelope_row own_key sender message_id contact plaintext timestamp = record {
  id = message_id;
  contact_pubkey_hash = contact.recipient_pubkey_hash;
  sender_identity_hex = sender;
  recipient_identity_hex = own_key;
  body = plaintext;
  timestamp = timestamp;
  is_outgoing = false;
  is_read = false;
  delivery_status = delivered;
}

-- `contact.alias || 'TorE2EE Kontakt'`
abbrev sender_title : Option Text → Text
sender_title none = codes "TorE2EE Kontakt"
sender_title (some t) = t

module _ (p : Platform) {S : Type 0} (store : SignalStore S) (json : Json) where
  unfoldable pub save_envelope :
      ReceiveDraws
      → Text
      → IncomingMessagePayload
      → Text × ContactRecord
      → Text
      → Action (App S) AppError (ContactRecord × Text)
  unfolding envelope_row received_at
  save_envelope draws own_key payload from plaintext = do
    on_tables (
        save_message (
          envelope_row own_key from.0 draws.message_id from.1 plaintext
            (received_at payload draws.now)))
    pure (from.1, plaintext)

  -- What follows once the sender is known: the contact and the text to notify of.
  unfoldable pub open_envelope :
      ReceiveDraws
      → Text
      → IncomingMessagePayload
      → EncryptedMessage
      → Text × ContactRecord
      → Action (App S) AppError (ContactRecord × Text)
  unfolding save_envelope
  open_envelope draws own_key payload message from = do
    plaintext ← on_store (decrypt p store draws.decrypting from.0 message)
    save_envelope draws own_key payload from plaintext

  unfoldable pub receive_envelope :
      ReceiveDraws
      → Text
      → IncomingMessagePayload
      → EncryptedMessage
      → Action (App S) AppError (ContactRecord × Text)
  unfolding resolve_sender open_envelope
  receive_envelope draws own_key payload message = do
    from ← resolve_sender store (codes "Neznámý kontakt") draws.contact_created_at message
    open_envelope draws own_key payload message from

  unfoldable pub store_envelope :
      ReceiveDraws → Text → IncomingMessagePayload → Action (App S) AppError (ContactRecord × Text)
  unfolding receive_envelope
  store_envelope draws own_key payload = do
    message ← lift (require (json.read_message payload.encrypted_payload) bad_json)
    receive_envelope draws own_key payload message

  abbrev pub notified :
      Text
      → Bool
      → Result AppError (ContactRecord × Text)
      → SyncApp S
      → Result AppError (Unit {0}) × SyncApp S
  notified drawn_id privacy_mode (err e) s = (err e, s)
  notified drawn_id privacy_mode (ok (contact, plaintext)) s = (
    ok tt,
    record s {
      notifications =
          (display_message_notification drawn_id (sender_title (truthy contact.alias_name))
            plaintext (some contact.recipient_pubkey_hash) privacy_mode s.notifications).1;
    },
  )

  unfoldable pub process_incoming_envelope :
      ReceiveDraws
      → Text
      → Text
      → Bool
      → IncomingMessagePayload
      → Action (SyncApp S) AppError (Unit {0})
  unfolding store_envelope display_message_notification
  process_incoming_envelope draws notification_id own_key privacy_mode payload s =
      let r = store_envelope draws own_key payload s.app in
      notified notification_id privacy_mode r.0 (record s { app = r.1 })
