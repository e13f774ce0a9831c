-- ===== src/Messenger/Reached.antt =====
-- Whether `sendOutboundMessage` of client/src/orchestration/AppOrchestrator.ts reaches a device live, told
-- from the encryptions and the answers of the relay.
use tor_e2ee_messenger.Common.{
  ℕ, ◌+◌, ◌≡◌, refl, ap, sym, ◌∙◌, Bool, true, false, ◌||◌, Option, none, some, List, [], ◌∷◌, Text,
}
use tor_e2ee_messenger.Common.Result.{Result, ok, err}
use tor_e2ee_messenger.Platform.{Platform}
use tor_e2ee_messenger.Crypto.{EncryptedMessage, CryptoError}
use tor_e2ee_messenger.Crypto.Cipher.{encrypt}
use tor_e2ee_messenger.Crypto.Store.{SignalStore}
use tor_e2ee_messenger.Storage.Database.{DeviceRecord}
use tor_e2ee_messenger.Messenger.{App, Json, as_crypto}
use tor_e2ee_messenger.Common.Action.{continue}
use tor_e2ee_messenger.Messenger.Send.{Dispatch, post, dispatch, dispatch_all, caught}

or_assoc : (a b c : Bool) → ((a || b) || c) ≡ (a || (b || c))
or_assoc true b c = refl
or_assoc false b c = refl

or_false : (a : Bool) → (a || false) ≡ a
or_false true = refl
or_false false = refl

-- A message that was encrypted, and what the relay answered.
abbrev is_live : Result CryptoError EncryptedMessage → Option Bool → Bool
is_live (err _) reply = false
is_live (ok _) none = false
is_live (ok _) (some live) = live

module _ (p : Platform) {S : Type 0} (store : SignalStore S) (json : Json) where
  -- Some device's message is encrypted, in the store that the devices before it left, and the relay
  -- answers that it was delivered live.
  unfoldable pub reaches : (ℕ → Dispatch) → ℕ → Text → List DeviceRecord → App S → Bool
  reaches draws i plaintext [] app = false
  reaches draws i plaintext (d ∷ devices) app =
      let draw = draws i in
      let sealed =
        encrypt p store draw.nonce draw.now d.identity_pubkey_hex plaintext none app.signal_store in
      let after =
        (dispatch p store json draw d.identity_pubkey_hex d.recipient_pubkey_hash plaintext
          app).1 in
      is_live sealed.0 draw.reply || reaches draws (i + 1) plaintext devices after

  posted_live :
      (draw : Dispatch) (mailbox : Text) (r : Result CryptoError EncryptedMessage) (app : App S)
      → caught p store json
          (continue
            (as_crypto r)
            (λ message. post p store json draw.reply (record {
              recipient_pubkey_hash = mailbox;
              encrypted_payload = json.write_message message;
              nonce = message.nonce;
            }))
            app).0
        ≡ is_live r draw.reply
  unfolding post
  posted_live draw mailbox (err e) app = refl
  posted_live draw mailbox (ok message) app = answered draw.reply
    where
      answered :
          (reply : Option Bool)
          → caught p store json
              (post p store json reply
                (record {
                  recipient_pubkey_hash = mailbox;
                  encrypted_payload = json.write_message message;
                  nonce = message.nonce;
                })
                app).0
            ≡ is_live (ok message) reply
      answered none = refl
      answered (some live) = refl

  -- The loop over the devices reports what it was told before, or that a device was reached.
  pub dispatch_all-reaches :
      (draws : ℕ → Dispatch) (i : ℕ) (plaintext : Text) (devices : List DeviceRecord) (live : Bool)
      (app : App S)
      → (dispatch_all p store json draws i plaintext devices live app).0
        ≡ (live || reaches draws i plaintext devices app)
  unfolding dispatch_all dispatch reaches
  dispatch_all-reaches draws i plaintext [] live app = sym (or_false live)
  dispatch_all-reaches draws i plaintext (d ∷ devices) live app =
      let draw = draws i in
      let r =
        dispatch p store json draw d.identity_pubkey_hex d.recipient_pubkey_hash plaintext app in
      let sealed =
        encrypt p store draw.nonce draw.now d.identity_pubkey_hex plaintext none app.signal_store in
      dispatch_all-reaches draws (i + 1) plaintext devices (live || caught p store json r.0) r.1
      ∙ or_assoc live (caught p store json r.0) (reaches draws (i + 1) plaintext devices r.1)
      ∙ ap (λ b. live || (b || reaches draws (i + 1) plaintext devices r.1))
          (posted_live draw d.recipient_pubkey_hash sealed.0
            (record app { signal_store = sealed.1 }))
