-- ===== src/Messenger/Tables.antt =====
-- That the dispatch of messages in client/src/orchestration/AppOrchestrator.ts leaves the tables alone.
use tor_e2ee_messenger.Common.{ℕ, ◌+◌, ◌≡◌, refl, ◌∙◌, Bool, false, none, List, [], ◌∷◌, Text}
use tor_e2ee_messenger.Platform.{Platform}
use tor_e2ee_messenger.Crypto.Cipher.{encrypt}
use tor_e2ee_messenger.Crypto.Store.{SignalStore}
use tor_e2ee_messenger.Storage.Database.{ContactRecord, DeviceRecord, OwnDeviceRecord, Database}
use tor_e2ee_messenger.Storage.Contacts.{list_own_linked_devices}
use tor_e2ee_messenger.Messenger.{App, Json}
use tor_e2ee_messenger.Messenger.Send.{
  Dispatch, SendDraws, post, dispatch, dispatch_all, sync_all, target_devices, send_to_all,
}
use tor_e2ee_messenger.Messenger.Actions.{Keeps, on_store-Keeps}

module _ (p : Platform) {S : Type 0} (store : SignalStore S) (json : Json) where
  -- opaque, so that a goal shows the state
  unfoldable pub HasTables : Database → App S → Type 0
  HasTables tables app = app.tables ≡ tables

  HasTables-same :
      (tables : Database) (a b : App S)
      → b.tables ≡ a.tables
      → HasTables tables a
      → HasTables tables b
  unfolding HasTables
  HasTables-same tables a b e h = e ∙ h

  -- A dispatch leaves the tables alone.
  pub dispatch-Keeps :
      (tables : Database) (draw : Dispatch) (key mailbox plaintext : Text)
      → Keeps (HasTables tables) (dispatch p store json draw key mailbox plaintext)
  unfolding dispatch post
  dispatch-Keeps tables draw key mailbox plaintext app h =
      on_store-Keeps (HasTables tables) (encrypt p store draw.nonce draw.now key plaintext none)
        (λ message. post p store json draw.reply (record {
          recipient_pubkey_hash = mailbox;
          encrypted_payload = json.write_message message;
          nonce = message.nonce;
        }))
        app (λ message s q. HasTables-same tables s _ refl q) (HasTables-same tables app _ refl h)

  dispatch-tables :
      (draw : Dispatch) (key mailbox plaintext : Text) (app : App S)
      → (dispatch p store json draw key mailbox plaintext app).1.tables ≡ app.tables
  unfolding HasTables
  dispatch-tables draw key mailbox plaintext app =
      dispatch-Keeps app.tables draw key mailbox plaintext app refl

  dispatch_all-tables :
      (draws : ℕ → Dispatch) (i : ℕ) (plaintext : Text) (devices : List DeviceRecord) (live : Bool)
      (app : App S)
      → (dispatch_all p store json draws i plaintext devices live app).1.tables ≡ app.tables
  unfolding dispatch_all
  dispatch_all-tables draws i plaintext [] live app = refl
  dispatch_all-tables draws i plaintext (d ∷ devices) live app =
      dispatch_all-tables draws (i + 1) plaintext devices _ _
      ∙ dispatch-tables (draws i) d.identity_pubkey_hex d.recipient_pubkey_hash plaintext app

  sync_all-tables :
      (draws : ℕ → Dispatch) (i : ℕ) (sync : Text) (devices : List OwnDeviceRecord) (app : App S)
      → (sync_all p store json draws i sync devices app).tables ≡ app.tables
  unfolding sync_all
  sync_all-tables draws i sync [] app = refl
  sync_all-tables draws i sync (d ∷ devices) app =
      sync_all-tables draws (i + 1) sync devices _
      ∙ dispatch-tables (draws i) d.identity_pubkey_hex d.recipient_pubkey_hash sync app

  pub send_to_all-tables :
      (draws : SendDraws) (contact : ContactRecord) (plaintext : Text) (app : App S)
      → (send_to_all p store json draws contact plaintext app).1.tables ≡ app.tables
  unfolding send_to_all
  send_to_all-tables draws contact plaintext app =
      let out =
        dispatch_all p store json draws.to_devices 0 plaintext (target_devices contact) false app in
      sync_all-tables draws.to_own_devices 0
        (json.write_sync (record {
          original_recipient_hash = contact.recipient_pubkey_hash;
          body = plaintext;
          timestamp = draws.now;
          message_id = draws.message_id;
        }))
        (list_own_linked_devices out.1.tables) out.1
      ∙ dispatch_all-tables draws.to_devices 0 plaintext (target_devices contact) false app
