-- ===== src/Messenger/Sender.antt =====
-- Who sent a message: the first part of `handleIncomingMessage` in
-- client/src/orchestration/AppOrchestrator.ts.
use tor_e2ee_messenger.Common.{
  ℕ, Option, none, some, List, [], ◌∷◌, Text, to_lower, truthy, if◌then◌else◌,
}
use tor_e2ee_messenger.Common.Result.{ok, require}
use tor_e2ee_messenger.Common.Action.{Action, pure, lift, ◌>>=◌, reads}
use tor_e2ee_messenger.Crypto.{EncryptedMessage}
use tor_e2ee_messenger.Crypto.Store.{SignalStore}
use tor_e2ee_messenger.Storage.Database.{ContactRecord}
use tor_e2ee_messenger.Storage.Contacts.{save_contact, get_contact_by_identity_key, list_contacts}
use tor_e2ee_messenger.Messenger.{App, AppError, unresolved_sender}

-- The contact that is made up for a sender, or a conversation, that is not known yet.
unfoldable pub placeholder : Text → Text → ℕ → ContactRecord
placeholder alias_name key now = record {
  recipient_pubkey_hash = key;
  identity_pubkey_hex = key;
  signing_pubkey_hex = [];
  alias_name = some alias_name;
  created_at = now;
  linked_devices = [];
}

module _ {S : Type 0} (store : SignalStore S) where
  -- The loop over the contacts: the first that has a session.
  unfoldable pub first_with_session : S → List ContactRecord → Option ContactRecord
  first_with_session s [] = none
  first_with_session s (c ∷ contacts) =
      let later = first_with_session s contacts in
      if store.has_session s c.identity_pubkey_hex then some c else later

  -- The sender of a message that names its identity key.
  unfoldable pub named_sender : Text → ℕ → Text → Action (App S) AppError (Text × ContactRecord)
  unfolding placeholder
  named_sender unknown_alias now key app =
      let sender = to_lower key in
      elim (get_contact_by_identity_key sender app.tables) [
        | some contact ↦ (ok (sender, contact), app)
        | none ↦
            let contact = placeholder unknown_alias sender now in
            (ok (sender, contact), record app { tables = save_contact contact app.tables })
      ]

  -- An identity key that is empty is as good as none.
  unfoldable pub session_sender : Action (App S) AppError (Text × ContactRecord)
  unfolding first_with_session
  session_sender = do
    found ← reads (λ app. ok (first_with_session app.signal_store (list_contacts app.tables)))
    contact ← lift (require found unresolved_sender)
    sender ← lift (require (truthy (some (to_lower contact.identity_pubkey_hex))) unresolved_sender)
    pure (sender, contact)

  unfoldable pub resolve_sender :
      Text → ℕ → EncryptedMessage → Action (App S) AppError (Text × ContactRecord)
  unfolding named_sender session_sender
  resolve_sender unknown_alias now message = elim (truthy message.initial_identity_key_hex) [
    | some key ↦ named_sender unknown_alias now key
    | none ↦ session_sender
  ]
