-- ===== src/Messenger/Keeps.antt =====
-- What the steps of client/src/orchestration/AppOrchestrator.ts keep.
use tor_e2ee_messenger.Common.{
  ℕ, ◌≡◌, refl, sym, subst, to_lower, codes, truthy, Option-cases, Bool-cases, inl, inr,
  if◌then◌else◌, some, Text,
}
use tor_e2ee_messenger.Common.Result.{Result, ok, err, require}
use tor_e2ee_messenger.Common.Action.{pure, lift, writes, ◌>>=◌, ◌>>◌}
use tor_e2ee_messenger.Platform.{Platform}
use tor_e2ee_messenger.Crypto.{EncryptedMessage}
use tor_e2ee_messenger.Crypto.Cipher.{decrypt}
use tor_e2ee_messenger.Crypto.Store.{SignalStore}
use tor_e2ee_messenger.Storage.Database.{ContactRecord, StoredMessage, Database, DatabaseError}
use tor_e2ee_messenger.Storage.Contacts.{
  list_contacts, save_contact, get_contact_by_hash, get_contact_by_identity_key,
}
use tor_e2ee_messenger.Storage.Messages.{save_message}
use tor_e2ee_messenger.Storage.Keys.{
  IsConsistent, written, save_message-Consistent, save_contact-Consistent,
}
use tor_e2ee_messenger.Storage.Keyed.{IsKeyed, save_contact-Keyed, save_message-contacts}
use tor_e2ee_messenger.Messenger.{
  App, AppError, unknown_contact, bad_json, unresolved_sender, AppEvent, on_message_sent,
  on_message_received, emit, on_tables, Json, IncomingMessagePayload,
}
use tor_e2ee_messenger.Messenger.Sender.{
  named_sender, session_sender, resolve_sender, placeholder, first_with_session,
}
use tor_e2ee_messenger.Messenger.Send.{
  SendDraws, send_to_all, sent_message, send_to_contact, send_outbound_message,
}
use tor_e2ee_messenger.Messenger.Receive.{
  ReceiveDraws, Content, store_read, received_at, received_message, read_content, ensure_contact,
  store_content, open_message, receive_message, reported, process_incoming, handle_incoming_message,
}
use tor_e2ee_messenger.Messenger.Actions.{Keeps, continue-Keeps, on_store-Keeps}
use tor_e2ee_messenger.Messenger.Tables.{send_to_all-tables}

-- Every message belongs to a contact, and every contact stands under its own hash.
abbrev pub IsSound : Database → Type 0
IsSound tables = IsConsistent tables × IsKeyed tables.contacts

pub save_contact-Sound :
    (c : ContactRecord) (tables : Database) → IsSound tables → IsSound (save_contact c tables)
save_contact-Sound c tables (h, k) =
    (save_contact-Consistent c tables h, save_contact-Keyed c tables k)

pub written-Sound :
    (m : StoredMessage) (tables : Database)
    → IsSound tables
    → IsSound (written (save_message m tables) tables)
written-Sound m tables (h, k) =
    (save_message-Consistent m tables h, subst IsKeyed (sym (save_message-contacts m tables)) k)

-- A property of the tables that every save of a message and of a contact keeps.
module _ (p : Platform) {S : Type 0} (store : SignalStore S) (json : Json)
    (Kept : Database → Type 0)
    (saves : (m : StoredMessage) (t : Database) → Kept t → Kept (written (save_message m t) t))
    (adds : (c : ContactRecord) (t : Database) → Kept t → Kept (save_contact c t)) where
  unfoldable pub HasKept : App S → Type 0
  HasKept app = Kept app.tables

  pub HasKept-same : (a b : App S) → b.tables ≡ a.tables → HasKept a → HasKept b
  unfolding HasKept
  HasKept-same a b e h = subst Kept (sym e) h

  on_tables-written :
      (f : Database → Result DatabaseError Database) (app : App S)
      → (on_tables f app).1.tables ≡ written (f app.tables) app.tables
  unfolding written
  on_tables-written f app = both (f app.tables)
    where
      both :
          (r : Result DatabaseError Database)
          → (on_tables (λ t. r) app).1.tables ≡ written r app.tables
      both (ok t) = refl
      both (err e) = refl

  pub save-Keeps : (m : StoredMessage) → Keeps HasKept (on_tables (save_message m))
  unfolding HasKept
  save-Keeps m app h =
      subst Kept (sym (on_tables-written (save_message m) app)) (saves m app.tables h)

  -- A row is saved, its event emitted, and it is the result.
  saved-Keeps :
      (m : StoredMessage) (event : AppEvent) (app : App S)
      → HasKept app
      → HasKept ((on_tables (save_message m) >> (writes (emit event) >> pure m)) app).1
  saved-Keeps m event app h =
      continue-Keeps HasKept (on_tables (save_message m) app).0 (λ _. writes (emit event) >> pure m)
        (on_tables (save_message m) app).1 (λ _ t r. HasKept-same t _ refl r) (save-Keeps m app h)

  send_to_contact-Keeps :
      (draws : SendDraws) (own_key plaintext : Text) (contact : ContactRecord)
      → Keeps HasKept (send_to_contact p store json draws own_key plaintext contact)
  unfolding send_to_contact
  send_to_contact-Keeps draws own_key plaintext contact app h =
      let r = send_to_all p store json draws contact plaintext app in
      let message =
        sent_message p store json own_key draws.message_id contact plaintext draws.now r.0 in
      saved-Keeps message (on_message_sent message) r.1
        (HasKept-same app r.1 (send_to_all-tables p store json draws contact plaintext app) h)

  pub send-Keeps :
      (draws : SendDraws) (own_key hash plaintext : Text)
      → Keeps HasKept (send_outbound_message p store json draws own_key hash plaintext)
  unfolding send_outbound_message
  send-Keeps draws own_key hash plaintext app h =
      continue-Keeps HasKept (require (get_contact_by_hash hash app.tables) unknown_contact)
        (send_to_contact p store json draws own_key plaintext) app
        (send_to_contact-Keeps draws own_key plaintext) h

  named-Keeps :
      (alias_name : Text) (now : ℕ) (key : Text)
      → Keeps HasKept (named_sender store alias_name now key)
  unfolding named_sender HasKept
  named-Keeps alias_name now key app h =
      elim (Option-cases (get_contact_by_identity_key (to_lower key) app.tables)) [
        | inl e ↦
            rw (e, named_sender) (adds (placeholder alias_name (to_lower key) now) app.tables h)
        | inr (c, e) ↦ rw (e, named_sender) h
      ]

  session-Keeps : Keeps HasKept (session_sender store)
  unfolding session_sender
  session-Keeps app h =
      continue-Keeps HasKept
        (require (first_with_session store app.signal_store (list_contacts app.tables))
          unresolved_sender)
        (λ contact.
          lift (require (truthy (some (to_lower contact.identity_pubkey_hex))) unresolved_sender)
          >>= (λ sender. pure (sender, contact)))
        app
        (λ contact s q.
          continue-Keeps HasKept
            (require (truthy (some (to_lower contact.identity_pubkey_hex))) unresolved_sender)
            (λ sender. pure (sender, contact)) s (λ sender t r. r) q)
        h

  pub resolve-Keeps :
      (alias_name : Text) (now : ℕ) (m : EncryptedMessage)
      → Keeps HasKept (resolve_sender store alias_name now m)
  unfolding resolve_sender
  resolve-Keeps alias_name now m app h = elim (Option-cases (truthy m.initial_identity_key_hex)) [
    | inl e ↦ rw (e, resolve_sender) (session-Keeps app h)
    | inr (key, e) ↦ rw (e, resolve_sender) (named-Keeps alias_name now key app h)
  ]

  ensure-Kept :
      (now : ℕ) (content : Content) (tables : Database)
      → Kept tables
      → Kept (ensure_contact now content tables)
  unfolding ensure_contact
  ensure-Kept now content tables h = elim (Bool-cases content.is_sync) [
    | inr e ↦ rw e h
    | inl e ↦ rw e (elim (Option-cases (get_contact_by_hash content.contact_hash tables)) [
      | inr (c, e') ↦ rw e' h
      | inl e' ↦ rw e' (adds _ tables h)
    ])
  ]

  store_content-Keeps :
      (draws : ReceiveDraws) (own_key : Text) (payload : IncomingMessagePayload) (sender : Text)
      (contact : ContactRecord) (plaintext : Text)
      → Keeps HasKept (store_content p store json draws own_key payload sender contact plaintext)
  unfolding store_content store_read HasKept
  store_content-Keeps draws own_key payload sender contact plaintext app h =
      let content = read_content json draws.message_id contact plaintext in
      let message = received_message own_key sender content (received_at payload draws.now) in
      saved-Keeps message
        (if content.is_sync then on_message_sent message else on_message_received message)
        (record app { tables = ensure_contact draws.synced_created_at content app.tables })
        (ensure-Kept draws.synced_created_at content app.tables h)

  open-Keeps :
      (draws : ReceiveDraws) (own_key : Text) (payload : IncomingMessagePayload)
      (message : EncryptedMessage) (from : Text × ContactRecord)
      → Keeps HasKept (open_message p store json draws own_key payload message from)
  unfolding open_message HasKept
  open-Keeps draws own_key payload message from app h =
      on_store-Keeps HasKept (decrypt p store draws.decrypting from.0 message)
        (store_content p store json draws own_key payload from.0 from.1) app
        (store_content-Keeps draws own_key payload from.0 from.1) h

  receive_message-Keeps :
      (draws : ReceiveDraws) (own_key : Text) (payload : IncomingMessagePayload)
      (message : EncryptedMessage)
      → Keeps HasKept (receive_message p store json draws own_key payload message)
  unfolding receive_message
  receive_message-Keeps draws own_key payload message app h =
      let from =
        resolve_sender store (codes "Unknown Contact") draws.contact_created_at message app in
      continue-Keeps HasKept from.0 (open_message p store json draws own_key payload message) from.1
        (open-Keeps draws own_key payload message)
        (resolve-Keeps (codes "Unknown Contact") draws.contact_created_at message app h)

  process-Keeps :
      (draws : ReceiveDraws) (own_key : Text) (payload : IncomingMessagePayload)
      → Keeps HasKept (process_incoming p store json draws own_key payload)
  unfolding process_incoming
  process-Keeps draws own_key payload app h =
      continue-Keeps HasKept (require (json.read_message payload.encrypted_payload) bad_json)
        (receive_message p store json draws own_key payload) app
        (receive_message-Keeps draws own_key payload) h

  pub handle-Keeps :
      (draws : ReceiveDraws) (own_key : Text) (payload : IncomingMessagePayload) (app : App S)
      → HasKept app
      → HasKept (handle_incoming_message p store json draws own_key payload app).1
  unfolding handle_incoming_message
  handle-Keeps draws own_key payload app h =
      let r = process_incoming p store json draws own_key payload app in
      caught r.0 r.1 (process-Keeps draws own_key payload app h)
    where
      caught :
          (r : Result AppError StoredMessage) (s : App S)
          → HasKept s
          → HasKept (reported p store json r s).1
      caught (ok m) s q = q
      caught (err e) s q = HasKept-same s _ refl q
