-- ===== src/Messenger/Storing.antt =====
-- What `sendOutboundMessage` and `handleIncomingMessage` of client/src/orchestration/AppOrchestrator.ts
-- leave in the tables.
use tor_e2ee_messenger.Common.{
  ◌≡◌, refl, ap, sym, subst, ◌∙◌, true, false, if◌then◌else◌, none, some, [], ◌∷◌, ◌++◌, Text,
  to_lower, lookup, text_keys, text_eq_refl, Option-cases, inl, inr,
}
use tor_e2ee_messenger.Common.Result.{ok}
use tor_e2ee_messenger.Common.Action.{pure, ◌>>◌, writes}
use tor_e2ee_messenger.Platform.{Platform}
use tor_e2ee_messenger.Crypto.Store.{SignalStore}
use tor_e2ee_messenger.Storage.Database.{ContactRecord, StoredMessage, Database, sent, delivered}
use tor_e2ee_messenger.Storage.Contacts.{get_contact_by_hash, map_row_to_contact}
use tor_e2ee_messenger.Storage.Messages.{save_message, get_message_by_id}
use tor_e2ee_messenger.Storage.Reading.{saved_row, get_message_by_id-save_message}
use tor_e2ee_messenger.Storage.Keyed.{IsKeyed, lookup-Keyed, save_message-ok}
use tor_e2ee_messenger.Messenger.{App, AppEvent, on_message_sent, Json, emit, on_tables}
use tor_e2ee_messenger.Messenger.Send.{
  SendDraws, target_devices, sent_message, send_to_all, send_to_contact, send_outbound_message,
}
use tor_e2ee_messenger.Messenger.Reached.{reaches, dispatch_all-reaches}
use tor_e2ee_messenger.Messenger.Tables.{send_to_all-tables}

-- The contact has a row.
abbrev pub HasRow : Text → Database → Type 0
HasRow hash tables = (row : ContactRecord) × (lookup (to_lower hash) tables.contacts ≡ some row)

pub get_contact_by_hash-HasRow :
    (hash : Text) (tables : Database) (contact : ContactRecord)
    → IsKeyed tables.contacts
    → get_contact_by_hash hash tables ≡ some contact
    → HasRow contact.recipient_pubkey_hash tables
unfolding get_contact_by_hash map_row_to_contact
get_contact_by_hash-HasRow hash tables contact keyed found =
    elim (Option-cases (lookup (to_lower hash) tables.contacts)) [
      | inl e ↦ absurd (let bad : none ≡ some contact = rw e at found in cc)
      | inr (row, e) ↦
          let same : some (map_row_to_contact row) ≡ some contact = rw e at found in
          let (key, lower) = lookup-Keyed (to_lower hash) tables.contacts row keyed e in
          let hash_of : contact.recipient_pubkey_hash ≡ to_lower hash =
            (let c : map_row_to_contact row ≡ contact = cc in
              sym (ap (λ c. c.recipient_pubkey_hash) c) ∙ key) in
          (row, rw hash_of (rw lower e))
    ]

pub read_back :
    (m : StoredMessage) (db after : Database)
    → save_message m db ≡ ok after
    → get_message_by_id m.id after ≡ some (saved_row m (get_message_by_id m.id db))
read_back m db after e =
    get_message_by_id-save_message m db after m.id e ∙ rw (text_eq_refl m.id) refl

module _ {S : Type 0} where
  -- A row of a known contact is saved, its event is emitted, and it is read back under its id.
  pub saved_lem :
      (m : StoredMessage) (event : AppEvent) (app : App S)
      → HasRow m.contact_pubkey_hash app.tables
      → (after : Database) × (save_message m app.tables ≡ ok after)
        × ((on_tables {S = S} (save_message m) >> (writes (emit event) >> pure m)) app
            ≡ (ok m, record app { tables = after; events = app.events ++ event ∷ [] }))
  saved_lem m event app (row, found) =
      let (after, e) = save_message-ok m app.tables row found in (after, e, rw e refl)

module _ (p : Platform) {S : Type 0} (store : SignalStore S) (json : Json) where
  send_to_contact-stores :
      (draws : SendDraws) (own_key plaintext : Text) (contact : ContactRecord) (app : App S)
      → HasRow contact.recipient_pubkey_hash app.tables
      → (let out = send_to_all p store json draws contact plaintext app in
          let m =
            sent_message p store json own_key draws.message_id contact plaintext draws.now out.0 in
          (after : Database) × (save_message m app.tables ≡ ok after)
          × (send_to_contact p store json draws own_key plaintext contact app ≡ (
            ok m,
            record out.1 { tables = after; events = out.1.events ++ on_message_sent m ∷ [] },
          )))
  unfolding send_to_contact sent_message
  send_to_contact-stores draws own_key plaintext contact app known =
      let out = send_to_all p store json draws contact plaintext app in
      let m =
        sent_message p store json own_key draws.message_id contact plaintext draws.now out.0 in
      let kept = send_to_all-tables p store json draws contact plaintext app in
      let (after, e, r) =
        saved_lem m (on_message_sent m) out.1
          (subst (HasRow contact.recipient_pubkey_hash) (sym kept) known) in
      (after, subst (λ t. save_message m t ≡ ok after) kept e, r)

  -- A call of `sendOutboundMessage` returns a row, leaves it in the table, and says last that it was sent.
  abbrev pub StoresAs :
      SendDraws → Text → Text → Text → ContactRecord → App S → StoredMessage → Type 0
  StoresAs draws own_key hash plaintext contact app m =
      let out = send_to_all p store json draws contact plaintext app in
      let r = send_outbound_message p store json draws own_key hash plaintext app in
      (r.0 ≡ ok m)
      × (get_message_by_id draws.message_id r.1.tables
          ≡ some (saved_row m (get_message_by_id draws.message_id app.tables)))
      × (r.1.events ≡ out.1.events ++ on_message_sent m ∷ [])

  stores_whichever :
      (draws : SendDraws) (own_key hash plaintext : Text) (contact : ContactRecord) (app : App S)
      → IsKeyed app.tables.contacts
      → get_contact_by_hash hash app.tables ≡ some contact
      → StoresAs draws own_key hash plaintext contact app (
          sent_message p store json own_key draws.message_id contact plaintext draws.now
            (send_to_all p store json draws contact plaintext app).0)
  unfolding send_outbound_message send_to_contact
  stores_whichever draws own_key hash plaintext contact app keyed found =
      let out = send_to_all p store json draws contact plaintext app in
      let m =
        sent_message p store json own_key draws.message_id contact plaintext draws.now out.0 in
      let (after, e, r) =
        send_to_contact-stores draws own_key plaintext contact app
          (get_contact_by_hash-HasRow hash app.tables contact keyed found) in
      rw found (rw r (refl, unfold sent_message in read_back m app.tables after e, refl))

  send_to_all-reaches :
      (draws : SendDraws) (plaintext : Text) (contact : ContactRecord) (app : App S)
      → (send_to_all p store json draws contact plaintext app).0
        ≡ reaches p store json draws.to_devices 0 plaintext (target_devices contact) app
  unfolding send_to_all
  send_to_all-reaches draws plaintext contact app =
      dispatch_all-reaches p store json draws.to_devices 0 plaintext (target_devices contact) false
        app

  -- A message to a contact in the table is stored and announced whatever the devices, the relay and the
  -- signal store do. The call returns a row with the id and the time that were drawn, the contact's hash
  -- and key, the user's own key and the text, outgoing and read. It is delivered where some device's
  -- message was encrypted and the relay answered that it was delivered live, else sent; nothing else
  -- depends on them. The row is then read back under its id, as a save leaves it, and the last event is
  -- that it was sent.
  pub send_outbound_message-stores :
      (draws : SendDraws) (own_key hash plaintext : Text) (contact : ContactRecord) (app : App S)
      → IsKeyed app.tables.contacts
      → get_contact_by_hash hash app.tables ≡ some contact
      → StoresAs draws own_key hash plaintext contact app (record {
        id = draws.message_id;
        contact_pubkey_hash = contact.recipient_pubkey_hash;
        sender_identity_hex = own_key;
        recipient_identity_hex = contact.identity_pubkey_hex;
        body = plaintext;
        timestamp = draws.now;
        is_outgoing = true;
        is_read = true;
        delivery_status =
            if reaches p store json draws.to_devices 0 plaintext (target_devices contact) app
            then delivered
            else sent;
      })
  unfolding sent_message
  send_outbound_message-stores draws own_key hash plaintext contact app keyed found =
      subst
        (λ live.
          StoresAs draws own_key hash plaintext contact app
            (sent_message p store json own_key draws.message_id contact plaintext draws.now live))
        (send_to_all-reaches draws plaintext contact app)
        (stores_whichever draws own_key hash plaintext contact app keyed found)
