-- ===== src/Messenger/Calls.antt =====
-- Sequences of calls of client/src/orchestration/AppOrchestrator.ts, and what becomes of a row of the
-- messages.
use tor_e2ee_messenger.Common.{
  ◌≡◌, refl, ap, ◌∙◌, some, List, [], ◌∷◌, Text, text_eq, text_eq_iff, Bool-cases, inl, inr,
}
use tor_e2ee_messenger.Common.Result.{Result, ok, err}
use tor_e2ee_messenger.Platform.{Platform}
use tor_e2ee_messenger.Crypto.Store.{SignalStore}
use tor_e2ee_messenger.Storage.Database.{ContactRecord, StoredMessage, Database, DatabaseError}
use tor_e2ee_messenger.Storage.Contacts.{save_contact}
use tor_e2ee_messenger.Storage.Messages.{save_message, get_message_by_id}
use tor_e2ee_messenger.Storage.Reading.{saved_row, get_message_by_id-save_message}
use tor_e2ee_messenger.Storage.Keys.{written}
use tor_e2ee_messenger.Messenger.{App, Json, IncomingMessagePayload}
use tor_e2ee_messenger.Messenger.Send.{SendDraws, send_outbound_message}
use tor_e2ee_messenger.Messenger.Receive.{ReceiveDraws, handle_incoming_message}
use tor_e2ee_messenger.Messenger.Keeps.{HasKept, send-Keeps, handle-Keeps}

-- A call of the messenger: a message to send, or an envelope that arrives.
pub data AppCall : Type 0 where
  sends : SendDraws → Text → Text → AppCall
  receives : ReceiveDraws → IncomingMessagePayload → AppCall

-- Under the id there is a row in the same conversation, with the same two identities, the same time and
-- the same direction; its body and its marks may be others.
abbrev pub IsHeld : Text → StoredMessage → Database → Type 0
IsHeld id row tables =
    (now : StoredMessage) × (get_message_by_id id tables ≡ some now)
    × (now.contact_pubkey_hash ≡ row.contact_pubkey_hash)
    × (now.sender_identity_hex ≡ row.sender_identity_hex)
    × (now.recipient_identity_hex ≡ row.recipient_identity_hex)
    × (now.timestamp ≡ row.timestamp)
    × (now.is_outgoing ≡ row.is_outgoing)

module _ (id : Text) (row : StoredMessage) where
  saved-IsHeld :
      (m : StoredMessage) (db after : Database)
      → save_message m db ≡ ok after
      → IsHeld id row db
      → IsHeld id row after
  unfolding saved_row
  saved-IsHeld m db after e (now, found, a, b, c, d, f) = elim (Bool-cases (text_eq m.id id)) [
    | inl is_id ↦
        let i : m.id ≡ id = (text_eq_iff m.id id).0 is_id in
        let before : get_message_by_id m.id db ≡ some now =
          ap (λ j. get_message_by_id j db) i ∙ found in
        (
          saved_row m (some now),
          get_message_by_id-save_message m db after id e
              ∙ rw is_id (ap (λ o. some (saved_row m o)) before),
          a,
          b,
          c,
          d,
          f,
        )
    | inr other ↦
        (now, get_message_by_id-save_message m db after id e ∙ rw other found, a, b, c, d, f)
  ]

  written-IsHeld :
      (m : StoredMessage) (db : Database)
      → IsHeld id row db
      → IsHeld id row (written (save_message m db) db)
  unfolding written
  written-IsHeld m db h = after (save_message m db) refl
    where
      after :
          (r : Result DatabaseError Database) → save_message m db ≡ r → IsHeld id row (written r db)
      after (ok t) e = saved-IsHeld m db t e h
      after (err x) e = h

  save_contact-IsHeld :
      (c : ContactRecord) (db : Database) → IsHeld id row db → IsHeld id row (save_contact c db)
  unfolding save_contact get_message_by_id
  save_contact-IsHeld c db h = h

module _ (p : Platform) {S : Type 0} (store : SignalStore S) (json : Json) (own_key : Text) where
  -- The state after a call, whatever its result.
  unfoldable pub app_call : AppCall → App S → App S
  unfolding send_outbound_message handle_incoming_message
  app_call (sends draws hash plaintext) app =
      (send_outbound_message p store json draws own_key hash plaintext app).1
  app_call (receives draws payload) app =
      (handle_incoming_message p store json draws own_key payload app).1

  unfoldable pub app_calls : List AppCall → App S → App S
  app_calls [] app = app
  app_calls (c ∷ calls) app = app_calls calls (app_call c app)

  app_call-IsHeld :
      (id : Text) (row : StoredMessage) (c : AppCall) (app : App S)
      → IsHeld id row app.tables
      → IsHeld id row (app_call c app).tables
  unfolding app_call HasKept
  app_call-IsHeld id row (sends draws hash plaintext) app h =
      send-Keeps p store json (IsHeld id row) (written-IsHeld id row) (save_contact-IsHeld id row)
        draws own_key hash plaintext app h
  app_call-IsHeld id row (receives draws payload) app h =
      handle-Keeps p store json (IsHeld id row) (written-IsHeld id row) (save_contact-IsHeld id row)
        draws own_key payload app h

  -- Neither sending nor receiving loses a message or moves it: after any such calls in any order, with
  -- any draws, ids that were drawn before among them, any answers of the relay and any envelopes, whether
  -- the calls throw or not, a message that was in the table stands there under its id, in the same
  -- conversation, with the same two identities, the same time and the same direction.
  pub app_calls-IsHeld :
      (id : Text) (row : StoredMessage) (calls : List AppCall) (app : App S)
      → get_message_by_id id app.tables ≡ some row
      → IsHeld id row (app_calls calls app).tables
  unfolding app_calls
  app_calls-IsHeld id row calls app found =
      goes calls app (row, found, refl, refl, refl, refl, refl)
    where
      goes :
          (calls : List AppCall) (app : App S)
          → IsHeld id row app.tables
          → IsHeld id row (app_calls calls app).tables
      goes [] app h = h
      goes (c ∷ calls) app h = goes calls (app_call c app) (app_call-IsHeld id row c app h)
