-- ===== src/Messenger.antt =====
-- The state of client/src/orchestration/AppOrchestrator.ts: the signal store, the tables, the envelopes
-- given to `sendMessage`, and the calls of its callbacks. What the relay answers, random draws and the
-- clock are arguments of each call.
pub mod Sender
pub mod Send
pub mod Receive
pub mod Actions
pub mod Tables
pub mod Keeps
pub mod Calls
pub mod Storing
pub mod Reached
pub mod Known
pub mod Delivered
pub mod Synced
pub mod Arriving
use tor_e2ee_messenger.Common.{ℕ, Bool, Option, none, some, List, [], ◌∷◌, ◌++◌, Text}
use tor_e2ee_messenger.Common.Result.{Result, ok, err}
use tor_e2ee_messenger.Common.Action.{Action}
use tor_e2ee_messenger.Crypto.{EncryptedMessage, CryptoError}
use tor_e2ee_messenger.Storage.Database.{StoredMessage, Database, DatabaseError}

pub record OutgoingMessageEnvelope : Type 0 where
  pub recipient_pubkey_hash : Text
  pub encrypted_payload : Text
  pub nonce : Text

pub record IncomingMessagePayload : Type 0 where
  pub encrypted_payload : Text
  pub nonce : Text
  pub created_at : ℕ

pub record DeviceSyncPayload : Type 0 where
  pub original_recipient_hash : Text
  pub body : Text
  pub timestamp : ℕ
  pub message_id : Text

-- `JSON.stringify` and `JSON.parse`. A message that does not parse is `none`; so is a text that is no
-- object with a true `isSyncMessage`, for which the source takes the other branch.
pub record Json : Type 0 where
  pub write_message : EncryptedMessage → Text
  pub read_message : Text → Option EncryptedMessage
  pub write_sync : DeviceSyncPayload → Text
  pub read_sync : Text → Option DeviceSyncPayload

pub data AppError : Type 0 where
  unknown_contact unresolved_sender bad_json relay_failed : AppError
  crypto_failed : CryptoError → AppError
  database_failed : DatabaseError → AppError

pub data AppEvent : Type 0 where
  on_message_sent on_message_received : StoredMessage → AppEvent
  on_error : AppError → AppEvent

pub record App (S : Type 0) : Type 0 where
  pub signal_store : S
  pub tables : Database
  pub posted : List OutgoingMessageEnvelope
  pub events : List AppEvent

abbrev pub as_crypto {ℓ} : {A : Type ℓ} → Result CryptoError A → Result AppError A
as_crypto (ok a) = ok a
as_crypto (err e) = err (crypto_failed e)

module _ {S : Type 0} where
  -- An action of the engine on the signal store.
  abbrev pub on_store {ℓ} : {A : Type ℓ} → Action S CryptoError A → Action (App S) AppError A
  on_store m app = let r = m app.signal_store in (as_crypto r.0, record app { signal_store = r.1 })

  -- A write of the tables; one that fails leaves them as they were.
  abbrev pub stored : Result DatabaseError Database → App S → Result AppError (Unit {0}) × App S
  stored (ok tables) app = (ok tt, record app { tables = tables })
  stored (err e) app = (err (database_failed e), app)

  abbrev pub on_tables :
      (Database → Result DatabaseError Database) → Action (App S) AppError (Unit {0})
  on_tables f app = stored (f app.tables) app

  abbrev pub emit : AppEvent → App S → App S
  emit e app = record app { events = app.events ++ e ∷ [] }
