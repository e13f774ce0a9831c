-- ===== src/Storage/Database.antt =====
-- The tables of client/src/storage/DatabaseManager.ts that the repositories use, and the rows of
-- client/src/storage/types.ts. Foreign keys are enforced.
use tor_e2ee_messenger.Common.{ℕ, Bool, Option, List, Text}

pub data DeliveryStatus : Type 0 where
  pending sent delivered failed : DeliveryStatus

pub record StoredMessage : Type 0 where
  pub id : Text
  pub contact_pubkey_hash : Text
  pub sender_identity_hex : Text
  pub recipient_identity_hex : Text
  pub body : Text
  pub timestamp : ℕ
  pub is_outgoing : Bool
  pub is_read : Bool
  pub delivery_status : DeliveryStatus

pub record DeviceRecord : Type 0 where
  pub device_id : ℕ
  pub recipient_pubkey_hash : Text
  pub identity_pubkey_hex : Text
  pub device_name : Option Text
  pub created_at : ℕ

pub record OwnDeviceRecord : Type 0 where
  pub device_id : ℕ
  pub device_name : Text
  pub recipient_pubkey_hash : Text
  pub identity_pubkey_hex : Text
  pub created_at : ℕ

-- `linked_devices` is empty where the source has `undefined`, which is stored alike.
pub record ContactRecord : Type 0 where
  pub recipient_pubkey_hash : Text
  pub identity_pubkey_hex : Text
  pub signing_pubkey_hex : Text
  pub alias_name : Option Text
  pub created_at : ℕ
  pub linked_devices : List DeviceRecord

-- A row of `messages` is kept as the record that `mapRowToMessage` reads from it, and a row of
-- `contacts` as the record with the list that is stored, which may be empty.
pub record Database : Type 0 where
  pub contacts : List (Text × ContactRecord)
  pub messages : List StoredMessage
  pub own_linked_devices : List (ℕ × OwnDeviceRecord)

pub data DatabaseError : Type 0 where
  foreign_key_failed contact_not_found : DatabaseError
