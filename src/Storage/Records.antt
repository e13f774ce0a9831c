-- ===== src/Storage/Records.antt =====
-- The stored form of key pairs, pre-keys and sessions in client/src/storage/SqliteSignalStore.ts. A stored
-- object is the value that `JSON.parse` gives back for the text of `JSON.stringify`.
use tor_e2ee_messenger.Common.{ℕ, ◌≡◌, refl, Option, List, Text}
use tor_e2ee_messenger.Common.Result.{Result, ok, require, ◌>>=◌}
use tor_e2ee_messenger.Platform.{Platform}
use tor_e2ee_messenger.Identity.{Curve25519KeyPair}
use tor_e2ee_messenger.Crypto.{
  SignedPreKey, OneTimePreKey, SessionRecord, CryptoError, library_error,
}
use tor_e2ee_messenger.Crypto.Store.{IsKeyPair}

pub record StoredKeyPair : Type 0 where
  pub public_key_hex : Text
  pub secret_key_hex : Text

pub record StoredSignedPreKey : Type 0 where
  pub key_id : ℕ
  pub key_pair : StoredKeyPair
  pub signature_hex : Text
  pub created_at : ℕ

pub record StoredOneTimePreKey : Type 0 where
  pub key_id : ℕ
  pub key_pair : StoredKeyPair

pub record StoredSession : Type 0 where
  pub recipient_identity_key_hex : Text
  pub root_key_hex : Text
  pub send_chain_key_hex : Option Text
  pub receive_chain_key_hex : Option Text
  pub local_dh_key_pair : StoredKeyPair
  pub remote_dh_public_key_hex : Option Text
  pub send_sequence_number : ℕ
  pub receive_sequence_number : ℕ
  pub previous_chain_length : ℕ
  pub skipped_message_keys : List (Text × Text)
  pub created_at : ℕ
  pub updated_at : ℕ
  pub one_time_pre_key_id : Option ℕ

module _ (p : Platform) where
  unfoldable pub serialize_key_pair : Curve25519KeyPair → StoredKeyPair
  serialize_key_pair pair = record {
    public_key_hex = pair.public_key_hex;
    secret_key_hex = p.bytes_to_hex pair.secret_key;
  }

  unfoldable pub deserialize_key_pair : StoredKeyPair → Result CryptoError Curve25519KeyPair
  deserialize_key_pair stored = do
    public_key ← require (p.hex_to_bytes stored.public_key_hex) library_error
    secret_key ← require (p.hex_to_bytes stored.secret_key_hex) library_error
    ok (record {
      public_key = public_key;
      secret_key = secret_key;
      public_key_hex = stored.public_key_hex;
    })

  unfoldable pub serialize_signed_pre_key : SignedPreKey → StoredSignedPreKey
  serialize_signed_pre_key key = record {
    key_id = key.key_id;
    key_pair = serialize_key_pair key.key_pair;
    signature_hex = key.signature_hex;
    created_at = key.created_at;
  }

  unfoldable pub deserialize_signed_pre_key : StoredSignedPreKey → Result CryptoError SignedPreKey
  deserialize_signed_pre_key stored = do
    pair ← deserialize_key_pair stored.key_pair
    ok (record {
      key_id = stored.key_id;
      key_pair = pair;
      signature_hex = stored.signature_hex;
      created_at = stored.created_at;
    })

  unfoldable pub serialize_one_time_pre_key : OneTimePreKey → StoredOneTimePreKey
  serialize_one_time_pre_key key = record {
    key_id = key.key_id;
    key_pair = serialize_key_pair key.key_pair;
  }

  unfoldable pub deserialize_one_time_pre_key :
      StoredOneTimePreKey → Result CryptoError OneTimePreKey
  deserialize_one_time_pre_key stored = do
    pair ← deserialize_key_pair stored.key_pair
    ok (record { key_id = stored.key_id; key_pair = pair })

  unfoldable pub serialize_session : SessionRecord → StoredSession
  serialize_session session = record {
    recipient_identity_key_hex = session.recipient_identity_key_hex;
    root_key_hex = session.root_key_hex;
    send_chain_key_hex = session.send_chain_key_hex;
    receive_chain_key_hex = session.receive_chain_key_hex;
    local_dh_key_pair = serialize_key_pair session.local_dh_key_pair;
    remote_dh_public_key_hex = session.remote_dh_public_key_hex;
    send_sequence_number = session.send_sequence_number;
    receive_sequence_number = session.receive_sequence_number;
    previous_chain_length = session.previous_chain_length;
    skipped_message_keys = session.skipped_message_keys;
    created_at = session.created_at;
    updated_at = session.updated_at;
    one_time_pre_key_id = session.one_time_pre_key_id;
  }

  unfoldable pub deserialize_session : StoredSession → Result CryptoError SessionRecord
  deserialize_session stored = do
    pair ← deserialize_key_pair stored.local_dh_key_pair
    ok (record {
      recipient_identity_key_hex = stored.recipient_identity_key_hex;
      root_key_hex = stored.root_key_hex;
      send_chain_key_hex = stored.send_chain_key_hex;
      receive_chain_key_hex = stored.receive_chain_key_hex;
      local_dh_key_pair = pair;
      remote_dh_public_key_hex = stored.remote_dh_public_key_hex;
      send_sequence_number = stored.send_sequence_number;
      receive_sequence_number = stored.receive_sequence_number;
      previous_chain_length = stored.previous_chain_length;
      skipped_message_keys = stored.skipped_message_keys;
      created_at = stored.created_at;
      updated_at = stored.updated_at;
      one_time_pre_key_id = stored.one_time_pre_key_id;
    })

  deserialize-serialize_key_pair :
      (pair : Curve25519KeyPair)
      → IsKeyPair p pair
      → deserialize_key_pair (serialize_key_pair pair) ≡ ok pair
  unfolding deserialize_key_pair serialize_key_pair
  deserialize-serialize_key_pair pair h = rw h.public (rw h.secret refl)

  pub deserialize_session-serialize_session :
      (session : SessionRecord)
      → IsKeyPair p session.local_dh_key_pair
      → deserialize_session (serialize_session session) ≡ ok session
  unfolding deserialize_session serialize_session
  deserialize_session-serialize_session session h =
      rw (deserialize-serialize_key_pair session.local_dh_key_pair h) refl

  pub deserialize-serialize_one_time_pre_key :
      (key : OneTimePreKey)
      → IsKeyPair p key.key_pair
      → deserialize_one_time_pre_key (serialize_one_time_pre_key key) ≡ ok key
  unfolding deserialize_one_time_pre_key serialize_one_time_pre_key
  deserialize-serialize_one_time_pre_key key h =
      rw (deserialize-serialize_key_pair key.key_pair h) refl

  pub deserialize-serialize_signed_pre_key :
      (key : SignedPreKey)
      → IsKeyPair p key.key_pair
      → deserialize_signed_pre_key (serialize_signed_pre_key key) ≡ ok key
  unfolding deserialize_signed_pre_key serialize_signed_pre_key
  deserialize-serialize_signed_pre_key key h =
      rw (deserialize-serialize_key_pair key.key_pair h) refl
