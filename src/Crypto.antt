-- ===== src/Crypto.antt =====
-- client/src/crypto/types.ts, and what CryptoEngine.ts throws.
pub mod Kdf
pub mod Store
pub mod Ratchet
pub mod Secrets
pub mod Bundle
pub mod Handshake
pub mod Initiate
pub mod Chains
pub mod Cipher
pub mod ChainKeys
pub mod Skipping
pub mod InSync
pub mod Delivery
pub mod Sealing
pub mod Replay
pub mod Agreement
pub mod Turn
use tor_e2ee_messenger.Common.{ℕ, Option, List, Text}
use tor_e2ee_messenger.Identity.{Curve25519KeyPair}

pub record SignedPreKey : Type 0 where
  pub key_id : ℕ
  pub key_pair : Curve25519KeyPair
  pub signature_hex : Text
  pub created_at : ℕ

pub record OneTimePreKey : Type 0 where
  pub key_id : ℕ
  pub key_pair : Curve25519KeyPair

pub record BundleSignedPreKey : Type 0 where
  pub key_id : ℕ
  pub public_key_hex : Text
  pub signature_hex : Text

pub record BundleOneTimePreKey : Type 0 where
  pub key_id : ℕ
  pub public_key_hex : Text

pub record PreKeyBundle : Type 0 where
  pub identity_key_hex : Text
  pub signing_key_hex : Text
  pub signed_pre_key : BundleSignedPreKey
  pub one_time_pre_key : Option BundleOneTimePreKey

pub record EncryptedMessage : Type 0 where
  pub ephemeral_public_key_hex : Text
  pub sequence_number : ℕ
  pub previous_chain_length : ℕ
  pub ciphertext : Text
  pub nonce : Text
  pub one_time_pre_key_id : Option ℕ
  pub initial_identity_key_hex : Option Text
  pub initial_ephemeral_key_hex : Option Text

pub record SessionRecord : Type 0 where
  pub recipient_identity_key_hex : Text
  pub root_key_hex : Text
  pub send_chain_key_hex : Option Text
  pub receive_chain_key_hex : Option Text
  pub local_dh_key_pair : Curve25519KeyPair
  pub remote_dh_public_key_hex : Option Text
  pub send_sequence_number : ℕ
  pub receive_sequence_number : ℕ
  pub previous_chain_length : ℕ
  pub skipped_message_keys : List (Text × Text)
  pub created_at : ℕ
  pub updated_at : ℕ
  pub one_time_pre_key_id : Option ℕ

-- `library_error` is an exception of tweetnacl, @noble/hashes or the store's driver.
pub data CryptoError : Type 0 where
  bad_signed_pre_key no_session no_remote_dh_key missing_x3dh_parameters : CryptoError
  no_signed_pre_key too_many_skipped no_receiving_chain decryption_failed : CryptoError
  library_error : CryptoError
