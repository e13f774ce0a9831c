-- ===== src/Crypto/Store.antt =====
-- client/src/crypto/ISignalStore.ts: the interface that the engine uses, with what it relies on.
-- A read may throw, since a stored record is decoded.
use tor_e2ee_messenger.Common.{
  ℕ, ◌≡◌, Bool, Option, none, some, Text, to_lower, ◌==◌, if◌then◌else◌, text_keys, number_keys,
}
use tor_e2ee_messenger.Common.Result.{Result, ok}
use tor_e2ee_messenger.Platform.{Platform}
use tor_e2ee_messenger.Identity.{UserIdentity, Curve25519KeyPair}
use tor_e2ee_messenger.Crypto.{SignedPreKey, OneTimePreKey, SessionRecord, CryptoError}

pub record SignalStore (S : Type 0) : Type 0 where
  pub get_identity : S → UserIdentity
  pub save_signed_pre_key : ℕ → SignedPreKey → S → S
  pub get_signed_pre_key : S → ℕ → Result CryptoError (Option SignedPreKey)
  pub get_latest_signed_pre_key : S → Result CryptoError (Option SignedPreKey)
  pub save_one_time_pre_key : ℕ → OneTimePreKey → S → S
  pub get_one_time_pre_key : S → ℕ → Result CryptoError (Option OneTimePreKey)
  pub remove_one_time_pre_key : ℕ → S → S
  pub count_one_time_pre_keys : S → ℕ
  pub save_session : Text → SessionRecord → S → S
  pub get_session : S → Text → Result CryptoError (Option SessionRecord)
  pub has_session : S → Text → Bool
  pub remove_session : Text → S → S

-- A key pair that survives a round trip through hex.
pub record IsKeyPair (p : Platform) (pair : Curve25519KeyPair) : Type 0 where
  pub public : p.hex_to_bytes pair.public_key_hex ≡ some pair.public_key
  pub secret : p.hex_to_bytes (p.bytes_to_hex pair.secret_key) ≡ some pair.secret_key

-- What the engine relies on: a session that was saved is read back, under its key in either case,
-- and no other session changes; a one-time pre-key that is removed is gone, and nothing else.
pub record IsSignalStore (p : Platform) {S : Type 0} (store : SignalStore S) : Type 0 where
  pub get_session-save_session :
      (k j : Text) (v : SessionRecord) (s : S)
      → IsKeyPair p v.local_dh_key_pair
      → store.get_session (store.save_session k v s) j
        ≡ (if to_lower k == to_lower j then ok (some v) else store.get_session s j)
  pub get_session-remove_one_time_pre_key :
      (n : ℕ) (j : Text) (s : S)
      → store.get_session (store.remove_one_time_pre_key n s) j ≡ store.get_session s j
  pub get_one_time_pre_key-remove_one_time_pre_key :
      (n m : ℕ) (s : S)
      → store.get_one_time_pre_key (store.remove_one_time_pre_key n s) m
        ≡ (if n == m then ok none else store.get_one_time_pre_key s m)
  pub get_one_time_pre_key-save_session :
      (k : Text) (v : SessionRecord) (m : ℕ) (s : S)
      → store.get_one_time_pre_key (store.save_session k v s) m ≡ store.get_one_time_pre_key s m
  pub get_identity-save_session :
      (k : Text) (v : SessionRecord) (s : S)
      → store.get_identity (store.save_session k v s) ≡ store.get_identity s
