-- ===== src/Identity.antt =====
-- client/src/identity/types.ts, and the pure part of client/src/identity/IdentityManager.ts.
pub mod Keychain
use tor_e2ee_messenger.Common.{
  Bool, false, Option, none, some, not, Text, Bytes, length, nat_eq, if◌then◌else◌,
}
use tor_e2ee_messenger.Common.Result.{Result, ok, err, require, ◌>>=◌}
use tor_e2ee_messenger.Platform.{Platform}

pub record Ed25519KeyPair : Type 0 where
  pub public_key : Bytes
  pub secret_key : Bytes
  pub public_key_hex : Text

pub record Curve25519KeyPair : Type 0 where
  pub public_key : Bytes
  pub secret_key : Bytes
  pub public_key_hex : Text

pub record UserIdentity : Type 0 where
  pub mnemonic : Text
  pub signing_key : Ed25519KeyPair
  pub encryption_key : Curve25519KeyPair
  pub recipient_pubkey_hash : Text

pub record PublicIdentity : Type 0 where
  pub signing_public_key_hex : Text
  pub encryption_public_key_hex : Text
  pub recipient_pubkey_hash : Text

pub data IdentityError : Type 0 where
  bad_public_key_length bad_secret_key_length bad_challenge_length library_error : IdentityError

unfoldable pub get_public_identity : UserIdentity → PublicIdentity
get_public_identity identity = record {
  signing_public_key_hex = identity.signing_key.public_key_hex;
  encryption_public_key_hex = identity.encryption_key.public_key_hex;
  recipient_pubkey_hash = identity.recipient_pubkey_hash;
}

module _ (p : Platform) where
  unfoldable pub compute_pubkey_hash : Bytes → Result IdentityError Text
  compute_pubkey_hash public_key =
      if not (nat_eq (length public_key) 32)
      then err bad_public_key_length
      else ok (p.bytes_to_hex (p.sha256 public_key))

  unfoldable pub sign_challenge : Text → Bytes → Result IdentityError Text
  sign_challenge challenge_hex secret_key =
      if not (nat_eq (length secret_key) 64) then err bad_secret_key_length else do
        challenge ← require (p.hex_to_bytes challenge_hex) library_error
        if not (nat_eq (length challenge) 32) then err bad_challenge_length else do
          signature ← require (p.sign_detached challenge secret_key) library_error
          ok (p.bytes_to_hex signature)

  abbrev or_false : Option Bool → Bool
  or_false none = false
  or_false (some b) = b

  abbrev option_bind {ℓ κ} : {A : Type ℓ} {B : Type κ} → Option A → (A → Option B) → Option B
  option_bind none f = none
  option_bind (some a) f = f a

  -- Any exception of the three conversions or of the check is `false`.
  unfoldable pub verify_signature : Text → Text → Text → Bool
  verify_signature challenge_hex signature_hex public_key_hex = or_false (
      option_bind (p.hex_to_bytes challenge_hex) λ challenge.
        option_bind (p.hex_to_bytes signature_hex) λ signature.
          option_bind (p.hex_to_bytes public_key_hex)
            λ public_key. p.sign_verify challenge signature public_key)
