-- ===== src/Crypto/Handshake.antt =====
-- The two ends of the X3DH handshake of client/src/crypto/CryptoEngine.ts: `initiateSession` and
-- `initiateBobSession`.
use tor_e2ee_messenger.Common.{
  ℕ, Option, none, some, List, [], ◌∷◌, Text, Bytes, to_lower, text_keys,
}
use tor_e2ee_messenger.Common.Result.{Result, ok, ◌>>=◌}
use tor_e2ee_messenger.Platform.{Platform}
use tor_e2ee_messenger.Identity.{Curve25519KeyPair}
use tor_e2ee_messenger.Crypto.{
  SignedPreKey, OneTimePreKey, BundleOneTimePreKey, PreKeyBundle, EncryptedMessage, SessionRecord,
  CryptoError,
}
use tor_e2ee_messenger.Crypto.Kdf.{RootStep, kdf_root, generate_curve25519_key_pair}
use tor_e2ee_messenger.Crypto.Secrets.{dh, from_hex, master_secret}

-- `bundle.oneTimePreKey?.keyId`
abbrev bundle_key_id : Option BundleOneTimePreKey → Option ℕ
bundle_key_id none = none
bundle_key_id (some k) = some k.key_id

module _ (p : Platform) where
  -- The Diffie-Hellman results of the side that initiates, in the order of the source.
  unfoldable pub alice_secrets :
      Bytes → Bytes → Bytes → Bytes → Option BundleOneTimePreKey → Result CryptoError (List Bytes)
  alice_secrets ik_a ek_a ik_b spk_b one_time = do
    dh1 ← dh p ik_a spk_b
    dh2 ← dh p ek_a ik_b
    dh3 ← dh p ek_a spk_b
    elim one_time [
      | none ↦ ok (dh1 ∷ dh2 ∷ dh3 ∷ [])
      | some k ↦ do
        opk_b ← from_hex p k.public_key_hex
        dh4 ← dh p ek_a opk_b
        ok (dh1 ∷ dh2 ∷ dh3 ∷ dh4 ∷ [])
    ]

  -- The same on the side that answers; the keys of the message are public.
  unfoldable pub bob_secrets :
      Bytes → Bytes → Bytes → Bytes → Option OneTimePreKey → Result CryptoError (List Bytes)
  bob_secrets spk ik_b ik_a ek_a one_time = do
    dh1 ← dh p spk ik_a
    dh2 ← dh p ik_b ek_a
    dh3 ← dh p spk ek_a
    elim one_time [
      | none ↦ ok (dh1 ∷ dh2 ∷ dh3 ∷ [])
      | some k ↦ do dh4 ← dh p k.key_pair.secret_key ek_a; ok (dh1 ∷ dh2 ∷ dh3 ∷ dh4 ∷ [])
    ]

  -- The record that `initiateSession` builds of the keys that it derived.
  unfoldable pub alice_record : Curve25519KeyPair → RootStep → ℕ → ℕ → PreKeyBundle → SessionRecord
  alice_record ek_a step created_at updated_at bundle = record {
    recipient_identity_key_hex = to_lower bundle.identity_key_hex;
    root_key_hex = p.bytes_to_hex step.next_root_key;
    send_chain_key_hex = some (p.bytes_to_hex step.chain_key);
    receive_chain_key_hex = none;
    local_dh_key_pair = ek_a;
    remote_dh_public_key_hex = some (to_lower bundle.signed_pre_key.public_key_hex);
    send_sequence_number = 0;
    receive_sequence_number = 0;
    previous_chain_length = 0;
    skipped_message_keys = [];
    created_at = created_at;
    updated_at = updated_at;
    one_time_pre_key_id = bundle_key_id bundle.one_time_pre_key;
  }

  -- `initiateSession` after the signature was checked and before the session is saved.
  unfoldable pub alice_session :
      Curve25519KeyPair → Bytes → ℕ → ℕ → PreKeyBundle → Result CryptoError SessionRecord
  unfolding alice_secrets alice_record
  alice_session ik_a secret created_at updated_at bundle = do
    ik_b ← from_hex p bundle.identity_key_hex
    spk_b ← from_hex p bundle.signed_pre_key.public_key_hex
    let ek_a = generate_curve25519_key_pair p secret
    dhs ← alice_secrets ik_a.secret_key ek_a.secret_key ik_b spk_b bundle.one_time_pre_key
    initial_dh ← dh p ek_a.secret_key spk_b
    let step = kdf_root p (master_secret p dhs) initial_dh
    ok (alice_record ek_a step created_at updated_at bundle)

  -- The record that `initiateBobSession` builds of the keys that it derived.
  unfoldable pub bob_record :
      Curve25519KeyPair → RootStep → ℕ → ℕ → Text → EncryptedMessage → SessionRecord
  bob_record dhs_b step created_at updated_at sender message = record {
    recipient_identity_key_hex = to_lower sender;
    root_key_hex = p.bytes_to_hex step.next_root_key;
    send_chain_key_hex = none;
    receive_chain_key_hex = some (p.bytes_to_hex step.chain_key);
    local_dh_key_pair = dhs_b;
    remote_dh_public_key_hex = some (to_lower message.ephemeral_public_key_hex);
    send_sequence_number = 0;
    receive_sequence_number = 0;
    previous_chain_length = 0;
    skipped_message_keys = [];
    created_at = created_at;
    updated_at = updated_at;
    one_time_pre_key_id = none;
  }

  -- `initiateBobSession` after the pre-keys were read and before the session is saved.
  unfoldable pub bob_session :
      Curve25519KeyPair
      → SignedPreKey
      → Option OneTimePreKey
      → Bytes
      → Bytes
      → Bytes
      → ℕ
      → ℕ
      → Text
      → EncryptedMessage
      → Result CryptoError SessionRecord
  unfolding bob_secrets bob_record
  bob_session ik_b spk one_time ik_a ek_a secret created_at updated_at sender message = do
    dhs ← bob_secrets spk.key_pair.secret_key ik_b.secret_key ik_a ek_a one_time
    ephemeral ← from_hex p message.ephemeral_public_key_hex
    initial_dh ← dh p spk.key_pair.secret_key ephemeral
    let step = kdf_root p (master_secret p dhs) initial_dh
    ok (
        bob_record (generate_curve25519_key_pair p secret) step created_at updated_at sender
          message)
