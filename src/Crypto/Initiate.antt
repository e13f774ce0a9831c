-- ===== src/Crypto/Initiate.antt =====
-- `initiateSession` and `initiateBobSession` of client/src/crypto/CryptoEngine.ts on a signal store.
use tor_e2ee_messenger.Common.{
  ℕ, Option, none, some, Text, Bytes, truthy, text_keys, if◌then◌else◌, not,
}
use tor_e2ee_messenger.Common.Result.{Result, ok, err, require}
use tor_e2ee_messenger.Common.Action.{Action, pure, lift, reads, writes, ◌>>=◌, ◌>>◌}
use tor_e2ee_messenger.Platform.{Platform}
use tor_e2ee_messenger.Identity.{verify_signature}
use tor_e2ee_messenger.Crypto.{
  OneTimePreKey, PreKeyBundle, EncryptedMessage, SessionRecord, CryptoError, bad_signed_pre_key,
  missing_x3dh_parameters, no_signed_pre_key,
}
use tor_e2ee_messenger.Crypto.Store.{SignalStore}
use tor_e2ee_messenger.Crypto.Secrets.{from_hex}
use tor_e2ee_messenger.Crypto.Handshake.{alice_session, bob_session}

module _ (p : Platform) {S : Type 0} (store : SignalStore S) where
  unfoldable pub initiate_session :
      Bytes → ℕ → ℕ → Text → PreKeyBundle → Action S CryptoError SessionRecord
  initiate_session secret created_at updated_at recipient bundle = do
    identity ← reads (λ s. ok (store.get_identity s))
    let spk = bundle.signed_pre_key
    if not (verify_signature p spk.public_key_hex spk.signature_hex bundle.signing_key_hex)
        then lift (err bad_signed_pre_key)
        else do
          session ←
              lift (alice_session p identity.encryption_key secret created_at updated_at bundle)
          writes (store.save_session recipient session)
          pure session

  -- The one-time pre-key that the message names, taken out of the store.
  unfoldable pub take_one_time_pre_key : Option ℕ → Action S CryptoError (Option OneTimePreKey)
  take_one_time_pre_key none = pure none
  take_one_time_pre_key (some key_id) = do
    found ← reads (λ s. store.get_one_time_pre_key s key_id)
    elim found [
      | none ↦ pure none
      | some k ↦ do writes (store.remove_one_time_pre_key key_id); pure (some k)
    ]

  -- `!message.initialEphemeralKeyHex || !message.initialIdentityKeyHex`
  unfoldable pub x3dh_parameters : EncryptedMessage → Result CryptoError (Text × Text)
  x3dh_parameters message = elim (truthy message.initial_ephemeral_key_hex) [
    | none ↦ err missing_x3dh_parameters
    | some ek_a ↦ elim (truthy message.initial_identity_key_hex) [
      | none ↦ err missing_x3dh_parameters
      | some ik_a ↦ ok (ik_a, ek_a)
    ]
  ]

  unfoldable pub initiate_bob_session :
      Bytes → ℕ → ℕ → Text → EncryptedMessage → Action S CryptoError SessionRecord
  unfolding x3dh_parameters take_one_time_pre_key
  initiate_bob_session secret created_at updated_at sender message = do
    keys ← lift (x3dh_parameters message)
    identity ← reads (λ s. ok (store.get_identity s))
    ik_a ← lift (from_hex p keys.0)
    ek_a ← lift (from_hex p keys.1)
    latest ← reads store.get_latest_signed_pre_key
    spk ← lift (require latest no_signed_pre_key)
    one_time ← take_one_time_pre_key message.one_time_pre_key_id
    session ← lift (
        bob_session p identity.encryption_key spk one_time ik_a ek_a secret created_at updated_at
          sender message)
    writes (store.save_session sender session)
    pure session
