-- ===== src/Crypto/Cipher.antt =====
-- `encrypt` and `decrypt` of client/src/crypto/CryptoEngine.ts on a signal store.
use tor_e2ee_messenger.Common.{
  ℕ, Option, none, some, Text, Bytes, truthy, lookup, remove, text_keys,
}
use tor_e2ee_messenger.Common.Result.{ok, require}
use tor_e2ee_messenger.Common.Action.{Action, pure, lift, reads, writes, ◌>>=◌, ◌>>◌}
use tor_e2ee_messenger.Platform.{Platform}
use tor_e2ee_messenger.Crypto.{EncryptedMessage, SessionRecord, CryptoError, no_session}
use tor_e2ee_messenger.Crypto.Store.{SignalStore}
use tor_e2ee_messenger.Crypto.Ratchet.{skipped_key_id, decrypt_with_key}
use tor_e2ee_messenger.Crypto.Secrets.{from_hex}
use tor_e2ee_messenger.Crypto.Initiate.{initiate_bob_session}
use tor_e2ee_messenger.Crypto.Chains.{Draws, key_id_to_send, seal, next_message_key}

module _ (p : Platform) {S : Type 0} (store : SignalStore S) where
  -- `context` is `initialBundleContext?.oneTimePreKeyId`.
  unfoldable pub encrypt :
      Bytes → ℕ → Text → Text → Option ℕ → Action S CryptoError EncryptedMessage
  encrypt nonce now recipient plaintext context = do
    found ← reads (λ s. store.get_session s recipient)
    session ← lift (require found no_session)
    sealed ← lift (seal p nonce now plaintext session)
    let after = sealed.0
    writes (store.save_session recipient after)
    identity ← reads (λ s. ok (store.get_identity s))
    pure (record {
      ephemeral_public_key_hex = after.local_dh_key_pair.public_key_hex;
      sequence_number = session.send_sequence_number;
      previous_chain_length = after.previous_chain_length;
      ciphertext = p.to_base64 sealed.1;
      nonce = p.bytes_to_hex nonce;
      one_time_pre_key_id = key_id_to_send context session.send_sequence_number after;
      initial_identity_key_hex = some identity.encryption_key.public_key_hex;
      initial_ephemeral_key_hex = some after.local_dh_key_pair.public_key_hex;
    })

  -- The session of the sender; where there is none, the one that its first message starts.
  unfoldable pub session_for : Draws → Text → EncryptedMessage → Action S CryptoError SessionRecord
  session_for draws sender message = do
    found ← reads (λ s. store.get_session s sender)
    elim found [
      | some session ↦ pure session
      | none ↦
          initiate_bob_session p store draws.session_secret draws.created_at draws.started_at sender
            message
    ]

  -- The branch of a message whose key was put aside.
  unfoldable pub decrypt_skipped :
      Text → Text → SessionRecord → Text → EncryptedMessage → Action S CryptoError Text
  decrypt_skipped key_id key_hex session sender message = do
    message_key ← lift (from_hex p key_hex)
    writes (
        store.save_session sender
          (record session { skipped_message_keys = remove key_id session.skipped_message_keys }))
    lift (decrypt_with_key p message message_key)

  -- The branch of a message of the chain; the session is saved before the message is opened.
  unfoldable pub decrypt_chain :
      Draws → SessionRecord → Text → EncryptedMessage → Action S CryptoError Text
  decrypt_chain draws session sender message = do
    keyed ← lift (next_message_key p draws.ratchet_secret draws.now session message)
    writes (store.save_session sender keyed.0)
    lift (decrypt_with_key p message keyed.1)

  unfoldable pub decrypt_in :
      Draws → SessionRecord → Text → EncryptedMessage → Action S CryptoError Text
  unfolding decrypt_skipped decrypt_chain
  decrypt_in draws session sender message =
      let key_id = skipped_key_id message.ephemeral_public_key_hex message.sequence_number in
      elim (truthy (lookup key_id session.skipped_message_keys)) [
        | some key_hex ↦ decrypt_skipped key_id key_hex session sender message
        | none ↦ decrypt_chain draws session sender message
      ]

  unfoldable pub decrypt : Draws → Text → EncryptedMessage → Action S CryptoError Text
  unfolding session_for decrypt_in
  decrypt draws sender message = do
    session ← session_for draws sender message
    decrypt_in draws session sender message
