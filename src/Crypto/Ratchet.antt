-- ===== src/Crypto/Ratchet.antt =====
-- The session steps of client/src/crypto/CryptoEngine.ts: `skipMessageKeys`, `dhRatchetStep` and
-- `decryptWithKey`. A method that mutates the session returns the new one; when it throws, the
-- session that the store holds is the old one.
use tor_e2ee_messenger.Common.{
  ℕ, zero, suc, ◌+◌, ◌-◌, none, some, List, Text, Bytes, ltb, truthy, to_lower, put, text_keys,
  with_number, if◌then◌else◌,
}
use tor_e2ee_messenger.Common.Result.{Result, ok, err, require, ◌>>=◌}
use tor_e2ee_messenger.Platform.{Platform}
use tor_e2ee_messenger.Crypto.{
  SessionRecord, EncryptedMessage, CryptoError, too_many_skipped, decryption_failed, library_error,
}
use tor_e2ee_messenger.Crypto.Kdf.{
  max_skip_messages, kdf_root, kdf_chain, generate_curve25519_key_pair,
}

-- `${ephemeral.toLowerCase()}:${sequence}`
unfoldable pub skipped_key_id : Text → ℕ → Text
skipped_key_id ephemeral sequence = with_number (to_lower ephemeral) sequence

module _ (p : Platform) where
  -- The `while` loop of `skipMessageKeys`, over the rounds that are left.
  unfoldable pub skip_loop : ℕ → Text → Bytes → ℕ → List (Text × Text) → Bytes × List (Text × Text)
  skip_loop zero remote chain sequence skipped = (chain, skipped)
  skip_loop (suc rounds) remote chain sequence skipped =
      let step = kdf_chain p chain in
      skip_loop rounds remote step.next_chain_key (sequence + 1)
        (put (skipped_key_id remote sequence) (p.bytes_to_hex step.message_key) skipped)

  unfoldable pub skip_from : SessionRecord → Text → Text → ℕ → Result CryptoError SessionRecord
  skip_from session chain_hex remote until =
      if ltb (session.receive_sequence_number + max_skip_messages) until
      then err too_many_skipped
      else do
        chain ← require (p.hex_to_bytes chain_hex) library_error
        let rounds = until - session.receive_sequence_number
        let walked =
            skip_loop rounds remote chain session.receive_sequence_number
              session.skipped_message_keys
        ok (record session {
          receive_chain_key_hex = some (p.bytes_to_hex walked.0);
          receive_sequence_number = session.receive_sequence_number + rounds;
          skipped_message_keys = walked.1;
        })

  unfoldable pub skip_message_keys : SessionRecord → ℕ → Result CryptoError SessionRecord
  unfolding skip_from
  skip_message_keys session until = elim (truthy session.receive_chain_key_hex) [
    | none ↦ ok session
    | some chain_hex ↦ elim (truthy session.remote_dh_public_key_hex) [
      | none ↦ ok session
      | some remote ↦ skip_from session chain_hex remote until
    ]
  ]

  -- `secret` is the random secret key of the new local key pair.
  unfoldable pub dh_ratchet_step : Bytes → SessionRecord → Text → Result CryptoError SessionRecord
  dh_ratchet_step secret session new_remote = do
    root_key ← require (p.hex_to_bytes session.root_key_hex) library_error
    remote ← require (p.hex_to_bytes new_remote) library_error
    dh_receive ← require (p.scalar_mult session.local_dh_key_pair.secret_key remote) library_error
    let r1 = kdf_root p root_key dh_receive
    let local_pair = generate_curve25519_key_pair p secret
    dh_send ← require (p.scalar_mult local_pair.secret_key remote) library_error
    let r2 = kdf_root p r1.next_root_key dh_send
    ok (record session {
      previous_chain_length = session.send_sequence_number;
      send_sequence_number = 0;
      receive_sequence_number = 0;
      remote_dh_public_key_hex = some (to_lower new_remote);
      receive_chain_key_hex = some (p.bytes_to_hex r1.chain_key);
      local_dh_key_pair = local_pair;
      root_key_hex = p.bytes_to_hex r2.next_root_key;
      send_chain_key_hex = some (p.bytes_to_hex r2.chain_key);
    })

  unfoldable pub decrypt_with_key : EncryptedMessage → Bytes → Result CryptoError Text
  decrypt_with_key message message_key = do
    nonce ← require (p.hex_to_bytes message.nonce) library_error
    opened ←
        require (p.secretbox_open (p.from_base64 message.ciphertext) nonce message_key)
          library_error
    decrypted ← require opened decryption_failed
    ok (p.utf8_decode decrypted)
