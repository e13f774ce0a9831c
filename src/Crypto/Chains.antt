-- ===== src/Crypto/Chains.antt =====
-- `encrypt` and `decrypt` of client/src/crypto/CryptoEngine.ts.
use tor_e2ee_messenger.Common.{
  ℕ, ◌+◌, Option, none, some, Text, Bytes, nat_eq, truthy, to_lower, text_keys, text_eq, Bool, true,
  false, if◌then◌else◌,
}
use tor_e2ee_messenger.Common.Result.{Result, ok, err, require, ◌>>=◌}
use tor_e2ee_messenger.Platform.{Platform}
use tor_e2ee_messenger.Crypto.{
  EncryptedMessage, SessionRecord, CryptoError, no_remote_dh_key, no_receiving_chain, library_error,
}
use tor_e2ee_messenger.Crypto.Kdf.{kdf_root, kdf_chain}
use tor_e2ee_messenger.Crypto.Ratchet.{skip_message_keys, dh_ratchet_step}
use tor_e2ee_messenger.Crypto.Secrets.{dh, from_hex}

-- What a call of `decrypt` draws: the secret keys of the pairs that it may generate, and the clock.
pub record Draws : Type 0 where
  pub session_secret : Bytes
  pub ratchet_secret : Bytes
  pub created_at : ℕ
  pub started_at : ℕ
  pub now : ℕ

-- The one-time pre-key that the message names: the caller's, or the session's on its first message.
unfoldable pub key_id_to_send : Option ℕ → ℕ → SessionRecord → Option ℕ
key_id_to_send (some given) sequence session = some given
key_id_to_send none sequence session =
    if nat_eq sequence 0 then session.one_time_pre_key_id else none

-- The negation of the source's test: there is a remote key, and it is the message's.
unfoldable pub same_remote : Option Text → Text → Bool
same_remote remote ephemeral = elim (truthy remote) [
  | none ↦ false
  | some key ↦ text_eq (to_lower key) (to_lower ephemeral)
]

module _ (p : Platform) where
  -- The sending chain, started from the remote key where there is none yet: the session that has
  -- it, and its chain key.
  unfoldable pub sending_chain : SessionRecord → Result CryptoError (SessionRecord × Text)
  sending_chain session = elim (truthy session.send_chain_key_hex) [
    | some chain_hex ↦ ok (session, chain_hex)
    | none ↦ elim (truthy session.remote_dh_public_key_hex) [
      | none ↦ err no_remote_dh_key
      | some remote_hex ↦ do
        root_key ← from_hex p session.root_key_hex
        remote ← from_hex p remote_hex
        dh_send ← dh p session.local_dh_key_pair.secret_key remote
        let r = kdf_root p root_key dh_send
        let chain_hex = p.bytes_to_hex r.chain_key
        ok (
          record session {
            root_key_hex = p.bytes_to_hex r.next_root_key;
            send_chain_key_hex = some chain_hex;
          },
          chain_hex,
        )
    ]
  ]

  -- The session after one message, and the ciphertext.
  unfoldable pub seal :
      Bytes → ℕ → Text → SessionRecord → Result CryptoError (SessionRecord × Bytes)
  unfolding sending_chain
  seal nonce now plaintext session = do
    ready ← sending_chain session
    chain ← from_hex p ready.1
    let step = kdf_chain p chain
    let r = ready.0
    ciphertext ←
        require (p.secretbox (p.utf8_encode plaintext) nonce step.message_key) library_error
    ok (
      record r {
        send_chain_key_hex = some (p.bytes_to_hex step.next_chain_key);
        send_sequence_number = r.send_sequence_number + 1;
        updated_at = now;
      },
      ciphertext,
    )

  -- The ratchet part of `decrypt`: the keys that the message skips, and a step where it brings a
  -- new remote key.
  unfoldable pub catch_up :
      Bytes → SessionRecord → EncryptedMessage → Result CryptoError SessionRecord
  catch_up secret session message = do
    turned ← elim (same_remote session.remote_dh_public_key_hex message.ephemeral_public_key_hex) [
      | true ↦ ok session
      | false ↦ do
        skipped ← skip_message_keys p session message.previous_chain_length
        dh_ratchet_step p secret skipped message.ephemeral_public_key_hex
    ]
    skip_message_keys p turned message.sequence_number

  -- The chain part: the session that is saved, and the message key.
  unfoldable pub next_message_key :
      Bytes → ℕ → SessionRecord → EncryptedMessage → Result CryptoError (SessionRecord × Bytes)
  unfolding catch_up
  next_message_key secret now session message = do
    ready ← catch_up secret session message
    chain_hex ← require (truthy ready.receive_chain_key_hex) no_receiving_chain
    chain ← from_hex p chain_hex
    let step = kdf_chain p chain
    ok (
      record ready {
        receive_chain_key_hex = some (p.bytes_to_hex step.next_chain_key);
        receive_sequence_number = ready.receive_sequence_number + 1;
        updated_at = now;
      },
      step.message_key,
    )
