-- ===== src/Crypto/Replay.antt =====
-- A message that comes a second time: `decrypt` of client/src/crypto/CryptoEngine.ts does not see
-- that its number is behind the chain, takes the next key of the chain for it, and saves that.
use tor_e2ee_messenger.Common.{
  ℕ, ◌+◌, ◌-◌, ◌≡◌, refl, ap, ◌∙◌, none, some, Bool, true, Text, Bytes, to_lower, text_eq_refl,
  truthy, lookup, text_keys, arith, inr,
}
use tor_e2ee_messenger.Common.Result.{ok}
use tor_e2ee_messenger.Platform.{Platform, IsPlatform, IsUint8Array}
use tor_e2ee_messenger.Crypto.{SessionRecord, EncryptedMessage}
use tor_e2ee_messenger.Crypto.Store.{SignalStore, IsSignalStore}
use tor_e2ee_messenger.Crypto.Ratchet.{skipped_key_id, decrypt_with_key}
use tor_e2ee_messenger.Crypto.Chains.{Draws}
use tor_e2ee_messenger.Crypto.Cipher.{decrypt_in, decrypt}
use tor_e2ee_messenger.Crypto.ChainKeys.{message_key_at, chain_at}
use tor_e2ee_messenger.Crypto.Skipping.{skipped_session}
use tor_e2ee_messenger.Crypto.InSync.{
  InSync, IsSealed, key_id-sync, advanced_session, next_message_key-sync, untouched,
}

module _ (p : Platform) (laws : IsPlatform p) {S : Type 0} (store : SignalStore S)
    (stores : IsSignalStore p store) (first : Bytes) (first_bytes : IsUint8Array 32 first)
    (r : Text) (got : ℕ → Bool) (session : SessionRecord) (sync : InSync p first r got session)
    (message : EncryptedMessage) (plaintext : Text) (sealed : IsSealed p first r message plaintext)
    (old : got message.sequence_number ≡ true) (draws : Draws) (sender : Text) (s : S)
    (found : store.get_session s sender ≡ ok (some session)) where
  abbrev advanced : SessionRecord
  advanced =
      advanced_session p laws first first_bytes r got session sync message plaintext sealed
        draws.now

  number-eq :
      session.receive_sequence_number + (message.sequence_number - session.receive_sequence_number)
      ≡ session.receive_sequence_number
  number-eq = omega (arith, sync.early message.sequence_number old)

  no_key :
      truthy (
        lookup
          (skipped_key_id message.ephemeral_public_key_hex message.sequence_number)
          session.skipped_message_keys)
      ≡ none
  no_key =
      rw (key_id-sync p laws first first_bytes r got session sync message plaintext sealed)
        (rw (sync.used message.sequence_number old) refl)

  decrypt-replayed : decrypt p store draws sender message s ≡ (
    decrypt_with_key p message (message_key_at p session.receive_sequence_number first),
    store.save_session sender advanced s,
  )
  unfolding decrypt decrypt_in
  decrypt-replayed =
      rw (found, decrypt)
        (rw (no_key, decrypt_in)
          (rw
            (next_message_key-sync p laws first first_bytes r got session sync message plaintext
              sealed draws.ratchet_secret draws.now
              (omega (arith, sync.early message.sequence_number old)))
            (ap
              (λ k. (
                decrypt_with_key p message (message_key_at p k first),
                store.save_session sender advanced s,
              ))
              number-eq)))

  -- The stored session is in step with one sending chain. A message of that chain that was
  -- received before is opened under the key of the next message, and whatever comes of that, the
  -- session that is saved has passed over the next message: its number is one further and its
  -- chain one step, and the key of the number that it passed is not put aside.
  pub decrypt-replay_advances :
      (after : SessionRecord) × (decrypt p store draws sender message s ≡ (
        decrypt_with_key p message (message_key_at p session.receive_sequence_number first),
        store.save_session sender after s,
      ))
      × (store.get_session (decrypt p store draws sender message s).1 sender ≡ ok (some after))
      × (after.receive_sequence_number ≡ session.receive_sequence_number + 1)
      × (after.receive_chain_key_hex
          ≡ some (p.bytes_to_hex (chain_at p (session.receive_sequence_number + 1) first)))
      × (lookup (skipped_key_id r session.receive_sequence_number) after.skipped_message_keys
          ≡ none)
  decrypt-replay_advances = (
    advanced,
    decrypt-replayed,
    ap (λ x. store.get_session x.1 sender) decrypt-replayed
        ∙ stores.get_session-save_session sender sender advanced s
            (unfold advanced_session skipped_session in sync.pair)
        ∙ rw (text_eq_refl (to_lower sender)) refl,
    unfold advanced_session in ap (λ k. k + 1) number-eq,
    unfold advanced_session in ap (λ k. some (p.bytes_to_hex (chain_at p (k + 1) first))) number-eq,
    untouched p laws first first_bytes r got session sync message plaintext sealed
          session.receive_sequence_number draws.now
          (inr (omega (arith, sync.early message.sequence_number old)))
        ∙ sync.ahead session.receive_sequence_number (omega arith),
  )
