-- ===== src/Crypto/Skipping.antt =====
-- What `skipMessageKeys` of client/src/crypto/CryptoEngine.ts does to a session, on every branch.
use tor_e2ee_messenger.Common.{
  ℕ, ◌+◌, ◌-◌, ◌≤◌, ◌<◌, ◌≡◌, ◌≢◌, ◌↔◌, refl, ap, ◌∙◌, some, [], ◌∷◌, Text, Bytes, arith, lookup,
  text_keys, truthy, le→ltb, lt→ltb, max, length,
}
use native.Mathlib.Decide.{dec_lt}
use tor_e2ee_messenger.Common.Result.{ok, err}
use tor_e2ee_messenger.Platform.{Platform, IsPlatform, IsUint8Array}
use tor_e2ee_messenger.Crypto.{SessionRecord, too_many_skipped}
use tor_e2ee_messenger.Crypto.Kdf.{max_skip_messages}
use tor_e2ee_messenger.Crypto.Ratchet.{skipped_key_id, skip_loop, skip_from, skip_message_keys}
use tor_e2ee_messenger.Crypto.ChainKeys.{
  chain_at, message_key_at, skip_loop-chain, skip_loop-added, skip_loop-other,
}

pub truthy_of_nonempty : (t : Text) → 0 < length t → truthy (some t) ≡ some t
truthy_of_nonempty [] h = absurd (omega arith)
truthy_of_nonempty (c ∷ t) h = refl

module _ (p : Platform) (laws : IsPlatform p) where
  pub truthy-hex :
      (b : Bytes) → IsUint8Array 32 b → truthy (some (p.bytes_to_hex b)) ≡ some (p.bytes_to_hex b)
  truthy-hex b h = truthy_of_nonempty _ (omega (arith, laws.hex_length b, h.0))

  -- The session after the keys up to `until` are put aside.
  unfoldable pub skipped_session : SessionRecord → Bytes → Text → ℕ → SessionRecord
  skipped_session session chain r until =
      let rounds = until - session.receive_sequence_number in
      let walked =
        skip_loop p rounds r chain session.receive_sequence_number session.skipped_message_keys in
      record session {
        receive_chain_key_hex = some (p.bytes_to_hex walked.0);
        receive_sequence_number = session.receive_sequence_number + rounds;
        skipped_message_keys = walked.1;
      }

  module _ (session : SessionRecord) (chain : Bytes) (r : Text) (until : ℕ)
      (has_chain : session.receive_chain_key_hex ≡ some (p.bytes_to_hex chain))
      (chain_bytes : IsUint8Array 32 chain)
      (has_remote : truthy session.remote_dh_public_key_hex ≡ some r) where
    reads_chain : truthy session.receive_chain_key_hex ≡ some (p.bytes_to_hex chain)
    reads_chain = rw has_chain (truthy-hex chain chain_bytes)

    skip_message_keys-from :
        skip_message_keys p session until ≡ skip_from p session (p.bytes_to_hex chain) r until
    unfolding skip_message_keys
    skip_message_keys-from = rw (reads_chain, has_remote, skip_message_keys)

    pub skip_message_keys-eq :
        until ≤ session.receive_sequence_number + max_skip_messages
        → skip_message_keys p session until ≡ ok (skipped_session session chain r until)
    skip_message_keys-eq h =
        skip_message_keys-from
        ∙ unfold skip_from skipped_session in
          rw (
            le→ltb (session.receive_sequence_number + 2000) until h,
            laws.hex_round chain chain_bytes.1,
          )

    pub skip_message_keys-too_many :
        session.receive_sequence_number + max_skip_messages < until
        → skip_message_keys p session until ≡ err too_many_skipped
    skip_message_keys-too_many h =
        skip_message_keys-from
        ∙ unfold skip_from in rw (lt→ltb (session.receive_sequence_number + 2000) until h)

    -- In a session with a receiving chain and a remote key, a skip within the bound succeeds. It
    -- moves the chain and the number up to `until`, puts aside the key of each message in
    -- between, and leaves every other key as it was.
    pub skip_message_keys-skips :
        until ≤ session.receive_sequence_number + max_skip_messages
        → (after : SessionRecord) × (skip_message_keys p session until ≡ ok after)
          × (after.receive_chain_key_hex
              ≡ some (p.bytes_to_hex (chain_at p (until - session.receive_sequence_number) chain)))
          × (after.receive_sequence_number ≡ max session.receive_sequence_number until)
          × ((d : ℕ)
              → session.receive_sequence_number + d < until
              → lookup
                  (skipped_key_id r (session.receive_sequence_number + d))
                  after.skipped_message_keys
                ≡ some (p.bytes_to_hex (message_key_at p d chain)))
          × ((id : Text)
              → ((j : ℕ)
                  → session.receive_sequence_number ≤ j
                  → j < until
                  → skipped_key_id r j ≢ id)
              → lookup id after.skipped_message_keys ≡ lookup id session.skipped_message_keys)
    unfolding skipped_session
    skip_message_keys-skips h = (
      skipped_session session chain r until,
      skip_message_keys-eq h,
      ap (λ c. some (p.bytes_to_hex c)) (skip_loop-chain p _ r chain _ _),
      omega arith,
      (λ d lt. skip_loop-added p _ d r chain _ _ (omega arith)),
      (λ id other. skip_loop-other p _ r chain _ _ id (λ j a b. other j a (omega arith))),
    )

    -- In a session with a receiving chain and a remote key, the skip throws for too many messages
    -- exactly when the gap is larger than the bound.
    pub skip_message_keys-throws_iff :
        (skip_message_keys p session until ≡ err too_many_skipped)
        ↔ (session.receive_sequence_number + max_skip_messages < until)
    skip_message_keys-throws_iff = (
      λ e. elim (dec_lt (session.receive_sequence_number + max_skip_messages) until) [
        | yes h ↦ h
        | no h ↦ let within = skip_message_keys-eq (omega arith) in cc
      ],
      skip_message_keys-too_many,
    )
