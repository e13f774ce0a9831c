-- ===== src/Crypto/InSync.antt =====
-- Messages of one sending chain may arrive in any order: the receiving session keeps a key for each
-- message that it was overtaken by.
use tor_e2ee_messenger.Common.{
  ℕ, zero, suc, ◌+◌, ◌-◌, ◌≤◌, ◌<◌, ◌≡◌, ◌≢◌, refl, ap, ◌∙◌, none, some, Bool, true, false, Text,
  Bytes, arith, lookup, remove, text_keys, truthy, nat_eq, to_lower, text_eq_refl,
  lookup-remove_self, lookup-remove_other, inl, inr, ◌⊎◌, subst, if◌then◌else◌,
}
use native.Mathlib.Numerals.{add-one}
use native.Mathlib.Decide.{dec_lt, ℕ_discrete}
use tor_e2ee_messenger.Common.Result.{ok}
use tor_e2ee_messenger.Platform.{Platform, IsPlatform, IsUint8Array}
use tor_e2ee_messenger.Crypto.{SessionRecord, EncryptedMessage}
use tor_e2ee_messenger.Crypto.Kdf.{max_skip_messages, kdf_chain}
use tor_e2ee_messenger.Crypto.Store.{IsKeyPair}
use tor_e2ee_messenger.Crypto.Ratchet.{
  skipped_key_id, skip_loop, skip_message_keys, decrypt_with_key,
}
use tor_e2ee_messenger.Crypto.Chains.{same_remote, catch_up, next_message_key}
use tor_e2ee_messenger.Crypto.ChainKeys.{
  chain_at, message_key_at, chain_at-add, skip_loop-chain, skip_loop-added, skip_loop-other,
  kdf_chain-key, kdf_chain-next, skipped_key_id-number,
}
use tor_e2ee_messenger.Crypto.Skipping.{skipped_session, skip_message_keys-eq, truthy-hex}

-- The set `got` with one more number.
abbrev pub with_one : ℕ → (ℕ → Bool) → ℕ → Bool
with_one i got j = if nat_eq i j then true else got j

module _ (p : Platform) where
  -- A session that receives the chain that began with `first` from the ephemeral key `r`, and has
  -- received the messages of `got` so far.
  pub record InSync (first : Bytes) (r : Text) (got : ℕ → Bool) (session : SessionRecord)
      : Type 0 where
    pub chain :
        session.receive_chain_key_hex
        ≡ some (p.bytes_to_hex (chain_at p session.receive_sequence_number first))
    pub remote : truthy session.remote_dh_public_key_hex ≡ some r
    pub pair : IsKeyPair p session.local_dh_key_pair
    pub early : (j : ℕ) → got j ≡ true → j < session.receive_sequence_number
    pub kept :
        (j : ℕ)
        → j < session.receive_sequence_number
        → got j ≡ false
        → lookup (skipped_key_id r j) session.skipped_message_keys
          ≡ some (p.bytes_to_hex (message_key_at p j first))
    pub used :
        (j : ℕ) → got j ≡ true → lookup (skipped_key_id r j) session.skipped_message_keys ≡ none
    pub ahead :
        (j : ℕ)
        → session.receive_sequence_number ≤ j
        → lookup (skipped_key_id r j) session.skipped_message_keys ≡ none

  -- A message of that chain: it opens under the key of its number.
  pub record IsSealed (first : Bytes) (r : Text) (message : EncryptedMessage) (plaintext : Text)
      : Type 0 where
    pub ephemeral : to_lower message.ephemeral_public_key_hex ≡ to_lower r
    pub opens :
        decrypt_with_key p message (message_key_at p message.sequence_number first) ≡ ok plaintext

  pub decrypt_with_key-opens :
      (message : EncryptedMessage) (key nonce m : Bytes)
      → p.hex_to_bytes message.nonce ≡ some nonce
      → p.secretbox_open (p.from_base64 message.ciphertext) nonce key ≡ some (some m)
      → decrypt_with_key p message key ≡ ok (p.utf8_decode m)
  unfolding decrypt_with_key
  decrypt_with_key-opens message key nonce m h opened = rw h (rw opened refl)

module _ (p : Platform) (laws : IsPlatform p) (first : Bytes)
    (first_bytes : IsUint8Array 32 first) where
  pub chain_at-bytes : (n : ℕ) → IsUint8Array 32 (chain_at p n first)
  unfolding chain_at
  chain_at-bytes zero = first_bytes
  chain_at-bytes (suc n) = kdf_chain-next p laws _

  pub message_key_at-bytes : (n : ℕ) → IsUint8Array 32 (message_key_at p n first)
  unfolding message_key_at
  message_key_at-bytes n = kdf_chain-key p laws _

  pub chain_at-next :
      (n : ℕ) → chain_at p (n + 1) first ≡ (kdf_chain p (chain_at p n first)).next_chain_key
  unfolding chain_at
  chain_at-next n = rw add-one refl

  later_key : (n d : ℕ) → message_key_at p d (chain_at p n first) ≡ message_key_at p (d + n) first
  unfolding message_key_at
  later_key n d = ap (λ c. (kdf_chain p c).message_key) (chain_at-add p d n first)

  module _ (r : Text) (got : ℕ → Bool) (session : SessionRecord)
      (sync : InSync p first r got session) (message : EncryptedMessage) (plaintext : Text)
      (sealed : IsSealed p first r message plaintext) where
    same_remote-sync :
        same_remote session.remote_dh_public_key_hex message.ephemeral_public_key_hex ≡ true
    unfolding same_remote
    same_remote-sync =
        rw (sync.remote, same_remote) (rw sealed.ephemeral (text_eq_refl (to_lower r)))

    pub key_id-sync :
        skipped_key_id message.ephemeral_public_key_hex message.sequence_number
        ≡ skipped_key_id r message.sequence_number
    unfolding skipped_key_id
    key_id-sync = rw sealed.ephemeral refl

    catch_up-sync :
        (secret : Bytes)
        → catch_up p secret session message ≡ skip_message_keys p session message.sequence_number
    unfolding catch_up
    catch_up-sync secret = rw (same_remote-sync, catch_up) refl

    abbrev pub rounds : ℕ
    rounds = message.sequence_number - session.receive_sequence_number

    abbrev pub reached : ℕ
    reached = session.receive_sequence_number + rounds

    -- The session that is saved when the next key of the chain is taken.
    unfoldable pub advanced_session : ℕ → SessionRecord
    advanced_session now =
        let skipped =
          skipped_session p laws session (chain_at p session.receive_sequence_number first) r
            message.sequence_number in
        record skipped {
          receive_chain_key_hex = some (p.bytes_to_hex (chain_at p (reached + 1) first));
          receive_sequence_number = reached + 1;
          updated_at = now;
        }

    walked :
        (skip_loop p rounds r
          (chain_at p session.receive_sequence_number first)
          session.receive_sequence_number
          session.skipped_message_keys).0
        ≡ chain_at p reached first
    walked =
        skip_loop-chain p rounds r _ _ _
        ∙ chain_at-add p rounds session.receive_sequence_number first
        ∙ ap (λ k. chain_at p k first) (omega arith)

    -- Whether the message is ahead of the chain or behind it, the next key is taken.
    pub next_message_key-sync :
        (secret : Bytes) (now : ℕ)
        → message.sequence_number ≤ session.receive_sequence_number + max_skip_messages
        → next_message_key p secret now session message
          ≡ ok (advanced_session now, message_key_at p reached first)
    unfolding next_message_key advanced_session skipped_session message_key_at
    next_message_key-sync secret now h =
        let e =
          skip_message_keys-eq p laws session _ r message.sequence_number sync.chain
            (chain_at-bytes session.receive_sequence_number) sync.remote h in
        rw (catch_up-sync secret, e, next_message_key)
          (rw walked (
            rw (truthy-hex p laws (chain_at p reached first) (chain_at-bytes reached)) (
              rw (laws.hex_round (chain_at p reached first) (chain_at-bytes reached).1)
                (rw (chain_at-next reached) refl))))

    pub next_message_key-ahead :
        (secret : Bytes) (now : ℕ)
        → session.receive_sequence_number ≤ message.sequence_number
        → message.sequence_number ≤ session.receive_sequence_number + max_skip_messages
        → next_message_key p secret now session message
          ≡ ok (advanced_session now, message_key_at p message.sequence_number first)
    next_message_key-ahead secret now ahead near =
        next_message_key-sync secret now near
        ∙ ap (λ k. ok (advanced_session now, message_key_at p k first)) (omega arith)

    pub untouched :
        (j now : ℕ)
        → (j < session.receive_sequence_number) ⊎ (reached ≤ j)
        → lookup (skipped_key_id r j) (advanced_session now).skipped_message_keys
          ≡ lookup (skipped_key_id r j) session.skipped_message_keys
    unfolding advanced_session skipped_session
    untouched j now h =
        skip_loop-other p rounds r _ _ _ (skipped_key_id r j)
          (λ k a b same. absurd (omega (arith, skipped_key_id-number r k j same)))

    stored :
        (j now : ℕ)
        → session.receive_sequence_number ≤ j
        → j < reached
        → lookup (skipped_key_id r j) (advanced_session now).skipped_message_keys
          ≡ some (p.bytes_to_hex (message_key_at p j first))
    unfolding advanced_session skipped_session
    stored j now a b =
        let d : ℕ = j - session.receive_sequence_number in
        let e : session.receive_sequence_number + d ≡ j = omega arith in
        subst
          (λ k.
            lookup (skipped_key_id r k) (advanced_session now).skipped_message_keys
            ≡ some (p.bytes_to_hex (message_key_at p j first)))
          e
          (skip_loop-added p rounds d r _ _ _ (omega arith)
            ∙ ap (λ k. some (p.bytes_to_hex k))
                (later_key session.receive_sequence_number d
                  ∙ ap (λ k. message_key_at p k first) (omega arith)))

    -- A message that is ahead leaves the session in step, with one more number received.
    pub advanced_session-InSync :
        (now : ℕ)
        → session.receive_sequence_number ≤ message.sequence_number
        → InSync p first r (with_one message.sequence_number got) (advanced_session now)
    advanced_session-InSync now ahead = record {
      chain = unfold advanced_session in refl;
      remote = unfold advanced_session skipped_session in sync.remote;
      pair = unfold advanced_session skipped_session in sync.pair;
      early = λ j h. unfold advanced_session in ground (arith, sync.early j);
      kept = λ j lt h. elim (dec_lt j session.receive_sequence_number) [
        | yes old ↦ untouched j now (inl old) ∙ sync.kept j old (ground arith)
        | no new ↦ stored j now (omega arith) (unfold advanced_session in ground arith)
      ];
      used = λ j h. elim (dec_lt j session.receive_sequence_number) [
        | yes old ↦ untouched j now (inl old) ∙ sync.used j (ground arith)
        | no new ↦ untouched j now (inr (ground (arith, sync.early j))) ∙ sync.ahead j (omega arith)
      ];
      ahead = λ j h.
          let far : reached ≤ j = unfold advanced_session in omega arith in
          untouched j now (inr far) ∙ sync.ahead j (omega arith);
    }

    -- The session that is saved when a key that was put aside is used.
    unfoldable pub used_session : SessionRecord
    used_session = record session {
      skipped_message_keys =
          remove (skipped_key_id message.ephemeral_public_key_hex message.sequence_number)
            session.skipped_message_keys;
    }

    after_use :
        (j : ℕ)
        → message.sequence_number ≢ j
        → lookup (skipped_key_id r j) used_session.skipped_message_keys
          ≡ lookup (skipped_key_id r j) session.skipped_message_keys
    unfolding used_session
    after_use j other = rw key_id-sync (
        lookup-remove_other (skipped_key_id r j) (skipped_key_id r message.sequence_number) _
          (λ same. other (skipped_key_id-number r message.sequence_number j same)))

    after_use_self :
        lookup (skipped_key_id r message.sequence_number) used_session.skipped_message_keys ≡ none
    unfolding used_session
    after_use_self =
        rw key_id-sync (lookup-remove_self (skipped_key_id r message.sequence_number) _)

    pub used_session-InSync :
        message.sequence_number < session.receive_sequence_number
        → InSync p first r (with_one message.sequence_number got) used_session
    used_session-InSync behind = record {
      chain = unfold used_session in sync.chain;
      remote = unfold used_session in sync.remote;
      pair = unfold used_session in sync.pair;
      early = λ j h. unfold used_session in ground (arith, sync.early j);
      kept = λ j lt h.
          after_use j (ground arith) ∙ sync.kept j (unfold used_session in lt) (ground arith);
      used = λ j h. elim (ℕ_discrete message.sequence_number j) [
        | yes same ↦
            subst (λ k. lookup (skipped_key_id r k) used_session.skipped_message_keys ≡ none) same
              after_use_self
        | no other ↦ after_use j other ∙ sync.used j (ground arith)
      ];
      ahead = λ j h.
          let far : session.receive_sequence_number ≤ j = unfold used_session in h in
          after_use j (omega arith) ∙ sync.ahead j far;
    }
