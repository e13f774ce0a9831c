-- ===== src/Crypto/Sealing.antt =====
-- `encrypt` of client/src/crypto/CryptoEngine.ts: each message is sealed under the next key of the
-- sending chain.
use tor_e2ee_messenger.Common.{
  ℕ, ◌+◌, ◌≡◌, refl, sym, ap, ◌∙◌, none, some, Option, Text, Bytes, to_lower, text_eq_refl, truthy,
}
use tor_e2ee_messenger.Common.Result.{Result, ok}
use tor_e2ee_messenger.Platform.{Platform, IsPlatform, IsUint8Array}
use tor_e2ee_messenger.Crypto.{CryptoError, SessionRecord, EncryptedMessage}
use tor_e2ee_messenger.Crypto.Store.{SignalStore, IsSignalStore, IsKeyPair}
use tor_e2ee_messenger.Crypto.Chains.{key_id_to_send, seal, sending_chain}
use tor_e2ee_messenger.Crypto.Cipher.{encrypt}
use tor_e2ee_messenger.Crypto.ChainKeys.{chain_at, message_key_at}
use tor_e2ee_messenger.Crypto.Skipping.{truthy-hex}
use tor_e2ee_messenger.Crypto.InSync.{
  IsSealed, decrypt_with_key-opens, chain_at-bytes, message_key_at-bytes, chain_at-next,
}

module _ (p : Platform) where
  -- A session that sends on the chain that began with `first`, under its ephemeral key `r`.
  pub record Sends (first : Bytes) (r : Text) (session : SessionRecord) : Type 0 where
    pub chain :
        session.send_chain_key_hex
        ≡ some (p.bytes_to_hex (chain_at p session.send_sequence_number first))
    pub local : session.local_dh_key_pair.public_key_hex ≡ r
    pub pair : IsKeyPair p session.local_dh_key_pair

module _ (p : Platform) (laws : IsPlatform p) (first : Bytes) (first_bytes : IsUint8Array 32 first)
    (r : Text) (session : SessionRecord) (sends : Sends p first r session) (nonce : Bytes)
    (nonce_bytes : IsUint8Array 24 nonce) (plaintext : Text)
    (well_formed : p.utf8_decode (p.utf8_encode plaintext) ≡ plaintext) where
  abbrev key : Bytes
  key = message_key_at p session.send_sequence_number first

  -- The session after the message.
  pub sent_session : ℕ → SessionRecord
  sent_session now = record session {
    send_chain_key_hex =
        some (p.bytes_to_hex (chain_at p (session.send_sequence_number + 1) first));
    send_sequence_number = session.send_sequence_number + 1;
    updated_at = now;
  }

  pub sent_session-Sends : (now : ℕ) → Sends p first r (sent_session now)
  unfolding sent_session
  sent_session-Sends now = record { chain = refl; local = sends.local; pair = sends.pair }

  sending_chain-ready :
      sending_chain p session
      ≡ ok (session, p.bytes_to_hex (chain_at p session.send_sequence_number first))
  unfolding sending_chain
  sending_chain-ready = rw (reads_chain, sending_chain) refl
    where
      reads_chain :
          truthy session.send_chain_key_hex
          ≡ some (p.bytes_to_hex (chain_at p session.send_sequence_number first))
      reads_chain = rw sends.chain (truthy-hex p laws _ (chain_at-bytes p laws first first_bytes _))

  seal-ready :
      (now : ℕ)
      → (c : Bytes) × (seal p nonce now plaintext session ≡ ok (sent_session now, c))
        × (p.secretbox_open c nonce key ≡ some (some (p.utf8_encode plaintext)))
  unfolding seal sent_session message_key_at
  seal-ready now =
      let (c, made, opened) =
        laws.sealed (p.utf8_encode plaintext) nonce key nonce_bytes
          (message_key_at-bytes p laws first first_bytes session.send_sequence_number) in
      (
        c,
        rw (sending_chain-ready, seal)
            (rw
              (laws.hex_round _
                (chain_at-bytes p laws first first_bytes session.send_sequence_number).1)
              (rw made
                (rw (chain_at-next p laws first first_bytes session.send_sequence_number) refl))),
        opened,
      )

  -- The message that `encrypt` returns.
  pub sealed_message : Text → Option ℕ → Bytes → ℕ → EncryptedMessage
  sealed_message identity_hex context c now = record {
    ephemeral_public_key_hex = session.local_dh_key_pair.public_key_hex;
    sequence_number = session.send_sequence_number;
    previous_chain_length = session.previous_chain_length;
    ciphertext = p.to_base64 c;
    nonce = p.bytes_to_hex nonce;
    one_time_pre_key_id = key_id_to_send context session.send_sequence_number session;
    initial_identity_key_hex = some identity_hex;
    initial_ephemeral_key_hex = some session.local_dh_key_pair.public_key_hex;
  }

  same_key_id :
      (context : Option ℕ) (now : ℕ)
      → key_id_to_send context session.send_sequence_number (sent_session now)
        ≡ key_id_to_send context session.send_sequence_number session
  unfolding key_id_to_send sent_session
  same_key_id none now = refl
  same_key_id (some k) now = refl

  sealed_message-IsSealed :
      (identity_hex : Text) (context : Option ℕ) (c : Bytes) (now : ℕ)
      → p.secretbox_open c nonce key ≡ some (some (p.utf8_encode plaintext))
      → IsSealed p first r (sealed_message identity_hex context c now) plaintext
  unfolding sealed_message
  sealed_message-IsSealed identity_hex context c now opened = record {
    ephemeral = ap to_lower sends.local;
    opens =
        decrypt_with_key-opens p _ key nonce (p.utf8_encode plaintext)
          (laws.hex_round nonce nonce_bytes.1) (rw (laws.base64_round c) opened)
        ∙ ap ok well_formed;
  }

  module _ {S : Type 0} (store : SignalStore S) (stores : IsSignalStore p store) (recipient : Text)
      (s : S) (found : store.get_session s recipient ≡ ok (some session)) where
    encrypt-eq :
        (now : ℕ) (context : Option ℕ)
        → (c : Bytes) × (encrypt p store nonce now recipient plaintext context s ≡ (
          ok (sealed_message (store.get_identity s).encryption_key.public_key_hex context c now),
          store.save_session recipient (sent_session now) s,
        ))
          × (p.secretbox_open c nonce key ≡ some (some (p.utf8_encode plaintext)))
    unfolding encrypt sealed_message
    encrypt-eq now context =
        let (c, made, opened) = seal-ready now in
        (
          c,
          rw (found, encrypt)
              (rw made (
                rw (stores.get_identity-save_session recipient (sent_session now) s)
                  (rw (same_key_id context now) (unfold sent_session in refl)))),
          opened,
        )

    -- Encryption succeeds in a stored session that has a sending chain, with a nonce of 24 bytes.
    -- The message has the session's number and opens, under the key of that number, to the
    -- plaintext; the session that is saved sends on the same chain, one number further.
    pub encrypt-seals :
        (now : ℕ) (context : Option ℕ)
        → (message : EncryptedMessage) × ((encrypt p store nonce now recipient plaintext context
              s).0
            ≡ ok message)
          × (message.sequence_number ≡ session.send_sequence_number)
          × IsSealed p first r message plaintext
          × (store.get_session (encrypt p store nonce now recipient plaintext context s).1 recipient
              ≡ ok (some (sent_session now)))
          × Sends p first r (sent_session now)
    encrypt-seals now context =
        let (c, e, opened) = encrypt-eq now context in
        (
          sealed_message (store.get_identity s).encryption_key.public_key_hex context c now,
          ap (λ x. x.0) e,
          unfold sealed_message in refl,
          sealed_message-IsSealed _ context c now opened,
          ap (λ x. store.get_session x.1 recipient) e
              ∙ stores.get_session-save_session recipient recipient (sent_session now) s
                  (unfold sent_session in sends.pair)
              ∙ rw (text_eq_refl (to_lower recipient)) refl,
          sent_session-Sends now,
        )

    -- A message that `encrypt` returns names the identity key of its sender.
    pub encrypt-names :
        (now : ℕ) (context : Option ℕ) (message : EncryptedMessage)
        → (encrypt p store nonce now recipient plaintext context s).0 ≡ ok message
        → message.initial_identity_key_hex
          ≡ some (store.get_identity s).encryption_key.public_key_hex
    unfolding sealed_message
    encrypt-names now context message h =
        let (c, e, opened) = encrypt-eq now context in
        let made : EncryptedMessage =
          sealed_message (store.get_identity s).encryption_key.public_key_hex context c now in
        let both : ◌≡◌ {A = Result CryptoError EncryptedMessage} (ok made) (ok message) =
          sym (ap (λ x. x.0) e) ∙ h in
        let same : made ≡ message = cc in ap (λ m. m.initial_identity_key_hex) (sym same)
