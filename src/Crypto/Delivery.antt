-- ===== src/Crypto/Delivery.antt =====
-- `decrypt` of client/src/crypto/CryptoEngine.ts on the messages of one sending chain, in any order.
use tor_e2ee_messenger.Common.{
  ℕ, ◌+◌, ◌≤◌, ◌<◌, ◌≡◌, refl, ap, ◌∙◌, none, some, Bool, false, List, [], ◌∷◌, Text, Bytes, arith,
  lookup, text_keys, truthy, to_lower, text_eq_refl, map, ap₂,
}
use native.Mathlib.Decide.{dec_lt}
use tor_e2ee_messenger.Common.Result.{Result, ok}
use tor_e2ee_messenger.Platform.{Platform, IsPlatform, IsUint8Array}
use tor_e2ee_messenger.Crypto.{SessionRecord, EncryptedMessage, CryptoError}
use tor_e2ee_messenger.Crypto.Kdf.{max_skip_messages}
use tor_e2ee_messenger.Crypto.Store.{SignalStore, IsSignalStore, IsKeyPair}
use tor_e2ee_messenger.Crypto.Ratchet.{skipped_key_id}
use tor_e2ee_messenger.Crypto.Chains.{Draws}
use tor_e2ee_messenger.Crypto.Cipher.{decrypt_in, decrypt}
use tor_e2ee_messenger.Crypto.ChainKeys.{message_key_at}
use tor_e2ee_messenger.Crypto.Skipping.{truthy-hex}
use tor_e2ee_messenger.Crypto.InSync.{
  InSync, IsSealed, with_one, message_key_at-bytes, key_id-sync, advanced_session, used_session,
  next_message_key-ahead, advanced_session-InSync, used_session-InSync,
}

-- What arrives: the message, what the call draws, and the text that the sender sealed.
pub record Arrival : Type 0 where
  pub draws : Draws
  pub message : EncryptedMessage
  pub plaintext : Text

module _ (p : Platform) {S : Type 0} (store : SignalStore S) where
  -- The calls of `decrypt`, one after the other.
  unfoldable pub decrypt_all : Text → List Arrival → S → List (Result CryptoError Text)
  decrypt_all sender [] s = []
  decrypt_all sender (a ∷ rest) s =
      let r = decrypt p store a.draws sender a.message s in r.0 ∷ decrypt_all sender rest r.1

module _ (p : Platform) (first : Bytes) (r : Text) where
  -- Sealed messages of the chain, none of them received before or twice, none further than the
  -- bound from the start of the chain.
  abbrev pub Deliverable : (ℕ → Bool) → List Arrival → Type 0
  Deliverable got [] = Unit
  Deliverable got (a ∷ rest) =
      (got a.message.sequence_number ≡ false)
      × (a.message.sequence_number ≤ max_skip_messages)
      × IsSealed p first r a.message a.plaintext
      × Deliverable (with_one a.message.sequence_number got) rest

module _ (p : Platform) (laws : IsPlatform p) {S : Type 0} (store : SignalStore S)
    (stores : IsSignalStore p store) (first : Bytes) (first_bytes : IsUint8Array 32 first)
    (r : Text) where
  module _ (got : ℕ → Bool) (session : SessionRecord) (sync : InSync p first r got session)
      (message : EncryptedMessage) (plaintext : Text)
      (sealed : IsSealed p first r message plaintext) (new : got message.sequence_number ≡ false)
      (draws : Draws) (sender : Text) (s : S) where
    abbrev key_id : Text
    key_id = skipped_key_id message.ephemeral_public_key_hex message.sequence_number

    abbrev used : SessionRecord
    used = used_session p laws first first_bytes r got session sync message plaintext sealed

    abbrev advanced : SessionRecord
    advanced =
        advanced_session p laws first first_bytes r got session sync message plaintext sealed
          draws.now

    key_id-eq : key_id ≡ skipped_key_id r message.sequence_number
    key_id-eq = key_id-sync p laws first first_bytes r got session sync message plaintext sealed

    kept_key :
        message.sequence_number < session.receive_sequence_number
        → truthy (lookup key_id session.skipped_message_keys)
          ≡ some (p.bytes_to_hex (message_key_at p message.sequence_number first))
    kept_key behind = rw (key_id-eq) (
        rw (sync.kept message.sequence_number behind new) (
          truthy-hex p laws _
            (message_key_at-bytes p laws first first_bytes message.sequence_number)))

    decrypt_in-behind :
        message.sequence_number < session.receive_sequence_number
        → decrypt_in p store draws session sender message s
          ≡ (ok plaintext, store.save_session sender used s)
    unfolding decrypt_in used_session
    decrypt_in-behind behind =
        rw (kept_key behind, decrypt_in)
          (rw
            (laws.hex_round _
              (message_key_at-bytes p laws first first_bytes message.sequence_number).1)
            (rw sealed.opens refl))

    no_key :
        session.receive_sequence_number ≤ message.sequence_number
        → truthy (lookup key_id session.skipped_message_keys) ≡ none
    no_key ahead = rw key_id-eq (rw (sync.ahead message.sequence_number ahead) refl)

    decrypt_in-ahead :
        session.receive_sequence_number ≤ message.sequence_number
        → message.sequence_number ≤ session.receive_sequence_number + max_skip_messages
        → decrypt_in p store draws session sender message s
          ≡ (ok plaintext, store.save_session sender advanced s)
    unfolding decrypt_in
    decrypt_in-ahead ahead near =
        rw (no_key ahead, decrypt_in)
          (rw
            (next_message_key-ahead p laws first first_bytes r got session sync message plaintext
              sealed draws.ratchet_secret draws.now ahead near)
            (rw sealed.opens refl))

    decrypt-found :
        store.get_session s sender ≡ ok (some session)
        → decrypt p store draws sender message s ≡ decrypt_in p store draws session sender message s
    unfolding decrypt
    decrypt-found found = rw (found, decrypt) refl

    saved :
        (after : SessionRecord)
        → IsKeyPair p after.local_dh_key_pair
        → store.get_session (store.save_session sender after s) sender ≡ ok (some after)
    saved after pair =
        stores.get_session-save_session sender sender after s pair
        ∙ rw (text_eq_refl (to_lower sender)) refl

    leaves :
        (after : SessionRecord)
        → IsKeyPair p after.local_dh_key_pair
        → decrypt p store draws sender message s ≡ (ok plaintext, store.save_session sender after s)
        → ((decrypt p store draws sender message s).0 ≡ ok plaintext)
          × (store.get_session (decrypt p store draws sender message s).1 sender ≡ ok (some after))
    leaves after pair e =
        (ap (λ x. x.0) e, ap (λ x. store.get_session x.1 sender) e ∙ saved after pair)

    -- One message: it opens, and the session that the store then holds has received it.
    pub decrypt-step :
        store.get_session s sender ≡ ok (some session)
        → message.sequence_number ≤ session.receive_sequence_number + max_skip_messages
        → (after : SessionRecord) × ((decrypt p store draws sender message s).0 ≡ ok plaintext)
          × (store.get_session (decrypt p store draws sender message s).1 sender ≡ ok (some after))
          × InSync p first r (with_one message.sequence_number got) after
    decrypt-step found near =
        elim (dec_lt message.sequence_number session.receive_sequence_number) [
          | yes behind ↦
              let next =
                used_session-InSync p laws first first_bytes r got session sync message plaintext
                  sealed behind in
              let (opened, held) =
                leaves used next.pair (decrypt-found found ∙ decrypt_in-behind behind) in
              (used, opened, held, next)
          | no ahead ↦
              let reach : session.receive_sequence_number ≤ message.sequence_number = omega arith in
              let next =
                advanced_session-InSync p laws first first_bytes r got session sync message
                  plaintext sealed draws.now reach in
              let (opened, held) =
                leaves advanced next.pair (decrypt-found found ∙ decrypt_in-ahead reach near) in
              (advanced, opened, held, next)
        ]

  -- The stored session is in step with one sending chain of the other side, with some of its
  -- messages received. Then more messages of that chain, in whatever order they arrive and with
  -- whatever gaps, each decrypt to the text that was sealed, as long as none was received before
  -- or comes twice and none has a number above the bound on skipped messages.
  pub decrypt_all-any_order :
      (got : ℕ → Bool) (session : SessionRecord) (sender : Text) (arrivals : List Arrival) (s : S)
      → InSync p first r got session
      → store.get_session s sender ≡ ok (some session)
      → Deliverable p first r got arrivals
      → decrypt_all p store sender arrivals s ≡ map (λ a. ok a.plaintext) arrivals
  unfolding decrypt_all
  decrypt_all-any_order got session sender [] s sync found h = refl
  decrypt_all-any_order got session sender (a ∷ rest) s sync found (new, near, sealed, later) =
      let (after, opened, held, next) =
        decrypt-step got session sync a.message a.plaintext sealed new a.draws sender s found
          (omega arith) in
      ap₂ (λ x xs. x ∷ xs) opened
        (decrypt_all-any_order (with_one a.message.sequence_number got) after sender rest _ next
          held later)
