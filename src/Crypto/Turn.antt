-- ===== src/Crypto/Turn.antt =====
-- The Diffie-Hellman ratchet of client/src/crypto/CryptoEngine.ts: each time the direction of the
-- conversation turns, the side that listened derives the chain on which the other side sends, and
-- the two sessions fit together again with their parts exchanged.
use tor_e2ee_messenger.Common.{
  ℕ, ◌≡◌, refl, ap, sym, none, some, false, Text, Bytes, to_lower, arith, truthy, lookup, text_keys,
}
use tor_e2ee_messenger.Common.Result.{ok}
use tor_e2ee_messenger.Platform.{Platform, IsPlatform, IsUint8Array}
use tor_e2ee_messenger.Crypto.{SessionRecord}
use tor_e2ee_messenger.Crypto.Kdf.{RootStep, kdf_root, generate_curve25519_key_pair}
use tor_e2ee_messenger.Crypto.Ratchet.{skipped_key_id, dh_ratchet_step}
use tor_e2ee_messenger.Crypto.Chains.{sending_chain}
use tor_e2ee_messenger.Crypto.ChainKeys.{chain_at, kdf_root-next}
use tor_e2ee_messenger.Crypto.InSync.{InSync}
use tor_e2ee_messenger.Crypto.Sealing.{Sends}
use tor_e2ee_messenger.Crypto.Skipping.{truthy-hex}
use tor_e2ee_messenger.Crypto.Agreement.{public_hex, generate-IsKeyPair}

module _ (p : Platform) where
  -- `speaker` has derived its sending chain `first` from a root key that `listener` still holds.
  pub record Turn (listener speaker : SessionRecord) (first : Bytes) : Type 0 where
    pub listener_secret : Bytes
    pub speaker_secret : Bytes
    pub root : Bytes
    pub dh : Bytes
    pub listener_bytes : IsUint8Array 32 listener_secret
    pub speaker_bytes : IsUint8Array 32 speaker_secret
    pub root_bytes : IsUint8Array 32 root
    pub listener_pair : listener.local_dh_key_pair ≡ generate_curve25519_key_pair p listener_secret
    pub speaker_pair : speaker.local_dh_key_pair ≡ generate_curve25519_key_pair p speaker_secret
    pub shared : p.scalar_mult listener_secret (p.box_public speaker_secret) ≡ some dh
    pub listener_root : listener.root_key_hex ≡ p.bytes_to_hex root
    pub speaker_root : speaker.root_key_hex ≡ p.bytes_to_hex (kdf_root p root dh).next_root_key
    pub chain : first ≡ (kdf_root p root dh).chain_key

  -- What `dhRatchetStep` leaves, of the keys that it derived.
  pub turned_session : SessionRecord → Bytes → Text → RootStep → RootStep → SessionRecord
  turned_session session secret remote r1 r2 = record session {
    previous_chain_length = session.send_sequence_number;
    send_sequence_number = 0;
    receive_sequence_number = 0;
    remote_dh_public_key_hex = some (to_lower remote);
    receive_chain_key_hex = some (p.bytes_to_hex r1.chain_key);
    local_dh_key_pair = generate_curve25519_key_pair p secret;
    root_key_hex = p.bytes_to_hex r2.next_root_key;
    send_chain_key_hex = some (p.bytes_to_hex r2.chain_key);
  }

module _ (p : Platform) (laws : IsPlatform p) (listener speaker : SessionRecord)
    (first secret : Bytes) (turn : Turn p listener speaker first)
    (secret_bytes : IsUint8Array 32 secret)
    (fresh : (j : ℕ)
      → lookup (skipped_key_id (public_hex p turn.speaker_secret) j) listener.skipped_message_keys
        ≡ none) where
  remote_reads :
      truthy (some (to_lower (public_hex p turn.speaker_secret)))
      ≡ some (public_hex p turn.speaker_secret)
  remote_reads =
      rw (laws.hex_lower (p.box_public turn.speaker_secret))
        (truthy-hex p laws _ (laws.public_bytes turn.speaker_secret turn.speaker_bytes))

  -- A message of the other side's new chain: the step succeeds, the session receives that chain from
  -- its first message on, and sends on a new chain of its own, for which the parts are exchanged.
  pub dh_ratchet_step-turn :
      (after : SessionRecord) × (next : Bytes) × (dh_ratchet_step p secret listener
          (public_hex p turn.speaker_secret)
        ≡ ok after)
      × InSync p first (public_hex p turn.speaker_secret) (λ _. false) after
      × Sends p next (public_hex p secret) after
      × Turn p speaker after next
      × (after.previous_chain_length ≡ listener.send_sequence_number)
  unfolding dh_ratchet_step generate_curve25519_key_pair turned_session
  dh_ratchet_step-turn =
      let r1 = kdf_root p turn.root turn.dh in
      let (d2, theirs, ours) =
        laws.agreement turn.speaker_secret secret turn.speaker_bytes secret_bytes in
      let r2 = kdf_root p r1.next_root_key d2 in
      let remote = public_hex p turn.speaker_secret in
      (
        turned_session p listener secret remote r1 r2,
        r2.chain_key,
        rw turn.listener_root (
            rw (laws.hex_round turn.root turn.root_bytes.1) (
              rw (laws.hex_round _ (laws.public_bytes turn.speaker_secret turn.speaker_bytes).1)
                (rw turn.listener_pair (rw turn.shared (rw ours refl))))),
        record {
          chain = unfold chain_at in ap (λ c. some (p.bytes_to_hex c)) (sym turn.chain);
          remote = remote_reads;
          pair = generate-IsKeyPair p laws secret secret_bytes;
          early = λ j h. cc;
          kept = λ j h. absurd (omega arith);
          used = λ j h. fresh j;
          ahead = λ j h. fresh j;
        },
        record {
          chain = unfold chain_at in refl;
          local = refl;
          pair = generate-IsKeyPair p laws secret secret_bytes;
        },
        record {
          listener_secret = turn.speaker_secret;
          speaker_secret = secret;
          root = r1.next_root_key;
          dh = d2;
          listener_bytes = turn.speaker_bytes;
          speaker_bytes = secret_bytes;
          root_bytes = kdf_root-next p laws turn.root turn.dh;
          listener_pair = turn.speaker_pair;
          speaker_pair = refl;
          shared = theirs;
          listener_root = turn.speaker_root;
          speaker_root = refl;
          chain = refl;
        },
        refl,
      )

module _ (p : Platform) (laws : IsPlatform p) (listener speaker : SessionRecord)
    (listener_secret speaker_secret root : Bytes) (listener_bytes : IsUint8Array 32 listener_secret)
    (speaker_bytes : IsUint8Array 32 speaker_secret) (root_bytes : IsUint8Array 32 root)
    (listener_pair : listener.local_dh_key_pair ≡ generate_curve25519_key_pair p listener_secret)
    (speaker_pair : speaker.local_dh_key_pair ≡ generate_curve25519_key_pair p speaker_secret)
    (listener_root : listener.root_key_hex ≡ p.bytes_to_hex root)
    (speaker_root : speaker.root_key_hex ≡ p.bytes_to_hex root)
    (silent : speaker.send_chain_key_hex ≡ none) (unsent : speaker.send_sequence_number ≡ 0)
    (remote : speaker.remote_dh_public_key_hex ≡ some (public_hex p listener_secret)) where
  -- The session after its sending chain was started.
  pub started_session : RootStep → SessionRecord
  started_session r = record speaker {
    root_key_hex = p.bytes_to_hex r.next_root_key;
    send_chain_key_hex = some (p.bytes_to_hex r.chain_key);
  }

  no_chain : truthy speaker.send_chain_key_hex ≡ none
  no_chain = rw silent refl

  known_remote : truthy speaker.remote_dh_public_key_hex ≡ some (public_hex p listener_secret)
  known_remote = rw remote (truthy-hex p laws _ (laws.public_bytes listener_secret listener_bytes))

  known_root : p.hex_to_bytes speaker.root_key_hex ≡ some root
  known_root = rw speaker_root (laws.hex_round root root_bytes.1)

  dh_with :
      (d : Bytes)
      → p.scalar_mult speaker_secret (p.box_public listener_secret) ≡ some d
      → p.scalar_mult speaker.local_dh_key_pair.secret_key (p.box_public listener_secret) ≡ some d
  unfolding generate_curve25519_key_pair
  dh_with d h = rw speaker_pair h

  -- The first answer of a session that has only received: the sending chain is started from the root
  -- key that both sides hold, and from then on the two sessions take turns.
  pub sending_chain-turn :
      (after : SessionRecord) × (first : Bytes) × (sending_chain p speaker
        ≡ ok (after, p.bytes_to_hex first))
      × Sends p first (public_hex p speaker_secret) after
      × Turn p listener after first
  unfolding sending_chain started_session generate_curve25519_key_pair
  sending_chain-turn =
      let (d, theirs, ours) =
        laws.agreement listener_secret speaker_secret listener_bytes speaker_bytes in
      let r = kdf_root p root d in
      let public = laws.public_bytes listener_secret listener_bytes in
      (
        started_session r,
        r.chain_key,
        rw (no_chain, sending_chain)
            (rw known_remote
              (rw known_root (rw (laws.hex_round _ public.1) (rw (dh_with d ours) refl)))),
        record {
          chain = unfold chain_at in rw unsent refl;
          local = rw speaker_pair refl;
          pair = rw speaker_pair (generate-IsKeyPair p laws speaker_secret speaker_bytes);
        },
        record {
          listener_secret = listener_secret;
          speaker_secret = speaker_secret;
          root = root;
          dh = d;
          listener_bytes = listener_bytes;
          speaker_bytes = speaker_bytes;
          root_bytes = root_bytes;
          listener_pair = listener_pair;
          speaker_pair = speaker_pair;
          shared = theirs;
          listener_root = listener_root;
          speaker_root = refl;
          chain = refl;
        },
      )
