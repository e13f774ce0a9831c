-- ===== src/Crypto/Agreement.antt =====
-- The two ends of the handshake of client/src/crypto/CryptoEngine.ts compute one root key and one
-- chain key.
use tor_e2ee_messenger.Common.{
  ℕ, ◌≡◌, refl, none, some, Option, false, List, [], ◌∷◌, Text, Bytes, to_lower, arith, truthy,
  lookup,
}
use tor_e2ee_messenger.Common.Result.{ok}
use tor_e2ee_messenger.Platform.{Platform, IsPlatform, IsUint8Array}
use tor_e2ee_messenger.Identity.{Curve25519KeyPair}
use tor_e2ee_messenger.Crypto.{
  SessionRecord, EncryptedMessage, PreKeyBundle, BundleOneTimePreKey, OneTimePreKey, SignedPreKey,
}
use tor_e2ee_messenger.Crypto.Kdf.{kdf_root, generate_curve25519_key_pair}
use tor_e2ee_messenger.Crypto.Store.{IsKeyPair}
use tor_e2ee_messenger.Crypto.Secrets.{master_secret}
use tor_e2ee_messenger.Crypto.Handshake.{
  alice_secrets, bob_secrets, alice_record, alice_session, bob_record, bob_session,
}
use tor_e2ee_messenger.Crypto.ChainKeys.{chain_at, kdf_root-chain}
use tor_e2ee_messenger.Crypto.InSync.{InSync}
use tor_e2ee_messenger.Crypto.Sealing.{Sends}
use tor_e2ee_messenger.Crypto.Skipping.{truthy-hex}

module _ (p : Platform) where
  -- The hex public key that goes with a secret key.
  abbrev pub public_hex : Bytes → Text
  public_hex secret = p.bytes_to_hex (p.box_public secret)

  -- The one-time pre-key of the bundle is the one that the other side takes out of its store.
  abbrev pub SameOneTimeKey : Option BundleOneTimePreKey → Option OneTimePreKey → Type 0
  SameOneTimeKey none none = Unit
  SameOneTimeKey (some k) (some o) =
      (k.public_key_hex ≡ public_hex o.key_pair.secret_key) × IsUint8Array 32 o.key_pair.secret_key
  SameOneTimeKey none (some o) = ⊥
  SameOneTimeKey (some k) none = ⊥

module _ (p : Platform) (laws : IsPlatform p) where
  pub generate-IsKeyPair :
      (secret : Bytes)
      → IsUint8Array 32 secret
      → IsKeyPair p (generate_curve25519_key_pair p secret)
  unfolding generate_curve25519_key_pair
  generate-IsKeyPair secret h = record {
    public = laws.hex_round _ (laws.public_bytes secret h).1;
    secret = laws.hex_round _ h.1;
  }

  public_round :
      (a : Bytes) → IsUint8Array 32 a → p.hex_to_bytes (public_hex p a) ≡ some (p.box_public a)
  public_round a h = laws.hex_round _ (laws.public_bytes a h).1

  module _ (ia ea ib sb : Bytes) (ia32 : IsUint8Array 32 ia) (ea32 : IsUint8Array 32 ea)
      (ib32 : IsUint8Array 32 ib) (sb32 : IsUint8Array 32 sb) where
    secrets-agree :
        (k : Option BundleOneTimePreKey) (o : Option OneTimePreKey)
        → SameOneTimeKey p k o
        → (dhs : List Bytes) × (alice_secrets p ia ea (p.box_public ib) (p.box_public sb) k
            ≡ ok dhs)
          × (bob_secrets p sb ib (p.box_public ia) (p.box_public ea) o ≡ ok dhs)
    unfolding alice_secrets bob_secrets
    secrets-agree none none h =
        let (d1, a1, b1) = laws.agreement ia sb ia32 sb32 in
        let (d2, a2, b2) = laws.agreement ea ib ea32 ib32 in
        let (d3, a3, b3) = laws.agreement ea sb ea32 sb32 in
        (d1 ∷ d2 ∷ d3 ∷ [], rw a1 (rw a2 (rw a3 refl)), rw b1 (rw b2 (rw b3 refl)))
    secrets-agree (some k) (some o) (same, o32) =
        let (d1, a1, b1) = laws.agreement ia sb ia32 sb32 in
        let (d2, a2, b2) = laws.agreement ea ib ea32 ib32 in
        let (d3, a3, b3) = laws.agreement ea sb ea32 sb32 in
        let (d4, a4, b4) = laws.agreement ea o.key_pair.secret_key ea32 o32 in
        (
          d1 ∷ d2 ∷ d3 ∷ d4 ∷ [],
          rw a1
              (rw a2 (rw a3 (rw same (rw (public_round o.key_pair.secret_key o32) (rw a4 refl))))),
          rw b1 (rw b2 (rw b3 (rw b4 refl))),
        )
    secrets-agree none (some o) h = absurd h
    secrets-agree (some k) none h = absurd h

  module _ (ik_a ik_b : Curve25519KeyPair) (spk : SignedPreKey) (one_time : Option OneTimePreKey)
      (ea fresh : Bytes) (bundle : PreKeyBundle) (message : EncryptedMessage)
      (ia32 : IsUint8Array 32 ik_a.secret_key) (ib32 : IsUint8Array 32 ik_b.secret_key)
      (sb32 : IsUint8Array 32 spk.key_pair.secret_key) (ea32 : IsUint8Array 32 ea)
      (fresh32 : IsUint8Array 32 fresh)
      (identity_key : bundle.identity_key_hex ≡ public_hex p ik_b.secret_key)
      (signed_key : bundle.signed_pre_key.public_key_hex ≡ public_hex p spk.key_pair.secret_key)
      (one_time_key : SameOneTimeKey p bundle.one_time_pre_key one_time)
      (ephemeral : message.ephemeral_public_key_hex ≡ public_hex p ea) where
    -- All secret keys have 32 bytes, the bundle has the public keys of the answering side, with
    -- the one-time pre-key that this side takes out of its store or none on both sides, and the
    -- message names the initiator's ephemeral key. Then the handshake succeeds on both sides, and
    -- the two sessions fit together: one root key, and the chain on which the initiator sends is
    -- the one that the other side receives.
    pub handshake_agrees :
        (created_at updated_at created_at' updated_at' : ℕ) (sender : Text)
        → (first : Bytes) × (a : SessionRecord) × (b : SessionRecord) × (alice_session p ik_a ea
              created_at updated_at bundle
            ≡ ok a)
          × (bob_session p ik_b spk one_time
                (p.box_public ik_a.secret_key)
                (p.box_public ea)
                fresh
                created_at'
                updated_at'
                sender
                message
              ≡ ok b)
          × (a.root_key_hex ≡ b.root_key_hex)
          × IsUint8Array 32 first
          × Sends p first (public_hex p ea) a
          × InSync p first (public_hex p ea) (λ _. false) b
    unfolding alice_session bob_session generate_curve25519_key_pair
    handshake_agrees created_at updated_at created_at' updated_at' sender =
        let (dhs, sa, sb) =
          secrets-agree ik_a.secret_key ea ik_b.secret_key spk.key_pair.secret_key ia32 ea32 ib32
            sb32 bundle.one_time_pre_key one_time one_time_key in
        let (d, ad, bd) = laws.agreement ea spk.key_pair.secret_key ea32 sb32 in
        let step = kdf_root p (master_secret p dhs) d in
        let remote : truthy (some (to_lower message.ephemeral_public_key_hex))
            ≡ some (public_hex p ea) =
          rw ephemeral (
            rw (laws.hex_lower (p.box_public ea))
              (truthy-hex p laws _ (laws.public_bytes ea ea32))) in
        (
          step.chain_key,
          alice_record p (generate_curve25519_key_pair p ea) step created_at updated_at bundle,
          bob_record p (generate_curve25519_key_pair p fresh) step created_at' updated_at' sender
              message,
          rw identity_key (
              rw (public_round ik_b.secret_key ib32) (
                rw signed_key
                  (rw (public_round spk.key_pair.secret_key sb32) (rw sa (rw ad refl))))),
          rw sb (rw ephemeral (rw (public_round ea ea32) (rw bd refl))),
          refl,
          kdf_root-chain p laws _ _,
          record {
            chain = unfold chain_at in refl;
            local = refl;
            pair = generate-IsKeyPair ea ea32;
          },
          record {
            chain = unfold chain_at in refl;
            remote = remote;
            pair = generate-IsKeyPair fresh fresh32;
            early = λ j h. cc;
            kept = λ j h. absurd (omega arith);
            used = λ j h. unfold lookup in refl;
            ahead = λ j h. unfold lookup in refl;
          },
        )
