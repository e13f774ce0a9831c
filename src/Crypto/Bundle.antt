-- ===== src/Crypto/Bundle.antt =====
-- `generatePreKeyBundle` of client/src/crypto/CryptoEngine.ts. Random bytes, key ids and the clock are
-- arguments, here and in the other methods.
use tor_e2ee_messenger.Common.{ℕ, Option, none, some, List, [], ◌∷◌, Bytes, text_keys}
use tor_e2ee_messenger.Common.Result.{ok}
use tor_e2ee_messenger.Common.Action.{Action, pure, lift, reads, writes, ◌>>=◌, ◌>>◌}
use tor_e2ee_messenger.Platform.{Platform}
use tor_e2ee_messenger.Identity.{sign_challenge}
use tor_e2ee_messenger.Crypto.{BundleOneTimePreKey, PreKeyBundle, CryptoError}
use tor_e2ee_messenger.Crypto.Kdf.{generate_curve25519_key_pair}
use tor_e2ee_messenger.Crypto.Store.{SignalStore}
use tor_e2ee_messenger.Crypto.Secrets.{or_library_error}

module _ (p : Platform) {S : Type 0} (store : SignalStore S) where
  -- The loop over one-time pre-keys, over the pairs of a secret key and a key id that it draws.
  unfoldable pub save_one_time_pre_keys :
      List (Bytes × ℕ) → Option BundleOneTimePreKey → S → Option BundleOneTimePreKey × S
  save_one_time_pre_keys [] first s = (first, s)
  save_one_time_pre_keys ((secret, key_id) ∷ rest) first s =
      let pair = generate_curve25519_key_pair p secret in
      let head : Option BundleOneTimePreKey = elim first [
        | none ↦ some (record { key_id = key_id; public_key_hex = pair.public_key_hex })
        | some k ↦ some k
      ] in
      save_one_time_pre_keys rest head
        (store.save_one_time_pre_key key_id (record { key_id = key_id; key_pair = pair }) s)

  unfoldable pub generate_pre_key_bundle :
      Bytes → ℕ → ℕ → List (Bytes × ℕ) → Action S CryptoError PreKeyBundle
  generate_pre_key_bundle secret spk_id now one_time_draws = do
    identity ← reads (λ s. ok (store.get_identity s))
    let pair = generate_curve25519_key_pair p secret
    signature ←
        lift
          (or_library_error (sign_challenge p pair.public_key_hex identity.signing_key.secret_key))
    writes (
        store.save_signed_pre_key spk_id (record {
          key_id = spk_id;
          key_pair = pair;
          signature_hex = signature;
          created_at = now;
        }))
    first ← λ s. (let r = save_one_time_pre_keys one_time_draws none s in (ok r.0, r.1))
    pure (record {
      identity_key_hex = identity.encryption_key.public_key_hex;
      signing_key_hex = identity.signing_key.public_key_hex;
      signed_pre_key = record {
        key_id = spk_id;
        public_key_hex = pair.public_key_hex;
        signature_hex = signature;
      };
      one_time_pre_key = first;
    })
