-- ===== src/Crypto/ChainKeys.antt =====
-- The symmetric chain as a function of its first key: the key after some steps, and the keys of its
-- messages. The loop of `skipMessageKeys` walks it.
use tor_e2ee_messenger.Common.{
  ℕ, zero, suc, ◌+◌, ◌≤◌, ◌<◌, ◌≡◌, ◌≢◌, refl, ap, ◌∙◌, some, List, Text, Bytes, All, take, drop,
  length-take, length-drop, arith, lookup, lookup-put_self, lookup-put_other, text_keys,
  with_number-number, with_number-text, to_lower,
}
use tor_e2ee_messenger.Platform.{Platform, IsPlatform, IsUint8Array}
use tor_e2ee_messenger.Crypto.Kdf.{kdf_chain, kdf_root}
use tor_e2ee_messenger.Crypto.Ratchet.{skipped_key_id, skip_loop}

pub All-take {ℓ κ} :
    {A : Type ℓ} (P : A → Type κ) (n : ℕ) (xs : List A) → All P xs → All P (take n xs)
All-take P zero xs h = tt
All-take P (suc n) List.[] h = tt
All-take P (suc n) (List.◌∷◌ x xs) (q, h) = (q, All-take P n xs h)

pub All-drop {ℓ κ} :
    {A : Type ℓ} (P : A → Type κ) (n : ℕ) (xs : List A) → All P xs → All P (drop n xs)
All-drop P zero xs h = h
All-drop P (suc n) List.[] h = tt
All-drop P (suc n) (List.◌∷◌ x xs) (q, h) = All-drop P n xs h

pub skipped_key_id-number : (r : Text) (i j : ℕ) → skipped_key_id r i ≡ skipped_key_id r j → i ≡ j
unfolding skipped_key_id
skipped_key_id-number r i j h = with_number-number _ _ i j h

-- `skippedMessageKeys` has one key for each pair of an ephemeral key, up to case, and a number.
pub skipped_key_id-injective :
    (r q : Text) (i j : ℕ)
    → skipped_key_id r i ≡ skipped_key_id q j
    → (to_lower r ≡ to_lower q) × (i ≡ j)
unfolding skipped_key_id
skipped_key_id-injective r q i j h = (with_number-text _ _ i j h, with_number-number _ _ i j h)

half : (d : Bytes) → IsUint8Array 64 d → IsUint8Array 32 (take 32 d)
half d (len, h) = (length-take 32 d (omega arith), All-take _ 32 d h)

other_half : (d : Bytes) → IsUint8Array 64 d → IsUint8Array 32 (take 32 (drop 32 d))
other_half d (len, h) = (
  length-take 32 (drop 32 d) (omega (arith, length-drop 32 d)),
  All-take _ 32 (drop 32 d) (All-drop _ 32 d h),
)

module _ (p : Platform) where
  unfoldable pub chain_at : ℕ → Bytes → Bytes
  chain_at zero chain = chain
  chain_at (suc n) chain = (kdf_chain p (chain_at n chain)).next_chain_key

  unfoldable pub message_key_at : ℕ → Bytes → Bytes
  message_key_at n chain = (kdf_chain p (chain_at n chain)).message_key

  pub chain_at-shift :
      (n : ℕ) (chain : Bytes)
      → chain_at n (kdf_chain p chain).next_chain_key ≡ chain_at (suc n) chain
  unfolding chain_at
  chain_at-shift zero chain = refl
  chain_at-shift (suc n) chain = ap (λ c. (kdf_chain p c).next_chain_key) (chain_at-shift n chain)

  pub chain_at-add :
      (m n : ℕ) (chain : Bytes) → chain_at m (chain_at n chain) ≡ chain_at (m + n) chain
  unfolding chain_at
  chain_at-add zero n chain = ap (λ k. chain_at k chain) (omega arith)
  chain_at-add (suc m) n chain =
      ap (λ c. (kdf_chain p c).next_chain_key) (chain_at-add m n chain)
      ∙ ap (λ k. chain_at k chain) (let e : suc (m + n) ≡ suc m + n = omega arith in e)

  pub skip_loop-chain :
      (k : ℕ) (r : Text) (chain : Bytes) (n : ℕ) (skipped : List (Text × Text))
      → (skip_loop p k r chain n skipped).0 ≡ chain_at k chain
  unfolding skip_loop
  skip_loop-chain zero r chain n skipped = unfold chain_at in refl
  skip_loop-chain (suc k) r chain n skipped =
      skip_loop-chain k r _ (n + 1) _ ∙ chain_at-shift k chain

  -- Entries of other keys stay.
  pub skip_loop-other :
      (k : ℕ) (r : Text) (chain : Bytes) (n : ℕ) (skipped : List (Text × Text)) (id : Text)
      → ((j : ℕ) → n ≤ j → j < n + k → skipped_key_id r j ≢ id)
      → lookup id (skip_loop p k r chain n skipped).1 ≡ lookup id skipped
  unfolding skip_loop
  skip_loop-other zero r chain n skipped id h = refl
  skip_loop-other (suc k) r chain n skipped id h =
      skip_loop-other k r _ (n + 1) _ id (λ j a b. h j (omega arith) (omega arith))
      ∙ lookup-put_other id _ _ skipped (h n (omega arith) (omega arith))

  -- The entries that the loop adds hold the message keys of the chain.
  pub skip_loop-added :
      (k d : ℕ) (r : Text) (chain : Bytes) (n : ℕ) (skipped : List (Text × Text))
      → d < k
      → lookup (skipped_key_id r (n + d)) (skip_loop p k r chain n skipped).1
        ≡ some (p.bytes_to_hex (message_key_at d chain))
  unfolding skip_loop
  skip_loop-added zero d r chain n skipped h = absurd (omega arith)
  skip_loop-added (suc k) zero r chain n skipped h =
      let e : n + 0 ≡ n = omega arith in
      rw e (
        skip_loop-other k r _ (n + 1) _ (skipped_key_id r n)
          (λ j a b same. absurd (omega (arith, skipped_key_id-number r j n same)))
        ∙ lookup-put_self (skipped_key_id r n) _ skipped
        ∙ unfold message_key_at chain_at in refl)
  skip_loop-added (suc k) (suc d) r chain n skipped h =
      let e : n + suc d ≡ n + 1 + d = omega arith in
      rw e (
        skip_loop-added k d r _ (n + 1) _ (omega arith)
        ∙ unfold message_key_at in
          ap (λ c. some (p.bytes_to_hex (kdf_chain p c).message_key)) (chain_at-shift d chain))

  pub kdf_chain-key :
      IsPlatform p → (chain : Bytes) → IsUint8Array 32 (kdf_chain p chain).message_key
  unfolding kdf_chain
  kdf_chain-key laws chain = other_half _ (laws.hkdf_bytes _ _ _ 64)

  pub kdf_chain-next :
      IsPlatform p → (chain : Bytes) → IsUint8Array 32 (kdf_chain p chain).next_chain_key
  unfolding kdf_chain
  kdf_chain-next laws chain = half _ (laws.hkdf_bytes _ _ _ 64)

  pub kdf_root-next :
      IsPlatform p → (root dh : Bytes) → IsUint8Array 32 (kdf_root p root dh).next_root_key
  unfolding kdf_root
  kdf_root-next laws root dh = half _ (laws.hkdf_bytes _ _ _ 64)

  pub kdf_root-chain :
      IsPlatform p → (root dh : Bytes) → IsUint8Array 32 (kdf_root p root dh).chain_key
  unfolding kdf_root
  kdf_root-chain laws root dh = other_half _ (laws.hkdf_bytes _ _ _ 64)
