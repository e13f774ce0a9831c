-- ===== src/Crypto/Kdf.antt =====
-- The key derivation functions of client/src/crypto/CryptoEngine.ts, its key pairs and constants.
use tor_e2ee_messenger.Common.{ℕ, zero, suc, List, [], ◌∷◌, ◌++◌, Bytes, codes, take, drop}
use tor_e2ee_messenger.Platform.{Platform}
use tor_e2ee_messenger.Identity.{Curve25519KeyPair}

abbrev pub max_skip_messages : ℕ
max_skip_messages = 2000

-- `new Uint8Array(n)`.
abbrev pub zeros : ℕ → Bytes
zeros zero = []
zeros (suc n) = 0 ∷ zeros n

pub record RootStep : Type 0 where
  pub next_root_key : Bytes
  pub chain_key : Bytes

pub record ChainStep : Type 0 where
  pub next_chain_key : Bytes
  pub message_key : Bytes

unfoldable pub concat_uint8_arrays : List Bytes → Bytes
concat_uint8_arrays [] = []
concat_uint8_arrays (b ∷ bs) = b ++ concat_uint8_arrays bs

module _ (p : Platform) where
  unfoldable pub hkdf_info_x3dh : Bytes
  hkdf_info_x3dh = p.utf8_encode (codes "TorE2EE-X3DH-MasterSecret")

  unfoldable pub hkdf_info_root : Bytes
  hkdf_info_root = p.utf8_encode (codes "TorE2EE-RootKDF")

  unfoldable pub hkdf_info_chain : Bytes
  hkdf_info_chain = p.utf8_encode (codes "TorE2EE-ChainKDF")

  unfoldable pub kdf_root : Bytes → Bytes → RootStep
  kdf_root root_key dh_out =
      let derived = p.hkdf dh_out root_key hkdf_info_root 64 in
      record { next_root_key = take 32 derived; chain_key = take 32 (drop 32 derived) }

  unfoldable pub kdf_chain : Bytes → ChainStep
  kdf_chain chain_key =
      let derived = p.hkdf (1 ∷ []) chain_key hkdf_info_chain 64 in
      record { next_chain_key = take 32 derived; message_key = take 32 (drop 32 derived) }

  -- The key pair of the random secret key.
  unfoldable pub generate_curve25519_key_pair : Bytes → Curve25519KeyPair
  generate_curve25519_key_pair secret =
      let public = p.box_public secret in
      record { public_key = public; secret_key = secret; public_key_hex = p.bytes_to_hex public }
