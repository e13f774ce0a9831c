-- ===== src/Platform.antt =====
-- The code that the client calls and that does not stand in this repository: tweetnacl,
-- @noble/hashes, and the runtime's Buffer, TextEncoder and TextDecoder. `none` is an exception.
use tor_e2ee_messenger.Common.{
  ℕ, ◌*◌, ◌<◌, ◌≡◌, Bool, Option, some, Text, Bytes, All, length, to_lower,
}

-- A Uint8Array of the given length.
abbrev pub IsUint8Array : ℕ → Bytes → Type 0
IsUint8Array n b = (length b ≡ n) × All (λ c. c < 256) b

pub record Platform : Type 0 where
  -- `nacl.scalarMult`, and the public key of `nacl.box.keyPair` beside a secret key
  pub scalar_mult : Bytes → Bytes → Option Bytes
  pub box_public : Bytes → Bytes
  -- `nacl.secretbox` and `nacl.secretbox.open`, with a message or box, a nonce and a key
  pub secretbox : Bytes → Bytes → Bytes → Option Bytes
  pub secretbox_open : Bytes → Bytes → Bytes → Option (Option Bytes)
  -- `nacl.sign.detached` and `nacl.sign.detached.verify`
  pub sign_detached : Bytes → Bytes → Option Bytes
  pub sign_verify : Bytes → Bytes → Bytes → Option Bool
  -- `hkdf(sha256, ikm, salt, info, length)` and `sha256`
  pub hkdf : Bytes → Bytes → Bytes → ℕ → Bytes
  pub sha256 : Bytes → Bytes
  pub bytes_to_hex : Bytes → Text
  pub hex_to_bytes : Text → Option Bytes
  -- `Buffer.from(b).toString('base64')` and back
  pub to_base64 : Bytes → Text
  pub from_base64 : Text → Bytes
  -- `TextEncoder` and `TextDecoder`
  pub utf8_encode : Text → Bytes
  pub utf8_decode : Bytes → Text

-- What the client relies on.
pub record IsPlatform (p : Platform) : Type 0 where
  pub hkdf_bytes : (ikm salt info : Bytes) (n : ℕ) → IsUint8Array n (p.hkdf ikm salt info n)
  pub hex_round : (b : Bytes) → All (λ c. c < 256) b → p.hex_to_bytes (p.bytes_to_hex b) ≡ some b
  pub hex_lower : (b : Bytes) → to_lower (p.bytes_to_hex b) ≡ p.bytes_to_hex b
  pub hex_length : (b : Bytes) → length (p.bytes_to_hex b) ≡ 2 * length b
  pub public_bytes : (a : Bytes) → IsUint8Array 32 a → IsUint8Array 32 (p.box_public a)
  -- Diffie-Hellman: both sides compute one secret
  pub agreement :
      (a b : Bytes)
      → IsUint8Array 32 a
      → IsUint8Array 32 b
      → (s : Bytes) × (p.scalar_mult a (p.box_public b) ≡ some s)
        × (p.scalar_mult b (p.box_public a) ≡ some s)
  -- what was sealed opens under the same nonce and key
  pub sealed :
      (m nonce key : Bytes)
      → IsUint8Array 24 nonce
      → IsUint8Array 32 key
      → (c : Bytes) × (p.secretbox m nonce key ≡ some c)
        × (p.secretbox_open c nonce key ≡ some (some m))
  pub base64_round : (b : Bytes) → p.from_base64 (p.to_base64 b) ≡ b
