-- ===== src/Crypto/Secrets.antt =====
-- What the methods of client/src/crypto/CryptoEngine.ts share: exceptions of the libraries, the
-- Diffie-Hellman step and the X3DH master secret.
use tor_e2ee_messenger.Common.{List, Text, Bytes, text_keys}
use tor_e2ee_messenger.Common.Result.{Result, ok, err, require}
use tor_e2ee_messenger.Platform.{Platform}
use tor_e2ee_messenger.Identity.{IdentityError}
use tor_e2ee_messenger.Crypto.{CryptoError, library_error}
use tor_e2ee_messenger.Crypto.Kdf.{zeros, concat_uint8_arrays, hkdf_info_x3dh}

abbrev pub or_library_error {ℓ} : {A : Type ℓ} → Result IdentityError A → Result CryptoError A
or_library_error (ok a) = ok a
or_library_error (err _) = err library_error

module _ (p : Platform) where
  -- The master secret of X3DH, of three or four Diffie-Hellman results.
  unfoldable pub master_secret : List Bytes → Bytes
  master_secret dhs = p.hkdf (concat_uint8_arrays dhs) (zeros 32) (hkdf_info_x3dh p) 32

  abbrev pub dh : Bytes → Bytes → Result CryptoError Bytes
  dh secret public = require (p.scalar_mult secret public) library_error

  abbrev pub from_hex : Text → Result CryptoError Bytes
  from_hex hex = require (p.hex_to_bytes hex) library_error
