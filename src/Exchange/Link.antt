-- ===== src/Exchange/Link.antt =====
-- client/src/devices/DeviceLinkManager.ts. `nacl.box` is a parameter; `none` is an exception.
use tor_e2ee_messenger.Common.{
  ℕ, ◌≡◌, ◌||◌, Option, some, Text, Bytes, codes, is_empty, if◌then◌else◌,
}
use tor_e2ee_messenger.Common.Result.{Result, ok, err, require, ◌>>=◌}
use tor_e2ee_messenger.Platform.{Platform, IsUint8Array}
use tor_e2ee_messenger.Identity.{Curve25519KeyPair, UserIdentity}
use tor_e2ee_messenger.Storage.Database.{OwnDeviceRecord}
use tor_e2ee_messenger.Messenger.{OutgoingMessageEnvelope}
use tor_e2ee_messenger.Exchange.{SearchParam, JsonOf}
use tor_e2ee_messenger.Exchange.Uri.{ExchangeError, unreadable, export_uri, read_payload_of}

-- `nacl.box` and `nacl.box.open`, with a message or box, a nonce, the other's public key and a secret key.
pub record Box : Type 0 where
  pub seal_box : Bytes → Bytes → Bytes → Bytes → Option Bytes
  pub open_box : Bytes → Bytes → Bytes → Bytes → Option (Option Bytes)

-- What is boxed from one key pair to another opens the other way.
pub record IsBox (p : Platform) (box : Box) : Type 0 where
  pub boxed :
      (m nonce a b : Bytes)
      → IsUint8Array 24 nonce
      → IsUint8Array 32 a
      → IsUint8Array 32 b
      → (c : Bytes) × (box.seal_box m nonce (p.box_public b) a ≡ some c)
        × (box.open_box c nonce (p.box_public a) b ≡ some (some m))

pub record DeviceLinkQrPayload : Type 0 where
  pub version : ℕ
  pub ephemeral_pubkey_hex : Text
  pub ephemeral_mailbox_hash : Text
  pub device_name : Text

pub record DeviceProvisioningPayload : Type 0 where
  pub master_mnemonic : Text
  pub device_id : ℕ
  pub device_name : Text
  pub master_recipient_pubkey_hash : Text
  pub timestamp : ℕ

-- The object of the envelope.
pub record LinkEnvelope : Type 0 where
  pub master_ephemeral_pk_hex : Text
  pub encrypted_data : Text

pub data LinkError : Type 0 where
  bad_qr : ExchangeError → LinkError
  link_library_error link_relay_failed mac_failed bad_payload : LinkError

pub record LinkQr : Type 0 where
  pub qr_uri : Text
  pub ephemeral_key_pair : Curve25519KeyPair
  pub ephemeral_mailbox_hash : Text

abbrev pub device_link_uri_scheme : Text
device_link_uri_scheme = codes "tore2ee://link"

abbrev pub as_link {ℓ} : {A : Type ℓ} → Result ExchangeError A → Result LinkError A
as_link (ok a) = ok a
as_link (err e) = err (bad_qr e)

module _ (p : Platform) where
  unfoldable pub qr_payload : Bytes → Text → DeviceLinkQrPayload
  qr_payload secret device_name = record {
    version = 1;
    ephemeral_pubkey_hex = p.bytes_to_hex (p.box_public secret);
    ephemeral_mailbox_hash = p.bytes_to_hex (p.sha256 (p.box_public secret));
    device_name = device_name;
  }

  -- The secret is the one that `nacl.box.keyPair` draws.
  unfoldable pub generate_link_qr_payload : JsonOf DeviceLinkQrPayload → Bytes → Text → LinkQr
  unfolding qr_payload export_uri
  generate_link_qr_payload json secret device_name = record {
    qr_uri = export_uri p json device_link_uri_scheme (qr_payload secret device_name);
    ephemeral_key_pair = record {
      public_key = p.box_public secret;
      secret_key = secret;
      public_key_hex = p.bytes_to_hex (p.box_public secret);
    };
    ephemeral_mailbox_hash = p.bytes_to_hex (p.sha256 (p.box_public secret));
  }

  -- The check stands in the `try`, so its error is the same as that of a text that does not parse.
  unfoldable pub check_qr : DeviceLinkQrPayload → Result ExchangeError DeviceLinkQrPayload
  check_qr qr =
      if is_empty qr.ephemeral_pubkey_hex || is_empty qr.ephemeral_mailbox_hash
      then err unreadable
      else ok qr

  unfoldable pub parse_link_qr_uri :
      SearchParam → JsonOf DeviceLinkQrPayload → Text → Result ExchangeError DeviceLinkQrPayload
  unfolding check_qr
  parse_link_qr_uri search json uri =
      read_payload_of p search json device_link_uri_scheme uri >>= check_qr

unfoldable pub provisioning_data :
    UserIdentity → ℕ → ℕ → DeviceLinkQrPayload → DeviceProvisioningPayload
provisioning_data identity device_id now qr = record {
  master_mnemonic = identity.mnemonic;
  device_id = device_id;
  device_name = qr.device_name;
  master_recipient_pubkey_hash = identity.recipient_pubkey_hash;
  timestamp = now;
}

unfoldable pub slave_record : DeviceLinkQrPayload → ℕ → ℕ → OwnDeviceRecord
slave_record qr device_id now = record {
  device_id = device_id;
  device_name = qr.device_name;
  recipient_pubkey_hash = qr.ephemeral_mailbox_hash;
  identity_pubkey_hex = qr.ephemeral_pubkey_hex;
  created_at = now;
}

-- What the master draws: its ephemeral secret, the nonce, the clock twice, and whether the request succeeds.
pub record ProvisionDraws : Type 0 where
  pub secret : Bytes
  pub nonce : Bytes
  pub now : ℕ
  pub created_at : ℕ
  pub reply : Option (Unit {0})

module _ (p : Platform) (box : Box) (json_data : JsonOf DeviceProvisioningPayload)
    (json_envelope : JsonOf LinkEnvelope) where
  unfoldable pub link_envelope :
      ProvisionDraws → DeviceLinkQrPayload → Bytes → OutgoingMessageEnvelope
  link_envelope draws qr sealed = record {
    recipient_pubkey_hash = qr.ephemeral_mailbox_hash;
    encrypted_payload = json_envelope.write (record {
      master_ephemeral_pk_hex = p.bytes_to_hex (p.box_public draws.secret);
      encrypted_data = p.to_base64 sealed;
    });
    nonce = p.bytes_to_hex draws.nonce;
  }

  unfoldable pub decrypt_provisioning_payload :
      Text → Text → Bytes → Result LinkError DeviceProvisioningPayload
  decrypt_provisioning_payload envelope_payload nonce_hex slave_secret = do
    parsed ← require (json_envelope.read envelope_payload) bad_payload
    master_key ← require (p.hex_to_bytes parsed.master_ephemeral_pk_hex) link_library_error
    nonce ← require (p.hex_to_bytes nonce_hex) link_library_error
    opened ←
        require (box.open_box (p.from_base64 parsed.encrypted_data) nonce master_key slave_secret)
          link_library_error
    decrypted ← require opened mac_failed
    require (json_data.read (p.utf8_decode decrypted)) bad_payload
