-- ===== src/Exchange/LinkRound.antt =====
-- That what client/src/devices/DeviceLinkManager.ts provisions on one device decrypts on the other.
use tor_e2ee_messenger.Common.{ℕ, Text, Bytes}
use tor_e2ee_messenger.Platform.{Platform, IsPlatform, IsUint8Array}
use tor_e2ee_messenger.Identity.{UserIdentity}
use tor_e2ee_messenger.Exchange.{SearchParam, JsonOf, IsJson}
use tor_e2ee_messenger.Exchange.Link.{
  Box, IsBox, DeviceLinkQrPayload, DeviceProvisioningPayload, LinkEnvelope, ProvisionDraws,
  provisioning_data, qr_payload,
}

module _ (p : Platform) (laws : IsPlatform p) (box : Box) (boxes : IsBox p box)
    (search : SearchParam) (json_qr : JsonOf DeviceLinkQrPayload)
    (json_data : JsonOf DeviceProvisioningPayload) (json_envelope : JsonOf LinkEnvelope)
    (envelopes : (e : LinkEnvelope) → IsJson p json_envelope e) where
  module _ (secret : Bytes) (device_name : Text) (draws : ProvisionDraws) (identity : UserIdentity)
      (device_id : ℕ) (slave : IsUint8Array 32 secret) (c : Bytes) where
    abbrev qr : DeviceLinkQrPayload
    qr = qr_payload p secret device_name

    abbrev sent_bytes : Bytes
    sent_bytes = p.utf8_encode (json_data.write (provisioning_data identity device_id draws.now qr))
