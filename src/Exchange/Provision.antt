-- ===== src/Exchange/Provision.antt =====
-- `provisionSlaveDevice` of client/src/devices/DeviceLinkManager.ts.
use tor_e2ee_messenger.Common.{ℕ, List, [], ◌∷◌, ◌++◌, Text}
use tor_e2ee_messenger.Common.Result.{require}
use tor_e2ee_messenger.Common.Action.{Action, pure, lift, writes, ◌>>=◌, ◌>>◌}
use tor_e2ee_messenger.Platform.{Platform}
use tor_e2ee_messenger.Identity.{UserIdentity}
use tor_e2ee_messenger.Storage.Database.{OwnDeviceRecord}
use tor_e2ee_messenger.Messenger.{OutgoingMessageEnvelope}
use tor_e2ee_messenger.Exchange.{SearchParam, JsonOf}
use tor_e2ee_messenger.Exchange.Link.{
  Box, LinkError, link_library_error, link_relay_failed, DeviceLinkQrPayload,
  DeviceProvisioningPayload, LinkEnvelope, ProvisionDraws, provisioning_data, slave_record,
  link_envelope, as_link, parse_link_qr_uri,
}

module _ (p : Platform) (box : Box) (json_data : JsonOf DeviceProvisioningPayload)
    (json_envelope : JsonOf LinkEnvelope) where
  -- What follows once the code is read. The state is the list of the envelopes posted.
  unfoldable pub provision :
      ProvisionDraws
      → UserIdentity
      → ℕ
      → DeviceLinkQrPayload
      → Action (List OutgoingMessageEnvelope) LinkError OwnDeviceRecord
  unfolding provisioning_data link_envelope slave_record
  provision draws identity device_id qr = do
    slave_key ← lift (require (p.hex_to_bytes qr.ephemeral_pubkey_hex) link_library_error)
    let payload =
        p.utf8_encode (json_data.write (provisioning_data identity device_id draws.now qr))
    sealed ←
        lift (require (box.seal_box payload draws.nonce slave_key draws.secret) link_library_error)
    writes (λ posted. posted ++ link_envelope p box json_data json_envelope draws qr sealed ∷ [])
    lift (require draws.reply link_relay_failed)
    pure (slave_record qr device_id draws.created_at)

  unfoldable pub provision_slave_device :
      SearchParam
      → JsonOf DeviceLinkQrPayload
      → ProvisionDraws
      → Text
      → UserIdentity
      → ℕ
      → Action (List OutgoingMessageEnvelope) LinkError OwnDeviceRecord
  unfolding parse_link_qr_uri provision
  provision_slave_device search json draws uri identity device_id = do
    qr ← lift (as_link (parse_link_qr_uri p search json uri))
    provision draws identity device_id qr
