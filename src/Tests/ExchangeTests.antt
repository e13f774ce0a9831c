-- ===== src/Tests/ExchangeTests.antt =====
-- Contact URIs, device links and requests on small inputs.
use tor_e2ee_messenger.Common.{
  ◌≡◌, refl, true, false, Option, none, some, List, [], ◌∷◌, ◌++◌, Text, Bytes, codes, length, take,
  drop, text_keys,
}
use tor_e2ee_messenger.Crypto.{PreKeyBundle}
use tor_e2ee_messenger.Exchange.{SearchParam, JsonOf}
use tor_e2ee_messenger.Exchange.Contact.{ContactExportPayload, export_payload}
use tor_e2ee_messenger.Exchange.Import.{ImportDraws}
use tor_e2ee_messenger.Exchange.Link.{
  Box, DeviceLinkQrPayload, DeviceProvisioningPayload, LinkEnvelope, ProvisionDraws,
  provisioning_data, qr_payload,
}
use tor_e2ee_messenger.Network.HttpClient.Request.{
  fresh_request, RequestEvent, data_chunk, ended, timer_fired, request_steps,
}
use tor_e2ee_messenger.Network.HttpClient.Orderly.{
  Answered, closes_empty, is_quiet, request_steps-Settled, request_steps-hangs,
}
use tor_e2ee_messenger.Tests.Toy.{toy, stretch, open_after}
use tor_e2ee_messenger.Tests.Sessions.{identity}

-- The parameter `d` of a query that starts with `v=1&d=`.
abbrev search : SearchParam
search query key = some (drop 6 query)

-- One payload, with one text.
abbrev json_one : {A : Type 0} → A → JsonOf A
json_one a = record { write = λ _. codes "abcd"; read = λ _. some a }

abbrev signing_key : Bytes
signing_key = stretch 32 4

abbrev bundle : PreKeyBundle
bundle = record {
  identity_key_hex = toy.bytes_to_hex (stretch 32 5);
  signing_key_hex = toy.bytes_to_hex signing_key;
  signed_pre_key = record {
    key_id = 1;
    public_key_hex = codes "00ff";
    signature_hex = codes "00ff";
  };
  one_time_pre_key = none;
}

abbrev json : JsonOf ContactExportPayload
json = json_one (export_payload bundle (some (codes "Ann")))

abbrev import_draws : ImportDraws
import_draws = record {
  secret = stretch 32 8;
  session_created_at = 5;
  session_updated_at = 5;
  now = 5;
}

abbrev envelope_text : LinkEnvelope → Text
envelope_text e = length e.master_ephemeral_pk_hex ∷ e.master_ephemeral_pk_hex ++ e.encrypted_data

abbrev envelope_of : Text → Option LinkEnvelope
envelope_of [] = none
envelope_of (n ∷ t) =
    some (record { master_ephemeral_pk_hex = take n t; encrypted_data = drop n t })

abbrev envelope_json : JsonOf LinkEnvelope
envelope_json = record { write = envelope_text; read = envelope_of }

abbrev sealing : Bytes → Bytes → Bytes
sealing key secret = key ++ secret

-- A box under both public keys, which are the secret keys here.
abbrev toy_box : Box
toy_box = record {
  seal_box = λ m nonce key secret. some ((nonce ++ sealing key secret) ++ m);
  open_box = λ c nonce key secret. some (open_after (nonce ++ sealing secret key) c);
}

abbrev provision_draws : ProvisionDraws
provision_draws = record {
  secret = stretch 32 11;
  nonce = stretch 24 12;
  now = 13;
  created_at = 14;
  reply = some tt;
}

abbrev qr_json : JsonOf DeviceLinkQrPayload
qr_json = json_one (qr_payload toy (stretch 32 10) (codes "PC"))

abbrev data_json : JsonOf DeviceProvisioningPayload
data_json = json_one (provisioning_data identity 2 13 (qr_payload toy (stretch 32 10) (codes "PC")))

abbrev answered_events : List RequestEvent
answered_events = data_chunk (codes "HTTP/1.1 200 OK") ∷ ended ∷ []

open_answer : closes_empty answered_events [] ≡ false
unfolding closes_empty
open_answer = refl

request_steps-Settled_example : Answered (
    request_steps toy
      (data_chunk (codes "HTTP/1.1 200 OK") ∷ ended ∷ timer_fired ∷ [])
      fresh_request)
request_steps-Settled_example = request_steps-Settled toy answered_events open_answer

quiet_event : is_quiet timer_fired ≡ true
unfolding is_quiet
quiet_event = refl

request_steps-hangs_example :
    (request_steps toy (ended ∷ timer_fired ∷ []) fresh_request).settled ≡ none
request_steps-hangs_example = request_steps-hangs toy (timer_fired ∷ []) (quiet_event, tt)
