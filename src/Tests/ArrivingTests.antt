-- ===== src/Tests/ArrivingTests.antt =====
-- A message from one messenger to another.
use tor_e2ee_messenger.Common.{
  ◌≡◌, refl, false, none, some, [], ◌∷◌, Text, codes, to_lower, truthy, lookup, arith,
}
use tor_e2ee_messenger.Common.Result.{ok}
use tor_e2ee_messenger.Crypto.{SessionRecord}
use tor_e2ee_messenger.Crypto.ChainKeys.{chain_at}
use tor_e2ee_messenger.Crypto.InSync.{InSync}
use tor_e2ee_messenger.Crypto.Kdf.{generate_curve25519_key_pair}
use tor_e2ee_messenger.Storage.Database.{StoredMessage}
use tor_e2ee_messenger.Storage.Messages.{get_message_by_id, message_row}
use tor_e2ee_messenger.Storage.Memory.{MemoryStore, memory_store, memory_store-IsSignalStore}
use tor_e2ee_messenger.Messenger.{App, Json, OutgoingMessageEnvelope, IncomingMessagePayload}
use tor_e2ee_messenger.Messenger.Send.{Dispatch, dispatch}
use tor_e2ee_messenger.Messenger.Receive.{handle_incoming_message}
use tor_e2ee_messenger.Messenger.Arriving.{dispatch-arrives}
use tor_e2ee_messenger.Tests.Toy.{toy, toy-IsPlatform, stretch, stretch-bytes}
use tor_e2ee_messenger.Tests.Wire.{write_wire, read_wire, read_wire-write_wire}
use tor_e2ee_messenger.Tests.Chats.{app, alone, receive_draws, none-found}
use tor_e2ee_messenger.Tests.Sessions.{
  first, first_bytes, local_hex, listening, no_numbers, pair_of-IsKeyPair, sender, holding,
  holding-found, sending, sending-Sends, identity,
}

abbrev wire_json : Json
wire_json = record {
  write_message = write_wire;
  read_message = read_wire;
  write_sync = λ s. codes "sync";
  read_sync = λ t. none;
}

-- The session of the receiver, in step with the sender's chain.
abbrev hearing : SessionRecord
hearing = record listening { remote_dh_public_key_hex = some local_hex }

hearing-InSync : InSync toy first local_hex no_numbers hearing
hearing-InSync = record {
  chain = unfold chain_at in refl;
  remote = refl;
  pair = pair_of-IsKeyPair 2;
  early = λ j h. cc;
  kept = λ j h. absurd (omega arith);
  used = λ j h. unfold lookup in refl;
  ahead = λ j h. unfold lookup in refl;
}

abbrev sender_key : Text
sender_key = identity.encryption_key.public_key_hex

abbrev other_store : MemoryStore
other_store = record {
  identity = identity;
  signed_pre_keys = [];
  one_time_pre_keys = [];
  sessions = (to_lower sender_key, hearing) ∷ [];
}

abbrev other : App MemoryStore
other = record alone { signal_store = other_store }

abbrev sending_app : App MemoryStore
sending_app = record app { signal_store = holding sending }

other-found : memory_store.get_session other_store (to_lower sender_key) ≡ ok (some hearing)
unfolding memory_store generate_curve25519_key_pair
other-found = refl

sender_key-there : truthy (some sender_key) ≡ some sender_key
unfolding generate_curve25519_key_pair
sender_key-there = refl

own_key :
    (memory_store.get_identity sending_app.signal_store).encryption_key.public_key_hex ≡ sender_key
unfolding memory_store
own_key = refl

abbrev draw : Dispatch
draw = record { nonce = stretch 24 77; now = 9; reply = none }

dispatch-arrives_example :
    (e : OutgoingMessageEnvelope) × ((dispatch toy memory_store wire_json draw sender
        (codes "c9")
        (codes "hi")
        sending_app).1.posted
      ≡ e ∷ [])
    × (e.recipient_pubkey_hash ≡ codes "c9")
    × (let payload : IncomingMessagePayload = record {
      encrypted_payload = e.encrypted_payload;
      nonce = [];
      created_at = 4;
    } in
        let out =
          handle_incoming_message toy memory_store wire_json receive_draws
            (codes "b0")
            payload
            other in
        (m : StoredMessage) × (out.0 ≡ some m)
        × (m.body ≡ codes "hi")
        × (m.sender_identity_hex ≡ to_lower sender_key)
        × (m.is_outgoing ≡ false)
        × (m.is_read ≡ false)
        × (get_message_by_id (codes "m2") out.1.tables ≡ some (message_row m)))
dispatch-arrives_example =
    dispatch-arrives toy toy-IsPlatform wire_json memory_store (memory_store-IsSignalStore toy)
      memory_store (memory_store-IsSignalStore toy) first local_hex sender sender_key (codes "c9")
      (codes "hi") sending hearing no_numbers sending_app other draw receive_draws (codes "b0") 4 []
      first_bytes (stretch-bytes 24 77) sending-Sends hearing-InSync refl (omega arith)
      (holding-found sending) own_key other-found sender_key-there refl read_wire-write_wire refl tt
      (none-found (codes "m2"))
