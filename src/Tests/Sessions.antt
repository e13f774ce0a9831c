-- ===== src/Tests/Sessions.antt =====
-- Sessions, messages and a store for the tests of client/src/crypto.
use tor_e2ee_messenger.Common.{
  ℕ, ◌≡◌, refl, ap, Bool, false, none, some, [], ◌∷◌, ◌++◌, Text, Bytes, codes, lookup, text_keys,
  arith,
}
use tor_e2ee_messenger.Common.Result.{ok}
use tor_e2ee_messenger.Platform.{IsUint8Array}
use tor_e2ee_messenger.Identity.{UserIdentity}
use tor_e2ee_messenger.Crypto.{SessionRecord, EncryptedMessage}
use tor_e2ee_messenger.Crypto.Kdf.{generate_curve25519_key_pair}
use tor_e2ee_messenger.Crypto.Store.{IsKeyPair}
use tor_e2ee_messenger.Crypto.Chains.{Draws}
use tor_e2ee_messenger.Crypto.ChainKeys.{chain_at, message_key_at}
use tor_e2ee_messenger.Crypto.InSync.{InSync, IsSealed, with_one, decrypt_with_key-opens}
use tor_e2ee_messenger.Crypto.Sealing.{Sends}
use tor_e2ee_messenger.Crypto.Agreement.{public_hex}
use tor_e2ee_messenger.Storage.Memory.{MemoryStore, memory_store}
use tor_e2ee_messenger.Tests.Toy.{toy, toy-IsPlatform, stretch, stretch-bytes, open_after-append}

pub pair_of-IsKeyPair : (n : ℕ) → IsKeyPair toy (generate_curve25519_key_pair toy (stretch 32 n))
unfolding generate_curve25519_key_pair
pair_of-IsKeyPair n = record {
  public = toy-IsPlatform.hex_round _ (stretch-bytes 32 n).1;
  secret = toy-IsPlatform.hex_round _ (stretch-bytes 32 n).1;
}

abbrev pub first : Bytes
first = stretch 32 5

pub first_bytes : IsUint8Array 32 first
first_bytes = stretch-bytes 32 5

abbrev pub remote : Text
remote = toy.bytes_to_hex (stretch 32 9)

abbrev pub listening : SessionRecord
listening = record {
  recipient_identity_key_hex = codes "a1";
  root_key_hex = toy.bytes_to_hex (stretch 32 1);
  send_chain_key_hex = none;
  receive_chain_key_hex = some (toy.bytes_to_hex first);
  local_dh_key_pair = generate_curve25519_key_pair toy (stretch 32 2);
  remote_dh_public_key_hex = some remote;
  send_sequence_number = 0;
  receive_sequence_number = 0;
  previous_chain_length = 0;
  skipped_message_keys = [];
  created_at = 1;
  updated_at = 1;
  one_time_pre_key_id = none;
}

abbrev pub no_numbers : ℕ → Bool
no_numbers _ = false

pub listening-InSync : InSync toy first remote no_numbers listening
listening-InSync = record {
  chain = unfold chain_at in refl;
  remote = refl;
  pair = pair_of-IsKeyPair 2;
  early = λ j h. cc;
  kept = λ j h. absurd (omega arith);
  used = λ j h. unfold lookup in refl;
  ahead = λ j h. unfold lookup in refl;
}

abbrev pub nonce : Bytes
nonce = stretch 24 77

abbrev pub incoming : ℕ → Text → EncryptedMessage
incoming n text = record {
  ephemeral_public_key_hex = remote;
  sequence_number = n;
  previous_chain_length = 0;
  ciphertext = (nonce ++ message_key_at toy n first) ++ text;
  nonce = toy.bytes_to_hex nonce;
  one_time_pre_key_id = none;
  initial_identity_key_hex = none;
  initial_ephemeral_key_hex = none;
}

pub incoming-IsSealed : (n : ℕ) (text : Text) → IsSealed toy first remote (incoming n text) text
incoming-IsSealed n text = record {
  ephemeral = refl;
  opens =
      decrypt_with_key-opens toy (incoming n text) (message_key_at toy n first) nonce text
        (toy-IsPlatform.hex_round nonce (stretch-bytes 24 77).1)
        (ap some (open_after-append (nonce ++ message_key_at toy n first) text));
}

abbrev pub identity : UserIdentity
identity = record {
  mnemonic = codes "seed";
  signing_key = record { public_key = []; secret_key = []; public_key_hex = [] };
  encryption_key = generate_curve25519_key_pair toy (stretch 32 3);
  recipient_pubkey_hash = codes "ff";
}

abbrev pub draws : Draws
draws = record {
  session_secret = stretch 32 40;
  ratchet_secret = stretch 32 41;
  created_at = 5;
  started_at = 5;
  now = 6;
}

abbrev pub sender : Text
sender = codes "a1"

abbrev pub holding : SessionRecord → MemoryStore
holding session = record {
  identity = identity;
  signed_pre_keys = [];
  one_time_pre_keys = [];
  sessions = (sender, session) ∷ [];
}

pub holding-found :
    (session : SessionRecord)
    → memory_store.get_session (holding session) sender ≡ ok (some session)
unfolding memory_store
holding-found session = refl

-- A session that sends, with the ephemeral secret 2.
abbrev pub local_hex : Text
local_hex = public_hex toy (stretch 32 2)

abbrev pub sending : SessionRecord
sending = record listening {
  send_chain_key_hex = some (toy.bytes_to_hex first);
  send_sequence_number = 0;
}

pub sending-Sends : Sends toy first local_hex sending
unfolding generate_curve25519_key_pair
sending-Sends = record { chain = unfold chain_at in refl; local = refl; pair = pair_of-IsKeyPair 2 }

-- A session that has received message 0 and nothing else.
abbrev pub only_zero : ℕ → Bool
only_zero = with_one 0 no_numbers

abbrev pub received_zero : SessionRecord
received_zero = record listening {
  receive_chain_key_hex = some (toy.bytes_to_hex (chain_at toy 1 first));
  receive_sequence_number = 1;
}

pub received_zero-InSync : InSync toy first remote only_zero received_zero
received_zero-InSync = record {
  chain = refl;
  remote = refl;
  pair = pair_of-IsKeyPair 2;
  early = λ j h. ground arith;
  kept = λ j lt h. absurd (ground arith);
  used = λ j h. unfold lookup in refl;
  ahead = λ j h. unfold lookup in refl;
}
