-- ===== src/Tests/RatchetTests.antt =====
-- Encryption, replay, the handshake and the ratchet at concrete inputs.
use tor_e2ee_messenger.Common.{ℕ, ◌≡◌, refl, false, none, some, [], Bytes, codes, lookup, text_keys}
use tor_e2ee_messenger.Common.Result.{ok}
use tor_e2ee_messenger.Platform.{IsUint8Array}
use tor_e2ee_messenger.Identity.{Curve25519KeyPair}
use tor_e2ee_messenger.Crypto.{
  SessionRecord, EncryptedMessage, PreKeyBundle, SignedPreKey, OneTimePreKey,
}
use tor_e2ee_messenger.Crypto.Kdf.{generate_curve25519_key_pair, kdf_root}
use tor_e2ee_messenger.Crypto.Ratchet.{skipped_key_id, decrypt_with_key, dh_ratchet_step}
use tor_e2ee_messenger.Crypto.Handshake.{alice_session, bob_session}
use tor_e2ee_messenger.Crypto.Chains.{sending_chain}
use tor_e2ee_messenger.Crypto.Cipher.{encrypt, decrypt}
use tor_e2ee_messenger.Crypto.ChainKeys.{chain_at, message_key_at}
use tor_e2ee_messenger.Crypto.InSync.{InSync, IsSealed}
use tor_e2ee_messenger.Crypto.Sealing.{Sends, encrypt-seals, sent_session}
use tor_e2ee_messenger.Crypto.Replay.{decrypt-replay_advances}
use tor_e2ee_messenger.Crypto.Agreement.{public_hex, handshake_agrees}
use tor_e2ee_messenger.Crypto.Turn.{Turn, dh_ratchet_step-turn, sending_chain-turn}
use tor_e2ee_messenger.Storage.Memory.{memory_store, memory_store-IsSignalStore}
use tor_e2ee_messenger.Tests.Toy.{toy, toy-IsPlatform, stretch, stretch-bytes}
use tor_e2ee_messenger.Tests.Sessions.{
  first, first_bytes, remote, listening, incoming, incoming-IsSealed, draws, sender, holding,
  holding-found, nonce, local_hex, sending, sending-Sends, received_zero, received_zero-InSync,
  only_zero,
}

abbrev sent : SessionRecord
sent =
    sent_session toy toy-IsPlatform first first_bytes local_hex sending sending-Sends nonce
      (stretch-bytes 24 77) (codes "hi") refl 9

encrypt-seals_example :
    (message : EncryptedMessage) × ((encrypt toy memory_store nonce 9 sender
        (codes "hi")
        none
        (holding sending)).0
      ≡ ok message)
    × (message.sequence_number ≡ 0)
    × IsSealed toy first local_hex message (codes "hi")
    × (memory_store.get_session
          (encrypt toy memory_store nonce 9 sender (codes "hi") none (holding sending)).1
          sender
        ≡ ok (some sent))
    × Sends toy first local_hex sent
encrypt-seals_example =
    encrypt-seals toy toy-IsPlatform first first_bytes local_hex sending sending-Sends nonce
      (stretch-bytes 24 77) (codes "hi") refl memory_store (memory_store-IsSignalStore toy) sender
      (holding sending) (holding-found sending) 9 none

decrypt-replay_advances_example :
    (after : SessionRecord) × (decrypt toy memory_store draws sender
        (incoming 0 (codes "a"))
        (holding received_zero)
      ≡ (
        decrypt_with_key toy (incoming 0 (codes "a")) (message_key_at toy 1 first),
        memory_store.save_session sender after (holding received_zero),
      ))
    × (memory_store.get_session
          (decrypt toy memory_store draws sender (incoming 0 (codes "a")) (holding received_zero)).1
          sender
        ≡ ok (some after))
    × (after.receive_sequence_number ≡ 2)
    × (after.receive_chain_key_hex ≡ some (toy.bytes_to_hex (chain_at toy 2 first)))
    × (lookup (skipped_key_id remote 1) after.skipped_message_keys ≡ none)
decrypt-replay_advances_example =
    decrypt-replay_advances toy toy-IsPlatform memory_store (memory_store-IsSignalStore toy) first
      first_bytes remote only_zero received_zero received_zero-InSync (incoming 0 (codes "a"))
      (codes "a") (incoming-IsSealed 0 (codes "a")) refl draws sender (holding received_zero)
      (holding-found received_zero)

abbrev pair : ℕ → Curve25519KeyPair
pair n = record {
  public_key = stretch 32 n;
  secret_key = stretch 32 n;
  public_key_hex = public_hex toy (stretch 32 n);
}

abbrev bob_spk : SignedPreKey
bob_spk = record { key_id = 4; key_pair = pair 21; signature_hex = codes "00"; created_at = 1 }

abbrev bob_opk : OneTimePreKey
bob_opk = record { key_id = 7; key_pair = pair 22 }

abbrev bundle : PreKeyBundle
bundle = record {
  identity_key_hex = public_hex toy (stretch 32 20);
  signing_key_hex = codes "00";
  signed_pre_key = record {
    key_id = 4;
    public_key_hex = public_hex toy (stretch 32 21);
    signature_hex = codes "00";
  };
  one_time_pre_key = some (record { key_id = 7; public_key_hex = public_hex toy (stretch 32 22) });
}

handshake_agrees_example :
    (chain : Bytes) × (a : SessionRecord) × (b : SessionRecord) × (alice_session toy
        (pair 10)
        (stretch 32 9)
        1
        1
        bundle
      ≡ ok a)
    × (bob_session toy
          (pair 20)
          bob_spk
          (some bob_opk)
          (stretch 32 10)
          (stretch 32 9)
          (stretch 32 30)
          2
          2
          sender
          (incoming 0 [])
        ≡ ok b)
    × (a.root_key_hex ≡ b.root_key_hex)
    × IsUint8Array 32 chain
    × Sends toy chain remote a
    × InSync toy chain remote (λ _. false) b
handshake_agrees_example =
    handshake_agrees toy toy-IsPlatform (pair 10) (pair 20) bob_spk (some bob_opk) (stretch 32 9)
      (stretch 32 30) bundle (incoming 0 []) (stretch-bytes 32 10) (stretch-bytes 32 20)
      (stretch-bytes 32 21) (stretch-bytes 32 9) (stretch-bytes 32 30) refl refl
      (refl, stretch-bytes 32 22) refl 1 1 2 2 sender

abbrev answering : SessionRecord
answering = record listening {
  root_key_hex = toy.bytes_to_hex (stretch 32 50);
  local_dh_key_pair = generate_curve25519_key_pair toy (stretch 32 52);
  remote_dh_public_key_hex = some (public_hex toy (stretch 32 51));
}

abbrev asking : SessionRecord
asking = record listening {
  root_key_hex = toy.bytes_to_hex (stretch 32 50);
  local_dh_key_pair = generate_curve25519_key_pair toy (stretch 32 51);
}

sending_chain-turn_example :
    (after : SessionRecord) × (chain : Bytes) × (sending_chain toy answering
      ≡ ok (after, toy.bytes_to_hex chain))
    × Sends toy chain (public_hex toy (stretch 32 52)) after
    × Turn toy asking after chain
sending_chain-turn_example =
    sending_chain-turn toy toy-IsPlatform asking answering (stretch 32 51) (stretch 32 52)
      (stretch 32 50) (stretch-bytes 32 51) (stretch-bytes 32 52) (stretch-bytes 32 50) refl refl
      refl refl refl refl refl

abbrev shared : Bytes
shared =
    (toy-IsPlatform.agreement (stretch 32 51) (stretch 32 52) (stretch-bytes 32 51)
      (stretch-bytes 32 52)).0

abbrev answered : SessionRecord
answered = record answering {
  root_key_hex = toy.bytes_to_hex (kdf_root toy (stretch 32 50) shared).next_root_key;
}

answered-Turn : Turn toy asking answered (kdf_root toy (stretch 32 50) shared).chain_key
answered-Turn = record {
  listener_secret = stretch 32 51;
  speaker_secret = stretch 32 52;
  root = stretch 32 50;
  dh = shared;
  listener_bytes = stretch-bytes 32 51;
  speaker_bytes = stretch-bytes 32 52;
  root_bytes = stretch-bytes 32 50;
  listener_pair = refl;
  speaker_pair = refl;
  shared =
      (toy-IsPlatform.agreement (stretch 32 51) (stretch 32 52) (stretch-bytes 32 51)
        (stretch-bytes 32 52)).1;
  listener_root = refl;
  speaker_root = refl;
  chain = refl;
}

dh_ratchet_step-turn_example :
    (after : SessionRecord) × (next : Bytes) × (dh_ratchet_step toy
        (stretch 32 53)
        asking
        (public_hex toy answered-Turn.speaker_secret)
      ≡ ok after)
    × InSync toy
        (kdf_root toy (stretch 32 50) shared).chain_key
        (public_hex toy answered-Turn.speaker_secret)
        (λ _. false)
        after
    × Sends toy next (public_hex toy (stretch 32 53)) after
    × Turn toy answered after next
    × (after.previous_chain_length ≡ 0)
dh_ratchet_step-turn_example =
    dh_ratchet_step-turn toy toy-IsPlatform asking answered
      (kdf_root toy (stretch 32 50) shared).chain_key (stretch 32 53) answered-Turn
      (stretch-bytes 32 53) (λ j. unfold lookup in refl)
