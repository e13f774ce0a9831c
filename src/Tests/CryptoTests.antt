-- ===== src/Tests/CryptoTests.antt =====
-- The theorems about client/src/crypto at concrete sessions and messages.
use tor_e2ee_messenger.Common.{
  ℕ, ◌+◌, ◌≤◌, ◌<◌, ◌≡◌, ◌≢◌, ◌↔◌, refl, some, List, [], ◌∷◌, Text, codes, lookup, text_keys, arith,
}
use tor_e2ee_messenger.Common.Result.{ok, err}
use tor_e2ee_messenger.Crypto.{SessionRecord, too_many_skipped}
use tor_e2ee_messenger.Crypto.Kdf.{max_skip_messages}
use tor_e2ee_messenger.Crypto.Ratchet.{skipped_key_id, skip_message_keys}
use tor_e2ee_messenger.Crypto.ChainKeys.{chain_at, message_key_at}
use tor_e2ee_messenger.Crypto.Skipping.{skip_message_keys-skips, skip_message_keys-throws_iff}
use tor_e2ee_messenger.Crypto.Delivery.{Arrival, decrypt_all, decrypt_all-any_order}
use tor_e2ee_messenger.Storage.Memory.{memory_store, memory_store-IsSignalStore}
use tor_e2ee_messenger.Tests.Toy.{toy, toy-IsPlatform}
use tor_e2ee_messenger.Tests.Sessions.{
  first, first_bytes, remote, listening, listening-InSync, no_numbers, incoming, incoming-IsSealed,
  draws, sender, holding, holding-found,
}

skip_message_keys-throws_iff_example :
    (skip_message_keys toy listening 2001 ≡ err too_many_skipped) ↔ (0 + max_skip_messages < 2001)
skip_message_keys-throws_iff_example =
    skip_message_keys-throws_iff toy toy-IsPlatform listening first remote 2001 refl first_bytes
      refl

skip_message_keys-skips_example :
    (after : SessionRecord) × (skip_message_keys toy listening 3 ≡ ok after)
    × (after.receive_chain_key_hex ≡ some (toy.bytes_to_hex (chain_at toy 3 first)))
    × (after.receive_sequence_number ≡ 3)
    × ((d : ℕ)
        → 0 + d < 3
        → lookup (skipped_key_id remote (0 + d)) after.skipped_message_keys
          ≡ some (toy.bytes_to_hex (message_key_at toy d first)))
    × ((id : Text)
        → ((j : ℕ) → 0 ≤ j → j < 3 → skipped_key_id remote j ≢ id)
        → lookup id after.skipped_message_keys ≡ lookup id [])
skip_message_keys-skips_example =
    skip_message_keys-skips toy toy-IsPlatform listening first remote 3 refl first_bytes refl
      (omega arith)

abbrev arrivals : List Arrival
arrivals =
    record { draws = draws; message = incoming 2 (codes "c"); plaintext = codes "c" }
    ∷ record { draws = draws; message = incoming 0 (codes "a"); plaintext = codes "a" }
    ∷ record { draws = draws; message = incoming 1 (codes "b"); plaintext = codes "b" }
    ∷ []

decrypt_all-any_order_example :
    decrypt_all toy memory_store sender arrivals (holding listening)
    ≡ ok (codes "c") ∷ ok (codes "a") ∷ ok (codes "b") ∷ []
decrypt_all-any_order_example =
    decrypt_all-any_order toy toy-IsPlatform memory_store (memory_store-IsSignalStore toy) first
      first_bytes remote no_numbers listening sender arrivals (holding listening) listening-InSync
      (holding-found listening)
      (
        refl,
        omega arith,
        incoming-IsSealed 2 (codes "c"),
        (
          refl,
          omega arith,
          incoming-IsSealed 0 (codes "a"),
          (refl, omega arith, incoming-IsSealed 1 (codes "b"), tt),
        ),
      )
