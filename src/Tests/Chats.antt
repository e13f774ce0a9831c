-- ===== src/Tests/Chats.antt =====
-- A messenger in a small state, and what it is sent, for the tests of client/src/orchestration and
-- client/src/background.
use tor_e2ee_messenger.Common.{
  ℕ, ◌≡◌, refl, true, none, some, [], ◌∷◌, Text, codes, text_eq, if◌then◌else◌,
}
use tor_e2ee_messenger.Crypto.{EncryptedMessage}
use tor_e2ee_messenger.Storage.Database.{ContactRecord}
use tor_e2ee_messenger.Storage.Contacts.{get_contact_by_hash, map_row_to_contact}
use tor_e2ee_messenger.Storage.Messages.{get_message_by_id}
use tor_e2ee_messenger.Storage.Memory.{MemoryStore}
use tor_e2ee_messenger.Messenger.{App, Json, IncomingMessagePayload, DeviceSyncPayload}
use tor_e2ee_messenger.Messenger.Send.{Dispatch, SendDraws}
use tor_e2ee_messenger.Messenger.Receive.{ReceiveDraws}
use tor_e2ee_messenger.Messenger.Keeps.{IsSound}
use tor_e2ee_messenger.Tests.Toy.{stretch}
use tor_e2ee_messenger.Tests.Sessions.{listening, incoming, draws, sender, holding}

abbrev pub named_message : Text → EncryptedMessage
named_message t = record (incoming 0 t) { initial_identity_key_hex = some sender }

abbrev pub a_sync : DeviceSyncPayload
a_sync = record {
  original_recipient_hash = codes "ee";
  body = codes "forged";
  timestamp = 3;
  message_id = codes "m9";
}

-- A message stands for its plaintext.
abbrev pub toy_json : Json
toy_json = record {
  write_message = λ m. m.ciphertext;
  read_message = λ t. some (named_message t);
  write_sync = λ s. codes "sync";
  read_sync = λ t. (if text_eq t (codes "sync") then some a_sync else none);
}

abbrev pub row : ContactRecord
row = record {
  recipient_pubkey_hash = codes "c1";
  identity_pubkey_hex = sender;
  signing_pubkey_hex = [];
  alias_name = some (codes "Ann");
  created_at = 1;
  linked_devices = [];
}

abbrev pub app : App MemoryStore
app = record {
  signal_store = holding listening;
  tables = record { contacts = (codes "c1", row) ∷ []; messages = []; own_linked_devices = [] };
  posted = [];
  events = [];
}

abbrev pub dispatch_draw : ℕ → Dispatch
dispatch_draw _ = record { nonce = stretch 24 1; now = 7; reply = some true }

abbrev pub send_draws : SendDraws
send_draws = record {
  message_id = codes "m1";
  now = 7;
  to_devices = dispatch_draw;
  to_own_devices = dispatch_draw;
}

abbrev pub receive_draws : ReceiveDraws
receive_draws = record {
  decrypting = draws;
  message_id = codes "m2";
  contact_created_at = 8;
  synced_created_at = 8;
  now = 9;
}

abbrev pub payload : Text → IncomingMessagePayload
payload t = record { encrypted_payload = t; nonce = []; created_at = 4 }

pub app-IsSound : IsSound app.tables
app-IsSound = (tt, ((refl, refl), tt))

abbrev pub ann : ContactRecord
ann = record row {
  linked_devices =
      (record {
        device_id = 1;
        recipient_pubkey_hash = codes "c1";
        identity_pubkey_hex = sender;
        device_name = some (codes "Primary Device");
        created_at = 1;
      })
      ∷ [];
}

pub ann-found : get_contact_by_hash (codes "C1") app.tables ≡ some ann
unfolding get_contact_by_hash map_row_to_contact
ann-found = refl

-- unknown to the tables
abbrev pub alone : App MemoryStore
alone = record app { tables = record { contacts = []; messages = []; own_linked_devices = [] } }

pub none-found : (id : Text) → get_message_by_id id alone.tables ≡ none
unfolding get_message_by_id
none-found id = refl
