-- ===== src/Tests/BackgroundTests.antt =====
-- Notifications, Tor and the background synchronisation on small inputs.
use tor_e2ee_messenger.Common.{
  ◌≡◌, refl, sym, ◌∙◌, true, false, none, some, [], ◌∷◌, Text, codes, to_lower, arith,
}
use tor_e2ee_messenger.Common.Result.{Result, ok}
use tor_e2ee_messenger.Crypto.{CryptoError}
use tor_e2ee_messenger.Crypto.Cipher.{decrypt}
use tor_e2ee_messenger.Storage.Contacts.{
  get_contact_by_identity_key, map_row_to_contact, find_identity,
}
use tor_e2ee_messenger.Storage.Memory.{MemoryStore, memory_store, memory_store-IsSignalStore}
use tor_e2ee_messenger.Messenger.Receive.{handle_incoming_message}
use tor_e2ee_messenger.Notifications.{
  Notifications, display_message_notification, display_message_notification-private,
}
use tor_e2ee_messenger.Background.{SyncApp}
use tor_e2ee_messenger.Background.Envelope.{process_incoming_envelope}
use tor_e2ee_messenger.Background.Agrees.{Alike, process_incoming_envelope-agrees}
use tor_e2ee_messenger.Background.Sync.{
  Device, SyncDraws, BackgroundSyncConfig, in_dev_mode, authenticated, drain_timeout, bootstraps,
  opens_well, execute_sync, message,
}
use tor_e2ee_messenger.Background.Settling.{settles}
use tor_e2ee_messenger.Background.Cycle.{Ends, execute_sync-Ends}
use tor_e2ee_messenger.Network.TorManager.{
  TorManager, not_initialized, begins, finishes, stops, present, PartialConfig, manager_steps,
  is_ready, begin_start, started_native, stopped_native, is_started,
}
use tor_e2ee_messenger.Network.TorManager.Status.{manager_steps-stopped_ready}
use tor_e2ee_messenger.Tests.Toy.{toy, toy-IsPlatform}
use tor_e2ee_messenger.Crypto.Delivery.{decrypt-step}
use tor_e2ee_messenger.Crypto.Ratchet.{decrypt_with_key}
use tor_e2ee_messenger.Tests.Chats.{
  named_message, toy_json, app, receive_draws, payload, app-IsSound, ann,
}
use tor_e2ee_messenger.Tests.Sessions.{
  first, first_bytes, remote, listening, listening-InSync, no_numbers, incoming-IsSealed, draws,
  sender, holding-found,
}

abbrev quiet_phone : Notifications
quiet_phone = record {
  has_notifee = true;
  notifications = [];
  platform = [];
  is_initialized = false;
}

display_message_notification-private_example :
    (display_message_notification
      (codes "n1")
      (codes "Ann")
      (codes "hi")
      (some (codes "c1"))
      true
      quiet_phone).1.platform
    ≡ (display_message_notification
        (codes "n1")
        (codes "Bob")
        (codes "no")
        (some (codes "c1"))
        true
        quiet_phone).1.platform
display_message_notification-private_example =
    display_message_notification-private (codes "n1") (codes "Ann") (codes "Bob") (codes "hi")
      (codes "no") (some (codes "c1")) quiet_phone

abbrev sync_app : SyncApp MemoryStore
sync_app = record { app = app; notifications = quiet_phone }

by_key : get_contact_by_identity_key (to_lower sender) app.tables ≡ some ann
unfolding get_contact_by_identity_key map_row_to_contact find_identity
by_key = refl

hi-opens :
    (decrypt toy memory_store draws
      (to_lower sender)
      (named_message (codes "hi"))
      app.signal_store).0
    ≡ ok (codes "hi")
unfolding decrypt_with_key
hi-opens =
    (decrypt-step toy toy-IsPlatform memory_store (memory_store-IsSignalStore toy) first first_bytes
      remote no_numbers listening listening-InSync (named_message (codes "hi")) (codes "hi")
      (let q = incoming-IsSealed 0 (codes "hi") in
        record { ephemeral = q.ephemeral; opens = q.opens })
      refl draws sender app.signal_store (holding-found listening) (omega arith)).1

plain_hi :
    (t : Text)
    → ◌≡◌ {A = Result CryptoError Text} (ok (codes "hi")) (ok t)
    → toy_json.read_sync t ≡ none
plain_hi t e = let same : codes "hi" ≡ t = cc in rw (sym same) refl

process_incoming_envelope-agrees_example :
    Alike
      (process_incoming_envelope toy memory_store toy_json receive_draws
        (codes "n1")
        (codes "b0")
        true
        (payload (codes "hi"))
        sync_app).1.app
      (handle_incoming_message toy memory_store toy_json receive_draws
        (codes "b0")
        (payload (codes "hi"))
        app).1
process_incoming_envelope-agrees_example =
    process_incoming_envelope-agrees toy memory_store toy_json receive_draws (codes "b0")
      (payload (codes "hi")) (codes "n1") sender true (named_message (codes "hi")) ann sync_app refl
      refl by_key (λ t e. plain_hi t (sym hi-opens ∙ e))

abbrev no_config : PartialConfig
no_config = record {
  socks_proxy_host = none;
  socks_proxy_port = none;
  target_host = none;
  target_port = none;
  dev_mode = none;
}

abbrev sync_config : BackgroundSyncConfig
sync_config = record { tor_config = no_config; privacy_mode = true }

abbrev device : Device MemoryStore
device = record {
  is_running = false;
  sync_app = sync_app;
  tor_manager = none;
  database_open = false;
  socket_open = false;
}

abbrev sync_draws : SyncDraws
sync_draws = record {
  identity = some (some (codes "b0"));
  opening = opens_well;
  database_closes = true;
  native_tor = present;
  bootstrap = bootstraps;
  socket_events =
      authenticated
      ∷ message receive_draws (codes "n1") (payload (codes "hi"))
      ∷ drain_timeout
      ∷ [];
}

drains : settles false sync_draws.socket_events ≡ true
unfolding settles
drains = refl

execute_sync-Ends_example :
    Ends
      (in_dev_mode sync_config)
      true
      (execute_sync toy memory_store toy_json sync_config sync_draws device)
execute_sync-Ends_example =
    execute_sync-Ends toy memory_store toy_json sync_config sync_draws device drains refl refl tt
      app-IsSound

abbrev manager : TorManager
manager = record {
  status = not_initialized;
  config = record {
    socks_proxy_host = codes "127.0.0.1";
    socks_proxy_port = 9050;
    target_host = codes "127.0.0.1";
    target_port = 8080;
    dev_mode = false;
  };
  bootstrap_percentage = 0;
  has_native = false;
  native_calls = [];
}

manager-idle : is_ready manager ≡ false
unfolding is_ready
manager-idle = refl

manager_steps-stopped_ready_example :
    (let after = manager_steps (begins present ∷ stops ∷ finishes true ∷ []) manager in
      (is_ready after ≡ true)
      × (after.native_calls ≡ started_native ∷ stopped_native ∷ [])
      × ((begin_start present after).0 ≡ is_started)
      × ((begin_start present after).2 ≡ after))
manager_steps-stopped_ready_example = manager_steps-stopped_ready manager present manager-idle refl
