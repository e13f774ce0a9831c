-- ===== src/Background/Sync.antt =====
-- `executeSync` of client/src/background/BackgroundSyncService.ts. What the keychain, the database file,
-- Tor and the socket do are arguments; the callbacks of the socket run one after the other. The clock is
-- left out, so a result has no duration.
use tor_e2ee_messenger.Common.{
  ℕ, ◌+◌, Bool, true, false, not, ◌&&◌, Option, none, some, List, [], ◌∷◌, Text, codes, nat_eq,
  if◌then◌else◌,
}
use tor_e2ee_messenger.Common.Result.{Result, ok, err}
use tor_e2ee_messenger.Platform.{Platform}
use tor_e2ee_messenger.Crypto.Store.{SignalStore}
use tor_e2ee_messenger.Messenger.{AppError, IncomingMessagePayload, Json}
use tor_e2ee_messenger.Messenger.Receive.{ReceiveDraws}
use tor_e2ee_messenger.Network.TorManager.{
  TorManager, NativeTor, PartialConfig, Started, is_started, awaits_native, throws, begin_start,
  finish_start, stop_tor, get_instance, or_else, text_or, port_or,
}
use tor_e2ee_messenger.Notifications.{initialize}
use tor_e2ee_messenger.Background.{SyncApp}
use tor_e2ee_messenger.Background.Envelope.{process_incoming_envelope}

pub data BackgroundFetchResult : Type 0 where
  new_data no_data failed skipped_no_identity : BackgroundFetchResult

pub data SyncError : Type 0 where
  already_running keychain_failed database_failed notifications_failed tor_failed tor_timed_out
        socket_failed :
      SyncError

pub record BackgroundSyncResult : Type 0 where
  pub status : BackgroundFetchResult
  pub messages_received : ℕ
  pub error : Option SyncError

-- What the socket does: its callbacks, the end of the drain timer, and a `connect` that throws.
pub data SocketEvent : Type 0 where
  authenticated disconnected errored connect_failed drain_timeout : SocketEvent
  message : ReceiveDraws → Text → IncomingMessagePayload → SocketEvent

-- How the opening of the database ends: `initialize` of the manager may throw before its connection is
-- there or after it, and then `initialize` of the notifications may throw,
-- where they were not initialized before.
pub data Opening : Type 0 where
  opens_not opens_half notifies_not opens_well : Opening

-- How the native start ends, if it ends before the bootstrap times out.
pub data Bootstrap : Type 0 where
  bootstraps fails_to_start times_out : Bootstrap

pub record SyncDraws : Type 0 where
  -- `loadIdentityFromKeychain` may throw; the identity is its public encryption key here
  pub identity : Option (Option Text)
  pub opening : Opening
  -- whether `close` of the manager returns; where it throws, the connection stays
  pub database_closes : Bool
  pub native_tor : NativeTor
  pub bootstrap : Bootstrap
  pub socket_events : List SocketEvent

pub record BackgroundSyncConfig : Type 0 where
  pub tor_config : PartialConfig
  pub privacy_mode : Bool

-- The configuration of Tor, with the defaults filled in.
unfoldable pub sync_tor_config : PartialConfig → PartialConfig
sync_tor_config config = record {
  socks_proxy_host = some (text_or config.socks_proxy_host (codes "127.0.0.1"));
  socks_proxy_port = some (port_or config.socks_proxy_port 9050);
  target_host = some (text_or config.target_host (codes "127.0.0.1"));
  target_port = some (port_or config.target_port 8080);
  dev_mode = some (or_else config.dev_mode false);
}

abbrev pub in_dev_mode : BackgroundSyncConfig → Bool
in_dev_mode config = or_else config.tor_config.dev_mode false

-- The device: the flag of the service, the singletons, whether the connection of the last database
-- manager is open, and whether a socket is.
pub record Device (S : Type 0) : Type 0 where
  pub is_running : Bool
  pub sync_app : SyncApp S
  pub tor_manager : Option TorManager
  pub database_open : Bool
  pub socket_open : Bool

-- While messages are drained: whether the drain timer runs, and how many messages were received.
pub record Drain (S : Type 0) : Type 0 where
  pub timer_set : Bool
  pub messages_received : ℕ
  pub sync_app : SyncApp S

-- How the wait for messages ends; `none` while it goes on.
abbrev pub Ending : Type 0
Ending = Option Bool

abbrev pub finished : ℕ → Option SyncError → BackgroundSyncResult
finished n (some e) = record { status = failed; messages_received = n; error = some e }
finished n none = record {
  status = if nat_eq n 0 then no_data else new_data;
  messages_received = n;
  error = none;
}

module _ (p : Platform) {S : Type 0} (store : SignalStore S) (json : Json) (own_key : Text)
    (privacy_mode : Bool) where
  abbrev pub counted : Result AppError (Unit {0}) → SyncApp S → Drain S → Drain S
  counted (ok _) app d = record d { messages_received = d.messages_received + 1; sync_app = app }
  counted (err _) app d = record d { sync_app = app }

  -- One event; a message that fails is ignored.
  unfoldable pub on_event : SocketEvent → Drain S → Ending × Drain S
  unfolding process_incoming_envelope
  on_event authenticated d = (none, record d { timer_set = true })
  on_event disconnected d = (some true, d)
  on_event errored d = (some false, d)
  on_event connect_failed d = (some false, d)
  on_event drain_timeout d = (if d.timer_set then some true else none, d)
  on_event (message draws id payload) d =
      let r =
        process_incoming_envelope p store json draws id own_key privacy_mode payload d.sync_app in
      (none, counted r.0 r.1 d)

  abbrev pub decided : Ending → Drain S → Ending × Drain S → Ending × Drain S
  decided (some good) d later = (some good, d)
  decided none d later = later

  -- The first ending decides; later events no longer count.
  unfoldable pub drain_queue : List SocketEvent → Drain S → Ending × Drain S
  unfolding on_event
  drain_queue [] d = (none, d)
  drain_queue (e ∷ events) d =
      let r = on_event e d in let later = drain_queue events r.1 in decided r.0 r.1 later

module _ (p : Platform) {S : Type 0} (store : SignalStore S) (json : Json) where
  -- The `finally` block: what `close` throws is ignored. `closes` is false too where no manager was made.
  unfoldable pub clean_up : Bool → Bool → Bool → Device S → Device S
  unfolding stop_tor
  clean_up dev_mode closes tor_created device = record device {
    is_running = false;
    database_open = if closes then false else device.database_open;
    socket_open = false;
    tor_manager =
        if tor_created && not dev_mode
        then elim device.tor_manager [ none ↦ none | some m ↦ some (stop_tor m) ]
        else device.tor_manager;
  }

  abbrev pub ended :
      Bool → Bool → ℕ → Option SyncError → Bool → Device S → BackgroundSyncResult × Device S
  ended dev_mode closes n e tor_created device =
      (finished n e, clean_up dev_mode closes tor_created device)

  abbrev pub drained :
      Bool → Bool → Device S → Ending × Drain S → Option (BackgroundSyncResult × Device S)
  drained dev_mode closes device (none, d) = none
  drained dev_mode closes device (some true, d) = some (
      ended dev_mode closes d.messages_received none true (record device { sync_app = d.sync_app }))
  drained dev_mode closes device (some false, d) = some (
      ended dev_mode closes d.messages_received (some socket_failed) true
        (record device { sync_app = d.sync_app }))

  -- Part 4: the wait for messages.
  unfoldable pub receive_queued :
      BackgroundSyncConfig → SyncDraws → Text → Device S → Option (BackgroundSyncResult × Device S)
  unfolding drain_queue clean_up
  receive_queued config draws own_key device =
      let open_device = record device { socket_open = true } in
      drained (in_dev_mode config) draws.database_closes open_device (
        drain_queue p store json own_key config.privacy_mode draws.socket_events
          (record { timer_set = false; messages_received = 0; sync_app = device.sync_app }))

  -- The native start is over or out of time.
  unfoldable pub bootstrapped :
      BackgroundSyncConfig
      → SyncDraws
      → Text
      → TorManager
      → Bootstrap
      → Device S
      → Option (BackgroundSyncResult × Device S)
  unfolding receive_queued finish_start clean_up
  bootstrapped config draws own_key manager bootstraps device =
      receive_queued config draws own_key
        (record device { tor_manager = some (finish_start true manager).2 })
  bootstrapped config draws own_key manager fails_to_start device = some (
      ended (in_dev_mode config) draws.database_closes 0 (some tor_failed) true
        (record device { tor_manager = some (finish_start false manager).2 }))
  bootstrapped config draws own_key manager times_out device = some (
      ended (in_dev_mode config) draws.database_closes 0 (some tor_timed_out) true
        (record device { tor_manager = some manager }))

  -- What the first step of the start comes to.
  unfoldable pub networked :
      BackgroundSyncConfig
      → SyncDraws
      → Text
      → Started
      → TorManager
      → Device S
      → Option (BackgroundSyncResult × Device S)
  unfolding receive_queued bootstrapped clean_up
  networked config draws own_key is_started manager device =
      receive_queued config draws own_key (record device { tor_manager = some manager })
  networked config draws own_key awaits_native manager device =
      bootstrapped config draws own_key manager draws.bootstrap device
  networked config draws own_key throws manager device = some (
      ended (in_dev_mode config) draws.database_closes 0 (some tor_failed) true
        (record device { tor_manager = some manager }))

  -- Part 3: the start of Tor.
  unfoldable pub start_networking :
      BackgroundSyncConfig → SyncDraws → Text → Device S → Option (BackgroundSyncResult × Device S)
  unfolding get_instance sync_tor_config begin_start networked
  start_networking config draws own_key device =
      let manager = get_instance (sync_tor_config config.tor_config) device.tor_manager in
      let begun = begin_start draws.native_tor manager in
      networked config draws own_key begun.0 begun.2 device

  -- The database is open and the notifications are set up.
  abbrev pub notified : Device S → Device S
  unfolding initialize
  notified device = record device {
    database_open = true;
    sync_app = record device.sync_app { notifications = initialize device.sync_app.notifications };
  }

  -- Part 2, with an identity: the database is opened, and the notifications are set up.
  unfoldable pub open_database :
      BackgroundSyncConfig
      → SyncDraws
      → Text
      → Opening
      → Device S
      → Option (BackgroundSyncResult × Device S)
  unfolding start_networking clean_up
  open_database config draws own_key opens_not device = some (
      ended (in_dev_mode config) draws.database_closes 0 (some database_failed) false
        (record device { database_open = false }))
  open_database config draws own_key opens_half device = some (
      ended (in_dev_mode config) draws.database_closes 0 (some database_failed) false
        (record device { database_open = true }))
  open_database config draws own_key notifies_not device =
      if device.sync_app.notifications.is_initialized
      then start_networking config draws own_key (notified device)
      else some (
          ended (in_dev_mode config) draws.database_closes 0 (some notifications_failed) false
            (record device { database_open = true }))
  open_database config draws own_key opens_well device =
      start_networking config draws own_key (notified device)

  -- The body of the `try`, with the `catch` and the `finally` where it ends.
  unfoldable pub run_sync :
      BackgroundSyncConfig
      → SyncDraws
      → Option (Option Text)
      → Device S
      → Option (BackgroundSyncResult × Device S)
  unfolding open_database clean_up
  run_sync config draws none device =
      some (ended (in_dev_mode config) false 0 (some keychain_failed) false device)
  run_sync config draws (some none) device = some (
    record { status = skipped_no_identity; messages_received = 0; error = none },
    clean_up (in_dev_mode config) false false device,
  )
  run_sync config draws (some (some own_key)) device =
      open_database config draws own_key draws.opening device

  -- `none` where the wait for messages does not end.
  unfoldable pub execute_sync :
      BackgroundSyncConfig → SyncDraws → Device S → Option (BackgroundSyncResult × Device S)
  unfolding run_sync
  execute_sync config draws device =
      if device.is_running
      then some
          (record { status = no_data; messages_received = 0; error = some already_running }, device)
      else run_sync config draws draws.identity (record device { is_running = true })
