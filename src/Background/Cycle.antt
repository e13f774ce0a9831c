-- ===== src/Background/Cycle.antt =====
-- That `executeSync` of client/src/background/BackgroundSyncService.ts ends, and what it leaves.
use tor_e2ee_messenger.Common.{
  if◌then◌else◌, ◌≡◌, refl, Bool, true, false, Option, none, some, Text,
}
use tor_e2ee_messenger.Platform.{Platform}
use tor_e2ee_messenger.Crypto.Store.{SignalStore}
use tor_e2ee_messenger.Messenger.{Json}
use tor_e2ee_messenger.Messenger.Keeps.{IsSound}
use tor_e2ee_messenger.Network.TorManager.{
  TorManager, stopped, Started, is_started, awaits_native, throws, begin_start, finish_start,
  stop_tor, get_instance,
}
use tor_e2ee_messenger.Background.Settling.{settles, drain-HasSound, drain-settles}
use tor_e2ee_messenger.Background.Sync.{
  BackgroundSyncResult, Opening, opens_not, opens_half, notifies_not, opens_well, Bootstrap,
  bootstraps, fails_to_start, times_out, SyncDraws, BackgroundSyncConfig, in_dev_mode,
  sync_tor_config, Device, Drain, Ending, drain_queue, clean_up, drained, receive_queued,
  bootstrapped, networked, open_database, notified, start_networking, run_sync, execute_sync,
}

abbrev pub AtRest : Option TorManager → Type 0
AtRest none = Unit
AtRest (some m) = m.status ≡ stopped

module _ {S : Type 0} where
  -- No cycle runs, the database is closed where it can be, the socket is closed, Tor is at rest outside
  -- the mode for development, and the tables are sound.
  abbrev pub IsReleased : Bool → Bool → Device S → Type 0
  IsReleased dev_mode closes device =
      (device.is_running ≡ false)
      × (closes ≡ true → device.database_open ≡ false)
      × (device.socket_open ≡ false)
      × (dev_mode ≡ false → AtRest device.tor_manager)
      × IsSound device.sync_app.app.tables

  -- The cycle ends, and everything is released.
  abbrev pub Ends : Bool → Bool → Option (BackgroundSyncResult × Device S) → Type 0
  Ends dev_mode closes o =
      (result : BackgroundSyncResult) × (after : Device S) × (o ≡ some (result, after))
      × IsReleased dev_mode closes after

  chosen-Ends :
      (dev_mode closes b : Bool) (x y : Option (BackgroundSyncResult × Device S))
      → Ends dev_mode closes x
      → Ends dev_mode closes y
      → Ends dev_mode closes (if b then x else y)
  chosen-Ends dev_mode closes true x y h k = h
  chosen-Ends dev_mode closes false x y h k = k

module _ (p : Platform) {S : Type 0} (store : SignalStore S) (json : Json) where
  created-IsReleased :
      (dev_mode closes : Bool) (m : TorManager) (device : Device S)
      → device.tor_manager ≡ some m
      → IsSound device.sync_app.app.tables
      → IsReleased dev_mode closes (clean_up p store json dev_mode closes true device)
  unfolding clean_up stop_tor
  created-IsReleased dev_mode closes m device e h =
      (refl, (λ works. rw works refl), refl, (λ live. rw live (rw e refl)), h)

  idle-IsReleased :
      (dev_mode closes : Bool) (device : Device S)
      → AtRest device.tor_manager
      → IsSound device.sync_app.app.tables
      → IsReleased dev_mode closes (clean_up p store json dev_mode closes false device)
  unfolding clean_up
  idle-IsReleased dev_mode closes device rest h =
      (refl, (λ works. rw works refl), refl, (λ _. rest), h)

  unopened-IsReleased :
      (dev_mode closes : Bool) (device : Device S)
      → device.database_open ≡ false
      → AtRest device.tor_manager
      → IsSound device.sync_app.app.tables
      → IsReleased dev_mode closes (clean_up p store json dev_mode false false device)
  unfolding clean_up
  unopened-IsReleased dev_mode closes device shut rest h = (refl, (λ _. shut), refl, (λ _. rest), h)

  drained-Ends :
      (dev_mode closes good : Bool) (m : TorManager) (device : Device S) (x : Ending × Drain S)
      → x.0 ≡ some good
      → device.tor_manager ≡ some m
      → IsSound x.1.sync_app.app.tables
      → Ends dev_mode closes (drained p store json dev_mode closes device x)
  drained-Ends dev_mode closes good m device (none, d) e tor h = absurd cc
  drained-Ends dev_mode closes good m device (some true, d) e tor h = (
    _,
    _,
    refl,
    created-IsReleased dev_mode closes m (record device { sync_app = d.sync_app }) tor h,
  )
  drained-Ends dev_mode closes good m device (some false, d) e tor h = (
    _,
    _,
    refl,
    created-IsReleased dev_mode closes m (record device { sync_app = d.sync_app }) tor h,
  )

  module _ (config : BackgroundSyncConfig) (draws : SyncDraws) (own_key : Text)
      (quiet : settles false draws.socket_events ≡ true) where
    receive_queued-Ends :
        (m : TorManager) (device : Device S)
        → device.tor_manager ≡ some m
        → IsSound device.sync_app.app.tables
        → Ends
            (in_dev_mode config)
            draws.database_closes
            (receive_queued p store json config draws own_key device)
    unfolding receive_queued
    receive_queued-Ends m device tor h =
        let start : Drain S = record {
          timer_set = false;
          messages_received = 0;
          sync_app = device.sync_app;
        } in
        let (good, e) =
          drain-settles p store json own_key config.privacy_mode draws.socket_events start quiet in
        drained-Ends (in_dev_mode config) draws.database_closes good m
          (record device { socket_open = true })
          (drain_queue p store json own_key config.privacy_mode draws.socket_events start) e tor
          (drain-HasSound p store json own_key config.privacy_mode draws.socket_events start h)

    bootstrapped-Ends :
        (manager : TorManager) (b : Bootstrap) (device : Device S)
        → IsSound device.sync_app.app.tables
        → Ends
            (in_dev_mode config)
            draws.database_closes
            (bootstrapped p store json config draws own_key manager b device)
    unfolding bootstrapped
    bootstrapped-Ends manager bootstraps device h =
        receive_queued-Ends (finish_start true manager).2
          (record device { tor_manager = some (finish_start true manager).2 }) refl h
    bootstrapped-Ends manager fails_to_start device h = (
      _,
      _,
      refl,
      created-IsReleased (in_dev_mode config) draws.database_closes (finish_start false manager).2
          (record device { tor_manager = some (finish_start false manager).2 }) refl h,
    )
    bootstrapped-Ends manager times_out device h = (
      _,
      _,
      refl,
      created-IsReleased (in_dev_mode config) draws.database_closes manager
          (record device { tor_manager = some manager }) refl h,
    )

    networked-Ends :
        (s : Started) (manager : TorManager) (device : Device S)
        → IsSound device.sync_app.app.tables
        → Ends
            (in_dev_mode config)
            draws.database_closes
            (networked p store json config draws own_key s manager device)
    unfolding networked
    networked-Ends is_started manager device h =
        receive_queued-Ends manager (record device { tor_manager = some manager }) refl h
    networked-Ends awaits_native manager device h =
        bootstrapped-Ends manager draws.bootstrap device h
    networked-Ends throws manager device h = (
      _,
      _,
      refl,
      created-IsReleased (in_dev_mode config) draws.database_closes manager
          (record device { tor_manager = some manager }) refl h,
    )

    start_networking-Ends :
        (device : Device S)
        → IsSound device.sync_app.app.tables
        → Ends
            (in_dev_mode config)
            draws.database_closes
            (start_networking p store json config draws own_key device)
    unfolding start_networking
    start_networking-Ends device h =
        let manager = get_instance (sync_tor_config config.tor_config) device.tor_manager in
        let begun = begin_start draws.native_tor manager in networked-Ends begun.0 begun.2 device h

    open_database-Ends :
        (opening : Opening) (device : Device S)
        → AtRest device.tor_manager
        → IsSound device.sync_app.app.tables
        → Ends
            (in_dev_mode config)
            draws.database_closes
            (open_database p store json config draws own_key opening device)
    unfolding open_database
    open_database-Ends opens_not device rest h =
        (_, _, refl, idle-IsReleased _ _ (record device { database_open = false }) rest h)
    open_database-Ends opens_half device rest h =
        (_, _, refl, idle-IsReleased _ _ (record device { database_open = true }) rest h)
    open_database-Ends notifies_not device rest h =
        chosen-Ends (in_dev_mode config) draws.database_closes
          device.sync_app.notifications.is_initialized _ _
          (start_networking-Ends (notified p store json device) h)
          (_, _, refl, idle-IsReleased _ _ (record device { database_open = true }) rest h)
    open_database-Ends opens_well device rest h =
        start_networking-Ends (notified p store json device) h

  -- On a device where no cycle runs, the database is closed, Tor is at rest and the tables are sound: a
  -- cycle of the background synchronisation ends, whichever of the modelled outcomes the keychain, the
  -- database, the notifications, Tor and the messages have, as long as some event of the socket ends the
  -- wait for messages. It then no longer runs, the database is closed unless its `close` throws, the
  -- socket is closed, Tor is at rest outside the mode for development, and the tables are sound.
  pub execute_sync-Ends :
      (config : BackgroundSyncConfig) (draws : SyncDraws) (device : Device S)
      → settles false draws.socket_events ≡ true
      → device.is_running ≡ false
      → device.database_open ≡ false
      → AtRest device.tor_manager
      → IsSound device.sync_app.app.tables
      → Ends
          (in_dev_mode config)
          draws.database_closes
          (execute_sync p store json config draws device)
  unfolding execute_sync run_sync
  execute_sync-Ends config draws device quiet idle shut rest h =
      rw (idle, execute_sync) (runs draws.identity)
    where
      runs :
          (loaded : Option (Option Text))
          → Ends
              (in_dev_mode config)
              draws.database_closes
              (run_sync p store json config draws loaded (record device { is_running = true }))
      runs none = (
        _,
        _,
        refl,
        unopened-IsReleased (in_dev_mode config) draws.database_closes
            (record device { is_running = true }) shut rest h,
      )
      runs (some none) = (
        _,
        _,
        refl,
        unopened-IsReleased (in_dev_mode config) draws.database_closes
            (record device { is_running = true }) shut rest h,
      )
      runs (some (some own_key)) =
          open_database-Ends config draws own_key quiet draws.opening
            (record device { is_running = true }) rest h
