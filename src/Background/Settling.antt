-- ===== src/Background/Settling.antt =====
-- The wait for messages in `executeSync` of client/src/background/BackgroundSyncService.ts: when it ends, and
-- what it keeps.
use tor_e2ee_messenger.Common.{
  ◌≡◌, refl, sym, subst, Bool, true, false, none, some, List, [], ◌∷◌, Text, codes, if◌then◌else◌,
}
use tor_e2ee_messenger.Common.Result.{Result, ok, err, require}
use tor_e2ee_messenger.Common.Action.{pure}
use tor_e2ee_messenger.Platform.{Platform}
use tor_e2ee_messenger.Crypto.{EncryptedMessage}
use tor_e2ee_messenger.Crypto.Store.{SignalStore}
use tor_e2ee_messenger.Crypto.Cipher.{decrypt}
use tor_e2ee_messenger.Storage.Database.{ContactRecord}
use tor_e2ee_messenger.Storage.Messages.{save_message}
use tor_e2ee_messenger.Messenger.{AppError, bad_json, IncomingMessagePayload, Json, on_tables}
use tor_e2ee_messenger.Messenger.Sender.{resolve_sender}
use tor_e2ee_messenger.Messenger.Receive.{ReceiveDraws, received_at}
use tor_e2ee_messenger.Messenger.Actions.{Keeps, continue-Keeps, on_store-Keeps}
use tor_e2ee_messenger.Messenger.Keeps.{
  IsSound, HasKept, HasKept-same, save-Keeps, resolve-Keeps, written-Sound, save_contact-Sound,
}
use tor_e2ee_messenger.Background.{SyncApp}
use tor_e2ee_messenger.Background.Envelope.{
  envelope_row, save_envelope, open_envelope, receive_envelope, store_envelope, notified,
  process_incoming_envelope,
}
use tor_e2ee_messenger.Background.Sync.{
  SocketEvent, authenticated, disconnected, errored, connect_failed, drain_timeout, message, Drain,
  Ending, counted, on_event, decided, drain_queue,
}

-- Some event ends the wait: the socket closes or fails, or the drain timer fires once it was set.
unfoldable pub settles : Bool → List SocketEvent → Bool
settles timer [] = false
settles timer (authenticated ∷ events) = settles true events
settles timer (disconnected ∷ events) = true
settles timer (errored ∷ events) = true
settles timer (connect_failed ∷ events) = true
settles timer (drain_timeout ∷ events) =
    let later = settles timer events in if timer then true else later
settles timer (message _ _ _ ∷ events) = settles timer events

module _ (p : Platform) {S : Type 0} (store : SignalStore S) (json : Json) where
  module _ (own_key : Text) (privacy : Bool) where
    save_envelope-Keeps :
        (draws : ReceiveDraws) (payload : IncomingMessagePayload) (from : Text × ContactRecord)
        (t : Text)
        → Keeps
            (HasKept p store json IsSound written-Sound save_contact-Sound)
            (save_envelope p store json draws own_key payload from t)
    unfolding save_envelope
    save_envelope-Keeps draws payload from t app h =
        let row =
          envelope_row own_key from.0 draws.message_id from.1 t (received_at payload draws.now) in
        continue-Keeps (HasKept p store json IsSound written-Sound save_contact-Sound)
          (on_tables (save_message row) app).0 (λ _. pure (from.1, t))
          (on_tables (save_message row) app).1 (λ _ s q. q)
          (save-Keeps p store json IsSound written-Sound save_contact-Sound row app h)

    open_envelope-Keeps :
        (draws : ReceiveDraws) (payload : IncomingMessagePayload) (m : EncryptedMessage)
        (from : Text × ContactRecord)
        → Keeps
            (HasKept p store json IsSound written-Sound save_contact-Sound)
            (open_envelope p store json draws own_key payload m from)
    unfolding open_envelope
    open_envelope-Keeps draws payload m from app h =
        on_store-Keeps (HasKept p store json IsSound written-Sound save_contact-Sound)
          (decrypt p store draws.decrypting from.0 m)
          (save_envelope p store json draws own_key payload from) app
          (save_envelope-Keeps draws payload from)
          (HasKept-same p store json IsSound written-Sound save_contact-Sound app _ refl h)

    receive_envelope-Keeps :
        (draws : ReceiveDraws) (payload : IncomingMessagePayload) (m : EncryptedMessage)
        → Keeps
            (HasKept p store json IsSound written-Sound save_contact-Sound)
            (receive_envelope p store json draws own_key payload m)
    unfolding receive_envelope
    receive_envelope-Keeps draws payload m app h =
        let from = resolve_sender store (codes "Neznámý kontakt") draws.contact_created_at m app in
        continue-Keeps (HasKept p store json IsSound written-Sound save_contact-Sound) from.0
          (open_envelope p store json draws own_key payload m) from.1
          (open_envelope-Keeps draws payload m)
          (resolve-Keeps p store json IsSound written-Sound save_contact-Sound
            (codes "Neznámý kontakt") draws.contact_created_at m app h)

    store_envelope-Keeps :
        (draws : ReceiveDraws) (payload : IncomingMessagePayload)
        → Keeps
            (HasKept p store json IsSound written-Sound save_contact-Sound)
            (store_envelope p store json draws own_key payload)
    unfolding store_envelope
    store_envelope-Keeps draws payload app h =
        continue-Keeps (HasKept p store json IsSound written-Sound save_contact-Sound)
          (require (json.read_message payload.encrypted_payload) bad_json)
          (receive_envelope p store json draws own_key payload) app
          (receive_envelope-Keeps draws payload) h

    envelope-IsSound :
        (draws : ReceiveDraws) (id : Text) (payload : IncomingMessagePayload) (s : SyncApp S)
        → IsSound s.app.tables
        → IsSound
            (process_incoming_envelope p store json draws id own_key privacy payload s).1.app.tables
    unfolding process_incoming_envelope HasKept
    envelope-IsSound draws id payload s h =
        told (store_envelope p store json draws own_key payload s.app).0
          (record s { app = (store_envelope p store json draws own_key payload s.app).1 })
          (store_envelope-Keeps draws payload s.app h)
      where
        told :
            (r : Result AppError (ContactRecord × Text)) (t : SyncApp S)
            → IsSound t.app.tables
            → IsSound (notified p store json id privacy r t).1.app.tables
        told (ok c) t q = q
        told (err e) t q = q

    abbrev pub HasSound : Drain S → Type 0
    HasSound d = IsSound d.sync_app.app.tables

    on_event-HasSound :
        (e : SocketEvent) (d : Drain S)
        → HasSound d
        → HasSound (on_event p store json own_key privacy e d).1
    unfolding on_event
    on_event-HasSound authenticated d h = h
    on_event-HasSound disconnected d h = h
    on_event-HasSound errored d h = h
    on_event-HasSound connect_failed d h = h
    on_event-HasSound drain_timeout d h = h
    on_event-HasSound (message draws id payload) d h =
        let r =
          process_incoming_envelope p store json draws id own_key privacy payload d.sync_app in
        both r.0 r.1 (envelope-IsSound draws id payload d.sync_app h)
      where
        both :
            (r : Result AppError (Unit {0})) (s : SyncApp S)
            → IsSound s.app.tables
            → HasSound (counted p store json own_key privacy r s d)
        both (ok _) s q = q
        both (err _) s q = q

    decided-HasSound :
        (o : Ending) (d : Drain S) (later : Ending × Drain S)
        → HasSound d
        → HasSound later.1
        → HasSound (decided p store json own_key privacy o d later).1
    decided-HasSound (some good) d later q k = q
    decided-HasSound none d later q k = k

    pub drain-HasSound :
        (events : List SocketEvent) (d : Drain S)
        → HasSound d
        → HasSound (drain_queue p store json own_key privacy events d).1
    unfolding drain_queue
    drain-HasSound [] d h = h
    drain-HasSound (e ∷ events) d h =
        let r = on_event p store json own_key privacy e d in
        let next = on_event-HasSound e d h in
        decided-HasSound r.0 r.1 (drain_queue p store json own_key privacy events r.1) next
          (drain-HasSound events r.1 next)

    counted-timer :
        (r : Result AppError (Unit {0})) (s : SyncApp S) (d : Drain S)
        → (counted p store json own_key privacy r s d).timer_set ≡ d.timer_set
    counted-timer (ok _) s d = refl
    counted-timer (err _) s d = refl

    fires :
        (t : Bool) (d : Drain S) (later : Ending × Drain S) (x : Bool)
        → (x ≡ true → (good : Bool) × (later.0 ≡ some good))
        → (if t then true else x) ≡ true
        → (good : Bool) × ((decided p store json own_key privacy
              (if t then some true else none)
              d
              later).0
            ≡ some good)
    fires true d later x settled h = (true, refl)
    fires false d later x settled h = settled h

    pub drain-settles :
        (events : List SocketEvent) (d : Drain S)
        → settles d.timer_set events ≡ true
        → (good : Bool) × ((drain_queue p store json own_key privacy events d).0 ≡ some good)
    unfolding drain_queue on_event settles
    drain-settles [] d h = absurd cc
    drain-settles (authenticated ∷ events) d h =
        drain-settles events (record d { timer_set = true }) h
    drain-settles (disconnected ∷ events) d h = (true, refl)
    drain-settles (errored ∷ events) d h = (false, refl)
    drain-settles (connect_failed ∷ events) d h = (false, refl)
    drain-settles (drain_timeout ∷ events) d h =
        fires d.timer_set d (drain_queue p store json own_key privacy events d)
          (settles d.timer_set events) (drain-settles events d) h
    drain-settles (message draws id payload ∷ events) d h =
        let r =
          process_incoming_envelope p store json draws id own_key privacy payload d.sync_app in
        drain-settles events (counted p store json own_key privacy r.0 r.1 d)
          (subst (λ b. settles b events ≡ true) (sym (counted-timer r.0 r.1 d)) h)
