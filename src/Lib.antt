-- ===== src/Lib.antt =====
-- A verification library for the client of this messenger (client/src): the end-to-end encryption,
-- the stores under it, the connection to the server, and what sends, receives, exchanges and
-- synchronises on top of them.
--
-- Parts. `Crypto` is client/src/crypto. CryptoEngine.ts is cut where the source is: `Crypto.Kdf` has
-- the key derivations, `Crypto.Bundle` generatePreKeyBundle, `Crypto.Handshake` and `Crypto.Initiate`
-- initiateSession and initiateBobSession, `Crypto.Ratchet` dhRatchetStep, skipMessageKeys and
-- decryptWithKey, `Crypto.Chains` and `Crypto.Cipher` encrypt and decrypt. `Crypto.Store` is the
-- interface ISignalStore.ts, with the laws that the engine relies on. `Storage.Memory` is
-- InMemorySignalStore.ts, one implementation of it, and `Storage.Sqlite` is
-- client/src/storage/SqliteSignalStore.ts, the other; `Storage.History` tells what each read gives
-- after any writes, without a store. `Storage.Database`, `Storage.Messages` and
-- `Storage.Contacts` are the tables of DatabaseManager.ts and the two repositories over them, and
-- `Storage.Migrations` and `Storage.DatabaseKey` its migrations and its key. `Identity` and `Identity.Keychain` are
-- client/src/identity/IdentityManager.ts. `Network.Frame` and `Network.Client` are
-- client/src/network/TorWebSocketClient.ts, `Network.Socks5` is Socks5Tunnel.ts, `Network.TorManager` is
-- TorManager.ts, and `Network.HttpClient` is TorHttpClient.ts. `Messenger` is
-- client/src/orchestration/AppOrchestrator.ts: `Messenger.Send` is sendOutboundMessage, `Messenger.Sender`
-- and `Messenger.Receive` are handleIncomingMessage. `Exchange.Contact` and `Exchange.Import` are
-- client/src/orchestration/ContactExchange.ts, `Exchange.Link` and `Exchange.Provision` are
-- client/src/devices/DeviceLinkManager.ts, and `Exchange.Uri` is the form of URI that the two share.
-- `Background` is client/src/background/BackgroundSyncService.ts: `Background.Envelope` is
-- processIncomingEnvelope, `Background.Sync` is executeSync; `Background.Task` is the headless task of
-- BackgroundSyncTask.ts. `Notifications` is
-- client/src/notifications/NotificationManager.ts. The engine is given a store, the WebSocket client the
-- identity's signature; the messenger is given the engine's store and runs the engine and the repositories
-- on one state.
--
-- State. A method that changes the store is an action: it takes the store and returns the result with
-- the store after it, also where it throws. The WebSocket client is a record, with a function for each
-- method and each callback; what it writes and which callbacks it calls are lists in it. A method that is
-- awaited in the middle, as startTor is, has a function for each part, so that other calls may come
-- between. Random bytes, the clock, and what the relay, the keychain, the native Tor and the socket answer
-- are arguments of each call.
--
-- Parameters. tweetnacl, @noble/hashes and the codecs of the runtime are the record `Platform`, with
-- what the client relies on in `IsPlatform`: the two sides of a Diffie-Hellman exchange compute one
-- secret, a sealed box opens under its own key and nonce, hex and base64 are undone. Nothing is assumed
-- about secrecy. `Tests.Toy` has functions that meet all of it. `nacl.box` is the record `Box`. JSON is a
-- parameter, as `Json` for messages and `JsonOf` for one kind of payload, and so is URLSearchParams.
--
-- Tables. A table is the list of its rows; where SQL leaves an order open, the rows keep the order of
-- the table. A foreign key that fails is an error, and leaves the tables as they were.
--
-- Fuel. The loop that reads frames runs on the length of the buffer. Each round takes two bytes or more,
-- and no round puts any back, so that is enough. The loop of skipMessageKeys runs once for each number. The
-- loop that pads base64 runs three times, and never needs more. The split of a header into lines runs on
-- its length, since each part takes a character or more.
--
-- Not modelled: the user interface, the native modules, the servers and the tester, the opening of the
-- database file, the registration of the background task, the upgrade exchange of the WebSocket and the
-- opening of the tunnel of a request, the wiring of the orchestrator and of the background cycle's
-- components, durations, and the text of JSON; that a caller of the store in memory could change a session
-- without saving it; that callbacks which await may overlap: each message of a background cycle is processed
-- to its end before the next event.
pub mod Common
pub mod Platform
pub mod Identity
pub mod Crypto
pub mod Storage
pub mod Network
pub mod Messenger
pub mod Notifications
pub mod Background
pub mod Exchange
pub mod Tests
