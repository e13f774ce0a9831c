-- ===== src/Background.antt =====
-- client/src/background: the synchronisation that the system starts while the app is closed. The state is
-- that of the messenger, of which no envelope is posted and no event is emitted here, and the
-- notifications.
pub mod Envelope
pub mod Agrees
pub mod Sync
pub mod Task
pub mod Settling
pub mod Cycle
use tor_e2ee_messenger.Messenger.{App}
use tor_e2ee_messenger.Notifications.{Notifications}

pub record SyncApp (S : Type 0) : Type 0 where
  pub app : App S
  pub notifications : Notifications
