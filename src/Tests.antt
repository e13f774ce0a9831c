-- ===== src/Tests.antt =====
-- The theorems at concrete inputs, over libraries that meet what the client relies on.
mod Toy
mod Sessions
mod CryptoTests
mod RatchetTests
mod NetworkTests
mod StorageTests
mod Wire
mod Chats
mod MessengerTests
mod ArrivingTests
mod BackgroundTests
mod ExchangeTests
mod IdentityTests
