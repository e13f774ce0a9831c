-- ===== src/Network.antt =====
-- The network layer of the client: client/src/network.
pub mod Socks5
pub mod Frame
pub mod Client
pub mod TorManager
pub mod HttpClient
