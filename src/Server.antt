-- ===== src/Server.antt =====
-- Chat-Server: the components of the server.
pub mod RateWindow
pub mod NonceCache
pub mod Storage
pub mod OnlineRegistry
pub mod Gateway
pub mod Database
pub mod FileHttp
pub mod FileControl
pub mod Reclaim
pub mod Send
