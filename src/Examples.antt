-- ===== src/Examples.antt =====
-- The theorems at concrete inputs, and runs of the model.
mod Protocol
mod Server
mod Crypto
mod Storage
mod Gateway
mod Prekeys
mod Messages
mod Send
mod OnlineRegistry
mod FileData
mod Files
mod Groups
mod FileHttp
mod FileControl
