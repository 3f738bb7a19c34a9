-- ===== src/Server/Database.antt =====
-- Chat-Server/database: the tables that the server's logic rests on.
pub mod Prekeys
pub mod Messages
pub mod Members
pub mod Groups
pub mod Files
pub mod Tickets
