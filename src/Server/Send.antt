-- ===== src/Server/Send.antt =====
-- Chat-Server/core/RequestHandler.cpp: sending a private message.
pub mod Checks
pub mod Recipients
pub mod Handler
pub mod Delivery
pub mod Answers
pub mod Spent
