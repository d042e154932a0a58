-- ===== src/Server.antt =====
-- The server's records of clients and documents, and what it does with a pack that a client sends.
pub mod ClientInfo
pub mod Push
pub mod Pull
pub mod Exchange
pub mod Tests
