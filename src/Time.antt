-- ===== src/Time.antt =====
-- pkg/document/time: the logical clock of the documents.
pub mod ActorId
pub mod Ticket
pub mod Tests
