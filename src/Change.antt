-- ===== src/Change.antt =====
-- pkg/document/change: the identity of changes, the context that records one, and packs.
pub mod Id
pub mod Context
pub mod Change
pub mod Pack
pub mod Tests
