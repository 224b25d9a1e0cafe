-- ===== src/PublishReadiness.antt =====
-- scripts/publish_readiness.py: the facts of a component and the receipt that carries them.
pub mod Facts
pub mod Exact
pub mod Receipt
mod Tests
