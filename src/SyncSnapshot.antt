-- ===== src/SyncSnapshot.antt =====
-- scripts/sync_contract_snapshot.py: the copy of the protocol files and of the SDK.
pub mod Tree
pub mod Sync
pub mod Install
pub mod Elsewhere
pub mod Stage
pub mod Publish
pub mod Sdk
mod Tests
