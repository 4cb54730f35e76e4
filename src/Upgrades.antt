-- ===== src/Upgrades.antt =====
-- tasks/index.ts: the upgrade tasks, which deploy logic contracts, point the proxies at them and
-- keep the deployment files. Definitions stand in the modules below, proofs in theirs.
pub mod Chain
pub mod Monad
pub mod Triples
pub mod Files
pub mod Slots
pub mod Deploy
pub mod Verify
pub mod Update
pub mod Admin
mod Tests
