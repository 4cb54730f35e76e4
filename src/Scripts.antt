-- ===== src/Scripts.antt =====
-- The deployment scripts of scripts/ and the mutation tests of test-mutation/.
pub mod Fees
pub mod Gambit
pub mod Chain
pub mod Monad
pub mod Triples
pub mod Creations
pub mod Verifier
pub mod Networks
pub mod Templates
pub mod Usdc
pub mod Creator
pub mod Entry
pub mod Local
pub mod CreationCode
pub mod Blockscout
pub mod Compare
pub mod Register
mod Tests
pub mod Runs
