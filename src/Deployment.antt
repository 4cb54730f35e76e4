-- ===== src/Deployment.antt =====
-- test-e2e/tokenBridgeDeploymentTest.ts: the test that a token bridge, deployed on two chains, is
-- initialized, owned and linked as it should be.
pub mod Views
pub mod Alias
pub mod Parent
pub mod Child
pub mod Owners
pub mod Run
pub mod CreationTest
mod Tests
