-- ===== src/Lib.antt =====
-- The token bridge: its upgrade tasks and deployment scripts.
--
-- The repository holds the gateways of a token bridge between a parent and a child chain, in
-- Solidity, and the TypeScript that deploys, upgrades, registers and verifies them. Here is the
-- TypeScript. A task reads the deployment files and the chain, sends transactions, and writes the
-- files again; a script estimates the fees of retryable tickets, approves and pays them, sends the
-- transaction that creates the tickets, and waits for the child chain. What is hard about both is
-- where they stop: a transaction reverts, a view throws, the user answers no, and what was sent or
-- written before stays.
--
-- Base holds what all share: Boolean tests, lists, texts as character codes, association lists.
--
-- Contracts is tasks/types.ts: the names (Contracts/Names), `proxyType`, `getLayer` and
-- `hasPostInitHook`, and the records of the deployment files.
--
-- Upgrades is tasks/index.ts, one definition for each closure of `initUpgrades` and one for each
-- round of its loops. Upgrades/Chain lists what is outside: transactions, and the views of the
-- chain, git, the terminal and JavaScript's sort, as functions of the transactions mined so far.
-- Upgrades/Monad is the state of a run, the three files of the network, the user's answers and the
-- mined transactions, with a throw and `process.exit` as values beside the state that they leave.
-- Upgrades/Files has the files and the guards, Upgrades/Slots the storage words, Upgrades/Deploy
-- `deployLogic`, Upgrades/Verify `verifyCurrentImplementations`, Upgrades/Update
-- `updateImplementations`, and Upgrades/Admin the other tasks. Upgrades/Triples has the rules for
-- postconditions of every outcome; the modules below a part hold its proofs.
--
-- Scripts is scripts/, test-mutation/ and a part of test-e2e/. Scripts/Chain and Scripts/Monad are
-- to the scripts what their namesakes are to the tasks: Scripts/Chain/Data has the records that the
-- scripts exchange with the SDK, with files and with explorers, Scripts/Chain the encoded calls and
-- the views of the chains and of the process, Scripts/Monad the mined transactions, the files that
-- are written, the commands that are run and the networks that the SDK is told. Scripts/Triples has
-- postconditions of every outcome and Scripts/Runs the steps of a run that goes through.
-- Scripts/Creations is the creation of contracts, with rules for it in Scripts/Creations/Rules and
-- for sequences of creations and initializations in Scripts/Creations/Traces.
--
-- Scripts/Fees has `_getScaledAmount` of scripts/local-deployment/localDeploymentLib.ts and
-- `_getPrescaledAmount` of scripts/usdc-bridge-deployment/deployUsdcBridge.ts, and Scripts/Usdc the
-- rest of that script: the environment, the gateways' initialization and the registration in
-- Scripts/Usdc, the bridged USDC in Scripts/Usdc/Token, `main` in Scripts/Usdc/Main. Of
-- scripts/atomicTokenBridgeDeployer.ts, `createTokenBridge` and `registerGateway` are
-- Scripts/Creator, `deployL1TokenBridgeCreator` is Scripts/Templates, and `getSigner` and
-- `getEstimateForDeployingFactory` are in Scripts/Entry. Scripts/Verifier is
-- scripts/contractVerifier.ts, Scripts/Networks what the scripts tell the SDK about a chain,
-- Scripts/Entry the two scripts of scripts/deployment/, Scripts/Local scripts/local-deployment/,
-- Scripts/Blockscout scripts/orbitVerifyOnBlockscout.ts, and Scripts/CreationCode the helpers of
-- test-e2e/creationCodeTest.ts, whose tests are Deployment/CreationTest, with
-- contracts/tokenbridge/libraries/CreationCodeHelper.sol.
-- Scripts/Compare is tasks/compareBytecode.ts. Scripts/Gambit has the batches and the totals of
-- test-mutation/gambitTester.ts, and Scripts/Register scripts/register_custom_token.ts with
-- scripts/upgradeTemplate.ts. The deployments call each other as in the source: a local
-- deployment is the deployment of the creator, then `createTokenBridge` by it, then
-- `registerGateway`.
--
-- Deployment is test-e2e/tokenBridgeDeploymentTest.ts: Deployment/Views is what it reads of the two
-- chains and its assertions, Deployment/Parent, Deployment/Child and Deployment/Owners are its
-- checks, and Deployment/Run the test with its entry points; Deployment/Run/Facts describes a sound
-- deployment, and the modules beside it read the checks one by one and put them together.
-- Deployment/Alias has `applyAlias` of test/testhelper.ts and
-- contracts/tokenbridge/libraries/AddressAliasHelper.sol.
--
-- A contract is created when its creation is mined. Those that the USDC script does not wait for
-- have their address as soon as the node has the transaction, which may still be reverted, and then
-- nothing is thrown. The transactions of both chains stand in one list.
--
-- Numbers are BigNumbers, hence natural numbers without a bound, but for the aliases, which wrap
-- around at 160 bits. Two loops are not over a list or a text: that over batches of mutants, whose
-- fuel is the number of mutants, enough as each round moves on by one mutant at least, and that
-- over the digits of an alias, whose fuel is the forty digits that 160 bits have at most.
--
-- Not modelled: the other Solidity contracts, which the scripts see as views and as transactions
-- that are mined or revert; console output; the copying of files for the mutation tests;
-- `getParsedLogs`; scripts/verify_upgrade.ts, scripts/utils.ts and
-- scripts/deploy_buddy_deployer.ts; the definitions of tasks; test-e2e/orbitTokenBridge.ts, whose
-- scenarios send fixed amounts and compare the balances that live nodes return.
pub mod Base
pub mod Contracts
pub mod Upgrades
pub mod Scripts
pub mod Deployment
