-- ===== src/Deployment/CreationTest.antt =====
-- The tests of test-e2e/creationCodeTest.ts: that the compiler and the Solidity library make the
-- same creation code for the templates of the child chain.
pub mod Generated
mod Tests
use token_bridge_contracts.Base.{
  ℕ, ◌==◌, Bool, false, Option, none, some, ◌++◌, codes, Text, text_eq, drop, if◌then◌else◌,
}
use token_bridge_contracts.Scripts.CreationCode.{
  Artifact, get_constructor_bytecode, length_in_bytes, get_creation_code_for,
}
use token_bridge_contracts.Deployment.Views.{
  NetworkJson, absent, unreadable, entries, Check, passed, failed, ◌>>=◌, ◌>>◌, or_throw, called,
  expect, rollup_info_missing, type_error, expectation,
}

-- the views of the creator that name a template
pub data Template : Type 0 where
  l2_router_template l2_standard_gateway_template l2_custom_gateway_template : Template
  l2_weth_gateway_template l2_multicall_template l2_token_bridge_factory_template : Template

-- What the tests read: `none` is a call that throws.
pub record CodeSetting : Type 0 where
  -- whether the contract that calls the library is deployed
  pub tester_deployed : Bool
  pub network_json : NetworkJson
  pub read_artifact : Text → Option Artifact
  pub template : Text → Template → Option Text
  pub get_code : Text → Option Text

abbrev pub ae_weth_expected_constructor_size : ℕ
ae_weth_expected_constructor_size = 348

abbrev pub upgrade_executor_expected_constructor_size : ℕ
upgrade_executor_expected_constructor_size = 242

abbrev pub creator_of_file : NetworkJson → Check Text
creator_of_file absent = failed rollup_info_missing
creator_of_file unreadable = failed type_error
creator_of_file (entries _ creator _) = or_throw creator type_error

-- the equality of a length with a whole number
abbrev pub is_size : Option ℕ → ℕ → Bool
is_size none size = false
is_size (some actual) size = actual == size

module _ (s : CodeSetting) where
  -- the hook before the tests
  unfoldable pub get_token_bridge_creator : Check Text
  get_token_bridge_creator =
      if s.tester_deployed then creator_of_file s.network_json else failed type_error

  unfoldable pub get_compiler_generated_creation_code : (contract_name : Text) → Check Text
  get_compiler_generated_creation_code contract_name = do
    artifact ← called (s.read_artifact contract_name)
    passed artifact.bytecode

  unfoldable pub get_solidity_lib_generated_creation_code : (template_address : Text) → Check Text
  get_solidity_lib_generated_creation_code template_address = do
    runtime_code ← called (s.get_code template_address)
    passed (codes "0x" ++ get_creation_code_for (drop 2 runtime_code))

  unfoldable pub expect_generated : (creator contract_name : Text) → Template → Check Unit
  unfolding get_compiler_generated_creation_code get_solidity_lib_generated_creation_code
  expect_generated creator contract_name template = do
    compiled ← get_compiler_generated_creation_code contract_name
    template_address ← called (s.template creator template)
    generated ← get_solidity_lib_generated_creation_code template_address
    expect (text_eq compiled generated)

  unfoldable pub templates_test : (creator : Text) → Check Unit
  unfolding expect_generated
  templates_test creator = do
    expect_generated creator (codes "L2GatewayRouter") l2_router_template
    expect_generated creator (codes "L2ERC20Gateway") l2_standard_gateway_template
    expect_generated creator (codes "L2CustomGateway") l2_custom_gateway_template
    expect_generated creator (codes "L2WethGateway") l2_weth_gateway_template
    expect_generated creator (codes "ArbMulticall2") l2_multicall_template
    expect_generated creator (codes "L2AtomicTokenBridgeFactory") l2_token_bridge_factory_template

  unfoldable pub expect_constructor_size : (contract_name : Text) → ℕ → Check Unit
  expect_constructor_size contract_name size = do
    artifact ← called (s.read_artifact contract_name)
    constructor_bytecode ← or_throw (get_constructor_bytecode artifact) type_error
    expect (is_size (length_in_bytes constructor_bytecode) size)

  -- the three tests of the file, where all pass
  unfoldable pub creation_code_test : Check Unit
  unfolding get_token_bridge_creator templates_test expect_constructor_size
  creation_code_test = do
    creator ← get_token_bridge_creator
    templates_test creator
    expect_constructor_size (codes "aeWETH") ae_weth_expected_constructor_size
    expect_constructor_size
        (codes "@offchainlabs/upgrade-executor/src/UpgradeExecutor.sol:UpgradeExecutor")
        upgrade_executor_expected_constructor_size
