-- ===== src/Deployment/Views.antt =====
-- What the deployment test reads of the two chains, and its assertions. Nothing is sent, so the
-- chains are functions that do not change; contracts, node and SDK are parameters.
use token_bridge_contracts.Base.{
  ℕ, ◌%◌, ◌==◌, Bool, true, false, not, Option, none, some, List, [], codes, Text, text_eq,
  to_lower, if◌then◌else◌,
}
use token_bridge_contracts.Upgrades.Slots.Words.{format_address}
use token_bridge_contracts.Scripts.Chain.{L1Deployment, L2Deployment}
use token_bridge_contracts.Scripts.Usdc.{is_set}

-- the views without arguments that the test calls
pub data View : Type 0 where
  default_gateway inbox router counterpart_gateway l2_beacon_proxy_factory : View
  beacon_proxy_factory cloneable_proxy_hash whitelist l1_weth l2_weth l2_gateway : View
  owner beacon implementation bridge native_token : View
  retryable_sender l1_multicall get_proxy_admin admin_role executor_role : View

-- One chain; `none` is a call that throws.
pub record Chain : Type 0 where
  pub read : Text → View → Option Text
  -- `l1TokenToGateway` and `getGateway` of a router, for a token
  pub l1_token_to_gateway : Text → Text → Option Text
  pub get_gateway : Text → Text → Option Text
  -- `hasRole` of an executor, for a role and an account
  pub has_role : Text → Text → Text → Option Bool
  pub get_code : Text → Option Text
  pub get_storage_at : Text → Text → Option Text
  pub chain_id : ℕ

-- The file network.json: there is none, it cannot be parsed or has no `ethBridge`, or its rollup,
-- creator and retryable sender.
pub data NetworkJson : Type 0 where
  absent unreadable : NetworkJson
  entries : (rollup l1_token_bridge_creator retryable_sender : Option Text) → NetworkJson

pub record Setting : Type 0 where
  pub l1 : Chain
  pub l2 : Chain
  pub env_var : Text → Option Text
  pub network_json : NetworkJson
  -- `ethers.utils.getAddress` and `BigNumber.from`
  pub get_address : Text → Option Text
  pub big_number_from : Text → Option ℕ
  -- the registry of the creator, for an inbox
  pub inbox_to_l1_deployment : Text → Text → Option L1Deployment
  pub inbox_to_l2_deployment : Text → Text → Option L2Deployment
  -- the owners in the creator's events OrbitTokenBridgeCreated for an inbox, the latest last
  pub logged_owners : Text → Text → Option (List Text)

pub data Failure : Type 0 where
  rollup_info_missing no_events call_failed type_error expectation : Failure

-- an assertion that fails is a throw too
pub data Check (A : Type 0) : Type 0 where
  passed : A → Check A
  failed : Failure → Check A

infixl 5 ◌>>=◌ ◌>>◌
abbrev pub ◌>>=◌ : {A B : Type 0} → Check A → (A → Check B) → Check B
passed a >>= f = f a
failed x >>= f = failed x

abbrev pub ◌>>◌ : {B : Type 0} → Check Unit → Check B → Check B
m >> k = m >>= λ _. k

abbrev pub or_throw : {A : Type 0} → Option A → Failure → Check A
or_throw none x = failed x
or_throw (some a) x = passed a

-- what a call returns
abbrev pub called : {A : Type 0} → Option A → Check A
called o = or_throw o call_failed

abbrev pub expect : Bool → Check Unit
expect true = passed tt
expect false = failed expectation

-- `expect(actual.toLowerCase()).to.be.eq(expected.toLowerCase())`
abbrev pub expect_same : (actual expected : Text) → Check Unit
expect_same actual expected = expect (text_eq (to_lower actual) (to_lower expected))

-- `expect((await view()).toLowerCase()).to.be.eq(expected.toLowerCase())`
unfoldable pub expect_view : Chain → (address : Text) → View → (expected : Text) → Check Unit
expect_view c address v expected = do
  actual ← called (c.read address v)
  expect_same actual expected

-- the same of a view and another text, with `not`
unfoldable pub expect_other : Chain → (address : Text) → View → (excluded : Text) → Check Unit
expect_other c address v excluded = do
  actual ← called (c.read address v)
  expect (not (text_eq (to_lower actual) excluded))

-- when code at address is empty, ethers.js returns '0x'
abbrev pub empty_code_length : ℕ
empty_code_length = 2

abbrev pub proxy_admin_slot : Text
proxy_admin_slot = codes "0xb53127684a568b3173ae13b9f8a6016e243e63b6e8ee1178d6a717850b5d6103"

abbrev pub logic_slot : Text
logic_slot = codes "0x360894a13ba1a3210667c828492db98dca3e2076cc3735a920a3ca505d382bbc"

module _ (n : Setting) (c : Chain) where
  unfoldable pub get_address_at_storage_slot : (contract_address slot : Text) → Check Text
  get_address_at_storage_slot contract_address slot = do
    value ← called (c.get_storage_at contract_address slot)
    if is_set (some value)
        then or_throw (n.get_address (format_address value)) type_error
        else passed []

  unfoldable pub get_proxy_admin_of : (contract_address : Text) → Check Text
  unfolding get_address_at_storage_slot
  get_proxy_admin_of contract_address = do
    address ← get_address_at_storage_slot contract_address proxy_admin_slot
    passed (to_lower address)

  unfoldable pub get_logic_address : (contract_address : Text) → Check Text
  unfolding get_address_at_storage_slot
  get_logic_address contract_address = do
    address ← get_address_at_storage_slot contract_address logic_slot
    passed (to_lower address)

  unfoldable pub get_owner : (contract_address : Text) → Check Text
  get_owner contract_address = do
    address ← called (c.read contract_address owner)
    passed (to_lower address)

  -- the low byte of slot 0
  unfoldable pub is_initialized : (contract_address : Text) → Check Bool
  is_initialized contract_address = do
    value ← called (c.get_storage_at contract_address (codes "0"))
    number ← or_throw (n.big_number_from value) type_error
    passed (number % 256 == 1)
