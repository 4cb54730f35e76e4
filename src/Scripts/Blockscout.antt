-- ===== src/Scripts/Blockscout.antt =====
-- scripts/orbitVerifyOnBlockscout.ts: the contracts of the child chain are handed to the explorer
-- one by one, and an error of the explorer is only logged.
pub mod Requests
pub mod Steps
pub mod Complete
use token_bridge_contracts.Base.{
  Bool, true, false, not, ◌&&◌, Option, none, some, List, [], ◌∷◌, codes, Text, to_lower, includes,
  if◌then◌else◌,
}
use token_bridge_contracts.Upgrades.Slots.Words.{format_address}
use token_bridge_contracts.Scripts.Chain.{
  Net, VerifyRequest, VerifyOutcome, verified, already_verified, not_verified, ae_weth_factory,
  upgrade_executor_factory,
}
use token_bridge_contracts.Scripts.Monad.{
  Script, pure, view, or_fail, fail_if, done, ◌>>=◌, ◌>>◌, type_error, explorer_env_missing,
}
use token_bridge_contracts.Scripts.Creations.{deploy}
use token_bridge_contracts.Scripts.Usdc.{is_set}

-- the slot of the implementation in a proxy
abbrev pub implementation_slot : Text
implementation_slot = codes "0x360894a13ba1a3210667c828492db98dca3e2076cc3735a920a3ca505d382bbc"

-- the `try`
unfoldable pub outcome : Option Text → VerifyOutcome
outcome none = verified
outcome (some message) =
    if includes (codes "Already Verified") message then already_verified else not_verified message

module _ (n : Net) where
  unfoldable pub verify_contract :
      (contract_name contract_address : Text) → List Text → Option Text → Script Unit
  unfolding outcome
  verify_contract contract_name contract_address constructor_arguments contract_path w =
      let request : VerifyRequest = record {
        contract_name = contract_name;
        address = contract_address;
        constructor_arguments = constructor_arguments;
        contract = contract_path;
      } in
      (
        done tt,
        record w { requests = (request, outcome (n.verify_error w.txs request)) ∷ w.requests },
      )

  -- `getStorageAt` and the address in the word; an empty word has the empty address
  unfoldable pub get_address_at_storage_slot : (contract_address slot : Text) → Script Text
  unfolding format_address
  get_address_at_storage_slot contract_address slot = do
    value ← view (λ txs. n.storage_at txs contract_address slot)
    if is_set (some value)
        then or_fail (n.get_address (format_address value)) type_error
        else pure []

  unfoldable pub get_logic_address : Text → Script Text
  unfolding get_address_at_storage_slot
  get_logic_address contract_address = do
    address ← get_address_at_storage_slot contract_address implementation_slot
    pure (to_lower address)

  unfoldable pub verify_logic : (contract_name proxy : Text) → Script Unit
  unfolding get_logic_address verify_contract
  verify_logic contract_name proxy = do
    logic ← get_logic_address proxy
    verify_contract contract_name logic [] none

  -- a dummy with the same bytecode, under the deployer's key
  unfoldable pub verify_special_cases : Script Unit
  unfolding deploy verify_contract
  verify_special_cases = do
    dummy_weth ← deploy n ae_weth_factory []
    verify_contract (codes "aeWETH") dummy_weth [] none
    dummy_executor ← deploy n upgrade_executor_factory []
    verify_contract (codes "UpgradeExecutor") dummy_executor [] none

  unfoldable pub verify_on_blockscout : Script Unit
  unfolding verify_contract verify_logic verify_special_cases
  verify_on_blockscout = do
    fail_if
        (not (
          is_set (n.env_var (codes "BASECHAIN_RPC"))
          && is_set (n.env_var (codes "L1_TOKEN_BRIDGE_CREATOR"))
          && is_set (n.env_var (codes "INBOX_ADDRESS"))))
        explorer_env_missing
    creator ← or_fail (n.env_var (codes "L1_TOKEN_BRIDGE_CREATOR")) type_error
    inbox ← or_fail (n.env_var (codes "INBOX_ADDRESS")) type_error
    deployer_key ← or_fail (n.env_var (codes "DEPLOYER_KEY")) type_error
    or_fail (n.wallet_address deployer_key) type_error
    l2_factory ← view (λ txs. n.canonical_l2_factory_address txs creator)
    l2 ← view (λ txs. n.l2_deployment txs creator inbox)
    beacon ← view (λ txs. n.beacon txs l2.beacon_proxy_factory)
    standard_token ← view (λ txs. n.implementation txs beacon)
    view n.child_chain_id
    verify_contract (codes "L2AtomicTokenBridgeFactory") l2_factory [] none
    verify_contract (codes "TransparentUpgradeableProxy") l2.router
        (l2_factory ∷ l2.proxy_admin ∷ codes "0x" ∷ []) none
    verify_logic (codes "L2GatewayRouter") l2.router
    verify_logic (codes "L2ERC20Gateway") l2.standard_gateway
    verify_logic (codes "L2CustomGateway") l2.custom_gateway
    verify_logic (codes "L2WethGateway") l2.weth_gateway
    verify_contract (codes "BeaconProxyFactory") l2.beacon_proxy_factory [] none
    verify_contract (codes "UpgradeableBeacon") beacon (standard_token ∷ []) none
    verify_contract (codes "StandardArbERC20") standard_token [] none
    verify_contract (codes "ArbMulticall2") l2.multicall [] none
    verify_contract (codes "ProxyAdmin") l2.proxy_admin [] none
    if is_set (some deployer_key) then verify_special_cases else pure tt
