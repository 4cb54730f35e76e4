-- ===== src/Deployment/Run.antt =====
-- The test as a whole: its entry points, the addresses that it asks for, and the order of its checks.
pub mod Rules
pub mod Facts
pub mod Parts
pub mod Governed
pub mod Groups
pub mod Roles
pub mod Order
pub mod Meaning
pub mod Addresses
pub mod Whole
use token_bridge_contracts.Base.{
  ℕ, Bool, true, false, not, ◌&&◌, ◌||◌, ◌==◌, Option, none, some, List, [], ◌∷◌, codes, Text,
  text_eq, to_lower, if◌then◌else◌,
}
use token_bridge_contracts.Scripts.Chain.{L1Deployment, L2Deployment}
use token_bridge_contracts.Scripts.Usdc.{is_set, address_zero}
use token_bridge_contracts.Deployment.Views.{
  Setting, NetworkJson, absent, unreadable, entries, Check, passed, failed, ◌>>=◌, ◌>>◌, called,
  or_throw, expect, expect_same, rollup_info_missing, no_events, type_error, inbox, owner, bridge,
  native_token, l1_multicall, get_proxy_admin, retryable_sender,
}
use token_bridge_contracts.Deployment.Parent.{
  RollupAddresses, check_l1_router_initialization, check_l1_standard_gateway_initialization,
  check_l1_custom_gateway_initialization, check_l1_weth_gateway_initialization,
}
use token_bridge_contracts.Deployment.Child.{
  check_l2_router_initialization, check_l2_standard_gateway_initialization,
  check_l2_custom_gateway_initialization, check_l2_multicall_initialization,
  check_l2_weth_gateway_initialization,
}
use token_bridge_contracts.Deployment.Owners.{
  check_l1_upgrade_executor_initialization, check_l2_upgrade_executor_initialization,
  check_l1_ownership, check_l2_ownership, check_logic_contracts, check_weth_gateway_is_registered,
}

-- the rollup, the creator and the retryable sender, the last as it may be undefined
abbrev pub EntryPoints : Type 0
EntryPoints = Text × Text × Option Text

abbrev pub entry_points_of_file : NetworkJson → Check EntryPoints
entry_points_of_file absent = failed rollup_info_missing
entry_points_of_file unreadable = failed type_error
entry_points_of_file (entries rollup creator sender) = do
  the_creator ← or_throw creator type_error
  the_rollup ← or_throw rollup type_error
  passed (the_rollup, the_creator, sender)

-- the last of the events, if there is one
abbrev pub last_owner : List Text → Check Text
last_owner [] = failed no_events
last_owner (a ∷ []) = passed a
last_owner (_ ∷ (a ∷ rest)) = last_owner (a ∷ rest)

-- A call that throws says that there is no fee token.
abbrev pub is_some : Option Text → Bool
is_some none = false
is_some (some _) = true

module _ (n : Setting) where
  unfoldable pub entry_points : Check EntryPoints
  entry_points =
      let rollup = n.env_var (codes "ROLLUP_ADDRESS") in
      let creator = n.env_var (codes "L1_TOKEN_BRIDGE_CREATOR") in
      if is_set rollup && is_set creator
      then (do
        the_rollup ← or_throw rollup type_error
        the_creator ← or_throw creator type_error
        passed (the_rollup, the_creator, n.env_var (codes "L1_RETRYABLE_SENDER")))
      else entry_points_of_file n.network_json

  unfoldable pub get_rollup_owner_from_logs : (creator inbox_address : Text) → Check Text
  get_rollup_owner_from_logs creator inbox_address = do
    owners ← called (n.logged_owners creator inbox_address)
    last_owner owners

  unfoldable pub get_addresses :
      (rollup_address creator : Text) → Check (RollupAddresses × L1Deployment × L2Deployment)
  unfolding get_rollup_owner_from_logs
  get_addresses rollup_address creator = do
    the_inbox ← called (n.l1.read rollup_address inbox)
    multicall ← called (n.l1.read creator l1_multicall)
    proxy_admin ← called (n.l1.read the_inbox get_proxy_admin)
    upgrade_executor ← called (n.l1.read rollup_address owner)
    rollup_owner ← get_rollup_owner_from_logs creator the_inbox
    let rollup_addresses : RollupAddresses = record {
      rollup = to_lower rollup_address;
      inbox = to_lower the_inbox;
      rollup_owner = rollup_owner;
      proxy_admin = to_lower proxy_admin;
      upgrade_executor = to_lower upgrade_executor;
      multicall = to_lower multicall;
    }
    l1_deployment ← called (n.inbox_to_l1_deployment creator the_inbox)
    l2_deployment ← called (n.inbox_to_l2_deployment creator the_inbox)
    passed (rollup_addresses, l1_deployment, l2_deployment)

  unfoldable pub is_using_fee_token : (the_inbox : Text) → Check Bool
  is_using_fee_token the_inbox = do
    the_bridge ← called (n.l1.read the_inbox bridge)
    passed (is_some (n.l1.read the_bridge native_token))

  abbrev pub is_local_deployment : Bool
  is_local_deployment = n.l1.chain_id == 412346 || n.l2.chain_id == 333333

  unfoldable pub check_l1_weth : L1Deployment → L2Deployment → RollupAddresses → Bool → Check Unit
  unfolding check_l1_weth_gateway_initialization
  check_l1_weth d1 d2 r using_fee_token =
      if not using_fee_token
      then check_l1_weth_gateway_initialization n d1 d2 r d1.weth_gateway
      else (do
        expect (text_eq d1.weth_gateway address_zero)
        expect (text_eq d1.weth address_zero)
        expect (text_eq d2.weth_gateway address_zero)
        expect (text_eq d2.weth address_zero))

  -- the checks after the addresses
  unfoldable pub check_deployment : RollupAddresses → L1Deployment → L2Deployment → Check Unit
  unfolding check_l1_router_initialization check_l1_standard_gateway_initialization
      check_l1_custom_gateway_initialization is_using_fee_token check_l1_weth
      check_l2_router_initialization check_l2_standard_gateway_initialization
      check_l2_custom_gateway_initialization check_l2_multicall_initialization
      check_l2_weth_gateway_initialization check_l1_upgrade_executor_initialization
      check_l2_upgrade_executor_initialization check_l1_ownership check_l2_ownership
      check_logic_contracts check_weth_gateway_is_registered
  check_deployment r d1 d2 = do
    check_l1_router_initialization n d1 d2 r d1.router
    check_l1_standard_gateway_initialization n d1 d2 r d1.standard_gateway
    check_l1_custom_gateway_initialization n d1 d2 r d1.custom_gateway
    using_fee_token ← is_using_fee_token r.inbox
    check_l1_weth d1 d2 r using_fee_token
    check_l2_router_initialization n d1 d2 d2.router
    check_l2_standard_gateway_initialization n d1 d2 d2.standard_gateway
    check_l2_custom_gateway_initialization n d1 d2 d2.custom_gateway
    check_l2_multicall_initialization n d2.multicall
    if not using_fee_token
        then check_l2_weth_gateway_initialization n d1 d2 d2.weth_gateway
        else passed tt
    check_l1_upgrade_executor_initialization n r.upgrade_executor r
    check_l2_upgrade_executor_initialization n d2.upgrade_executor r
    check_l1_ownership n d1 r
    check_l2_ownership n d2 using_fee_token
    check_logic_contracts n using_fee_token d2
    if not using_fee_token && not is_local_deployment
        then check_weth_gateway_is_registered n d1.weth_gateway d1.router d2.weth_gateway d2.router
        else passed tt

  unfoldable pub token_bridge_test : Check Unit
  unfolding entry_points get_addresses check_deployment
  token_bridge_test = do
    (rollup, creator, l1_retryable_sender) ← entry_points
    (r, d1, d2) ← get_addresses rollup creator
    actual ← called (n.l1.read creator retryable_sender)
    expected ← or_throw l1_retryable_sender type_error
    expect_same actual expected
    check_deployment r d1 d2
