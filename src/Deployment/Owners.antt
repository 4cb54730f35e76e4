-- ===== src/Deployment/Owners.antt =====
-- The checks of the executors' roles, of the admins and owners, of the logic contracts, and of the
-- registration of the WETH gateway.
use token_bridge_contracts.Base.{Bool, not, ltb, length, Text, text_eq, to_lower, if◌then◌else◌}
use token_bridge_contracts.Scripts.Chain.{L1Deployment, L2Deployment}
use token_bridge_contracts.Scripts.Usdc.{address_zero}
use token_bridge_contracts.Deployment.Views.{
  Setting, Chain, View, Check, passed, ◌>>=◌, ◌>>◌, called, or_throw, type_error, expect,
  get_proxy_admin_of, get_logic_address, get_owner, is_initialized, empty_code_length, admin_role,
  executor_role, counterpart_gateway, l2_gateway, l1_weth,
}
use token_bridge_contracts.Deployment.Alias.{apply_alias}
use token_bridge_contracts.Deployment.Parent.{RollupAddresses}

abbrev pub expect_role : Chain → (executor role account : Text) → Check Unit
expect_role c executor role account = do has ← called (c.has_role executor role account); expect has

module _ (n : Setting) where
  unfoldable pub check_l1_upgrade_executor_initialization :
      (l1_executor : Text) → RollupAddresses → Check Unit
  check_l1_upgrade_executor_initialization l1_executor r = do
    admin ← called (n.l1.read l1_executor admin_role)
    executor ← called (n.l1.read l1_executor executor_role)
    expect_role n.l1 l1_executor admin l1_executor
    expect_role n.l1 l1_executor executor r.rollup_owner

  -- the rollup's owner as it is known on the child chain
  abbrev pub l2_rollup_owner : (rollup_owner code : Text) → Check Text
  l2_rollup_owner rollup_owner code =
      if ltb empty_code_length (length code)
      then or_throw (apply_alias rollup_owner) type_error
      else passed rollup_owner

  unfoldable pub check_l2_upgrade_executor_initialization :
      (l2_executor : Text) → RollupAddresses → Check Unit
  check_l2_upgrade_executor_initialization l2_executor r = do
    admin ← called (n.l2.read l2_executor admin_role)
    executor ← called (n.l2.read l2_executor executor_role)
    expect_role n.l2 l2_executor admin l2_executor
    code ← called (n.l1.get_code r.rollup_owner)
    rollup_owner ← l2_rollup_owner r.rollup_owner code
    expect_role n.l2 l2_executor executor rollup_owner
    aliased_l1_executor ← or_throw (apply_alias r.upgrade_executor) type_error
    expect_role n.l2 l2_executor executor aliased_l1_executor

  unfoldable pub expect_admin : Chain → (contract_address admin : Text) → Check Unit
  unfolding get_proxy_admin_of
  expect_admin c contract_address admin = do
    actual ← get_proxy_admin_of n c contract_address
    expect (text_eq actual admin)

  unfoldable pub expect_owner : Chain → (contract_address owner : Text) → Check Unit
  unfolding get_owner
  expect_owner c contract_address owner = do
    actual ← get_owner n c contract_address
    expect (text_eq actual owner)

  unfoldable pub check_l1_ownership : L1Deployment → RollupAddresses → Check Unit
  unfolding expect_admin expect_owner
  check_l1_ownership d1 r = do
    expect_admin n.l1 d1.router r.proxy_admin
    expect_admin n.l1 d1.standard_gateway r.proxy_admin
    expect_admin n.l1 d1.custom_gateway r.proxy_admin
    if not (text_eq d1.weth_gateway address_zero)
        then expect_admin n.l1 d1.weth_gateway r.proxy_admin
        else passed tt
    expect_admin n.l1 r.upgrade_executor r.proxy_admin
    expect_owner n.l1 r.proxy_admin r.upgrade_executor
    expect_owner n.l1 d1.router r.upgrade_executor
    expect_owner n.l1 d1.custom_gateway r.upgrade_executor

  unfoldable pub check_l2_ownership : L2Deployment → (using_fee_token : Bool) → Check Unit
  unfolding expect_admin expect_owner
  check_l2_ownership d2 using_fee_token = do
    l2_proxy_admin ← get_proxy_admin_of n n.l2 d2.router
    expect_admin n.l2 d2.router l2_proxy_admin
    expect_admin n.l2 d2.standard_gateway l2_proxy_admin
    expect_admin n.l2 d2.custom_gateway l2_proxy_admin
    if not using_fee_token then expect_admin n.l2 d2.weth_gateway l2_proxy_admin else passed tt
    expect_admin n.l2 d2.upgrade_executor l2_proxy_admin
    expect_owner n.l2 l2_proxy_admin (to_lower d2.upgrade_executor)

  -- the logic behind a proxy has a view that is not zero
  unfoldable pub expect_logic : (proxy : Text) → View → Check Unit
  unfolding get_logic_address
  expect_logic proxy v = do
    logic ← get_logic_address n n.l2 proxy
    actual ← called (n.l2.read logic v)
    expect (not (text_eq actual address_zero))

  unfoldable pub check_logic_contracts : (using_fee_token : Bool) → L2Deployment → Check Unit
  unfolding expect_logic
  check_logic_contracts using_fee_token d2 = do
    executor_logic ← get_logic_address n n.l2 d2.upgrade_executor
    initialized ← is_initialized n n.l2 executor_logic
    expect initialized
    expect_logic d2.router counterpart_gateway
    expect_logic d2.standard_gateway counterpart_gateway
    expect_logic d2.custom_gateway counterpart_gateway
    if not using_fee_token
        then (do expect_logic d2.weth_gateway counterpart_gateway; expect_logic d2.weth l2_gateway)
        else passed tt

  unfoldable pub check_weth_gateway_is_registered :
      (l1_gateway l1_router l2_weth_gateway l2_router : Text) → Check Unit
  check_weth_gateway_is_registered l1_gateway l1_router l2_weth_gateway l2_router = do
    weth ← called (n.l1.read l1_gateway l1_weth)
    registered ← called (n.l1.l1_token_to_gateway l1_router weth)
    expect (text_eq registered l1_gateway)
    found ← called (n.l1.get_gateway l1_router weth)
    expect (text_eq found l1_gateway)
    registered ← called (n.l2.l1_token_to_gateway l2_router weth)
    expect (text_eq registered l2_weth_gateway)
    found ← called (n.l2.get_gateway l2_router weth)
    expect (text_eq found l2_weth_gateway)
