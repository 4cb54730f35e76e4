-- ===== src/Deployment/Child.antt =====
-- The checks of the gateways on the child chain.
use token_bridge_contracts.Base.{ltb, length, text_eq, Text}
use token_bridge_contracts.Scripts.Chain.{L1Deployment, L2Deployment}
use token_bridge_contracts.Scripts.Usdc.{address_zero}
use token_bridge_contracts.Deployment.Views.{
  Setting, Check, ◌>>=◌, ◌>>◌, called, expect, expect_same, expect_view, expect_other,
  is_initialized, empty_code_length, default_gateway, router, counterpart_gateway,
  l2_beacon_proxy_factory, beacon_proxy_factory, cloneable_proxy_hash, l1_weth, l2_weth, owner,
  beacon, implementation,
}

module _ (n : Setting) where
  unfoldable pub check_l2_multicall_initialization : (l2_multicall : Text) → Check Unit
  check_l2_multicall_initialization l2_multicall = do
    code ← called (n.l2.get_code l2_multicall)
    expect (ltb empty_code_length (length code))

module _ (n : Setting) (d1 : L1Deployment) (d2 : L2Deployment) where
  unfoldable pub check_l2_router_initialization : (l2_router : Text) → Check Unit
  unfolding expect_view
  check_l2_router_initialization l2_router = do
    expect_view n.l2 l2_router default_gateway d2.standard_gateway
    expect_view n.l2 l2_router router address_zero
    expect_view n.l2 l2_router counterpart_gateway d1.router

  -- the beacon's owner and what it is the beacon of
  unfoldable pub check_beacon : (beacon_factory : Text) → Check Unit
  unfolding is_initialized
  check_beacon beacon_factory = do
    the_beacon ← called (n.l2.read beacon_factory beacon)
    the_owner ← called (n.l2.read the_beacon owner)
    expect (text_eq the_owner d2.upgrade_executor)
    standard_arb_erc20 ← called (n.l2.read the_beacon implementation)
    initialized ← is_initialized n n.l2 standard_arb_erc20
    expect initialized

  unfoldable pub check_l2_standard_gateway_initialization : (l2_gateway : Text) → Check Unit
  unfolding expect_view check_beacon
  check_l2_standard_gateway_initialization l2_gateway = do
    expect_view n.l2 l2_gateway counterpart_gateway d1.standard_gateway
    expect_view n.l2 l2_gateway router d2.router
    beacon_factory ← called (n.l2.read l2_gateway beacon_proxy_factory)
    counterpart ← called (n.l2.read l2_gateway counterpart_gateway)
    l1_beacon_factory ← called (n.l1.read counterpart l2_beacon_proxy_factory)
    expect_same beacon_factory l1_beacon_factory
    proxy_hash ← called (n.l2.read l2_gateway cloneable_proxy_hash)
    counterpart ← called (n.l2.read l2_gateway counterpart_gateway)
    l1_proxy_hash ← called (n.l1.read counterpart cloneable_proxy_hash)
    expect_same proxy_hash l1_proxy_hash
    check_beacon beacon_factory

  unfoldable pub check_l2_custom_gateway_initialization : (l2_gateway : Text) → Check Unit
  unfolding expect_view
  check_l2_custom_gateway_initialization l2_gateway = do
    expect_view n.l2 l2_gateway counterpart_gateway d1.custom_gateway
    expect_view n.l2 l2_gateway router d2.router

  unfoldable pub check_l2_weth_gateway_initialization : (l2_gateway : Text) → Check Unit
  unfolding expect_view expect_other
  check_l2_weth_gateway_initialization l2_gateway = do
    expect_view n.l2 l2_gateway counterpart_gateway d1.weth_gateway
    expect_view n.l2 l2_gateway router d2.router
    expect_other n.l2 l2_gateway l1_weth address_zero
    expect_other n.l2 l2_gateway l2_weth address_zero
