-- ===== src/Deployment/Parent.antt =====
-- The checks of the gateways on the parent chain.
use token_bridge_contracts.Base.{Text}
use token_bridge_contracts.Scripts.Chain.{L1Deployment, L2Deployment}
use token_bridge_contracts.Scripts.Usdc.{address_zero}
use token_bridge_contracts.Deployment.Views.{
  Setting, Check, ◌>>=◌, ◌>>◌, called, expect_same, expect_view, expect_other, default_gateway,
  inbox, router, counterpart_gateway, l2_beacon_proxy_factory, beacon_proxy_factory,
  cloneable_proxy_hash, whitelist, l1_weth, l2_weth,
}

pub record RollupAddresses : Type 0 where
  pub rollup : Text
  pub inbox : Text
  pub rollup_owner : Text
  pub proxy_admin : Text
  pub upgrade_executor : Text
  pub multicall : Text

module _ (n : Setting) (d1 : L1Deployment) (d2 : L2Deployment) (r : RollupAddresses) where
  unfoldable pub check_l1_router_initialization : (l1_router : Text) → Check Unit
  unfolding expect_view
  check_l1_router_initialization l1_router = do
    expect_view n.l1 l1_router default_gateway d1.standard_gateway
    expect_view n.l1 l1_router inbox r.inbox
    expect_view n.l1 l1_router router address_zero
    expect_view n.l1 l1_router counterpart_gateway d2.router

  unfoldable pub check_l1_standard_gateway_initialization : (l1_gateway : Text) → Check Unit
  unfolding expect_view
  check_l1_standard_gateway_initialization l1_gateway = do
    expect_view n.l1 l1_gateway counterpart_gateway d2.standard_gateway
    expect_view n.l1 l1_gateway router d1.router
    expect_view n.l1 l1_gateway inbox r.inbox
    l1_beacon_factory ← called (n.l1.read l1_gateway l2_beacon_proxy_factory)
    counterpart ← called (n.l1.read l1_gateway counterpart_gateway)
    beacon_factory ← called (n.l2.read counterpart beacon_proxy_factory)
    expect_same l1_beacon_factory beacon_factory
    l1_proxy_hash ← called (n.l1.read l1_gateway cloneable_proxy_hash)
    l1_beacon_factory ← called (n.l1.read l1_gateway l2_beacon_proxy_factory)
    proxy_hash ← called (n.l2.read l1_beacon_factory cloneable_proxy_hash)
    expect_same l1_proxy_hash proxy_hash
    expect_view n.l1 l1_gateway whitelist address_zero

  unfoldable pub check_l1_custom_gateway_initialization : (l1_gateway : Text) → Check Unit
  unfolding expect_view
  check_l1_custom_gateway_initialization l1_gateway = do
    expect_view n.l1 l1_gateway counterpart_gateway d2.custom_gateway
    expect_view n.l1 l1_gateway router d1.router
    expect_view n.l1 l1_gateway inbox r.inbox
    expect_view n.l1 l1_gateway whitelist address_zero

  unfoldable pub check_l1_weth_gateway_initialization : (l1_gateway : Text) → Check Unit
  unfolding expect_view expect_other
  check_l1_weth_gateway_initialization l1_gateway = do
    expect_view n.l1 l1_gateway counterpart_gateway d2.weth_gateway
    expect_view n.l1 l1_gateway router d1.router
    expect_view n.l1 l1_gateway inbox r.inbox
    expect_other n.l1 l1_gateway l1_weth address_zero
    expect_other n.l1 l1_gateway l2_weth address_zero
