-- ===== src/Deployment/Run/Order.antt =====
-- The test passes when all its checks do.
use token_bridge_contracts.Base.{
  ◌≡◌, ◌↔◌, refl, Bool, true, false, not, ◌&&◌, Option, none, some, Text,
}
use token_bridge_contracts.Scripts.Chain.{L1Deployment, L2Deployment}
use token_bridge_contracts.Scripts.Usdc.{address_zero}
use token_bridge_contracts.Deployment.Views.{
  Setting, Check, passed, ◌>>=◌, called, bridge, native_token,
}
use token_bridge_contracts.Deployment.Parent.{
  RollupAddresses, check_l1_router_initialization, check_l1_standard_gateway_initialization,
  check_l1_custom_gateway_initialization, check_l1_weth_gateway_initialization,
}
use token_bridge_contracts.Deployment.Child.{
  check_l2_router_initialization, check_l2_standard_gateway_initialization,
  check_l2_custom_gateway_initialization, check_l2_multicall_initialization,
  check_l2_weth_gateway_initialization,
}
use token_bridge_contracts.Deployment.Owners.{
  check_l1_upgrade_executor_initialization, check_l2_upgrade_executor_initialization,
  check_l1_ownership, check_l2_ownership, check_logic_contracts, check_weth_gateway_is_registered,
}
use token_bridge_contracts.Deployment.Run.{
  is_some, is_local_deployment, is_using_fee_token, check_l1_weth, check_deployment,
}
use token_bridge_contracts.Deployment.Run.Rules.{
  Passes, then_iff, when_iff, branch_iff, expect_eq_iff,
}
use token_bridge_contracts.Deployment.Run.Facts.{At}

pub itself : (m : Check Unit) → Passes m ↔ Passes m
itself m = (λ h. h, λ h. h)

module _ (n : Setting) where
  fee_iff :
      (P : Bool → Type 0) (k : Bool → Check Unit) (the_inbox : Text)
      → ((fee : Bool) → Passes (k fee) ↔ P fee)
      → Passes (is_using_fee_token n the_inbox >>= k)
        ↔ At n.l1 the_inbox bridge (λ the_bridge. P (is_some (n.l1.read the_bridge native_token)))
  unfolding is_using_fee_token
  fee_iff P k the_inbox p = go (n.l1.read the_inbox bridge)
    where
      go :
          (o : Option Text)
          → Passes (
              ((called o >>= λ the_bridge. passed (is_some (n.l1.read the_bridge native_token)))
                >>= k))
            ↔ ((answer : Text) × (o ≡ some answer) × P (is_some (n.l1.read answer native_token)))
      go none = (λ h. cc, λ (answer, e, h). cc)
      go (some b) = (
        λ h. (b, refl, (p (is_some (n.l1.read b native_token))).0 h),
        λ (answer, e, h). (p (is_some (n.l1.read b native_token))).1 (rw (same answer e) h),
      )
        where
          same : (answer : Text) → some b ≡ some answer → b ≡ answer
          same answer e = cc

  module _ (r : RollupAddresses) (d1 : L1Deployment) (d2 : L2Deployment) where
    pub check_l1_weth_iff :
        (fee : Bool)
        → Passes (check_l1_weth n d1 d2 r fee) ↔ (
            (not fee ≡ true
              → Passes (check_l1_weth_gateway_initialization n d1 d2 r d1.weth_gateway))
            × (not fee ≡ false
                → (d1.weth_gateway ≡ address_zero)
                  × ((d1.weth ≡ address_zero)
                      × ((d2.weth_gateway ≡ address_zero) × (d2.weth ≡ address_zero)))))
    unfolding check_l1_weth
    check_l1_weth_iff fee =
        branch_iff (not fee) _ _
          (itself (check_l1_weth_gateway_initialization n d1 d2 r d1.weth_gateway))
          (then_iff _ _ (expect_eq_iff d1.weth_gateway address_zero) (
            then_iff _ _ (expect_eq_iff d1.weth address_zero) (
              then_iff _ _ (expect_eq_iff d2.weth_gateway address_zero)
                (expect_eq_iff d2.weth address_zero))))

    -- the checks that know whether there is a fee token
    abbrev pub LaterChecks : (fee : Bool) → Type 0
    LaterChecks fee =
        Passes (check_l1_weth n d1 d2 r fee)
        × (Passes (check_l2_router_initialization n d1 d2 d2.router)
            × (Passes (check_l2_standard_gateway_initialization n d1 d2 d2.standard_gateway)
                × (Passes (check_l2_custom_gateway_initialization n d1 d2 d2.custom_gateway)
                    × (Passes (check_l2_multicall_initialization n d2.multicall)
                        × ((not fee ≡ true
                              → Passes
                                  (check_l2_weth_gateway_initialization n d1 d2 d2.weth_gateway))
                            × (Passes
                                  (check_l1_upgrade_executor_initialization n r.upgrade_executor r)
                                × (Passes (
                                      check_l2_upgrade_executor_initialization n d2.upgrade_executor
                                        r)
                                    × (Passes (check_l1_ownership n d1 r)
                                        × (Passes (check_l2_ownership n d2 fee)
                                            × (Passes (check_logic_contracts n fee d2)
                                                × ((not fee && not (is_local_deployment n)) ≡ true
                                                    → Passes (
                                                        check_weth_gateway_is_registered n
                                                          d1.weth_gateway d1.router d2.weth_gateway
                                                          d2.router))))))))))))

    pub check_deployment_iff : Passes (check_deployment n r d1 d2) ↔ (
        Passes (check_l1_router_initialization n d1 d2 r d1.router)
        × (Passes (check_l1_standard_gateway_initialization n d1 d2 r d1.standard_gateway)
            × (Passes (check_l1_custom_gateway_initialization n d1 d2 r d1.custom_gateway)
                × At n.l1 r.inbox bridge
                    (λ the_bridge. LaterChecks (is_some (n.l1.read the_bridge native_token))))))
    unfolding check_deployment
    check_deployment_iff =
        then_iff _ _ (itself (check_l1_router_initialization n d1 d2 r d1.router)) (
          then_iff _ _
            (itself (check_l1_standard_gateway_initialization n d1 d2 r d1.standard_gateway))
            (then_iff _ _
              (itself (check_l1_custom_gateway_initialization n d1 d2 r d1.custom_gateway))
              (fee_iff LaterChecks _ r.inbox λ fee.
                then_iff _ _ (itself (check_l1_weth n d1 d2 r fee)) (
                  then_iff _ _ (itself (check_l2_router_initialization n d1 d2 d2.router)) (
                    then_iff _ _
                      (itself
                        (check_l2_standard_gateway_initialization n d1 d2 d2.standard_gateway))
                      (then_iff _ _
                        (itself (check_l2_custom_gateway_initialization n d1 d2 d2.custom_gateway))
                        (then_iff _ _ (itself (check_l2_multicall_initialization n d2.multicall)) (
                          then_iff _ _
                            (when_iff (not fee) _ (
                              itself
                                (check_l2_weth_gateway_initialization n d1 d2 d2.weth_gateway)))
                            (then_iff _ _
                              (itself
                                (check_l1_upgrade_executor_initialization n r.upgrade_executor r))
                              (then_iff _ _
                                (itself (
                                  check_l2_upgrade_executor_initialization n d2.upgrade_executor r))
                                (then_iff _ _ (itself (check_l1_ownership n d1 r)) (
                                  then_iff _ _ (itself (check_l2_ownership n d2 fee)) (
                                    then_iff _ _ (itself (check_logic_contracts n fee d2)) (
                                      when_iff (not fee && not (is_local_deployment n)) _ (
                                        itself (
                                          check_weth_gateway_is_registered n d1.weth_gateway
                                            d1.router d2.weth_gateway d2.router))))))))))))))))
