-- ===== src/Deployment/Run/Meaning.antt =====
-- The deployment test passes exactly for the deployments that are as they should be.
use token_bridge_contracts.Base.{◌≡◌, ◌↔◌, refl, ap, ◌∙◌, Bool, true, false, not, ◌&&◌, some}
use token_bridge_contracts.Scripts.Chain.{L1Deployment, L2Deployment}
use token_bridge_contracts.Deployment.Views.{Setting, passed, bridge, native_token}
use token_bridge_contracts.Deployment.Parent.{
  RollupAddresses, check_l1_router_initialization, check_l1_standard_gateway_initialization,
  check_l1_custom_gateway_initialization,
}
use token_bridge_contracts.Deployment.Child.{check_l2_multicall_initialization}
use token_bridge_contracts.Deployment.Owners.{
  check_logic_contracts, check_weth_gateway_is_registered,
}
use token_bridge_contracts.Scripts.Usdc.{address_zero}
use token_bridge_contracts.Deployment.Run.{is_some, is_local_deployment, check_deployment}
use token_bridge_contracts.Deployment.Run.Rules.{Passes, ↔_trans}
use token_bridge_contracts.Deployment.Run.Facts.{At, IsDeployed, HasWeth, HasNoWeth}
use token_bridge_contracts.Deployment.Run.Parts.{multicall_iff}
use token_bridge_contracts.Deployment.Run.Governed.{logic_contracts_iff, registered_iff}
use token_bridge_contracts.Deployment.Run.Groups.{
  WethInitialized, routers_iff, standard_iff, custom_iff, weth_iff,
}
use token_bridge_contracts.Deployment.Run.Roles.{governed_iff}
use token_bridge_contracts.Deployment.Run.Order.{
  check_l1_weth_iff, LaterChecks, check_deployment_iff,
}

false_of_not : (b : Bool) → not b ≡ true → b ≡ false
false_of_not true h = cc
false_of_not false h = refl

true_of_not : (b : Bool) → not b ≡ false → b ≡ true
true_of_not true h = refl
true_of_not false h = cc

both_false : (a b : Bool) → (not a && not b) ≡ true → (a ≡ false) × (b ≡ false)
both_false false false h = (refl, refl)
both_false true b h = cc
both_false false true h = cc

neither : (a b : Bool) → a ≡ false → b ≡ false → (not a && not b) ≡ true
neither false false p q = refl
neither true b p q = cc
neither false true p q = cc

module _ (n : Setting) (r : RollupAddresses) (d1 : L1Deployment) (d2 : L2Deployment) where
  abbrev EarlyChecks : Type 0
  EarlyChecks =
      Passes (check_l1_router_initialization n d1 d2 r d1.router)
      × Passes (check_l1_standard_gateway_initialization n d1 d2 r d1.standard_gateway)
      × Passes (check_l1_custom_gateway_initialization n d1 d2 r d1.custom_gateway)

  grouped :
      (fee : Bool)
      → EarlyChecks
      → LaterChecks n r d1 d2 fee
      → IsDeployed n r d1 d2 fee (is_local_deployment n)
  grouped fee (p1, p2, p3)
        (w1, (p4, (p5, (p6, (p7, (w2, (q1, (q2, (q3, (q4, (logic, registered))))))))))) =
      let (standard, white1, tokens) = (standard_iff n r d1 d2).0 (p2, p5) in
      let (custom, white2) = (custom_iff n r d1 d2).0 (p3, p6) in
      let (governed, admin) = (governed_iff n r d1 d2 fee).0 (q1, q2, q3, q4) in
      let (l, e1, (b, e2, (good, (l1, (l2, (l3, l4)))))) = (logic_contracts_iff n fee d2).0 logic in
      record {
        routers = (routers_iff n r d1 d2).0 (p1, p4);
        standard = standard;
        custom = custom;
        standard_whitelist = white1;
        custom_whitelist = white2;
        tokens = tokens;
        multicall = (multicall_iff n d2.multicall).0 p7;
        weth = λ off.
            let on = ap not off in
            let (pair, x1, x2, x3, x4) =
              (weth_iff n r d1 d2).0 (((check_l1_weth_iff n r d1 d2 fee).0 w1).0 on, w2 on) in
            record {
              paired = pair;
              parent_l1_weth = x1;
              parent_l2_weth = x2;
              child_l1_weth = x3;
              child_l2_weth = x4;
              child_admin = admin off;
              gateway_logic = (l4 on).0;
              weth_logic = (l4 on).1;
            };
        no_weth = λ on.
            let (z1, (z2, (z3, z4))) = ((check_l1_weth_iff n r d1 d2 fee).0 w1).1 (ap not on) in
            record { parent_gateway = z1; parent_weth = z2; child_gateway = z3; child_weth = z4 };
        registered = λ off remote.
            let (weth, e, (g1, (g2, (g3, (answer, e', same))))) =
              (registered_iff n d1 d2).0
                (registered (neither fee (is_local_deployment n) off remote)) in
            (weth, e, (g1, g2, g3, e' ∙ ap some same));
        governed = governed;
        executor_logic = (l, e1, e2 ∙ ap passed good);
        router_logic = l1;
        standard_logic = l2;
        custom_logic = l3;
      }

  ungrouped :
      (fee : Bool)
      → IsDeployed n r d1 d2 fee (is_local_deployment n)
      → EarlyChecks × LaterChecks n r d1 d2 fee
  ungrouped fee f =
      let (p1, p4) = (routers_iff n r d1 d2).1 f.routers in
      let (p2, p5) = (standard_iff n r d1 d2).1 (f.standard, f.standard_whitelist, f.tokens) in
      let (p3, p6) = (custom_iff n r d1 d2).1 (f.custom, f.custom_whitelist) in
      let (q1, q2, q3, q4) =
        (governed_iff n r d1 d2 fee).1 (f.governed, λ off. (f.weth off).child_admin) in
      let both = λ (on : not fee ≡ true).
        (weth_iff n r d1 d2).1 (weth_facts (f.weth (false_of_not fee on))) in
      (
        (p1, p2, p3),
        (
          (check_l1_weth_iff n r d1 d2 fee).1
              (λ on. (both on).0, λ off. zeros (f.no_weth (true_of_not fee off))),
          (
            p4,
            (
              p5,
              (p6, (multicall, (λ on. (both on).1, (q1, (q2, (q3, (q4, (logic, registered)))))))),
            ),
          ),
        ),
      )
    where
      weth_facts : HasWeth n r d1 d2 → WethInitialized n r d1 d2
      weth_facts h =
          (h.paired, h.parent_l1_weth, h.parent_l2_weth, h.child_l1_weth, h.child_l2_weth)

      zeros :
          HasNoWeth n r d1 d2
          → (d1.weth_gateway ≡ address_zero)
            × ((d1.weth ≡ address_zero)
                × ((d2.weth_gateway ≡ address_zero) × (d2.weth ≡ address_zero)))
      zeros h = (h.parent_gateway, (h.parent_weth, (h.child_gateway, h.child_weth)))

      logic : Passes (check_logic_contracts n fee d2)
      logic =
          let (l, e1, e2) = f.executor_logic in
          (logic_contracts_iff n fee d2).1 (
            l,
            e1,
            (
              true,
              e2,
              (
                refl,
                (
                  f.router_logic,
                  (
                    f.standard_logic,
                    (
                      f.custom_logic,
                      λ on. let h = f.weth (false_of_not fee on) in (h.gateway_logic, h.weth_logic),
                    ),
                  ),
                ),
              ),
            ),
          )

      multicall : Passes (check_l2_multicall_initialization n d2.multicall)
      multicall = (multicall_iff n d2.multicall).1 f.multicall

      registered :
          (not fee && not (is_local_deployment n)) ≡ true
          → Passes (
              check_weth_gateway_is_registered n d1.weth_gateway d1.router d2.weth_gateway
                d2.router)
      registered h =
          let (off, remote) = both_false fee (is_local_deployment n) h in
          let (weth, e, (g1, g2, g3, g4)) = f.registered off remote in
          (registered_iff n d1 d2).1 (weth, e, (g1, (g2, (g3, (d2.weth_gateway, g4, refl)))))

  -- what the checks after the addresses are worth
  pub deployed_iff :
      Passes (check_deployment n r d1 d2)
      ↔ At n.l1 r.inbox bridge (λ the_bridge.
        IsDeployed n r d1 d2 (is_some (n.l1.read the_bridge native_token)) (is_local_deployment n))
  deployed_iff = ↔_trans (check_deployment_iff n r d1 d2) (
    λ (p1, (p2, (p3, (b, e, later)))).
        (b, e, grouped (is_some (n.l1.read b native_token)) (p1, p2, p3) later),
    λ (b, e, f).
        let ((p1, p2, p3), later) = ungrouped (is_some (n.l1.read b native_token)) f in
        (p1, (p2, (p3, (b, e, later)))),
  )
