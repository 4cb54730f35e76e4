-- ===== src/Deployment/Run/Whole.antt =====
-- The deployment test from its entry points to its last check.
use token_bridge_contracts.Base.{◌≡◌, ◌↔◌, refl, ap, ◌∙◌, some, Text}
use token_bridge_contracts.Scripts.Chain.{L1Deployment, L2Deployment}
use token_bridge_contracts.Deployment.Views.{
  Setting, passed, type_error, bridge, native_token, retryable_sender,
}
use token_bridge_contracts.Deployment.Parent.{RollupAddresses}
use token_bridge_contracts.Deployment.Run.{
  is_some, is_local_deployment, entry_points, get_addresses, token_bridge_test,
}
use token_bridge_contracts.Deployment.Run.Rules.{
  Reads, then_iff, bind_iff, or_throw_iff, expect_same_iff, ↔_trans,
}
use token_bridge_contracts.Deployment.Run.Facts.{IsDeployed}
use token_bridge_contracts.Deployment.Run.Parts.{At_iff}
use token_bridge_contracts.Deployment.Run.Addresses.{AreFound, get_addresses_iff}
use token_bridge_contracts.Deployment.Run.Meaning.{deployed_iff}

module _ (n : Setting) where
  -- what is there to test, and that the test should pass for it
  pub record IsSound : Type 0 where
    pub rollup : Text
    pub creator : Text
    pub sender : Text
    pub addresses : RollupAddresses
    pub d1 : L1Deployment
    pub d2 : L2Deployment
    pub the_bridge : Text
    pub entered : entry_points n ≡ passed (rollup, creator, some sender)
    pub found : AreFound n rollup creator addresses d1 d2
    pub not_frontrun : Reads n.l1 creator retryable_sender sender
    pub bridge_found : n.l1.read addresses.inbox bridge ≡ some the_bridge
    pub deployed :
        IsDeployed n addresses d1 d2
          (is_some (n.l1.read the_bridge native_token))
          (is_local_deployment n)

  -- The test passes exactly where its entry points, with a retryable sender, lead to a creator that
  -- names this sender and to recorded addresses at which the bridge is deployed: gateways and
  -- routers of the two chains are paired, the standard gateways agree on their tokens, WETH is
  -- there or not as the fee token says, admins, owners and roles are the executors', and the logic
  -- contracts are initialized.
  pub token_bridge_test_iff : (token_bridge_test n ≡ passed tt) ↔ IsSound
  unfolding token_bridge_test
  token_bridge_test_iff =
      ↔_trans
        (bind_iff _ _
          (λ (rollup, creator, sender).
            bind_iff _ _
              (λ (r, d1, d2). At_iff _ n.l1 creator retryable_sender _ λ actual.
                or_throw_iff _ _
                  (λ expected.
                    then_iff _ _ (expect_same_iff actual expected) (deployed_iff n r d1 d2))
                  sender type_error)
              (get_addresses n rollup creator))
          (entry_points n))
        (
          λ (
            (rollup, creator, o),
            e,
            ((r, d1, d2), e1, (actual, e2, (s, e3, (same, (b, e4, deployed))))),
          ).
              record {
                rollup = rollup;
                creator = creator;
                sender = s;
                addresses = r;
                d1 = d1;
                d2 = d2;
                the_bridge = b;
                entered = e ∙ ap (λ t. passed (rollup, creator, t)) e3;
                found = (get_addresses_iff n rollup creator r d1 d2).0 e1;
                not_frontrun = (actual, e2, same);
                bridge_found = e4;
                deployed = deployed;
              },
          λ f. (
            (f.rollup, f.creator, some f.sender),
            f.entered,
            (
              (f.addresses, f.d1, f.d2),
              (get_addresses_iff n f.rollup f.creator f.addresses f.d1 f.d2).1 f.found,
              (
                f.not_frontrun.0,
                f.not_frontrun.1,
                (f.sender, refl, (f.not_frontrun.2, (f.the_bridge, f.bridge_found, f.deployed))),
              ),
            ),
          ),
        )
