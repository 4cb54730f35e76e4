-- ===== src/Deployment/Run/Groups.antt =====
-- The facts behind the checks of both chains, put together by what they are about.
use token_bridge_contracts.Base.{◌≡◌, ◌↔◌, subst, Option, some, Text}
use token_bridge_contracts.Scripts.Chain.{L1Deployment, L2Deployment}
use token_bridge_contracts.Scripts.Usdc.{address_zero}
use token_bridge_contracts.Deployment.Views.{
  Setting, l1_weth, l2_weth, whitelist, owner, beacon, implementation,
}
use token_bridge_contracts.Deployment.Parent.{
  RollupAddresses, check_l1_router_initialization, check_l1_standard_gateway_initialization,
  check_l1_custom_gateway_initialization, check_l1_weth_gateway_initialization,
}
use token_bridge_contracts.Deployment.Child.{
  check_l2_router_initialization, check_l2_standard_gateway_initialization,
  check_l2_custom_gateway_initialization, check_l2_weth_gateway_initialization,
}
use token_bridge_contracts.Deployment.Run.Rules.{Passes, Reads, ReadsOther}
use token_bridge_contracts.Deployment.Run.Facts.{
  At, IsInitialized, ArePaired, AreRouters, TokensAgree,
}
use token_bridge_contracts.Deployment.Run.Parts.{
  l1_router_iff, l1_standard_iff, l1_custom_iff, l1_weth_iff, l2_router_iff, l2_standard_iff,
  l2_custom_iff, l2_weth_iff, BeaconOwned, ParentFacts, ChildFacts,
}

abbrev BeaconFacts : Setting → L2Deployment → (factory : Text) → Type 0
BeaconFacts n d2 factory = At n.l2 factory beacon (λ the_beacon.
    At n.l2 the_beacon owner (λ the_owner. the_owner ≡ d2.upgrade_executor)
    × At n.l2 the_beacon implementation (IsInitialized n n.l2))

-- two answers of one view
pub same_answer : {A : Type 0} (o : Option A) (a b : A) → o ≡ some a → o ≡ some b → b ≡ a
same_answer o a b p q = cc

module _ (n : Setting) (r : RollupAddresses) (d1 : L1Deployment) (d2 : L2Deployment) where
  pub routers_iff :
      (Passes (check_l1_router_initialization n d1 d2 r d1.router)
        × Passes (check_l2_router_initialization n d1 d2 d2.router))
      ↔ AreRouters n r d1 d2
  routers_iff = (
    λ (p, q).
        let (a, (b, (c, d))) = (l1_router_iff n d1 d2 r d1.router).0 p in
        let (x, (y, z)) = (l2_router_iff n d1 d2 d2.router).0 q in
        record {
          to_child = d;
          to_parent = z;
          no_parent_router = c;
          no_child_router = y;
          parent_default = a;
          child_default = x;
          to_inbox = b;
        },
    λ f. (
      (l1_router_iff n d1 d2 r d1.router).1
          (f.parent_default, (f.to_inbox, (f.no_parent_router, f.to_child))),
      (l2_router_iff n d1 d2 d2.router).1 (f.child_default, (f.no_child_router, f.to_parent)),
    ),
  )

  pub custom_iff :
      (Passes (check_l1_custom_gateway_initialization n d1 d2 r d1.custom_gateway)
        × Passes (check_l2_custom_gateway_initialization n d1 d2 d2.custom_gateway))
      ↔ (ArePaired n r d1 d2 d1.custom_gateway d2.custom_gateway
          × Reads n.l1 d1.custom_gateway whitelist address_zero)
  custom_iff = (
    λ (p, q).
        let (a, (b, (c, d))) = (l1_custom_iff n d1 d2 r d1.custom_gateway).0 p in
        let (x, y) = (l2_custom_iff n d1 d2 d2.custom_gateway).0 q in
        (
          record { to_child = a; to_parent = x; parent_router = b; child_router = y; to_inbox = c },
          d,
        ),
    λ (f, w). (
      (l1_custom_iff n d1 d2 r d1.custom_gateway).1
          (f.to_child, (f.parent_router, (f.to_inbox, w))),
      (l2_custom_iff n d1 d2 d2.custom_gateway).1 (f.to_parent, f.child_router),
    ),
  )

  abbrev pub WethInitialized : Type 0
  WethInitialized =
      ArePaired n r d1 d2 d1.weth_gateway d2.weth_gateway
      × ReadsOther n.l1 d1.weth_gateway l1_weth address_zero
      × ReadsOther n.l1 d1.weth_gateway l2_weth address_zero
      × ReadsOther n.l2 d2.weth_gateway l1_weth address_zero
      × ReadsOther n.l2 d2.weth_gateway l2_weth address_zero

  pub weth_iff :
      (Passes (check_l1_weth_gateway_initialization n d1 d2 r d1.weth_gateway)
        × Passes (check_l2_weth_gateway_initialization n d1 d2 d2.weth_gateway))
      ↔ WethInitialized
  weth_iff = (
    λ (p, q).
        let (a, (b, (c, (d, e)))) = (l1_weth_iff n d1 d2 r d1.weth_gateway).0 p in
        let (x, (y, (z, t))) = (l2_weth_iff n d1 d2 d2.weth_gateway).0 q in
        (
          record { to_child = a; to_parent = x; parent_router = b; child_router = y; to_inbox = c },
          d,
          e,
          z,
          t,
        ),
    λ (f, d, e, z, t). (
      (l1_weth_iff n d1 d2 r d1.weth_gateway).1
          (f.to_child, (f.parent_router, (f.to_inbox, (d, e)))),
      (l2_weth_iff n d1 d2 d2.weth_gateway).1 (f.to_parent, (f.child_router, (z, t))),
    ),
  )

  pub standard_iff :
      (Passes (check_l1_standard_gateway_initialization n d1 d2 r d1.standard_gateway)
        × Passes (check_l2_standard_gateway_initialization n d1 d2 d2.standard_gateway))
      ↔ (ArePaired n r d1 d2 d1.standard_gateway d2.standard_gateway
          × Reads n.l1 d1.standard_gateway whitelist address_zero
          × TokensAgree n r d1 d2)
  standard_iff = (
    λ (p, q).
        let (a, (b, (c, (f, e1, (g, e2, (x, e3, (s, (h, e4, (f', e5, (x', e6, (s', w))))))))))) =
          (l1_standard_iff n d1 d2 r d1.standard_gateway).0 p in
        let (k, (l, (t, u1, (m, u2, (y, u3, (v, (o, u4, (m', u5, (y', u6, (v', owned)))))))))) =
          (l2_standard_iff n d1 d2 d2.standard_gateway).0 q in
        (
          record { to_child = a; to_parent = k; parent_router = b; child_router = l; to_inbox = c },
          w,
          record {
            parent_factory = (f, e1, (g, e2, (x, e3, s)));
            parent_hash = (h, e4, (f', e5, (x', e6, s')));
            child_factory = (t, u1, (m, u2, (y, u3, v)));
            child_hash = (o, u4, (m', u5, (y', u6, v')));
            beacon_owned = (t, u1, opened t owned);
          },
        ),
    λ (pair, w, tokens). (
      (l1_standard_iff n d1 d2 r d1.standard_gateway).1
          (pair.to_child, (pair.parent_router, (pair.to_inbox, parent tokens w))),
      (l2_standard_iff n d1 d2 d2.standard_gateway).1
          (pair.to_parent, (pair.child_router, child tokens)),
    ),
  )
    where
      opened : (factory : Text) → BeaconOwned n d1 d2 factory → BeaconFacts n d2 factory
      opened factory (the_beacon, e1, (the_owner, e2, (same, logic))) =
          (the_beacon, e1, ((the_owner, e2, same), logic))

      closed : (factory : Text) → BeaconFacts n d2 factory → BeaconOwned n d1 d2 factory
      closed factory (the_beacon, e1, ((the_owner, e2, same), logic)) =
          (the_beacon, e1, (the_owner, e2, (same, logic)))

      parent :
          (tokens : TokensAgree n r d1 d2)
          → Reads n.l1 d1.standard_gateway whitelist address_zero
          → ParentFacts n d1.standard_gateway
      parent tokens w =
          let (f, e1, (g, e2, (x, e3, s))) = tokens.parent_factory in
          let (h, e4, (f', e5, (x', e6, s'))) = tokens.parent_hash in
          (f, e1, (g, e2, (x, e3, (s, (h, e4, (f', e5, (x', e6, (s', w))))))))

      child : TokensAgree n r d1 d2 → ChildFacts n d1 d2 d2.standard_gateway
      child tokens =
          let (t, u1, (m, u2, (y, u3, v))) = tokens.child_factory in
          let (o, u4, (m', u5, (y', u6, v'))) = tokens.child_hash in
          let (t', u7, facts) = tokens.beacon_owned in
          let owned = subst (BeaconOwned n d1 d2) (same_answer _ t t' u1 u7) (closed t' facts) in
          (t, u1, (m, u2, (y, u3, (v, (o, u4, (m', u5, (y', u6, (v', owned))))))))
