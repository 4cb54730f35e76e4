-- ===== src/Deployment/Run/Parts.antt =====
-- When each check passes, in the order of its expectations.
use token_bridge_contracts.Base.{◌≡◌, ◌↔◌, ◌<◌, refl, true, ltb, some, length, Text, arith, ltb→lt}
use token_bridge_contracts.Scripts.Chain.{L1Deployment, L2Deployment}
use token_bridge_contracts.Scripts.Usdc.{address_zero}
use token_bridge_contracts.Deployment.Views.{
  Setting, Chain, View, Check, ◌>>=◌, called, call_failed, expect, is_initialized, default_gateway,
  inbox, router, counterpart_gateway, l2_beacon_proxy_factory, beacon_proxy_factory,
  cloneable_proxy_hash, whitelist, l1_weth, l2_weth, owner, beacon, implementation,
}
use token_bridge_contracts.Deployment.Parent.{
  RollupAddresses, check_l1_router_initialization, check_l1_standard_gateway_initialization,
  check_l1_custom_gateway_initialization, check_l1_weth_gateway_initialization,
}
use token_bridge_contracts.Deployment.Child.{
  check_l2_router_initialization, check_l2_standard_gateway_initialization, check_beacon,
  check_l2_custom_gateway_initialization, check_l2_multicall_initialization,
  check_l2_weth_gateway_initialization,
}
use token_bridge_contracts.Deployment.Run.Rules.{
  Passes, SameAddress, Reads, ReadsOther, expect_iff, then_iff, bind_iff, or_throw_iff, ↔_trans,
  expect_eq_iff, expect_same_iff, expect_view_iff, expect_other_iff,
}
use token_bridge_contracts.Deployment.Run.Facts.{At, IsInitialized}

-- a view that is read, and what follows
pub At_iff :
    (P : Text → Type 0) (c : Chain) (address : Text) (v : View) (k : Text → Check Unit)
    → ((answer : Text) → Passes (k answer) ↔ P answer)
    → Passes (called (c.read address v) >>= k) ↔ At c address v P
At_iff P c address v k p = or_throw_iff P k p (c.read address v) call_failed

module _ (n : Setting) where
  pub IsInitialized-iff :
      (c : Chain) (contract : Text)
      → Passes (is_initialized n c contract >>= expect) ↔ IsInitialized n c contract
  IsInitialized-iff c contract =
      ↔_trans (bind_iff (λ b. b ≡ true) expect expect_iff (is_initialized n c contract))
        (λ (b, e, h). rw h at e, λ h. (true, h, refl))

  pub multicall_iff :
      (l2_multicall : Text)
      → Passes (check_l2_multicall_initialization n l2_multicall)
        ↔ ((code : Text) × (n.l2.get_code l2_multicall ≡ some code) × (2 < length code))
  unfolding check_l2_multicall_initialization
  multicall_iff l2_multicall =
      or_throw_iff (λ code. 2 < length code) _
        (λ code.
          ↔_trans (expect_iff (ltb 2 (length code)))
            (λ h. ltb→lt 2 (length code) h, λ h. ground arith))
        (n.l2.get_code l2_multicall) call_failed

-- how the checks of the standard gateways say what `TokensAgree` says
abbrev pub ParentFacts : Setting → (g : Text) → Type 0
ParentFacts n g = At n.l1 g l2_beacon_proxy_factory (λ factory. At n.l1 g counterpart_gateway (λ g2.
    At n.l2 g2 beacon_proxy_factory (λ answer.
      SameAddress factory answer
      × At n.l1 g cloneable_proxy_hash (λ hash. At n.l1 g l2_beacon_proxy_factory (λ factory.
        At n.l2 factory cloneable_proxy_hash
          (λ answer. SameAddress hash answer × Reads n.l1 g whitelist address_zero))))))

module _ (n : Setting) (d1 : L1Deployment) (d2 : L2Deployment) (r : RollupAddresses) where
  pub l1_router_iff :
      (g : Text)
      → Passes (check_l1_router_initialization n d1 d2 r g) ↔ (
          Reads n.l1 g default_gateway d1.standard_gateway
          × (Reads n.l1 g inbox r.inbox
              × (Reads n.l1 g router address_zero × Reads n.l1 g counterpart_gateway d2.router)))
  unfolding check_l1_router_initialization
  l1_router_iff g = then_iff _ _ (expect_view_iff n.l1 g default_gateway d1.standard_gateway) (
      then_iff _ _ (expect_view_iff n.l1 g inbox r.inbox) (
        then_iff _ _ (expect_view_iff n.l1 g router address_zero)
          (expect_view_iff n.l1 g counterpart_gateway d2.router)))

  pub l1_standard_iff :
      (g : Text)
      → Passes (check_l1_standard_gateway_initialization n d1 d2 r g) ↔ (
          Reads n.l1 g counterpart_gateway d2.standard_gateway
          × (Reads n.l1 g router d1.router × (Reads n.l1 g inbox r.inbox × ParentFacts n g)))
  unfolding check_l1_standard_gateway_initialization
  l1_standard_iff g =
      then_iff _ _ (expect_view_iff n.l1 g counterpart_gateway d2.standard_gateway) (
        then_iff _ _ (expect_view_iff n.l1 g router d1.router) (
          then_iff _ _ (expect_view_iff n.l1 g inbox r.inbox) (
            At_iff _ n.l1 g l2_beacon_proxy_factory _ λ factory.
              At_iff _ n.l1 g counterpart_gateway _ λ g2.
                At_iff _ n.l2 g2 beacon_proxy_factory _ λ answer.
                  then_iff _ _ (expect_same_iff factory answer) (
                    At_iff _ n.l1 g cloneable_proxy_hash _ λ hash.
                      At_iff _ n.l1 g l2_beacon_proxy_factory _ λ factory.
                        At_iff _ n.l2 factory cloneable_proxy_hash _ λ answer.
                          then_iff _ _ (expect_same_iff hash answer)
                            (expect_view_iff n.l1 g whitelist address_zero)))))

  pub l1_custom_iff :
      (g : Text)
      → Passes (check_l1_custom_gateway_initialization n d1 d2 r g) ↔ (
          Reads n.l1 g counterpart_gateway d2.custom_gateway
          × (Reads n.l1 g router d1.router
              × (Reads n.l1 g inbox r.inbox × Reads n.l1 g whitelist address_zero)))
  unfolding check_l1_custom_gateway_initialization
  l1_custom_iff g = then_iff _ _ (expect_view_iff n.l1 g counterpart_gateway d2.custom_gateway) (
      then_iff _ _ (expect_view_iff n.l1 g router d1.router) (
        then_iff _ _ (expect_view_iff n.l1 g inbox r.inbox)
          (expect_view_iff n.l1 g whitelist address_zero)))

  pub l1_weth_iff :
      (g : Text)
      → Passes (check_l1_weth_gateway_initialization n d1 d2 r g) ↔ (
          Reads n.l1 g counterpart_gateway d2.weth_gateway
          × (Reads n.l1 g router d1.router
              × (Reads n.l1 g inbox r.inbox
                  × (ReadsOther n.l1 g l1_weth address_zero
                      × ReadsOther n.l1 g l2_weth address_zero))))
  unfolding check_l1_weth_gateway_initialization
  l1_weth_iff g = then_iff _ _ (expect_view_iff n.l1 g counterpart_gateway d2.weth_gateway) (
      then_iff _ _ (expect_view_iff n.l1 g router d1.router) (
        then_iff _ _ (expect_view_iff n.l1 g inbox r.inbox) (
          then_iff _ _ (expect_other_iff n.l1 g l1_weth address_zero)
            (expect_other_iff n.l1 g l2_weth address_zero))))

module _ (n : Setting) (d1 : L1Deployment) (d2 : L2Deployment) where
  pub l2_router_iff :
      (g : Text)
      → Passes (check_l2_router_initialization n d1 d2 g) ↔ (
          Reads n.l2 g default_gateway d2.standard_gateway
          × (Reads n.l2 g router address_zero × Reads n.l2 g counterpart_gateway d1.router))
  unfolding check_l2_router_initialization
  l2_router_iff g = then_iff _ _ (expect_view_iff n.l2 g default_gateway d2.standard_gateway) (
      then_iff _ _ (expect_view_iff n.l2 g router address_zero)
        (expect_view_iff n.l2 g counterpart_gateway d1.router))

  pub l2_custom_iff :
      (g : Text)
      → Passes (check_l2_custom_gateway_initialization n d1 d2 g)
        ↔ (Reads n.l2 g counterpart_gateway d1.custom_gateway × Reads n.l2 g router d2.router)
  unfolding check_l2_custom_gateway_initialization
  l2_custom_iff g =
      then_iff _ _ (expect_view_iff n.l2 g counterpart_gateway d1.custom_gateway)
        (expect_view_iff n.l2 g router d2.router)

  pub l2_weth_iff :
      (g : Text)
      → Passes (check_l2_weth_gateway_initialization n d1 d2 g) ↔ (
          Reads n.l2 g counterpart_gateway d1.weth_gateway
          × (Reads n.l2 g router d2.router
              × (ReadsOther n.l2 g l1_weth address_zero × ReadsOther n.l2 g l2_weth address_zero)))
  unfolding check_l2_weth_gateway_initialization
  l2_weth_iff g = then_iff _ _ (expect_view_iff n.l2 g counterpart_gateway d1.weth_gateway) (
      then_iff _ _ (expect_view_iff n.l2 g router d2.router) (
        then_iff _ _ (expect_other_iff n.l2 g l1_weth address_zero)
          (expect_other_iff n.l2 g l2_weth address_zero)))

  abbrev pub BeaconOwned : (factory : Text) → Type 0
  BeaconOwned factory = At n.l2 factory beacon (λ the_beacon. At n.l2 the_beacon owner (λ the_owner.
      (the_owner ≡ d2.upgrade_executor) × At n.l2 the_beacon implementation (IsInitialized n n.l2)))

  beacon_iff : (factory : Text) → Passes (check_beacon n d1 d2 factory) ↔ BeaconOwned factory
  unfolding check_beacon
  beacon_iff factory = At_iff _ n.l2 factory beacon _ λ the_beacon.
      At_iff _ n.l2 the_beacon owner _ λ the_owner.
        then_iff _ _ (expect_eq_iff the_owner d2.upgrade_executor)
          (At_iff _ n.l2 the_beacon implementation _ λ logic. IsInitialized-iff n n.l2 logic)

  -- the factory, the hash and the beacon
  abbrev pub ChildFacts : (g : Text) → Type 0
  ChildFacts g = At n.l2 g beacon_proxy_factory (λ factory. At n.l2 g counterpart_gateway (λ g1.
      At n.l1 g1 l2_beacon_proxy_factory (λ answer.
        SameAddress factory answer
        × At n.l2 g cloneable_proxy_hash (λ hash. At n.l2 g counterpart_gateway (λ g1.
          At n.l1 g1 cloneable_proxy_hash
            (λ answer. SameAddress hash answer × BeaconOwned factory))))))

  pub l2_standard_iff :
      (g : Text)
      → Passes (check_l2_standard_gateway_initialization n d1 d2 g) ↔ (
          Reads n.l2 g counterpart_gateway d1.standard_gateway
          × (Reads n.l2 g router d2.router × ChildFacts g))
  unfolding check_l2_standard_gateway_initialization
  l2_standard_iff g =
      then_iff _ _ (expect_view_iff n.l2 g counterpart_gateway d1.standard_gateway) (
        then_iff _ _ (expect_view_iff n.l2 g router d2.router) (
          At_iff _ n.l2 g beacon_proxy_factory _ λ factory.
            At_iff _ n.l2 g counterpart_gateway _ λ g1.
              At_iff _ n.l1 g1 l2_beacon_proxy_factory _ λ answer.
                then_iff _ _ (expect_same_iff factory answer) (
                  At_iff _ n.l2 g cloneable_proxy_hash _ λ hash.
                    At_iff _ n.l2 g counterpart_gateway _ λ g1.
                      At_iff _ n.l1 g1 cloneable_proxy_hash _
                        λ answer. then_iff _ _ (expect_same_iff hash answer) (beacon_iff factory))))
