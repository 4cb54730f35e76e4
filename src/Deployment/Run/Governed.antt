-- ===== src/Deployment/Run/Governed.antt =====
-- When the checks of roles, owners and logic contracts pass, in the order of their expectations.
use token_bridge_contracts.Base.{
  ◌≡◌, ◌↔◌, refl, Bool, true, false, not, ltb, Option, none, some, length, Text, text_eq, to_lower,
  arith, ltb→lt, if◌then◌else◌,
}
use token_bridge_contracts.Scripts.Chain.{L1Deployment, L2Deployment}
use token_bridge_contracts.Scripts.Usdc.{address_zero}
use token_bridge_contracts.Deployment.Views.{
  Setting, Chain, View, Check, passed, ◌>>=◌, ◌>>◌, called, call_failed, type_error, or_throw,
  expect, get_proxy_admin_of, get_logic_address, get_owner, is_initialized, counterpart_gateway,
  l1_weth, l2_gateway, owner, admin_role, executor_role,
}
use token_bridge_contracts.Deployment.Alias.{apply_alias}
use token_bridge_contracts.Deployment.Parent.{RollupAddresses}
use token_bridge_contracts.Deployment.Owners.{
  expect_role, expect_admin, expect_owner, expect_logic, l2_rollup_owner,
  check_l1_upgrade_executor_initialization, check_l2_upgrade_executor_initialization,
  check_l1_ownership, check_l2_ownership, check_logic_contracts, check_weth_gateway_is_registered,
}
use token_bridge_contracts.Deployment.Run.Rules.{
  Passes, expect_iff, then_iff, when_iff, bind_iff, or_throw_iff, ↔_trans, expect_eq_iff,
  expect_ne_iff,
}
use token_bridge_contracts.Deployment.Run.Facts.{
  At, OwnerIs, AdminIs, LogicIsInitialized, OwnerOnChild,
}
use token_bridge_contracts.Deployment.Run.Parts.{At_iff}

abbrev pub RoleGiven : Chain → (executor role account : Text) → Type 0
RoleGiven c executor role account = c.has_role executor role account ≡ some true

role_iff :
    (c : Chain) (executor role account : Text)
    → Passes (expect_role c executor role account) ↔ RoleGiven c executor role account
role_iff c executor role account =
    ↔_trans
      (or_throw_iff (λ b. b ≡ true) expect expect_iff (c.has_role executor role account)
        call_failed)
      (λ (b, e, h). rw h at e, λ h. (true, h, refl))

module _ (n : Setting) where
  expect_admin_iff :
      (c : Chain) (proxy admin : Text)
      → Passes (expect_admin n c proxy admin) ↔ AdminIs n c proxy admin
  unfolding expect_admin
  expect_admin_iff c proxy admin =
      ↔_trans
        (bind_iff (λ a. a ≡ admin) _ (λ a. expect_eq_iff a admin) (get_proxy_admin_of n c proxy))
        (λ (a, e, h). rw h at e, λ h. (admin, h, refl))

  expect_owner_iff :
      (c : Chain) (contract the_owner : Text)
      → Passes (expect_owner n c contract the_owner) ↔ OwnerIs c contract the_owner
  unfolding expect_owner get_owner
  expect_owner_iff c contract the_owner = go (c.read contract owner)
    where
      go :
          (o : Option Text)
          → Passes (
              ((called o >>= λ address. passed (to_lower address)) >>= λ actual.
              expect (text_eq actual the_owner)))
            ↔ ((answer : Text) × (o ≡ some answer) × (to_lower answer ≡ the_owner))
      go none = (λ h. cc, λ (answer, e, h). cc)
      go (some address) =
          ↔_trans (expect_eq_iff (to_lower address) the_owner)
            (λ h. (address, refl, h), λ (answer, e, h). rw (same answer e) h)
        where
          same : (answer : Text) → some address ≡ some answer → address ≡ answer
          same answer e = cc

  pub l1_executor_iff :
      (e : Text) (r : RollupAddresses)
      → Passes (check_l1_upgrade_executor_initialization n e r)
        ↔ At n.l1 e admin_role (λ admin.
          At n.l1 e executor_role
            (λ executor. RoleGiven n.l1 e admin e × RoleGiven n.l1 e executor r.rollup_owner))
  unfolding check_l1_upgrade_executor_initialization
  l1_executor_iff e r = At_iff _ n.l1 e admin_role _ λ admin.
      At_iff _ n.l1 e executor_role _
        λ executor. then_iff _ _ (role_iff n.l1 e admin e) (role_iff n.l1 e executor r.rollup_owner)

  pub l2_rollup_owner_iff :
      (rollup_owner code account : Text)
      → (l2_rollup_owner n rollup_owner code ≡ passed account)
        ↔ OwnerOnChild n rollup_owner code account
  l2_rollup_owner_iff rollup_owner code account = ↔_trans (go (ltb 2 (length code))) (
    λ h. (λ lt. (h.0) (ground arith), λ ge. (h.1) (ground arith)),
    λ h. (λ e. (h.0) (ltb→lt 2 (length code) e), λ e. (h.1) (λ lt. ground arith)),
  )
    where
      alias : (o : Option Text) → (or_throw o type_error ≡ passed account) ↔ (o ≡ some account)
      alias none = (λ h. cc, λ h. cc)
      alias (some a) = (λ h. cc, λ h. cc)

      go :
          (b : Bool)
          → ((if b then or_throw (apply_alias rollup_owner) type_error else passed rollup_owner)
              ≡ passed account)
            ↔ ((b ≡ true → apply_alias rollup_owner ≡ some account)
                × (b ≡ false → rollup_owner ≡ account))
      go true = (
        λ h. (λ _. (alias (apply_alias rollup_owner)).0 h, λ e. cc),
        λ h. (alias (apply_alias rollup_owner)).1 (h.0 refl),
      )
      go false = (λ h. (λ e. cc, λ _. cc), λ h. cc (h.1 refl))

  pub l2_executor_iff :
      (e : Text) (r : RollupAddresses)
      → Passes (check_l2_upgrade_executor_initialization n e r)
        ↔ At n.l2 e admin_role (λ admin. At n.l2 e executor_role (λ executor.
          RoleGiven n.l2 e admin e
          × ((code : Text) × (n.l1.get_code r.rollup_owner ≡ some code)
              × ((account : Text) × (l2_rollup_owner n r.rollup_owner code ≡ passed account)
                  × (RoleGiven n.l2 e executor account
                      × ((aliased : Text) × (apply_alias r.upgrade_executor ≡ some aliased)
                          × RoleGiven n.l2 e executor aliased))))))
  unfolding check_l2_upgrade_executor_initialization
  l2_executor_iff e r = At_iff _ n.l2 e admin_role _ λ admin.
      At_iff _ n.l2 e executor_role _ λ executor. then_iff _ _ (role_iff n.l2 e admin e) (
        or_throw_iff _ _
          (λ code.
            bind_iff _ _
              (λ account. then_iff _ _ (role_iff n.l2 e executor account) (
                or_throw_iff _ _ (λ aliased. role_iff n.l2 e executor aliased)
                  (apply_alias r.upgrade_executor) type_error))
              (l2_rollup_owner n r.rollup_owner code))
          (n.l1.get_code r.rollup_owner) call_failed)

  pub l1_ownership_iff :
      (d1 : L1Deployment) (r : RollupAddresses)
      → Passes (check_l1_ownership n d1 r) ↔ (
          AdminIs n n.l1 d1.router r.proxy_admin
          × (AdminIs n n.l1 d1.standard_gateway r.proxy_admin
              × (AdminIs n n.l1 d1.custom_gateway r.proxy_admin
                  × ((not (text_eq d1.weth_gateway address_zero) ≡ true
                        → AdminIs n n.l1 d1.weth_gateway r.proxy_admin)
                      × (AdminIs n n.l1 r.upgrade_executor r.proxy_admin
                          × (OwnerIs n.l1 r.proxy_admin r.upgrade_executor
                              × (OwnerIs n.l1 d1.router r.upgrade_executor
                                  × OwnerIs n.l1 d1.custom_gateway r.upgrade_executor)))))))
  unfolding check_l1_ownership
  l1_ownership_iff d1 r = then_iff _ _ (expect_admin_iff n.l1 d1.router r.proxy_admin) (
      then_iff _ _ (expect_admin_iff n.l1 d1.standard_gateway r.proxy_admin) (
        then_iff _ _ (expect_admin_iff n.l1 d1.custom_gateway r.proxy_admin) (
          then_iff _ _ (when_iff _ _ (expect_admin_iff n.l1 d1.weth_gateway r.proxy_admin)) (
            then_iff _ _ (expect_admin_iff n.l1 r.upgrade_executor r.proxy_admin) (
              then_iff _ _ (expect_owner_iff n.l1 r.proxy_admin r.upgrade_executor) (
                then_iff _ _ (expect_owner_iff n.l1 d1.router r.upgrade_executor)
                  (expect_owner_iff n.l1 d1.custom_gateway r.upgrade_executor)))))))

  pub l2_ownership_iff :
      (d2 : L2Deployment) (fee : Bool)
      → Passes (check_l2_ownership n d2 fee) ↔ (
          (admin : Text) × (get_proxy_admin_of n n.l2 d2.router ≡ passed admin)
          × (AdminIs n n.l2 d2.router admin
              × (AdminIs n n.l2 d2.standard_gateway admin
                  × (AdminIs n n.l2 d2.custom_gateway admin
                      × ((not fee ≡ true → AdminIs n n.l2 d2.weth_gateway admin)
                          × (AdminIs n n.l2 d2.upgrade_executor admin
                              × OwnerIs n.l2 admin (to_lower d2.upgrade_executor)))))))
  unfolding check_l2_ownership
  l2_ownership_iff d2 fee =
      bind_iff _ _
        (λ admin. then_iff _ _ (expect_admin_iff n.l2 d2.router admin) (
          then_iff _ _ (expect_admin_iff n.l2 d2.standard_gateway admin) (
            then_iff _ _ (expect_admin_iff n.l2 d2.custom_gateway admin) (
              then_iff _ _ (when_iff _ _ (expect_admin_iff n.l2 d2.weth_gateway admin)) (
                then_iff _ _ (expect_admin_iff n.l2 d2.upgrade_executor admin)
                  (expect_owner_iff n.l2 admin (to_lower d2.upgrade_executor)))))))
        (get_proxy_admin_of n n.l2 d2.router)

  logic_iff :
      (proxy : Text) (v : View) → Passes (expect_logic n proxy v) ↔ LogicIsInitialized n proxy v
  unfolding expect_logic
  logic_iff proxy v =
      bind_iff _ _ (λ logic. At_iff _ n.l2 logic v _ λ answer. expect_ne_iff answer address_zero)
        (get_logic_address n n.l2 proxy)

  pub logic_contracts_iff :
      (fee : Bool) (d2 : L2Deployment)
      → Passes (check_logic_contracts n fee d2) ↔ (
          (logic : Text) × (get_logic_address n n.l2 d2.upgrade_executor ≡ passed logic)
          × ((b : Bool) × (is_initialized n n.l2 logic ≡ passed b)
              × ((b ≡ true)
                  × (LogicIsInitialized n d2.router counterpart_gateway
                      × (LogicIsInitialized n d2.standard_gateway counterpart_gateway
                          × (LogicIsInitialized n d2.custom_gateway counterpart_gateway
                              × (not fee ≡ true
                                  → LogicIsInitialized n d2.weth_gateway counterpart_gateway
                                    × LogicIsInitialized n d2.weth l2_gateway)))))))
  unfolding check_logic_contracts
  logic_contracts_iff fee d2 =
      bind_iff _ _
        (λ logic.
          bind_iff _ _
            (λ b. then_iff _ _ (expect_iff b) (
              then_iff _ _ (logic_iff d2.router counterpart_gateway) (
                then_iff _ _ (logic_iff d2.standard_gateway counterpart_gateway) (
                  then_iff _ _ (logic_iff d2.custom_gateway counterpart_gateway) (
                    when_iff _ _ (
                      then_iff _ _ (logic_iff d2.weth_gateway counterpart_gateway)
                        (logic_iff d2.weth l2_gateway)))))))
            (is_initialized n n.l2 logic))
        (get_logic_address n n.l2 d2.upgrade_executor)

  -- what is read for a token and is the expected text
  answer_iff :
      (o : Option Text) (expected : Text) (k : Check Unit) {P : Type 0}
      → (Passes k ↔ P)
      → Passes (called o >>= λ actual. expect (text_eq actual expected) >> k)
        ↔ ((o ≡ some expected) × P)
  answer_iff none expected k p = (λ h. cc, λ h. cc)
  answer_iff (some actual) expected k p =
      ↔_trans (then_iff _ _ (expect_eq_iff actual expected) p)
        (λ h. (rw (h.0) refl, h.1), λ h. (cc, h.1))

  pub registered_iff :
      (d1 : L1Deployment) (d2 : L2Deployment)
      → Passes
          (check_weth_gateway_is_registered n d1.weth_gateway d1.router d2.weth_gateway d2.router)
        ↔ At n.l1 d1.weth_gateway l1_weth (λ weth.
          (n.l1.l1_token_to_gateway d1.router weth ≡ some d1.weth_gateway)
          × ((n.l1.get_gateway d1.router weth ≡ some d1.weth_gateway)
              × ((n.l2.l1_token_to_gateway d2.router weth ≡ some d2.weth_gateway)
                  × ((answer : Text) × (n.l2.get_gateway d2.router weth ≡ some answer)
                      × (answer ≡ d2.weth_gateway)))))
  unfolding check_weth_gateway_is_registered
  registered_iff d1 d2 = At_iff _ n.l1 d1.weth_gateway l1_weth _ λ weth.
      answer_iff (n.l1.l1_token_to_gateway d1.router weth) d1.weth_gateway _ (
        answer_iff (n.l1.get_gateway d1.router weth) d1.weth_gateway _ (
          answer_iff (n.l2.l1_token_to_gateway d2.router weth) d2.weth_gateway _ (
            or_throw_iff _ _ (λ answer. expect_eq_iff answer d2.weth_gateway)
              (n.l2.get_gateway d2.router weth) call_failed)))
