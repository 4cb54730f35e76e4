-- ===== src/Deployment/Run/Roles.antt =====
-- The facts behind the checks of roles, admins and owners, put together by what they are about.
use token_bridge_contracts.Base.{◌≡◌, ◌↔◌, refl, ap, subst, Bool, true, false, not, Text}
use token_bridge_contracts.Scripts.Chain.{L1Deployment, L2Deployment}
use token_bridge_contracts.Scripts.Usdc.{address_zero}
use token_bridge_contracts.Deployment.Views.{Setting}
use token_bridge_contracts.Deployment.Parent.{RollupAddresses}
use token_bridge_contracts.Deployment.Owners.{
  check_l1_upgrade_executor_initialization, check_l2_upgrade_executor_initialization,
  check_l1_ownership, check_l2_ownership,
}
use token_bridge_contracts.Deployment.Run.Rules.{Passes, ne_iff}
use token_bridge_contracts.Deployment.Run.Facts.{AdminIs, AreGoverned}
use token_bridge_contracts.Deployment.Run.Governed.{
  RoleGiven, l1_executor_iff, l2_executor_iff, l2_rollup_owner_iff, l1_ownership_iff,
  l2_ownership_iff,
}
use token_bridge_contracts.Deployment.Run.Groups.{same_answer}

module _ (n : Setting) (r : RollupAddresses) (d1 : L1Deployment) (d2 : L2Deployment) where
  -- Where WETH is used its gateway has the admin of the other proxies.
  abbrev pub WethAdmin : Bool → Type 0
  WethAdmin fee =
      fee ≡ false
      → (admin : Text) × AdminIs n n.l2 d2.router admin × AdminIs n n.l2 d2.weth_gateway admin

  -- two roles of one executor, read once or twice
  pub governed_iff :
      (fee : Bool)
      → (Passes (check_l1_upgrade_executor_initialization n r.upgrade_executor r)
          × Passes (check_l2_upgrade_executor_initialization n d2.upgrade_executor r)
          × Passes (check_l1_ownership n d1 r)
          × Passes (check_l2_ownership n d2 fee))
        ↔ (AreGoverned n r d1 d2 × WethAdmin fee)
  governed_iff fee = (
    λ (p, q, s, t).
        let (a, e1, (x, e2, (g1, g2))) = (l1_executor_iff n r.upgrade_executor r).0 p in
        let (a', e3, (x', e4, (g3, (code, e5, (o, e6, (g4, (al, e7, g5))))))) =
          (l2_executor_iff n d2.upgrade_executor r).0 q in
        let (h1, (h2, (h3, (h4, (h5, (h6, (h7, h8))))))) = (l1_ownership_iff n d1 r).0 s in
        let (admin, e8, (_, (k1, (k2, (k3, (k4, k5)))))) = (l2_ownership_iff n d2 fee).0 t in
        (
          record {
            parent_admin_role = (a, e1, g1);
            parent_executor_role = (x, e2, g2);
            child_admin_role = (a', e3, g3);
            child_executor_role =
                (code, e5, o, (l2_rollup_owner_iff n r.rollup_owner code o).0 e6, (x', e4, g4));
            child_parent_role = (al, e7, (x', e4, g5));
            parent_router = h1;
            parent_standard = h2;
            parent_custom = h3;
            parent_weth = λ ne. h4 ((ne_iff d1.weth_gateway address_zero).1 ne);
            parent_executor = h5;
            parent_admin_owner = h6;
            parent_router_owner = h7;
            parent_custom_owner = h8;
            child_admin = (admin, e8, k1, k2, k4, k5);
          },
          λ used. (admin, e8, k3 (ap not used)),
        ),
    λ (f, w). (
      first f,
      second f,
      (l1_ownership_iff n d1 r).1 (
        f.parent_router,
        (
          f.parent_standard,
          (
            f.parent_custom,
            (
              λ ne. f.parent_weth ((ne_iff d1.weth_gateway address_zero).0 ne),
              (
                f.parent_executor,
                (f.parent_admin_owner, (f.parent_router_owner, f.parent_custom_owner)),
              ),
            ),
          ),
        ),
      ),
      owned f w,
    ),
  )
    where
      first :
          AreGoverned n r d1 d2
          → Passes (check_l1_upgrade_executor_initialization n r.upgrade_executor r)
      first f =
          let (a, e1, g1) = f.parent_admin_role in
          let (x, e2, g2) = f.parent_executor_role in
          (l1_executor_iff n r.upgrade_executor r).1 (a, e1, (x, e2, (g1, g2)))

      second :
          AreGoverned n r d1 d2
          → Passes (check_l2_upgrade_executor_initialization n d2.upgrade_executor r)
      second f =
          let (a, e1, g1) = f.child_admin_role in
          let (code, e2, o, is_owner, (x, e3, g2)) = f.child_executor_role in
          let (al, e4, (x', e5, g3)) = f.child_parent_role in
          (l2_executor_iff n d2.upgrade_executor r).1 (
            a,
            e1,
            (
              x,
              e3,
              (
                g1,
                (
                  code,
                  e2,
                  (
                    o,
                    (l2_rollup_owner_iff n r.rollup_owner code o).1 is_owner,
                    (
                      g2,
                      (
                        al,
                        e4,
                        subst (λ t. RoleGiven n.l2 d2.upgrade_executor t al)
                            (same_answer _ x x' e3 e5) g3,
                      ),
                    ),
                  ),
                ),
              ),
            ),
          )

      false_of_not : (b : Bool) → not b ≡ true → b ≡ false
      false_of_not true h = cc
      false_of_not false h = refl

      one_admin : (proxy a b : Text) → AdminIs n n.l2 proxy a → AdminIs n n.l2 proxy b → b ≡ a
      one_admin proxy a b p q = cc

      owned : AreGoverned n r d1 d2 → WethAdmin fee → Passes (check_l2_ownership n d2 fee)
      owned f w =
          let (admin, e1, k1, k2, k4, k5) = f.child_admin in
          (l2_ownership_iff n d2 fee).1 (
            admin,
            e1,
            (
              e1,
              (
                k1,
                (
                  k2,
                  (
                    λ used.
                        let (admin', e2, k3) = w (false_of_not fee used) in
                        subst (AdminIs n n.l2 d2.weth_gateway)
                          (one_admin d2.router admin admin' e1 e2) k3,
                    (k4, k5),
                  ),
                ),
              ),
            ),
          )
