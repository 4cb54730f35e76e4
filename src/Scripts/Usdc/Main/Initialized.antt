-- ===== src/Scripts/Usdc/Main/Initialized.antt =====
-- The transactions of the initialization of the gateways.
use token_bridge_contracts.Base.{◌≡◌, refl, some, List, ◌∷◌, codes, Text, All}
use token_bridge_contracts.Scripts.Chain.{Field, Net}
use token_bridge_contracts.Scripts.Monad.{l1_init_failed, l2_init_failed, ◌>>◌, World}
use token_bridge_contracts.Scripts.Triples.{After, After-bind, After-or_fail, After-weaken}
use token_bridge_contracts.Scripts.Creations.Rules.{After-mined}
use token_bridge_contracts.Scripts.Usdc.{l1_fields, l2_fields, expect_fields, initialize_gateways}
use token_bridge_contracts.Scripts.Usdc.Setup.{
  Answers, After-expect, l1_initialize, l2_initialize, Anywhere,
}
use token_bridge_contracts.Scripts.Usdc.Main.Steps.{blocked}

module _ (n : Net) where
  After-checked :
      (l1_gateway l2_gateway : Text) (l1 l2 : List (Field × Text)) (w : World)
      (P : Unit → World → Type 0)
      → P tt w
      → After Anywhere P (
          (do
            expect_fields n l1_gateway l1 l1_init_failed
            expect_fields n l2_gateway l2 l2_init_failed)
            w)
  After-checked l1_gateway l2_gateway l1 l2 w P p =
      let first = λ (w' : World). (w' ≡ w) × All (Answers n w.txs l1_gateway) l1 in
      let second = λ (w' : World). (w' ≡ w) × All (Answers n w.txs l2_gateway) l2 in
      let m = expect_fields n l2_gateway l2 l2_init_failed w in
      After-bind Anywhere P _ (λ _. first) (expect_fields n l1_gateway l1 l1_init_failed) w
        (After-expect n l1_gateway l1 l1_init_failed w)
        λ _ w1 h. rw (h.0) (
          After-weaken Anywhere Anywhere (λ _. second) P m.0 m.1 (λ w' u. u)
            (λ _ w' h2. rw (h2.0) p) (After-expect n l2_gateway l2 l2_init_failed w))

  -- the two initializations with the routers and the token of the environment
  abbrev pub InitializedBy :
      (l1_gateway l2_gateway inbox usdc parent child : Text) → (before after : World) → Type 0
  InitializedBy l1_gateway l2_gateway inbox usdc parent child w w' =
      (l1_router : Text) × (l2_router : Text) × (l1_usdc : Text) × (n.env_var (codes "L1_ROUTER")
        ≡ some l1_router)
      × (n.env_var (codes "L2_ROUTER") ≡ some l2_router)
      × (n.env_var (codes "L1_USDC") ≡ some l1_usdc)
      × (w' ≡ record w {
        txs =
            l2_initialize n l1_gateway l2_gateway usdc child l2_router l1_usdc
            ∷ l1_initialize n l1_gateway l2_gateway inbox usdc parent l1_router l1_usdc
            ∷ w.txs;
      })

  pub After-InitializedBy :
      (l1_gateway l2_gateway inbox usdc parent child : Text) (w : World)
      → After Anywhere
          (λ _. InitializedBy l1_gateway l2_gateway inbox usdc parent child w)
          (initialize_gateways n l1_gateway l2_gateway inbox usdc parent child w)
  unfolding initialize_gateways
  After-InitializedBy l1_gateway l2_gateway inbox usdc parent child w =
      let P = λ (_ : Unit {0}). InitializedBy l1_gateway l2_gateway inbox usdc parent child w in
      After-or_fail Anywhere P (n.env_var (codes "L1_ROUTER")) _ _ w tt λ l1_router has_l1.
        After-or_fail Anywhere P (n.env_var (codes "L2_ROUTER")) _ _ w tt λ l2_router has_l2.
          After-or_fail Anywhere P (n.env_var (codes "L1_USDC")) _ _ w tt λ l1_usdc has_usdc.
            After-mined n Anywhere P (blocked n) _ _ w (
              After-mined n Anywhere P (blocked n) _ _ _ (
                let w1 = record w {
                  txs =
                      l2_initialize n l1_gateway l2_gateway usdc child l2_router l1_usdc
                      ∷ l1_initialize n l1_gateway l2_gateway inbox usdc parent l1_router l1_usdc
                      ∷ w.txs;
                } in
                After-checked l1_gateway l2_gateway
                  (l1_fields l1_router inbox l1_usdc usdc parent l2_gateway)
                  (l2_fields l1_gateway l2_router l1_usdc usdc child) w1 P
                  (l1_router, l2_router, l1_usdc, has_l1, has_l2, has_usdc, refl)))
