-- ===== src/Scripts/Usdc/Prepare.antt =====
-- What the first half of `_registerGateway` finds out.
use token_bridge_contracts.Base.{
  ℕ, ◌+◌, ◌*◌, ◌≡◌, refl, Bool, true, false, not, ◌&&◌, Option, none, some, codes, Text,
  if◌then◌else◌,
}
use token_bridge_contracts.Scripts.Chain.{Net}
use token_bridge_contracts.Scripts.Monad.{World, pure, view, ◌>>=◌}
use token_bridge_contracts.Scripts.Triples.{
  After, After-bind, After-fail_if, After-view, After-gets, After-or_fail,
}
use token_bridge_contracts.Scripts.Fees.{get_prescaled_amount}
use token_bridge_contracts.Scripts.Usdc.{
  Registration, is_fee_token, prepare_registration, get_fee_token, registration_fee,
  is_upgrade_executor,
}

-- the fee that the ticket needs, in ether's decimals
abbrev pub ticket_fee : Registration → ℕ
ticket_fee r = r.max_gas * r.gas_price_bid + r.max_submission_cost

-- The fee is the ticket's, converted to the decimals of the fee token if there is one.
abbrev pub FeeIs : (is_token : Bool) → Option ℕ → (fee total : ℕ) → Type 0
FeeIs false decimals fee total = total ≡ fee
FeeIs true none fee total = ⊥
FeeIs true (some decimals) fee total = total ≡ get_prescaled_amount decimals fee

module _ (n : Net) (w : World) where
  pub record Prepared (gateway : Text) (r : Registration) : Type 0 where
    pub router_set : n.env_var (codes "L1_ROUTER") ≡ some r.router
    pub usdc_set : n.env_var (codes "L1_USDC") ≡ some r.usdc
    pub is_owner : n.owner w.txs r.router ≡ some r.executor
    pub is_admin : n.has_admin_role w.txs r.executor ≡ true
    pub is_in_role : n.has_executor_role w.txs r.executor ≡ true
    pub is_gateway : r.gateway ≡ gateway
    pub fee :
        FeeIs (is_fee_token r.fee_token) (n.decimals w.txs r.fee_token) (ticket_fee r) r.total_fee

  abbrev pub Same : World → Type 0
  Same w' = w' ≡ w

  After-fee :
      (token : Text) (fee : ℕ)
      → After Same
          (λ total w'. (w' ≡ w) × FeeIs (is_fee_token token) (n.decimals w.txs token) fee total)
          (registration_fee n token fee w)
  unfolding registration_fee
  After-fee token fee = go (is_fee_token token)
    where
      go :
          (b : Bool)
          → After Same
              (λ total w'. (w' ≡ w) × FeeIs b (n.decimals w.txs token) fee total)
              ((if b
                  then (do
                    decimals ← view (λ txs. n.decimals txs token)
                    pure (get_prescaled_amount decimals fee))
                  else pure fee)
                w)
      go false = (refl, refl)
      go true =
          After-view Same _ (λ txs. n.decimals txs token) _ w refl
            λ decimals has. (refl, rw has refl)

  pub After-fee_token : (inbox : Text) → After Same (λ _ w'. w' ≡ w) (get_fee_token n inbox w)
  unfolding get_fee_token
  After-fee_token inbox =
      After-view Same (λ _ w'. w' ≡ w) (λ txs. n.bridge txs inbox) _ w refl λ bridge has. refl

  both_roles :
      (executor : Text)
      → not (is_upgrade_executor n w.txs executor) ≡ false
      → (n.has_admin_role w.txs executor ≡ true) × (n.has_executor_role w.txs executor ≡ true)
  unfolding is_upgrade_executor
  both_roles executor h =
      go (n.has_admin_role w.txs executor) (n.has_executor_role w.txs executor) h
    where
      go : (a b : Bool) → not (a && b) ≡ false → (a ≡ true) × (b ≡ true)
      go true true h = (refl, refl)
      go true false h = cc
      go false b h = cc

  pub prepare_lem :
      (inbox gateway : Text)
      → After Same (λ r w'. (w' ≡ w) × Prepared gateway r) (prepare_registration n inbox gateway w)
  unfolding prepare_registration
  prepare_lem inbox gateway =
      let P = λ (r : Registration) (w' : World). (w' ≡ w) × Prepared gateway r in
      After-bind Same P _ (λ _ w'. w' ≡ w) (get_fee_token n inbox) w (After-fee_token inbox)
        λ token w1 same. rw same (
          After-or_fail Same P (n.env_var (codes "L1_ROUTER")) _ _ w refl λ router router_set.
            After-or_fail Same P (n.env_var (codes "L2_ROUTER")) _ _ w refl λ l2_router l2_set.
              After-or_fail Same P (n.env_var (codes "L1_USDC")) _ _ w refl λ usdc usdc_set.
                After-view Same P (λ txs. n.owner txs router) _ w refl
                  λ executor is_owner.
                    After-gets Same P (λ txs. is_upgrade_executor n txs executor) _ w
                      (After-fail_if Same P _ _ _ w refl λ executes.
                        After-view Same P (λ txs. n.estimate_all txs router l2_router) _ w refl
                          λ params estimated.
                            After-bind Same P _
                              (λ total w'.
                                (w' ≡ w)
                                × FeeIs (is_fee_token token) (n.decimals w.txs token) _ total)
                              (registration_fee n token _) w (After-fee token _)
                              λ total w2 fee. (
                                fee.0,
                                record {
                                  router_set = router_set;
                                  usdc_set = usdc_set;
                                  is_owner = is_owner;
                                  is_admin = (both_roles executor executes).0;
                                  is_in_role = (both_roles executor executes).1;
                                  is_gateway = refl;
                                  fee = fee.1;
                                },
                              )))
