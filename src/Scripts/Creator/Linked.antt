-- ===== src/Scripts/Creator/Linked.antt =====
-- When `registerGateway` sends the registration.
use token_bridge_contracts.Base.{
  ◌+◌, ◌*◌, ◌≡◌, refl, ap, ◌∙◌, ◌⊎◌, inl, inr, Bool, true, false, not, none, some, List, [], ◌∷◌,
  codes, Text, text_eq, text_eq_iff, if◌then◌else◌,
}
use token_bridge_contracts.Scripts.Chain.{
  Call, Net, MessageStatus, GasParams, execute_call, set_gateways,
}
use token_bridge_contracts.Scripts.Monad.{World, pure, stop}
use token_bridge_contracts.Scripts.Triples.{
  After, After-send, After-fail_if, After-view, After-gets,
}
use token_bridge_contracts.Scripts.Usdc.{is_redeemed}
use token_bridge_contracts.Scripts.Creator.{one_redeemed, send_registration, register_gateway}

abbrev pub OneRedeemed : List MessageStatus → Type 0
OneRedeemed [] = ⊥
OneRedeemed (s ∷ rest) = is_redeemed s ≡ true

same_text : (a b : Text) → not (text_eq a b) ≡ false → a ≡ b
same_text a b h = (text_eq_iff a b).0 (by_not (text_eq a b) h)
  where
    by_not : (c : Bool) → not c ≡ false → c ≡ true
    by_not true h = refl
    by_not false h = cc

module _ (n : Net) (upgrade_executor gateway_router : Text) (tokens gateways : List Text)
    (w : World) where
  -- The router's counterpart on the child chain has code and names the router as its own.
  abbrev pub Linked : Type 0
  Linked =
      (l2_router : Text) × (n.counterpart w.txs gateway_router ≡ some l2_router)
      × (text_eq (n.child_code w.txs l2_router) (codes "0x") ≡ false)
      × (n.child_counterpart w.txs l2_router ≡ some gateway_router)

  -- the executor's call of the router, which pays for the gas and the submission
  abbrev pub execution : GasParams → Call
  execution params = record {
    to = upgrade_executor;
    value = params.gas_limit * params.max_fee_per_gas + params.max_submission_cost;
    calldata = execute_call gateway_router (
        set_gateways tokens gateways params.gas_limit params.max_fee_per_gas
          params.max_submission_cost none);
  }

  abbrev pub registration_world : GasParams → World
  registration_world params = record w { txs = execution params ∷ w.txs }

  -- one transaction, of linked routers
  abbrev pub SentOnce : GasParams → World → Type 0
  SentOnce params w' = Linked × (w' ≡ registration_world params)

  abbrev pub Stopped : World → Type 0
  Stopped w' = (w' ≡ w) ⊎ ((params : GasParams) × SentOnce params w')

  abbrev pub Redeemed : World → Type 0
  Redeemed w' =
      (params : GasParams) × SentOnce params w'
      × OneRedeemed (n.message_statuses w.txs (execution params))

  After-one :
      (statuses : List MessageStatus) (w' : World) (P : List MessageStatus → World → Type 0)
      → Stopped w'
      → (OneRedeemed statuses → P statuses w')
      → After Stopped (λ _. P statuses) (one_redeemed statuses w')
  After-one [] w' P h all = h
  After-one (s ∷ rest) w' P h all = go (is_redeemed s) all
    where
      go :
          (b : Bool)
          → (b ≡ true → P (s ∷ rest) w')
          → After Stopped (λ _. P (s ∷ rest)) ((if b then pure tt else stop) w')
      go true all = all refl
      go false all = h

  -- `registerGateway` sends one transaction at most, and only for routers that name each other as
  -- counterparts, the child's with code: the executor's call of `setGateways`, with the gas limit
  -- times the fee per gas, plus the submission cost, as its value. If it returns, the transaction's
  -- first message is redeemed.
  pub register_gateway_linked :
      After Stopped
        (λ _. Redeemed)
        (register_gateway n upgrade_executor gateway_router tokens gateways w)
  unfolding register_gateway send_registration
  register_gateway_linked =
      let P = λ (_ : Unit {0}). Redeemed in
      After-view Stopped P (λ txs. n.counterpart txs gateway_router) _ w (inl refl)
        λ l2_router has_l2.
          After-gets Stopped P (λ txs. n.child_code txs l2_router) _ w
            (After-fail_if Stopped P _ _ _ w (inl refl) λ has_code.
              After-view Stopped P (λ txs. n.child_counterpart txs l2_router) _ w (inl refl)
                λ l1_router has_l1. After-fail_if Stopped P _ _ _ w (inl refl) λ same.
                  After-view Stopped P (λ txs. n.populate_params txs upgrade_executor) _ w
                    (inl refl)
                    λ params estimated.
                      let linked : Linked = (
                        l2_router,
                        has_l2,
                        has_code,
                        has_l1 ∙ ap some (same_text l1_router gateway_router same),
                      ) in
                      After-send Stopped P n (execution params) _ w (inl refl) λ accepted.
                        After-one (n.message_statuses w.txs (execution params))
                          (registration_world params)
                          (λ statuses w'.
                            (params : GasParams) × SentOnce params w'
                            × OneRedeemed (n.message_statuses w.txs (execution params)))
                          (inr (params, (linked, refl)))
                          (λ redeemed. (params, (linked, refl), redeemed)))
