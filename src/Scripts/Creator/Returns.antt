-- ===== src/Scripts/Creator/Returns.antt =====
-- A run of `createTokenBridge` that goes through, where fees are paid in ether.
use token_bridge_contracts.Base.{
  ℕ, ◌+◌, ◌*◌, ◌≡◌, refl, ap, true, none, some, List, [], ◌∷◌, Text, text_eq,
}
use token_bridge_contracts.Scripts.Chain.{
  Call, Net, GasParams, MessageStatus, redeemed, create_token_bridge_call,
}
use token_bridge_contracts.Scripts.Monad.{World, done}
use token_bridge_contracts.Scripts.Runs.{run-bind, run-view, run-send}
use token_bridge_contracts.Scripts.Usdc.{get_fee_token, address_zero, or_zero}
use token_bridge_contracts.Scripts.Creator.{
  Ticket, Deployment, create_token_bridge, estimate_tickets, approve_fee, send_creation,
  read_deployment, creation_call, both_redeemed,
}

-- the ticket of a rollup without a fee token
abbrev pub ether_ticket : Text → ℕ → GasParams → (factory_gas contracts_gas : ℕ) → Ticket
ether_ticket inbox gas_price params factory_gas contracts_gas = record {
  inbox = inbox;
  fee_token = address_zero;
  gas_price = gas_price;
  max_gas_for_contracts = contracts_gas * 2;
  fee_for_factory = params.max_submission_cost + factory_gas * gas_price;
  fee_for_contracts = params.max_submission_cost * 2 + contracts_gas * 2 * gas_price;
}

module _ (n : Net) (creator : Text) where
  estimate_run :
      (rollup inbox bridge : Text) (gas_price factory_gas contracts_gas : ℕ) (params : GasParams)
      (w : World)
      → n.gas_price w.txs ≡ some gas_price
      → n.estimate_all w.txs [] address_zero ≡ some params
      → n.factory_gas_limit w.txs creator ≡ some factory_gas
      → n.contracts_gas w.txs creator ≡ some contracts_gas
      → n.inbox w.txs rollup ≡ some inbox
      → n.bridge w.txs inbox ≡ some bridge
      → n.native_token w.txs bridge ≡ none
      → estimate_tickets n creator rollup w
        ≡ (done (ether_ticket inbox gas_price params factory_gas contracts_gas), w)
  unfolding estimate_tickets get_fee_token
  estimate_run rollup inbox bridge gas_price factory_gas contracts_gas params w h1 h2 h3 h4 h5 h6
        h7 =
      run-view (λ txs. n.gas_price txs) _ gas_price w h1
        (run-view (λ txs. n.estimate_all txs [] address_zero) _ params w h2
          (run-view (λ txs. n.factory_gas_limit txs creator) _ factory_gas w h3
            (run-view (λ txs. n.contracts_gas txs creator) _ contracts_gas w h4
              (run-view (λ txs. n.inbox txs rollup) _ inbox w h5
                (run-bind (get_fee_token n inbox) _ address_zero w w
                  (run-view (λ txs. n.bridge txs inbox) _ bridge w h6
                    (ap (λ o. (done (or_zero o), w)) h7))
                  refl)))))

  approve_run :
      (t : Ticket) (w : World)
      → t.fee_token ≡ address_zero
      → approve_fee n creator t w ≡ (done tt, w)
  unfolding approve_fee text_eq
  approve_run t w h = rw h refl

  creation_run :
      (rollup_owner : Text) (t : Ticket) (rest : List MessageStatus) (w : World)
      → n.accepts w.txs (creation_call n creator rollup_owner t) ≡ true
      → n.message_statuses w.txs (creation_call n creator rollup_owner t)
        ≡ redeemed ∷ redeemed ∷ rest
      → send_creation n creator rollup_owner t w
        ≡ (done tt, record w { txs = creation_call n creator rollup_owner t ∷ w.txs })
  unfolding send_creation
  creation_run rollup_owner t rest w accepted statuses =
      run-send n (creation_call n creator rollup_owner t) _ w accepted (
        ap
          (λ s. both_redeemed s (record w { txs = creation_call n creator rollup_owner t ∷ w.txs }))
          statuses)

  read_run :
      (t : Ticket) (d : Deployment) (w : World)
      → n.l1_deployment w.txs creator t.inbox ≡ some d.l1_deployment
      → n.l2_deployment w.txs creator t.inbox ≡ some d.l2_deployment
      → n.l1_multicall w.txs creator ≡ some d.l1_multicall
      → n.proxy_admin w.txs t.inbox ≡ some d.l1_proxy_admin
      → read_deployment n creator t w ≡ (done d, w)
  unfolding read_deployment
  read_run t d w h1 h2 h3 h4 =
      run-view (λ txs. n.l1_deployment txs creator t.inbox) _ d.l1_deployment w h1
        (run-view (λ txs. n.l2_deployment txs creator t.inbox) _ d.l2_deployment w h2
          (run-view (λ txs. n.l1_multicall txs creator) _ d.l1_multicall w h3
            (run-view (λ txs. n.proxy_admin txs t.inbox) _ d.l1_proxy_admin w h4 refl)))

  -- `createTokenBridge` of the contract, with the fees of both retryable tickets as its value
  abbrev pub ether_creation :
      (rollup_owner inbox : Text) → ℕ → GasParams → (factory_gas contracts_gas : ℕ) → Call
  ether_creation rollup_owner inbox gas_price params factory_gas contracts_gas = record {
    to = creator;
    value =
        params.max_submission_cost
        + factory_gas * gas_price
        + (params.max_submission_cost * 2 + contracts_gas * 2 * gas_price);
    calldata = create_token_bridge_call inbox rollup_owner (contracts_gas * 2) gas_price;
  }

  -- On a rollup without a fee token `createTokenBridge` returns the deployment that the creator
  -- recorded, after one transaction to the creator that carries both fees, one submission cost with
  -- the factory's gas and two with twice the estimated gas of the contracts, where the views that it reads return,
  -- the transaction is mined and its first two messages are redeemed.
  pub create_token_bridge_returns :
      (rollup rollup_owner inbox bridge : Text) (gas_price factory_gas contracts_gas : ℕ)
      (params : GasParams) (rest : List MessageStatus) (d : Deployment) (w : World)
      → let call = ether_creation rollup_owner inbox gas_price params factory_gas contracts_gas in
        n.gas_price w.txs ≡ some gas_price
        → n.estimate_all w.txs [] address_zero ≡ some params
        → n.factory_gas_limit w.txs creator ≡ some factory_gas
        → n.contracts_gas w.txs creator ≡ some contracts_gas
        → n.inbox w.txs rollup ≡ some inbox
        → n.bridge w.txs inbox ≡ some bridge
        → n.native_token w.txs bridge ≡ none
        → n.accepts w.txs call ≡ true
        → n.message_statuses w.txs call ≡ redeemed ∷ redeemed ∷ rest
        → n.l1_deployment (call ∷ w.txs) creator inbox ≡ some d.l1_deployment
        → n.l2_deployment (call ∷ w.txs) creator inbox ≡ some d.l2_deployment
        → n.l1_multicall (call ∷ w.txs) creator ≡ some d.l1_multicall
        → n.proxy_admin (call ∷ w.txs) inbox ≡ some d.l1_proxy_admin
        → create_token_bridge n creator rollup rollup_owner w
          ≡ (done d, record w { txs = call ∷ w.txs })
  unfolding create_token_bridge text_eq
  create_token_bridge_returns rollup rollup_owner inbox bridge gas_price factory_gas contracts_gas
        params rest d w h1 h2 h3 h4 h5 h6 h7 accepted statuses d1 d2 d3 d4 =
      let t = ether_ticket inbox gas_price params factory_gas contracts_gas in
      let w' : World = record w { txs = creation_call n creator rollup_owner t ∷ w.txs } in
      run-bind (estimate_tickets n creator rollup) _ t w w
        (estimate_run rollup inbox bridge gas_price factory_gas contracts_gas params w h1 h2 h3 h4
          h5 h6 h7)
        (run-bind (approve_fee n creator t) _ tt w w (approve_run t w refl) (
          run-bind (send_creation n creator rollup_owner t) _ tt w w'
            (creation_run rollup_owner t rest w accepted statuses) (read_run t d w' d1 d2 d3 d4)))
