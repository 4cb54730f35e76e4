-- ===== src/Scripts/Creator/Payment.antt =====
-- What `createTokenBridge` approves and pays, and what `registerGateway` sends.
use token_bridge_contracts.Base.{
  ℕ, ◌+◌, ◌*◌, ◌^◌, ◌≤◌, ◌≡◌, refl, ap, Bool, true, false, ◌&&◌, Option, none, some, List, [], ◌∷◌,
  Text, if◌then◌else◌,
}
use token_bridge_contracts.Scripts.Chain.{
  Call, GasParams, Net, MessageStatus, approve, create_token_bridge_call,
}
use token_bridge_contracts.Scripts.Monad.{done, World, stop, pure, view, send, ◌>>=◌}
use token_bridge_contracts.Scripts.Triples.{
  After-remember, After, After-bind, After-send, After-send_if, After-view, After-weaken,
}
use token_bridge_contracts.Scripts.Fees.{get_scaled_amount}
use token_bridge_contracts.Scripts.Fees.Rounding.{get_scaled_amount-least, get_scaled_amount-sum}
use token_bridge_contracts.Scripts.Usdc.{get_fee_token, address_zero, is_fee_token, is_redeemed}
use token_bridge_contracts.Scripts.Usdc.Prepare.{After-fee_token}
use token_bridge_contracts.Scripts.Usdc.Setup.{Anywhere}
use token_bridge_contracts.Scripts.Creator.{
  Ticket, Deployment, create_token_bridge, estimate_tickets, approve_fee, send_creation,
  read_deployment, both_redeemed, creation_call, fee_approval,
}

abbrev NextRedeemed : List MessageStatus → Type 0
NextRedeemed [] = ⊥
NextRedeemed (t ∷ rest) = is_redeemed t ≡ true

abbrev pub BothRedeemed : List MessageStatus → Type 0
BothRedeemed [] = ⊥
BothRedeemed (s ∷ rest) = (is_redeemed s ≡ true) × NextRedeemed rest

redeemed_step :
    (statuses : List MessageStatus) (b c : Bool) (w : World)
    → ((b ≡ true) × (c ≡ true) → BothRedeemed statuses)
    → After Anywhere
        (λ _ w'. (w' ≡ w) × BothRedeemed statuses)
        ((if b && c then pure tt else stop) w)
redeemed_step statuses true true w both = (refl, both (refl, refl))
redeemed_step statuses true false w both = tt
redeemed_step statuses false c w both = tt

After-both :
    (statuses : List MessageStatus) (w : World)
    → After Anywhere (λ _ w'. (w' ≡ w) × BothRedeemed statuses) (both_redeemed statuses w)
After-both [] w = tt
After-both (s ∷ []) w = tt
After-both (s ∷ t ∷ rest) w = redeemed_step (s ∷ t ∷ rest) (is_redeemed s) (is_redeemed t) w λ h. h

-- The fee is paid: in ether it is sent along; in a token, the creator is allowed an amount that
-- is worth both fees, and no ether is sent.
abbrev pub Approved :
    (creator : Text) (is_token : Bool) → Option ℕ → Ticket → List Call → List Call → Type 0
Approved creator false decimals t before after = after ≡ before
Approved creator true none t before after = ⊥
Approved creator true (some decimals) t before after =
    (amount : ℕ) × (after
      ≡ record { to = t.fee_token; value = 0; calldata = approve creator amount } ∷ before)
    × ((t.fee_for_factory + t.fee_for_contracts) * 10 ^ decimals ≤ amount * 10 ^ 18)
    × (amount ≤ get_scaled_amount decimals (t.fee_for_factory + t.fee_for_contracts) + 1)

module _ (n : Net) (creator : Text) where
  approval :
      (decimals : ℕ) (t : Ticket) (txs : List Call)
      → Approved creator true (some decimals) t txs (fee_approval n creator t decimals ∷ txs)
  approval d t txs =
      let f = t.fee_for_factory in
      let c = t.fee_for_contracts in
      let sum = get_scaled_amount-sum d f c in
      (
        get_scaled_amount d f + get_scaled_amount d c,
        refl,
        (get_scaled_amount-least d (f + c) (get_scaled_amount d f + get_scaled_amount d c)).0
            (sum.0),
        sum.1,
      )

  After-approve_fee :
      (t : Ticket) (w : World)
      → After Anywhere
          (λ _ w'.
            Approved creator
              (is_fee_token t.fee_token)
              (n.decimals w.txs t.fee_token)
              t
              w.txs
              w'.txs)
          (approve_fee n creator t w)
  unfolding approve_fee send
  After-approve_fee t w = go (is_fee_token t.fee_token)
    where
      go :
          (b : Bool)
          → After Anywhere
              (λ _ w'. Approved creator b (n.decimals w.txs t.fee_token) t w.txs w'.txs)
              ((if b
                  then (do
                    decimals ← view (λ txs. n.decimals txs t.fee_token)
                    send n (fee_approval n creator t decimals))
                  else pure tt)
                w)
      go false = refl
      go true =
          let P = λ (_ : Unit {0}) (w' : World).
            Approved creator true (n.decimals w.txs t.fee_token) t w.txs w'.txs in
          After-view Anywhere P (λ txs. n.decimals txs t.fee_token) _ w tt
            λ decimals has.
              After-send_if Anywhere P _ w tt _ tt λ accepted. rw has (approval decimals t w.txs)

  -- The ticket: the fees are those of one retryable ticket with the gas of the factory, and of one
  -- with twice the estimated gas of the contracts, whose submission costs twice as much.
  abbrev pub Estimated : (rollup : Text) → World → Ticket → Type 0
  Estimated rollup w t =
      (params : GasParams) × (factory_gas : ℕ) × (gas : ℕ) × (n.gas_price w.txs ≡ some t.gas_price)
      × (n.estimate_all w.txs [] address_zero ≡ some params)
      × (n.factory_gas_limit w.txs creator ≡ some factory_gas)
      × (n.contracts_gas w.txs creator ≡ some gas)
      × (n.inbox w.txs rollup ≡ some t.inbox)
      × ((get_fee_token n t.inbox w).0 ≡ done t.fee_token)
      × (t.max_gas_for_contracts ≡ gas * 2)
      × (t.fee_for_factory ≡ params.max_submission_cost + factory_gas * t.gas_price)
      × (t.fee_for_contracts ≡ params.max_submission_cost * 2 + gas * 2 * t.gas_price)

  After-token :
      (inbox : Text) (w : World)
      → After Anywhere
          (λ token w'. (w' ≡ w) × ((get_fee_token n inbox w).0 ≡ done token))
          (get_fee_token n inbox w)
  After-token inbox w =
      let m = get_fee_token n inbox w in
      After-weaken (λ w'. w' ≡ w) Anywhere (λ token w'. (w' ≡ w) × (m.0 ≡ done token)) _ m.0 m.1
        (λ w' h. tt) (λ token w' h. h)
        (After-remember w (get_fee_token n inbox) (After-fee_token n w inbox))

  After-Estimated :
      (rollup : Text) (w : World)
      → After Anywhere
          (λ t w'. (w' ≡ w) × Estimated rollup w t)
          (estimate_tickets n creator rollup w)
  unfolding estimate_tickets
  After-Estimated rollup w =
      let P = λ (t : Ticket) (w' : World). (w' ≡ w) × Estimated rollup w t in
      After-view Anywhere P (λ txs. n.gas_price txs) _ w tt
        λ gas_price h1.
          After-view Anywhere P (λ txs. n.estimate_all txs [] address_zero) _ w tt
            λ params h2.
              After-view Anywhere P (λ txs. n.factory_gas_limit txs creator) _ w tt
                λ factory_gas h3.
                  After-view Anywhere P (λ txs. n.contracts_gas txs creator) _ w tt
                    λ gas h4.
                      After-view Anywhere P (λ txs. n.inbox txs rollup) _ w tt
                        λ inbox h5.
                          After-bind Anywhere P _
                            (λ token w'. (w' ≡ w) × ((get_fee_token n inbox w).0 ≡ done token))
                            (get_fee_token n inbox) w (After-token inbox w)
                            λ fee_token w1 h. (
                              h.0,
                              (params, factory_gas, gas, h1, h2, h3, h4, h5, h.1, refl, refl, refl),
                            )

  -- what the creator and the inbox say about the deployment for an inbox
  abbrev pub Recorded : Text → Deployment → List Call → Type 0
  Recorded inbox d txs =
      (n.l1_deployment txs creator inbox ≡ some d.l1_deployment)
      × (n.l2_deployment txs creator inbox ≡ some d.l2_deployment)
      × (n.l1_multicall txs creator ≡ some d.l1_multicall)
      × (n.proxy_admin txs inbox ≡ some d.l1_proxy_admin)

  After-read :
      (t : Ticket) (w : World)
      → After Anywhere (λ d w'. (w' ≡ w) × Recorded t.inbox d w.txs) (read_deployment n creator t w)
  unfolding read_deployment
  After-read t w =
      let P = λ (d : Deployment) (w' : World). (w' ≡ w) × Recorded t.inbox d w.txs in
      After-view Anywhere P (λ txs. n.l1_deployment txs creator t.inbox) _ w tt
        λ l1 h1.
          After-view Anywhere P (λ txs. n.l2_deployment txs creator t.inbox) _ w tt
            λ l2 h2.
              After-view Anywhere P (λ txs. n.l1_multicall txs creator) _ w tt
                λ multicall h3.
                  After-view Anywhere P (λ txs. n.proxy_admin txs t.inbox) _ w tt
                    λ admin h4. (refl, (h1, h2, h3, h4))

  -- `createTokenBridge` of the contract, with both fees, or without ether where a token pays
  abbrev pub paid_creation : (rollup_owner : Text) → Ticket → Call
  paid_creation rollup_owner t = record {
    to = creator;
    value = if is_fee_token t.fee_token then 0 else t.fee_for_factory + t.fee_for_contracts;
    calldata = create_token_bridge_call t.inbox rollup_owner t.max_gas_for_contracts t.gas_price;
  }

  abbrev pub Created : (rollup_owner : Text) → Ticket → List Call → World → Type 0
  Created rollup_owner t before w' =
      (approved : List Call) × Approved creator (is_fee_token t.fee_token)
        (n.decimals before t.fee_token) t before approved
      × (w'.txs ≡ paid_creation rollup_owner t ∷ approved)
      × BothRedeemed (n.message_statuses approved (paid_creation rollup_owner t))

  After-send_creation :
      (t : Ticket) (before : List Call) (rollup_owner : Text) (w : World)
      → Approved creator (is_fee_token t.fee_token) (n.decimals before t.fee_token) t before w.txs
      → After Anywhere
          (λ _. Created rollup_owner t before)
          (send_creation n creator rollup_owner t w)
  unfolding send_creation
  After-send_creation t before rollup_owner w approved =
      let call = creation_call n creator rollup_owner t in
      let statuses = n.message_statuses w.txs call in
      let w' = record w { txs = call ∷ w.txs } in
      let m = both_redeemed statuses w' in
      After-send Anywhere (λ _. Created rollup_owner t before) n call _ w tt
        λ accepted.
          After-weaken Anywhere Anywhere (λ _ w''. (w'' ≡ w') × BothRedeemed statuses)
            (λ _. Created rollup_owner t before) m.0 m.1 (λ w'' h. tt)
            (λ _ w'' h. (w.txs, approved, ap (λ (v : World). v.txs) (h.0), h.1))
            (After-both statuses w')

  read_back :
      (before : List Call) (rollup_owner : Text) (t : Ticket) (w : World)
      → Created rollup_owner t before w
      → After Anywhere
          (λ d w'. Created rollup_owner t before w' × Recorded t.inbox d w'.txs)
          (read_deployment n creator t w)
  read_back before rollup_owner t w created =
      let m = read_deployment n creator t w in
      After-weaken Anywhere Anywhere (λ d w'. (w' ≡ w) × Recorded t.inbox d w.txs) _ m.0 m.1
        (λ w' h. tt) (λ d w' same. rw (same.0) (created, same.1)) (After-read t w)

  -- If `createTokenBridge` returns, it has paid for both retryable tickets as estimated, one submission
  -- cost with the factory's gas, and two with twice the estimated gas of the contracts, at the gas
  -- price then: without a fee token it sent the sum of their fees along with the creation; with one it sent no ether, and
  -- before that approved an amount of the token that is worth both fees and is one unit at most
  -- above the least such amount. The creation is its last transaction, both messages are redeemed,
  -- and the addresses that it returns are those that the creator and the inbox then say.
  pub create_token_bridge_lem :
      (rollup rollup_owner : Text) (w : World)
      → After Anywhere
          (λ d w'.
            (t : Ticket) × Estimated rollup w t
            × Created rollup_owner t w.txs w'
            × Recorded t.inbox d w'.txs)
          (create_token_bridge n creator rollup rollup_owner w)
  unfolding create_token_bridge
  create_token_bridge_lem rollup rollup_owner w =
      let P = λ (d : Deployment) (w' : World).
        (t : Ticket) × Estimated rollup w t
        × Created rollup_owner t w.txs w'
        × Recorded t.inbox d w'.txs in
      After-bind Anywhere P _ (λ t w'. (w' ≡ w) × Estimated rollup w t)
        (estimate_tickets n creator rollup) w (After-Estimated rollup w)
        λ t w1 same. rw (same.0) (
          After-bind Anywhere P _
            (λ _ w'.
              Approved creator (is_fee_token t.fee_token) (n.decimals w.txs t.fee_token) t w.txs
                w'.txs)
            (approve_fee n creator t) w (After-approve_fee t w)
            λ _ w2 approved.
              After-bind Anywhere P _ (λ _. Created rollup_owner t w.txs)
                (send_creation n creator rollup_owner t) w2
                (After-send_creation t w.txs rollup_owner w2 approved)
                λ _ w3 created.
                  let m = read_deployment n creator t w3 in
                  After-weaken Anywhere Anywhere
                    (λ d w'. Created rollup_owner t w.txs w' × Recorded t.inbox d w'.txs) P m.0 m.1
                    (λ w' h. tt) (λ d w' done_so. (t, same.1, done_so.0, done_so.1))
                    (read_back w.txs rollup_owner t w3 created))
