-- ===== src/Scripts/Usdc/Sent.antt =====
-- What `_registerGateway` sends and writes.
use token_bridge_contracts.Base.{
  ◌≡◌, ◌↔◌, ◌⊎◌, inl, inr, refl, sym, ap, Bool, true, false, not, Option, none, some, List, [], ◌∷◌,
  ◌++◌, codes, Text, if◌then◌else◌,
}
use token_bridge_contracts.Scripts.Chain.{
  Call, Calldata, Net, MessageStatus, execute_call, approve, transfer, set_gateways,
}
use token_bridge_contracts.Scripts.Monad.{
  World, Result, pure, fail, not_redeemed, type_error, or_fail, send, write_registration, ◌>>◌,
}
use token_bridge_contracts.Scripts.Triples.{
  After, After-bind, After-send, After-or_fail, After-weaken,
}
use token_bridge_contracts.Scripts.Usdc.{
  Registration, is_fee_token, is_set, prepare_registration, registration_call,
  registration_calldata, multisig_txs, fee_transfer, fee_approval, execute_registration,
  register_gateway, wait_on_l2_msg, first_redeemed, is_redeemed, load_wallet,
}
use token_bridge_contracts.Scripts.Usdc.Prepare.{Prepared, prepare_lem}

-- What is to be sent: the fee to the executor, its approval of the router for the fee token, and
-- its call of the router, with the fee as an argument if a token pays and as ether if not.
abbrev pub transfer_call : Registration → Call
transfer_call r = record { to = r.fee_token; value = 0; calldata = transfer r.executor r.total_fee }

abbrev pub approval_call : Registration → Call
approval_call r = record {
  to = r.executor;
  value = 0;
  calldata = execute_call r.fee_token (approve r.router r.total_fee);
}

abbrev pub gateway_call : Registration → Call
gateway_call r = record {
  to = r.executor;
  value = if is_fee_token r.fee_token then 0 else r.total_fee;
  calldata = execute_call r.router (
      set_gateways (r.usdc ∷ []) (r.gateway ∷ []) r.max_gas r.gas_price_bid r.max_submission_cost
        (if is_fee_token r.fee_token then some r.total_fee else none));
}

abbrev pub plan_of : Bool → Registration → List Call
plan_of true r = transfer_call r ∷ approval_call r ∷ gateway_call r ∷ []
plan_of false r = gateway_call r ∷ []

abbrev pub plan : Registration → List Call
plan r = plan_of (is_fee_token r.fee_token) r

-- What is to be in the file; here the executor gets the data of the approval as it is.
abbrev pub file_txs : Registration → List Call
file_txs r =
    if is_fee_token r.fee_token
    then transfer_call r
      ∷ record { to = r.executor; value = 0; calldata = approve r.router r.total_fee }
      ∷ gateway_call r
      ∷ []
    else gateway_call r ∷ []

-- some calls, sent one after another
abbrev pub sent_onto : List Call → List Call → List Call
sent_onto [] txs = txs
sent_onto (c ∷ rest) txs = sent_onto rest (c ∷ txs)

abbrev pub after_sending : List Call → World → World
after_sending calls w = record w { txs = sent_onto calls w.txs }

-- the mined transactions when the registration is sent
abbrev pub before_last : Bool → Registration → List Call → List Call
before_last true r txs = approval_call r ∷ transfer_call r ∷ txs
before_last false r txs = txs

abbrev pub FirstRedeemed : List MessageStatus → Type 0
FirstRedeemed [] = ⊥
FirstRedeemed (s ∷ rest) = is_redeemed s ≡ true

module _ (n : Net) (w : World) where
  -- the first calls of a plan were sent, and nothing else happened
  abbrev pub SentSome : List Call → World → Type 0
  SentSome plan w' =
      (sent : List Call) × (rest : List Call) × (sent ++ rest ≡ plan) × (w' ≡ after_sending sent w)

  -- the whole plan was sent, and its last call's message redeemed
  abbrev pub SentAll : List Call → Call → List Call → World → Type 0
  SentAll plan last before w' =
      (w' ≡ after_sending plan w) × FirstRedeemed (n.message_statuses before last)

  After-redeemed :
      (plan : List Call) (statuses : List MessageStatus) (w' : World)
      → w' ≡ after_sending plan w
      → SentSome plan w'
      → After
          (SentSome plan)
          (λ _ w''. (w'' ≡ after_sending plan w) × FirstRedeemed statuses)
          (first_redeemed statuses w')
  After-redeemed plan [] w' all some_sent = some_sent
  After-redeemed plan (s ∷ rest) w' all some_sent = go (is_redeemed s) refl
    where
      go :
          (b : Bool)
          → is_redeemed s ≡ b
          → After
              (SentSome plan)
              (λ _ w''. (w'' ≡ after_sending plan w) × (is_redeemed s ≡ true))
              ((if b then pure tt else fail not_redeemed) w')
      go true e = (all, e)
      go false e = some_sent

  After-direct :
      (r : Registration) (b : Bool)
      → After
          (SentSome (plan_of b r))
          (λ _. SentAll (plan_of b r) (gateway_call r) (before_last b r w.txs))
          ((if b
              then (do
                send n (fee_transfer r)
                send n (fee_approval r)
                wait_on_l2_msg n (registration_call r))
              else wait_on_l2_msg n (registration_call r))
            w)
  unfolding wait_on_l2_msg registration_call registration_calldata
  After-direct r true =
      let E = SentSome (plan_of true r) in
      let P =
        λ (_ : Unit {0}). SentAll (plan_of true r) (gateway_call r) (before_last true r w.txs) in
      After-send E P n (fee_transfer r) _ w ([], plan_of true r, refl, refl)
        λ _.
          After-send E P n (fee_approval r) _ _
            (transfer_call r ∷ [], approval_call r ∷ gateway_call r ∷ [], refl, refl)
            λ _.
              After-send E P n (registration_call r) _ _
                (transfer_call r ∷ approval_call r ∷ [], gateway_call r ∷ [], refl, refl)
                λ _. After-redeemed (plan_of true r) _ _ refl (plan_of true r, [], refl, refl)
  After-direct r false =
      let E = SentSome (plan_of false r) in
      let P =
        λ (_ : Unit {0}). SentAll (plan_of false r) (gateway_call r) (before_last false r w.txs) in
      After-send E P n (registration_call r) _ w ([], plan_of false r, refl, refl)
        λ _. After-redeemed (plan_of false r) _ _ refl (plan_of false r, [], refl, refl)

  -- With the owner's key, the direct path; without it, the file.
  abbrev pub Registered : (has_key : Bool) → Registration → World → Type 0
  Registered true r w' =
      SentAll (plan r) (gateway_call r) (before_last (is_fee_token r.fee_token) r w.txs) w'
  Registered false r w' = w' ≡ record w { registration_file = some (file_txs r) }

  abbrev pub StoppedEarly : (has_key : Bool) → Registration → World → Type 0
  StoppedEarly true r w' = SentSome (plan r) w'
  StoppedEarly false r w' = w' ≡ w

  abbrev pub has_owner_key : Bool
  has_owner_key = is_set (n.env_var (codes "ROLLUP_OWNER_KEY"))

  -- The key may be invalid; then nothing is sent.
  After-key :
      (r : Registration)
      → After (StoppedEarly true r) (λ _ w'. w' ≡ w) (load_wallet n (codes "ROLLUP_OWNER_KEY") w)
  unfolding load_wallet
  After-key r =
      let key = n.env_var (codes "ROLLUP_OWNER_KEY") in
      let none_sent : StoppedEarly true r w = ([], plan r, refl, refl) in
      After-or_fail (StoppedEarly true r) (λ _ w'. w' ≡ w) key _ _ w none_sent
        λ text has. go r none_sent (n.wallet_address text)
    where
      go :
          (r : Registration)
          → StoppedEarly true r w
          → (o : Option Text)
          → After (StoppedEarly true r) (λ _ w'. w' ≡ w) (or_fail o type_error w)
      go r none_sent none = none_sent
      go r none_sent (some a) = refl

  After-branch :
      (r : Registration) (b : Bool)
      → After
          (StoppedEarly b r)
          (λ _. Registered b r)
          ((if not b then write_registration (multisig_txs r) else execute_registration n r) w)
  unfolding execute_registration multisig_txs registration_call registration_calldata
  After-branch r true =
      After-bind (StoppedEarly true r) (λ _. Registered true r) _ (λ _ w'. w' ≡ w)
        (load_wallet n (codes "ROLLUP_OWNER_KEY")) w (After-key r)
        λ _ w' same. rw same (After-direct r (is_fee_token r.fee_token))
  After-branch r false = refl

  registered :
      {gateway : Text} (r : Registration)
      → Prepared n w gateway r
      → After
          (λ w'.
            (w' ≡ w)
            ⊎ ((r : Registration) × Prepared n w gateway r × StoppedEarly has_owner_key r w'))
          (λ _ w'. (r : Registration) × Prepared n w gateway r × Registered has_owner_key r w')
          ((if not has_owner_key
              then write_registration (multisig_txs r)
              else execute_registration n r)
            w)
  registered r prepared =
      let m : Result Unit × World =
        (if not has_owner_key
            then write_registration (multisig_txs r)
            else execute_registration n r)
          w in
      After-weaken (StoppedEarly has_owner_key r) _ (λ _. Registered has_owner_key r) _ m.0 m.1
        (λ w' stopped_at. inr (r, prepared, stopped_at)) (λ _ w' all. (r, prepared, all))
        (After-branch r has_owner_key)

  -- `_registerGateway` ends in one of these worlds. It stops while it prepares the registration
  -- or with an invalid key, or in the direct path after some of its calls, in order; until one is sent
  -- nothing has changed. Or it returns: with the owner's key all calls of the direct path were sent and the
  -- registration's message is redeemed, without the key nothing was sent and the transactions for
  -- the multisig are in the file; each way the gateway is registered for the environment's USDC at
  -- the environment's router, by the executor, with the fee. What it registers is prepared: the executor owns the router of
  -- the environment and has views of both the admin's and the executor's role, and the fee is the ticket's in the token's decimals.
  pub register_gateway_lem :
      (inbox gateway : Text)
      → After
          (λ w'.
            (w' ≡ w)
            ⊎ ((r : Registration) × Prepared n w gateway r × StoppedEarly has_owner_key r w'))
          (λ _ w'. (r : Registration) × Prepared n w gateway r × Registered has_owner_key r w')
          (register_gateway n inbox gateway w)
  unfolding register_gateway
  register_gateway_lem inbox gateway =
      let m = prepare_registration n inbox gateway w in
      After-bind
        (λ w'.
          (w' ≡ w)
          ⊎ ((r : Registration) × Prepared n w gateway r × StoppedEarly has_owner_key r w'))
        (λ _ w'. (r : Registration) × Prepared n w gateway r × Registered has_owner_key r w') _
        (λ r w'. (w' ≡ w) × Prepared n w gateway r) (prepare_registration n inbox gateway) w
        (After-weaken (λ w'. w' ≡ w) _ (λ r w'. (w' ≡ w) × Prepared n w gateway r) _ m.0 m.1
          (λ w' same. inl same) (λ r w' both. both) (prepare_lem n w inbox gateway))
        λ r w' same. rw (same.0) (registered r same.1)

abbrev wraps : Calldata → Bool
wraps (execute_call a c) = true
wraps _ = false

abbrev second_wraps : List Call → Bool
second_wraps (c ∷ d ∷ rest) = wraps d.calldata
second_wraps _ = false

-- The transactions of the code's direct path, in order.
abbrev pub direct_of : Bool → Registration → List Call
direct_of true r = fee_transfer r ∷ fee_approval r ∷ registration_call r ∷ []
direct_of false r = registration_call r ∷ []

abbrev pub direct_txs : Registration → List Call
direct_txs r = direct_of (is_fee_token r.fee_token) r

-- The transactions for the multisig are those of the direct path if and only if no fee token is
-- used: with one, the multisig's second transaction hands the approval's data to the executor as
-- it is, where the direct path has the executor call the fee token.
pub multisig_txs-direct :
    (r : Registration) → (multisig_txs r ≡ direct_txs r) ↔ (is_fee_token r.fee_token ≡ false)
unfolding multisig_txs
multisig_txs-direct r = go (is_fee_token r.fee_token)
  where
    go :
        (b : Bool)
        → ((if b
              then fee_transfer r
                ∷ record { to = r.executor; value = 0; calldata = approve r.router r.total_fee }
                ∷ registration_call r
                ∷ []
              else registration_call r ∷ [])
            ≡ direct_of b r)
          ↔ (b ≡ false)
    go true = (λ h. sym (ap second_wraps h), λ h. cc)
    go false = (λ h. refl, λ h. refl)
