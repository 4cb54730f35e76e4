-- ===== src/Scripts/Usdc/Returns.antt =====
-- A registration that goes through on the direct path.
use token_bridge_contracts.Base.{
  ◌≡◌, refl, ap, Bool, true, false, some, List, codes, Text, [], ◌∷◌, if◌then◌else◌,
}
use token_bridge_contracts.Scripts.Chain.{Call, Net, MessageStatus}
use token_bridge_contracts.Scripts.Monad.{
  World, done, pure, fail, not_redeemed, type_error, or_fail, send, ◌>>◌,
}
use token_bridge_contracts.Scripts.Runs.{run-bind, run-or_fail, run-send}
use token_bridge_contracts.Scripts.Usdc.{
  Registration, is_fee_token, is_redeemed, registration_call, registration_calldata, fee_transfer,
  fee_approval, execute_registration, load_wallet, wait_on_l2_msg, first_redeemed,
}
use token_bridge_contracts.Scripts.Usdc.Sent.{
  plan_of, plan, gateway_call, before_last, after_sending, FirstRedeemed,
}

-- Sent one after another, all the calls are mined.
abbrev pub AllMined : Net → List Call → List Call → Type 0
AllMined n [] txs = Unit
AllMined n (c ∷ rest) txs = (n.accepts txs c ≡ true) × AllMined n rest (c ∷ txs)

redeemed_run :
    (statuses : List MessageStatus) (w : World)
    → FirstRedeemed statuses
    → first_redeemed statuses w ≡ (done tt, w)
redeemed_run [] w h = absurd h
redeemed_run (s ∷ rest) w h = go (is_redeemed s) h
  where
    go : (b : Bool) → b ≡ true → (if b then pure tt else fail not_redeemed) w ≡ (done tt, w)
    go true h = refl
    go false h = cc

module _ (n : Net) (r : Registration) where
  wait_run :
      (w : World)
      → n.accepts w.txs (gateway_call r) ≡ true
      → FirstRedeemed (n.message_statuses w.txs (gateway_call r))
      → wait_on_l2_msg n (registration_call r) w
        ≡ (done tt, record w { txs = gateway_call r ∷ w.txs })
  unfolding wait_on_l2_msg registration_call registration_calldata
  wait_run w mined redeemed = run-send n (registration_call r) _ w mined (redeemed_run _ _ redeemed)

  direct_run :
      (b : Bool) (w : World)
      → AllMined n (plan_of b r) w.txs
      → FirstRedeemed (n.message_statuses (before_last b r w.txs) (gateway_call r))
      → (if b
            then (do
              send n (fee_transfer r)
              send n (fee_approval r)
              wait_on_l2_msg n (registration_call r))
            else wait_on_l2_msg n (registration_call r))
          w
        ≡ (done tt, after_sending (plan_of b r) w)
  direct_run true w mined redeemed =
      run-send n (fee_transfer r) _ w mined.0
        (run-send n (fee_approval r) _ _ mined.1.0 (wait_run _ mined.1.1.0 redeemed))
  direct_run false w mined redeemed = wait_run w mined.0 redeemed

  key_run :
      (key owner : Text) (w : World)
      → n.env_var (codes "ROLLUP_OWNER_KEY") ≡ some key
      → n.wallet_address key ≡ some owner
      → load_wallet n (codes "ROLLUP_OWNER_KEY") w ≡ (done owner, w)
  unfolding load_wallet
  key_run key owner w has_key owned =
      run-or_fail (n.env_var (codes "ROLLUP_OWNER_KEY")) _ _ key w has_key
        (ap (λ o. or_fail o type_error w) owned)

  -- The direct path of the registration returns after exactly its calls, in order: with a fee
  -- token the transfer, the approval and the registration, and else the registration alone, where the owner's
  -- key is set and valid, they are all mined and the first message of the last one is redeemed.
  pub execute_registration_returns :
      (key owner : Text) (w : World)
      → n.env_var (codes "ROLLUP_OWNER_KEY") ≡ some key
      → n.wallet_address key ≡ some owner
      → AllMined n (plan r) w.txs
      → FirstRedeemed
          (n.message_statuses (before_last (is_fee_token r.fee_token) r w.txs) (gateway_call r))
      → execute_registration n r w ≡ (done tt, after_sending (plan r) w)
  unfolding execute_registration
  execute_registration_returns key owner w has_key owned mined redeemed =
      run-bind (load_wallet n (codes "ROLLUP_OWNER_KEY")) _ owner w w
        (key_run key owner w has_key owned) (direct_run (is_fee_token r.fee_token) w mined redeemed)
