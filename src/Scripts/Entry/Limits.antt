-- ===== src/Scripts/Entry/Limits.antt =====
-- What deployTokenBridgeCreator.ts deploys, and when.
use token_bridge_contracts.Base.{
  ℕ, ◌≡◌, refl, ◌⊎◌, inl, inr, Bool, true, false, Option, none, some, [], codes, Text,
  if◌then◌else◌,
}
use token_bridge_contracts.Scripts.Chain.{Net, GasParams}
use token_bridge_contracts.Scripts.Monad.{World, pure, or_fail, type_error, ◌>>=◌, ◌>>◌}
use token_bridge_contracts.Scripts.Triples.{
  After, After-bind, After-fail_if, After-view, After-or_fail, After-weaken,
}
use token_bridge_contracts.Scripts.Networks.{register_networks}
use token_bridge_contracts.Scripts.Usdc.{is_set, address_zero}
use token_bridge_contracts.Scripts.Templates.{deploy_l1_token_bridge_creator}
use token_bridge_contracts.Scripts.Templates.Verified.{
  SetOrRefused, Deployed, deploy_l1_token_bridge_creator_lem,
}
use token_bridge_contracts.Scripts.Entry.{
  Signer, wallet, first_account, get_signer, gas_limit_for_factory, deploy_token_bridge_creator,
  get_estimate_for_deploying_factory,
}
use token_bridge_contracts.Scripts.Networks.Unsent.{Unsent, After-Unsent_networks}

module _ (n : Net) (w : World) where
  -- The limit is the environment's if there is one, and else the estimate's.
  abbrev pub LimitOf : (in_env : Bool) → ℕ → World → Type 0
  LimitOf true limit w1 =
      (text : Text) × (n.env_var (codes "GAS_LIMIT_FOR_L2_FACTORY_DEPLOYMENT") ≡ some text)
      × (n.big_number_from text ≡ some limit)
  LimitOf false limit w1 =
      (params : GasParams) × (n.estimate_all w1.txs [] address_zero ≡ some params)
      × (limit ≡ params.gas_limit)

  abbrev pub limit_in_env : Bool
  limit_in_env = is_set (n.env_var (codes "GAS_LIMIT_FOR_L2_FACTORY_DEPLOYMENT"))

  abbrev pub Limited : ℕ → World → Type 0
  Limited limit w1 = (Unsent n w) w1 × LimitOf limit_in_env limit w1

  After-limit : After (Unsent n w) Limited (gas_limit_for_factory n w)
  unfolding gas_limit_for_factory get_estimate_for_deploying_factory
  After-limit = go limit_in_env
    where
      go :
          (b : Bool)
          → After
              (Unsent n w)
              (λ limit w1. (Unsent n w) w1 × LimitOf b limit w1)
              ((if b
                  then (do
                    text ←
                        or_fail (n.env_var (codes "GAS_LIMIT_FOR_L2_FACTORY_DEPLOYMENT")) type_error
                    or_fail (n.big_number_from text) type_error)
                  else (do
                    rollup ← or_fail (n.env_var (codes "ROLLUP_ADDRESS")) type_error
                    register_networks n rollup
                    get_estimate_for_deploying_factory n))
                w)
      go true =
          After-or_fail (Unsent n w) _ (n.env_var (codes "GAS_LIMIT_FOR_L2_FACTORY_DEPLOYMENT")) _ _
            w (refl, refl) λ text has. read text has (n.big_number_from text) refl
        where
          read :
              (text : Text)
              → n.env_var (codes "GAS_LIMIT_FOR_L2_FACTORY_DEPLOYMENT") ≡ some text
              → (o : Option ℕ) → n.big_number_from text ≡ o
              → After
                  (Unsent n w)
                  (λ limit w1. (Unsent n w) w1 × LimitOf true limit w1)
                  (or_fail o type_error w)
          read text has none e = (refl, refl)
          read text has (some limit) e = ((refl, refl), (text, has, e))
      go false =
          let P = λ (limit : ℕ) (w1 : World). (Unsent n w) w1 × LimitOf false limit w1 in
          After-or_fail (Unsent n w) P (n.env_var (codes "ROLLUP_ADDRESS")) _ _ w (refl, refl)
            λ rollup _.
              After-bind (Unsent n w) P _ (λ _. (Unsent n w)) (register_networks n rollup) w
                (After-Unsent_networks n w rollup w (refl, refl))
                λ network w1 h.
                  After-view (Unsent n w) P (λ txs. n.estimate_all txs [] address_zero) _ w1 h
                    λ params has. (h, (params, has, refl))

  After-signer : (key : Option Text) → After (Unsent n w) (λ _ w'. w' ≡ w) (get_signer n key w)
  unfolding get_signer
  After-signer key = go (is_set key)
    where
      go :
          (b : Bool)
          → After
              (Unsent n w)
              (λ _ w'. w' ≡ w)
              ((if b
                  then (do
                    present ← or_fail key type_error
                    address ← or_fail (n.wallet_address present) type_error
                    pure (wallet address))
                  else pure first_account)
                w)
      go true =
          let P = λ (_ : Signer) (w' : World). w' ≡ w in
          After-or_fail (Unsent n w) P key _ _ w (refl, refl)
            λ present _.
              After-or_fail (Unsent n w) P (n.wallet_address present) _ _ w (refl, refl)
                λ address _. refl
      go false = refl

  -- The creator was deployed with the environment's token and the limit.
  abbrev pub CreatorDeployed : Text × Text → World → Type 0
  CreatorDeployed addresses w' =
      (limit : ℕ) × (weth : Text) × (w1 : World) × Limited limit w1
      × (n.env_var (codes "BASECHAIN_WETH") ≡ some weth)
      × Deployed n w1 weth limit true addresses w'

  abbrev pub NotDeployed : World → Type 0
  NotDeployed w' =
      (Unsent n w) w'
      ⊎ ((limit : ℕ) × (weth : Text) × (w1 : World) × Limited limit w1
          × SetOrRefused n w1 weth limit w')

  After-deployment :
      (limit : ℕ) (weth : Text) (w1 : World)
      → Limited limit w1
      → n.env_var (codes "BASECHAIN_WETH") ≡ some weth
      → After NotDeployed CreatorDeployed (deploy_l1_token_bridge_creator n weth limit true w1)
  After-deployment limit weth w1 limited has =
      let m = deploy_l1_token_bridge_creator n weth limit true w1 in
      After-weaken (SetOrRefused n w1 weth limit) NotDeployed (Deployed n w1 weth limit true)
        CreatorDeployed m.0 m.1 (λ w' h. inr (limit, weth, w1, limited, h))
        (λ addresses w' h. (limit, weth, w1, limited, has, h))
        (deploy_l1_token_bridge_creator_lem n weth limit true w1)

  -- deployTokenBridgeCreator.ts sends nothing before it has the gas limit for the factory on the
  -- child chain: the number in the environment if there is one, and else the SDK's estimate. With
  -- it and with the token of the environment it deploys the creator and has all its contracts
  -- verified, or it fails in one of the ways in which that deployment fails.
  pub deploy_token_bridge_creator_lem :
      After NotDeployed CreatorDeployed (deploy_token_bridge_creator n w)
  unfolding deploy_token_bridge_creator
  deploy_token_bridge_creator_lem =
      let E = NotDeployed in
      let P = CreatorDeployed in
      let here : NotDeployed w = inl (refl, refl) in
      let signer = get_signer n (n.env_var (codes "BASECHAIN_DEPLOYER_KEY")) in
      let limit = gas_limit_for_factory n in
      After-fail_if E P _ _ _ w here λ _. After-fail_if E P _ _ _ w here λ _.
        After-fail_if E P _ _ _ w here λ _. After-fail_if E P _ _ _ w here λ _.
          After-bind E P _ (λ _ w'. w' ≡ w) signer w
            (After-weaken (Unsent n w) E (λ _ w'. w' ≡ w) _ (signer w).0 (signer w).1
              (λ w' h. inl h) (λ _ w' h. h)
              (After-signer (n.env_var (codes "BASECHAIN_DEPLOYER_KEY"))))
            λ _ w0 same. rw same (
              After-bind E P _ Limited limit w
                (After-weaken (Unsent n w) E Limited _ (limit w).0 (limit w).1 (λ w' h. inl h)
                  (λ _ w' h. h) After-limit)
                λ gas w1 limited.
                  After-or_fail E P (n.env_var (codes "BASECHAIN_WETH")) _ _ w1 (inl (limited.0))
                    λ weth has. After-deployment gas weth w1 limited has)
