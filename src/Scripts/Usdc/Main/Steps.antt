-- ===== src/Scripts/Usdc/Main/Steps.antt =====
-- The steps of the USDC deployment that are not of other modules.
use token_bridge_contracts.Base.{
  ◌≡◌, refl, ◌^◌, ◌-◌, Bool, true, false, Option, none, some, List, [], ◌∷◌, codes, Text, All,
  if◌then◌else◌,
}
use token_bridge_contracts.Scripts.Chain.{
  Call, Net, Factory, configure_controller, configure_minter, transparent_proxy_factory,
  l1_usdc_gateway_factory, l1_orbit_usdc_gateway_factory, l2_usdc_gateway_factory,
}
use token_bridge_contracts.Scripts.Monad.{
  World, Script, Result, done, failed, stopped, fail, or_fail, missing_env_var, type_error,
}
use token_bridge_contracts.Scripts.Triples.{
  After, After-bind, After-or_fail, After-remember, After-weaken,
}
use token_bridge_contracts.Scripts.Creations.{creation, deploy_proxy}
use token_bridge_contracts.Scripts.Creations.Rules.{
  Blocked, After-created, After-created_last, After-mined, After-mined_last,
}
use token_bridge_contracts.Scripts.Usdc.{
  check_env_vars, is_set, get_fee_token, is_fee_token, load_wallet, add_minter_role_to_l2_gateway,
}
use token_bridge_contracts.Scripts.Usdc.Prepare.{After-fee_token}
use token_bridge_contracts.Scripts.Usdc.Setup.{Anywhere, Provided}
use token_bridge_contracts.Scripts.Usdc.Token.{call_to}
use token_bridge_contracts.Scripts.Usdc.Main.{
  deploy_l1_usdc_gateway, deploy_l2_usdc_gateway, load_wallets,
}

-- The logic and its proxy were created, and nothing else happened.
abbrev pub ProxyOf : Net → Factory → (admin gateway : Text) → (before after : World) → Type 0
ProxyOf n factory admin gateway w w' =
    (logic : Text) × (logic ≡ n.created w.txs (creation factory []))
    × (let c = creation transparent_proxy_factory (logic ∷ admin ∷ codes "0x" ∷ []) in
        let txs = creation factory [] ∷ w.txs in
        (gateway ≡ n.created txs c) × (w' ≡ record w { txs = c ∷ txs }))

-- the gateway for a chain with its own fee token, or for one without
abbrev pub gateway_factory : Text → Factory
gateway_factory fee_token =
    if is_fee_token fee_token then l1_orbit_usdc_gateway_factory else l1_usdc_gateway_factory

module _ (n : Net) where
  pub blocked : (w : World) → Blocked n w → Anywhere w
  blocked w h = tt

  pub After-nothing : {A : Type 0} (m : Script A) (w : World) → After Anywhere (λ _ _. Unit) (m w)
  After-nothing {A} m w = go (m w).0 (m w).1
    where
      go : (r : Result A) (w' : World) → After Anywhere (λ _ _. Unit) (r, w')
      go (done a) w' = tt
      go (failed x) w' = tt
      go stopped w' = tt

  abbrev pub L1Gateway : (admin inbox gateway : Text) → (before after : World) → Type 0
  L1Gateway admin inbox gateway w w' =
      (fee_token : Text) × ((get_fee_token n inbox w).0 ≡ done fee_token)
      × ProxyOf n (gateway_factory fee_token) admin gateway w w'

  pub After-L1Gateway :
      (admin inbox : Text) (w : World)
      → After Anywhere
          (λ gateway. L1Gateway admin inbox gateway w)
          (deploy_l1_usdc_gateway n admin inbox w)
  unfolding deploy_l1_usdc_gateway deploy_proxy
  After-L1Gateway admin inbox w =
      let P = λ (gateway : Text). L1Gateway admin inbox gateway w in
      let m = get_fee_token n inbox w in
      After-bind Anywhere P _ (λ token w'. (w' ≡ w) × (m.0 ≡ done token)) (get_fee_token n inbox) w
        (After-weaken (λ w'. w' ≡ w) Anywhere (λ token w'. (w' ≡ w) × (m.0 ≡ done token)) _ m.0 m.1
          (λ w' h. tt) (λ a w' h. h)
          (After-remember w (get_fee_token n inbox) (After-fee_token n w inbox)))
        λ token w' h. rw (h.0) (
          After-created n Anywhere P blocked (gateway_factory token) [] _ w (
            After-created_last n Anywhere P blocked P transparent_proxy_factory _ _
              (token, h.1, (_, refl, (refl, refl)))))

  pub After-l2_gateway :
      (admin : Text) (w : World)
      → After Anywhere
          (λ gateway. ProxyOf n l2_usdc_gateway_factory admin gateway w)
          (deploy_l2_usdc_gateway n admin w)
  unfolding deploy_l2_usdc_gateway deploy_proxy
  After-l2_gateway admin w =
      let P = λ (gateway : Text). ProxyOf n l2_usdc_gateway_factory admin gateway w in
      After-created n Anywhere P blocked l2_usdc_gateway_factory [] _ w (
        After-created_last n Anywhere P blocked P transparent_proxy_factory _ _
          (_, refl, (refl, refl)))

  abbrev pub minter_txs : (l2_gateway child master_minter : Text) → List Call → List Call
  minter_txs l2_gateway child master_minter txs =
      call_to master_minter (configure_minter (2 ^ 256 - 1))
      ∷ call_to master_minter (configure_controller child l2_gateway)
      ∷ txs

  pub After-minter :
      (l2_gateway child master_minter : Text) (w : World)
      → After Anywhere
          (λ _ w'. w' ≡ record w { txs = minter_txs l2_gateway child master_minter w.txs })
          (add_minter_role_to_l2_gateway n l2_gateway child master_minter w)
  unfolding add_minter_role_to_l2_gateway
  After-minter l2_gateway child master_minter w =
      let P = λ (_ : Unit {0}) (w' : World).
        w' ≡ record w { txs = minter_txs l2_gateway child master_minter w.txs } in
      After-mined n Anywhere P blocked _ _ w (After-mined_last n Anywhere P blocked P _ _ refl)

  pub After-env :
      (names : List Text) (w : World)
      → After Anywhere (λ _ w'. (w' ≡ w) × All (Provided n) names) (check_env_vars n names w)
  unfolding check_env_vars
  After-env [] w = (refl, tt)
  After-env (name ∷ rest) w = go (is_set (n.env_var name)) refl (After-env rest w)
    where
      go :
          (b : Bool)
          → is_set (n.env_var name) ≡ b
          → After Anywhere (λ _ w'. (w' ≡ w) × All (Provided n) rest) (check_env_vars n rest w)
          → After Anywhere
              (λ _ w'. (w' ≡ w) × All (Provided n) (name ∷ rest))
              ((if b then check_env_vars n rest else fail (missing_env_var name)) w)
      go false e ih = tt
      go true e ih =
          let m = check_env_vars n rest w in
          After-weaken Anywhere Anywhere (λ _ w'. (w' ≡ w) × All (Provided n) rest) _ m.0 m.1
            (λ w' h. tt) (λ _ w' h. (h.0, (e, h.1))) ih

  -- the address of the key in a variable
  abbrev pub WalletOf : Text → Text → Type 0
  WalletOf name address =
      (key : Text) × (n.env_var name ≡ some key) × (n.wallet_address key ≡ some address)

  pub After-wallet :
      (name : Text) (w : World)
      → After Anywhere (λ a w'. (w' ≡ w) × WalletOf name a) (load_wallet n name w)
  unfolding load_wallet
  After-wallet name w =
      After-or_fail Anywhere (λ a w'. (w' ≡ w) × WalletOf name a) (n.env_var name) _ _ w tt
        λ key has. owned key has (n.wallet_address key) refl
    where
      owned :
          (key : Text)
          → n.env_var name ≡ some key
          → (o : Option Text) → n.wallet_address key ≡ o
          → After Anywhere (λ a w'. (w' ≡ w) × WalletOf name a) (or_fail o type_error w)
      owned key has none e = tt
      owned key has (some a) e = (refl, (key, has, e))

  abbrev pub WalletsOf : World → Text × Text → World → Type 0
  WalletsOf w wallets w' =
      (w' ≡ w)
      × WalletOf (codes "PARENT_DEPLOYER_KEY") (wallets.0)
      × WalletOf (codes "CHILD_DEPLOYER_KEY") (wallets.1)

  pub After-wallets : (w : World) → After Anywhere (WalletsOf w) (load_wallets n w)
  unfolding load_wallets
  After-wallets w =
      let parent_key = codes "PARENT_DEPLOYER_KEY" in
      let child_key = codes "CHILD_DEPLOYER_KEY" in
      After-bind Anywhere (WalletsOf w) _ (λ a w'. (w' ≡ w) × WalletOf parent_key a)
        (load_wallet n parent_key) w (After-wallet parent_key w)
        λ parent w1 p. rw (p.0) (
          After-bind Anywhere (WalletsOf w) _ (λ a w'. (w' ≡ w) × WalletOf child_key a)
            (load_wallet n child_key) w (After-wallet child_key w) λ child w2 c. (c.0, p.1, c.1))
