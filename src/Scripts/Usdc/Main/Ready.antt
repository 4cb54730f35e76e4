-- ===== src/Scripts/Usdc/Main/Ready.antt =====
-- What has happened when the USDC deployment returns.
use token_bridge_contracts.Base.{ap, ◌∙◌, refl, ◌∷◌, ◌≡◌, some, [], codes, Text, All}
use token_bridge_contracts.Scripts.Chain.{Net, proxy_admin_factory, l2_usdc_gateway_factory}
use token_bridge_contracts.Scripts.Monad.{◌>>=◌, ◌>>◌, World}
use token_bridge_contracts.Scripts.Triples.{
  After, After-bind, After-or_fail, After-both, After-weaken,
}
use token_bridge_contracts.Scripts.Creations.Rules.{After-created}
use token_bridge_contracts.Scripts.Networks.{register_networks_of_inbox}
use token_bridge_contracts.Scripts.Networks.Unsent.{Unsent, After-Unsent_networks_of_inbox}
use token_bridge_contracts.Scripts.Creations.{creation}
use token_bridge_contracts.Scripts.Usdc.{
  Registration, required_env_vars, check_env_vars, add_minter_role_to_l2_gateway,
  initialize_gateways, register_gateway,
}
use token_bridge_contracts.Scripts.Usdc.Prepare.{Prepared}
use token_bridge_contracts.Scripts.Usdc.Sent.{Registered, has_owner_key, register_gateway_lem}
use token_bridge_contracts.Scripts.Usdc.Setup.{
  Anywhere, Provided, Initialized, initialize_gateways_lem,
}
use token_bridge_contracts.Scripts.Usdc.Token.{deploy_bridged_usdc}
use token_bridge_contracts.Scripts.Usdc.Token.Deployed.{Usable, Unusable, deploy_bridged_usdc_lem}
use token_bridge_contracts.Scripts.Usdc.Main.{
  deploy_l1_usdc_gateway, deploy_l2_usdc_gateway, load_wallets, main, deploy_proxy_admin,
}
use token_bridge_contracts.Scripts.Usdc.Main.Initialized.{InitializedBy, After-InitializedBy}
use token_bridge_contracts.Scripts.Usdc.Main.Steps.{
  ProxyOf, blocked, L1Gateway, After-L1Gateway, After-l2_gateway, minter_txs, After-minter,
  After-env, WalletOf, WalletsOf, After-wallets,
}

module _ (n : Net) where
  -- What has happened, with the worlds in between.
  pub record Ready (begin end : World) : Type 0 where
    pub parent : Text
    pub child : Text
    pub inbox : Text
    pub admin_l1 : Text
    pub admin_l2 : Text
    pub usdc : Text
    pub master_minter : Text
    pub l1_gateway : Text
    pub l2_gateway : Text
    pub registration : Registration
    pub start : World
    pub with_token : World
    pub with_l1_gateway : World
    pub with_gateways : World
    pub with_initialized : World
    pub with_registration : World
    pub env_set : All (Provided n) (
        codes "PARENT_RPC"
        ∷ codes "PARENT_DEPLOYER_KEY"
        ∷ codes "CHILD_RPC"
        ∷ codes "CHILD_DEPLOYER_KEY"
        ∷ codes "L1_ROUTER"
        ∷ codes "L2_ROUTER"
        ∷ codes "INBOX"
        ∷ codes "L1_USDC"
        ∷ [])
    pub parent_owned : WalletOf n (codes "PARENT_DEPLOYER_KEY") parent
    pub child_owned : WalletOf n (codes "CHILD_DEPLOYER_KEY") child
    pub inbox_set : n.env_var (codes "INBOX") ≡ some inbox
    pub admins_created :
        (admin_l1 ≡ n.created begin.txs (creation proxy_admin_factory []))
        × (admin_l2
            ≡ n.created
                (creation proxy_admin_factory [] ∷ begin.txs)
                (creation proxy_admin_factory []))
    pub started :
        start.txs ≡ creation proxy_admin_factory [] ∷ creation proxy_admin_factory [] ∷ begin.txs
    pub token_usable : Usable n child admin_l2 start (usdc, master_minter) with_token
    pub l1_created : L1Gateway n admin_l1 inbox l1_gateway with_token with_l1_gateway
    pub l2_created :
        ProxyOf n l2_usdc_gateway_factory admin_l2 l2_gateway with_l1_gateway with_gateways
    pub initializations :
        InitializedBy n l1_gateway l2_gateway inbox usdc parent child with_gateways with_initialized
    pub initialized :
        Initialized n l1_gateway l2_gateway inbox usdc parent child with_initialized.txs
    pub prepared : Prepared n with_initialized l1_gateway registration
    pub registered :
        Registered n with_initialized
          (has_owner_key n with_initialized)
          registration
          with_registration
    pub minter_configured : end ≡ record with_registration {
      txs = minter_txs n l2_gateway child master_minter with_registration.txs;
    }

  abbrev RegisteredFor : World → Text → World → Type 0
  RegisteredFor w gateway w' =
      (r : Registration) × Prepared n w gateway r × Registered n w (has_owner_key n w) r w'

  module _ (env : All (Provided n) required_env_vars) (parent child inbox : Text)
      (parent_owned : WalletOf n (codes "PARENT_DEPLOYER_KEY") parent)
      (child_owned : WalletOf n (codes "CHILD_DEPLOYER_KEY") child)
      (inbox_set : n.env_var (codes "INBOX") ≡ some inbox) (admin_l1 admin_l2 : Text)
      (begin start : World)
      (admins : (admin_l1 ≡ n.created begin.txs (creation proxy_admin_factory []))
        × (admin_l2
            ≡ n.created
                (creation proxy_admin_factory [] ∷ begin.txs)
                (creation proxy_admin_factory [])))
      (started : start.txs
        ≡ creation proxy_admin_factory [] ∷ creation proxy_admin_factory [] ∷ begin.txs) where
    token_lem :
        After Anywhere (Usable n child admin_l2 start) (deploy_bridged_usdc n child admin_l2 start)
    token_lem =
        let m = deploy_bridged_usdc n child admin_l2 start in
        After-weaken (Unusable n child admin_l2 start) Anywhere (Usable n child admin_l2 start) _
          m.0 m.1 (λ w' h. tt) (λ a w' h. h) (deploy_bridged_usdc_lem n child admin_l2 start)

    initialized_lem :
        (l1_gateway l2_gateway usdc : Text) (w : World)
        → After Anywhere
            (λ _ w'.
              InitializedBy n l1_gateway l2_gateway inbox usdc parent child w w'
              × Initialized n l1_gateway l2_gateway inbox usdc parent child w'.txs)
            (initialize_gateways n l1_gateway l2_gateway inbox usdc parent child w)
    initialized_lem l1_gateway l2_gateway usdc w =
        After-both Anywhere (λ _. InitializedBy n l1_gateway l2_gateway inbox usdc parent child w)
          (λ _ w'. Initialized n l1_gateway l2_gateway inbox usdc parent child w'.txs)
          (initialize_gateways n l1_gateway l2_gateway inbox usdc parent child w)
          (After-InitializedBy n l1_gateway l2_gateway inbox usdc parent child w)
          (initialize_gateways_lem n l1_gateway l2_gateway inbox usdc parent child w)

    registration_lem :
        (gateway : Text) (w : World)
        → After Anywhere (λ _. RegisteredFor w gateway) (register_gateway n inbox gateway w)
    registration_lem gateway w =
        let m = register_gateway n inbox gateway w in
        After-weaken _ Anywhere (λ _. RegisteredFor w gateway) _ m.0 m.1 (λ w' h. tt) (λ a w' h. h)
          (register_gateway_lem n w inbox gateway)

    After-deployed :
        After Anywhere
          (λ _. Ready begin)
          ((do
            (usdc, master_minter) ← deploy_bridged_usdc n child admin_l2
            l1_gateway ← deploy_l1_usdc_gateway n admin_l1 inbox
            l2_gateway ← deploy_l2_usdc_gateway n admin_l2
            initialize_gateways n l1_gateway l2_gateway inbox usdc parent child
            register_gateway n inbox l1_gateway
            add_minter_role_to_l2_gateway n l2_gateway child master_minter)
            start)
    After-deployed =
        let P = λ (_ : Unit {0}). Ready begin in
        After-bind Anywhere P _ (Usable n child admin_l2 start)
          (deploy_bridged_usdc n child admin_l2) start token_lem
          λ token with_token usable.
            After-bind Anywhere P _ (λ a. L1Gateway n admin_l1 inbox a with_token)
              (deploy_l1_usdc_gateway n admin_l1 inbox) with_token
              (After-L1Gateway n admin_l1 inbox with_token)
              λ l1_gateway with_l1 l1_created.
                After-bind Anywhere P _ (λ a. ProxyOf n l2_usdc_gateway_factory admin_l2 a with_l1)
                  (deploy_l2_usdc_gateway n admin_l2) with_l1 (After-l2_gateway n admin_l2 with_l1)
                  λ l2_gateway with_l2 l2_created.
                    After-bind Anywhere P _
                      (λ _ w'.
                        InitializedBy n l1_gateway l2_gateway inbox (token.0) parent child with_l2
                          w'
                        × Initialized n l1_gateway l2_gateway inbox (token.0) parent child w'.txs)
                      (initialize_gateways n l1_gateway l2_gateway inbox (token.0) parent child)
                      with_l2 (initialized_lem l1_gateway l2_gateway (token.0) with_l2)
                      λ _ with_init initialized.
                        After-bind Anywhere P _ (λ _. RegisteredFor with_init l1_gateway)
                          (register_gateway n inbox l1_gateway) with_init
                          (registration_lem l1_gateway with_init)
                          λ _ with_reg reg.
                            let m =
                              add_minter_role_to_l2_gateway n l2_gateway child (token.1) with_reg in
                            After-weaken Anywhere Anywhere
                              (λ _ w'. w' ≡ record with_reg {
                                txs = minter_txs n l2_gateway child (token.1) with_reg.txs;
                              })
                              P m.0 m.1 (λ w' h. tt)
                              (λ _ end configured. record {
                                parent = parent;
                                child = child;
                                inbox = inbox;
                                admin_l1 = admin_l1;
                                admin_l2 = admin_l2;
                                usdc = token.0;
                                master_minter = token.1;
                                l1_gateway = l1_gateway;
                                l2_gateway = l2_gateway;
                                registration = reg.0;
                                start = start;
                                with_token = with_token;
                                with_l1_gateway = with_l1;
                                with_gateways = with_l2;
                                with_initialized = with_init;
                                with_registration = with_reg;
                                admins_created = admins;
                                started = started;
                                env_set = env;
                                parent_owned = parent_owned;
                                child_owned = child_owned;
                                inbox_set = inbox_set;
                                token_usable = usable;
                                l1_created = l1_created;
                                l2_created = l2_created;
                                initializations = initialized.0;
                                initialized = initialized.1;
                                prepared = reg.1;
                                registered = reg.2;
                                minter_configured = configured;
                              })
                              (After-minter n l2_gateway child (token.1) with_reg)

  -- If the whole USDC deployment returns, the environment was complete, and this was mined: two proxy
  -- admins; the bridged USDC, initialized with the child deployer in every role but the minter's; for
  -- each gateway a new logic and its proxy with the admin of its chain, on the parent chain the one
  -- for a fee token if and only if the rollup has one; the initializations of the gateways, after
  -- which they return each other as counterparts, the environment's routers and token, the inbox and
  -- the bridged USDC; what registers the parent's gateway, or nothing if that is left to the multisig;
  -- and last what makes the child's gateway a minter of that token's master minter without a limit.
  pub main_lem : (w : World) → After Anywhere (λ _. Ready w) (main n w)
  unfolding main deploy_proxy_admin
  main_lem w =
      let P = λ (_ : Unit {0}). Ready w in
      let admin = creation proxy_admin_factory [] in
      After-bind Anywhere P _ (λ _ w'. (w' ≡ w) × All (Provided n) required_env_vars)
        (check_env_vars n required_env_vars) w (After-env n required_env_vars w)
        λ _ w0 env.
          After-bind Anywhere P _ (WalletsOf n w0) (load_wallets n) w0 (After-wallets n w0)
            λ wallets w1 owned.
              After-or_fail Anywhere P (n.env_var (codes "INBOX")) _ _ w1 tt λ inbox inbox_set.
                let m = register_networks_of_inbox n inbox w1 in
                After-bind Anywhere P _ (λ _. Unsent n w1) (register_networks_of_inbox n inbox) w1
                  (After-weaken (Unsent n w1) Anywhere (λ _. Unsent n w1) _ m.0 m.1 (λ w' h. tt)
                    (λ _ w' h. h) (After-Unsent_networks_of_inbox n w1 inbox w1 (refl, refl)))
                  λ network w2 unsent.
                    let same : w2.txs ≡ w.txs =
                      unsent.0 ∙ ap (λ (x : World). x.txs) (owned.0 ∙ env.0) in
                    After-created n Anywhere P (blocked n) proxy_admin_factory [] _ w2 (
                      After-created n Anywhere P (blocked n) proxy_admin_factory [] _ _ (
                        After-deployed (env.1) (wallets.0) (wallets.1) inbox (owned.1) (owned.2)
                          inbox_set _ _ w _
                          (
                            ap (λ txs. n.created txs admin) same,
                            ap (λ txs. n.created (admin ∷ txs) admin) same,
                          )
                          (ap (λ txs. admin ∷ admin ∷ txs) same)))
