-- ===== src/Scripts/Usdc/Main.antt =====
-- `main` of scripts/usdc-bridge-deployment/deployUsdcBridge.ts, with the wallets, the proxy admins
-- and the proxies of the gateways.
pub mod Steps
pub mod Initialized
pub mod Ready
use token_bridge_contracts.Base.{Option, none, some, List, [], ◌∷◌, codes, Text, if◌then◌else◌}
use token_bridge_contracts.Scripts.Chain.{
  Net, proxy_admin_factory, l1_usdc_gateway_factory, l1_orbit_usdc_gateway_factory,
  l2_usdc_gateway_factory,
}
use token_bridge_contracts.Scripts.Monad.{Script, pure, or_fail, ◌>>=◌, ◌>>◌, type_error}
use token_bridge_contracts.Scripts.Creations.{deploy, deploy_proxy}
use token_bridge_contracts.Scripts.Networks.{register_networks_of_inbox}
use token_bridge_contracts.Scripts.Usdc.{
  required_env_vars, check_env_vars, read_env, get_fee_token, is_fee_token, initialize_gateways,
  register_gateway, load_wallet, add_minter_role_to_l2_gateway,
}
use token_bridge_contracts.Scripts.Usdc.Token.{deploy_bridged_usdc}

module _ (n : Net) where
  unfoldable pub load_wallets : Script (Text × Text)
  unfolding load_wallet
  load_wallets = do
    parent ← load_wallet n (codes "PARENT_DEPLOYER_KEY")
    child ← load_wallet n (codes "CHILD_DEPLOYER_KEY")
    pure (parent, child)

  unfoldable pub deploy_proxy_admin : Script Text
  unfolding deploy
  deploy_proxy_admin = deploy n proxy_admin_factory []

  unfoldable pub deploy_l1_usdc_gateway : (proxy_admin inbox : Text) → Script Text
  unfolding get_fee_token deploy deploy_proxy
  deploy_l1_usdc_gateway proxy_admin inbox = do
    fee_token ← get_fee_token n inbox
    logic ←
        deploy n
          (if is_fee_token fee_token
            then l1_orbit_usdc_gateway_factory
            else l1_usdc_gateway_factory)
          []
    deploy_proxy n logic proxy_admin

  unfoldable pub deploy_l2_usdc_gateway : (proxy_admin : Text) → Script Text
  unfolding deploy deploy_proxy
  deploy_l2_usdc_gateway proxy_admin = do
    logic ← deploy n l2_usdc_gateway_factory []
    deploy_proxy n logic proxy_admin

  unfoldable pub main : Script Unit
  unfolding check_env_vars load_wallets register_networks_of_inbox deploy_proxy_admin
      deploy_bridged_usdc deploy_l1_usdc_gateway deploy_l2_usdc_gateway initialize_gateways
      register_gateway add_minter_role_to_l2_gateway
  main = do
    check_env_vars n required_env_vars
    (parent, child) ← load_wallets
    inbox ← read_env n (codes "INBOX")
    register_networks_of_inbox n inbox
    admin_l1 ← deploy_proxy_admin
    admin_l2 ← deploy_proxy_admin
    (usdc, master_minter) ← deploy_bridged_usdc n child admin_l2
    l1_gateway ← deploy_l1_usdc_gateway admin_l1 inbox
    l2_gateway ← deploy_l2_usdc_gateway admin_l2
    initialize_gateways n l1_gateway l2_gateway inbox usdc parent child
    register_gateway n inbox l1_gateway
    add_minter_role_to_l2_gateway n l2_gateway child master_minter
