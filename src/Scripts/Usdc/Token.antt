-- ===== src/Scripts/Usdc/Token.antt =====
-- The bridged USDC of scripts/usdc-bridge-deployment/deployUsdcBridge.ts: Circle's token behind
-- its proxy, linked with its library, initialized, and read back; then its logic with dummy data.
-- The creations of Circle's contracts are not waited for; the transactions that follow come from
-- the same wallet, so a creation is mined before them, or is reverted and leaves nothing.
pub mod Linked
pub mod Read
pub mod Deployed
use token_bridge_contracts.Base.{
  ℕ, ◌-◌, zero, suc, Bool, true, false, not, List, [], ◌∷◌, ◌++◌, codes, Text, starts_with, length,
  drop, ◌==◌, if◌then◌else◌,
}
use token_bridge_contracts.Scripts.Chain.{
  Call, Calldata, Net, Field, name_field, symbol_field, currency_field, master_minter_field,
  pauser_field, blacklister_field, owner_field, initialize_token, initialize_v2, initialize_v2_1,
  initialize_v2_2, change_admin, sig_checker_factory, usdc_logic_factory, usdc_proxy_factory,
  master_minter_factory,
}
use token_bridge_contracts.Scripts.Monad.{
  Script, Failure, pure, view, fail_if, send, ◌>>=◌, ◌>>◌, token_init_failed,
  token_logic_init_failed,
}
use token_bridge_contracts.Scripts.Creations.{create_unwaited}
use token_bridge_contracts.Scripts.Usdc.{differs}
use token_bridge_contracts.Scripts.Templates.{address_dead}

-- `t.split(p).join(r)` after `skip` characters that a copy of `p` has taken
unfoldable pub split_join : (p r : Text) → (skip : ℕ) → Text → Text
unfolding starts_with
split_join p r skip [] = []
split_join p r (suc skip) (c ∷ t) = split_join p r skip t
split_join p r zero (c ∷ t) = elim (starts_with p (c ∷ t)) [
  | true ↦ r ++ split_join p r (length p - 1) t
  | false ↦ c ∷ split_join p r 0 t
]

abbrev pub placeholder : Text
placeholder = codes "__$715109b5d747ea58b675c6ea3f0dba8c60$__"

-- `address.replace(/^0x/, '')`
abbrev pub strip_0x : Text → Text
strip_0x t = if starts_with (codes "0x") t then drop 2 t else t

-- the bytecode with the address of the library in place of the placeholder
unfoldable pub link_library : (bytecode library : Text) → Text
unfolding split_join
link_library bytecode library = split_join placeholder (strip_0x library) 0 bytecode

abbrev pub call_to : Text → Calldata → Call
call_to address calldata = record { to = address; value = 0; calldata = calldata }

-- What a token's initialization sets: the texts, the decimals, and the four roles.
pub record TokenInit : Type 0 where
  pub name : Text
  pub symbol : Text
  pub currency : Text
  pub decimals : ℕ
  pub master_minter : Text
  pub pauser : Text
  pub blacklister : Text
  pub owner : Text
  pub lost_and_found : Text

abbrev pub token_init : (master_minter deployer : Text) → TokenInit
token_init master_minter deployer = record {
  name = codes "USDC";
  symbol = codes "USDC.e";
  currency = codes "USD";
  decimals = 6;
  master_minter = master_minter;
  pauser = deployer;
  blacklister = deployer;
  owner = deployer;
  lost_and_found = deployer;
}

abbrev pub dummy_init : TokenInit
dummy_init = record {
  name = [];
  symbol = [];
  currency = [];
  decimals = 0;
  master_minter = address_dead;
  pauser = address_dead;
  blacklister = address_dead;
  owner = address_dead;
  lost_and_found = address_dead;
}

abbrev pub text_fields : TokenInit → List (Field × Text)
text_fields i = (name_field, i.name) ∷ (symbol_field, i.symbol) ∷ (currency_field, i.currency) ∷ []

abbrev pub role_fields : TokenInit → List (Field × Text)
role_fields i =
    (master_minter_field, i.master_minter)
    ∷ (pauser_field, i.pauser)
    ∷ (blacklister_field, i.blacklister)
    ∷ (owner_field, i.owner)
    ∷ []

module _ (n : Net) where
  -- the two blocks of initializations
  unfoldable pub initialize_fiat_token : Text → TokenInit → Script Unit
  unfolding send
  initialize_fiat_token token i = do
    let roles = i.master_minter ∷ i.pauser ∷ i.blacklister ∷ i.owner ∷ []
    send n (call_to token (initialize_token i.name i.symbol i.currency i.decimals roles))
    send n (call_to token (initialize_v2 i.name))
    send n (call_to token (initialize_v2_1 i.lost_and_found))
    send n (call_to token (initialize_v2_2 [] i.symbol))

  -- the `||` of the checks that follow
  unfoldable pub token_differs : Text → TokenInit → Script Bool
  unfolding differs
  token_differs token i = do
    texts ← differs n token (text_fields i)
    if texts then pure true else (do
      decimals ← view (λ txs. n.decimals txs token)
      if not (decimals == i.decimals) then pure true else differs n token (role_fields i))

  unfoldable pub verify_fiat_token : Text → TokenInit → Failure → Script Unit
  unfolding token_differs
  verify_fiat_token token i failure = do
    one_differs ← token_differs token i
    fail_if one_differs failure

  unfoldable pub deploy_usdc_logic : Script Text
  unfolding create_unwaited link_library
  deploy_usdc_logic = do
    library ← create_unwaited n sig_checker_factory []
    create_unwaited n (usdc_logic_factory (link_library n.usdc_bytecode library)) []

  unfoldable pub deploy_usdc_proxy : (logic proxy_admin : Text) → Script Text
  unfolding create_unwaited send
  deploy_usdc_proxy logic proxy_admin = do
    proxy ← create_unwaited n usdc_proxy_factory (logic ∷ [])
    send n (call_to proxy (change_admin proxy_admin))
    pure proxy

  -- the token and its master minter
  unfoldable pub deploy_bridged_usdc : (deployer proxy_admin : Text) → Script (Text × Text)
  unfolding deploy_usdc_logic deploy_usdc_proxy create_unwaited initialize_fiat_token
      verify_fiat_token
  deploy_bridged_usdc deployer proxy_admin = do
    logic ← deploy_usdc_logic
    proxy ← deploy_usdc_proxy logic proxy_admin
    master_minter ← create_unwaited n master_minter_factory (proxy ∷ [])
    initialize_fiat_token proxy (token_init master_minter deployer)
    verify_fiat_token proxy (token_init master_minter deployer) token_init_failed
    initialize_fiat_token logic dummy_init
    verify_fiat_token logic dummy_init token_logic_init_failed
    pure (proxy, master_minter)
