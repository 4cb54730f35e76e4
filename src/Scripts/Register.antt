-- ===== src/Scripts/Register.antt =====
-- scripts/register_custom_token.ts and scripts/upgradeTemplate.ts.
pub mod Forced
mod Tests
use token_bridge_contracts.Base.{
  ℕ, ◌+◌, ◌*◌, Bool, true, false, not, ◌&&◌, ◌||◌, Option, none, some, List, [], ◌∷◌, codes, Text,
  text_eq, to_lower, includes, if◌then◌else◌,
}
use token_bridge_contracts.Scripts.Chain.{Net, l2_token_bridge_factory}
use token_bridge_contracts.Scripts.Monad.{
  Script, fail_if, or_fail, view, pure, ◌>>=◌, ◌>>◌, type_error, missing_env_var,
}
use token_bridge_contracts.Scripts.Creations.{deploy}
use token_bridge_contracts.Scripts.Usdc.{is_set}

-- What the registration reads; `none` throws, and a factory's `attach` and `connect` do not.
pub record Registrar : Type 0 where
  pub env_var : Text → Option Text
  -- the address of `Wallet.fromMnemonic`
  pub from_mnemonic : Text → Option Text
  pub router_owner : Option Text
  -- `getCode` on either chain, behind `deployed()`
  pub l1_code : Text → Option Text
  pub l2_code : Text → Option Text
  pub l2_gas_price : Option ℕ

-- `forceRegisterTokenToL2` of the parent chain's custom gateway, with its options
pub record Registration : Type 0 where
  pub from : Text
  pub to : Text
  pub l1_tokens : List Text
  pub l2_tokens : List Text
  pub max_gas : ℕ
  pub gas_price_bid : ℕ
  pub max_submission_cost : ℕ
  pub value : ℕ
  pub gas_price : ℕ

pub data Refusal : Type 0 where
  no_infura_key no_l1_privkey no_l2_privkey bad_mnemonic : Refusal
  call_failed not_router_owner not_deployed reverted : Refusal

-- The registration that was mined, or why there is none.
pub data Registered : Type 0 where
  registered : Registration → Registered
  refused : Refusal → Registered

abbrev pub l1_token : Text
l1_token = codes "0xa0b86991c6218b36c1d19d4a2e9eb0ce3606eb48"

abbrev pub l2_token : Text
l2_token = codes "0xFF970A61A04b1cA14834A43f5dE4533eBDDB5CC8"

abbrev pub l1_custom_gateway : Text
l1_custom_gateway = codes "0xcEe284F754E854890e311e3280b767F80797180d"

abbrev pub l2_custom_gateway : Text
l2_custom_gateway = codes "0x096760F208390250649E3e8763348E783AEF5562"

abbrev pub or_refuse : {A : Type 0} → Option A → Refusal → (A → Registered) → Registered
or_refuse none x k = refused x
or_refuse (some a) x k = k a

-- `if (!key) throw`
abbrev pub require : Option Text → Refusal → (Text → Registered) → Registered
require key x k = if is_set key then or_refuse key x k else refused x

-- `deployed()` on an attached contract
abbrev pub deployed : Option Text → Registered → Registered
deployed code k =
    or_refuse code call_failed (λ c. if text_eq c (codes "0x") then refused not_deployed else k)

abbrev pub registration : (owner : Text) → (l2_price : ℕ) → Registration
registration owner l2_price = record {
  from = owner;
  to = l1_custom_gateway;
  l1_tokens = l1_token ∷ [];
  l2_tokens = l2_token ∷ [];
  max_gas = 4000000;
  gas_price_bid = l2_price * 2;
  max_submission_cost = 400000000000;
  value = l2_price * 2 * 4000000 + 400000000000;
  gas_price = 30000000000;
}

module _ (r : Registrar) (accepts : Registration → Bool) where
  unfoldable pub register_custom_token : Registered
  register_custom_token = require (r.env_var (codes "INFURA_KEY")) no_infura_key λ _.
      require (r.env_var (codes "L1_PRIVKEY")) no_l1_privkey λ l1_key.
        require (r.env_var (codes "L2_PRIVKEY")) no_l2_privkey λ l2_key.
          or_refuse (r.from_mnemonic l1_key) bad_mnemonic λ l1_signer.
            or_refuse (r.from_mnemonic l2_key) bad_mnemonic λ _.
              or_refuse r.router_owner call_failed λ expected_owner.
                if not (text_eq (to_lower expected_owner) (to_lower l1_signer))
                then refused not_router_owner
                else deployed (r.l1_code l1_custom_gateway) (
                    deployed (r.l2_code l2_custom_gateway) (
                      or_refuse r.l2_gas_price call_failed λ l2_price.
                        if accepts (registration l1_signer l2_price)
                        then registered (registration l1_signer l2_price)
                        else refused reverted))

-- `main` of scripts/upgradeTemplate.ts: a factory for the child chain's contracts
unfoldable pub upgrade_template : Net → Script Text
unfolding deploy
upgrade_template n = do
  or_fail (n.env_var (codes "BASECHAIN_RPC")) (missing_env_var (codes "BASECHAIN_RPC"))
  key ←
      or_fail (n.env_var (codes "BASECHAIN_DEPLOYER_KEY"))
        (missing_env_var (codes "BASECHAIN_DEPLOYER_KEY"))
  or_fail (n.wallet_address key) type_error
  view n.chain_id
  deploy n l2_token_bridge_factory []
