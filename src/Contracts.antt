-- ===== src/Contracts.antt =====
-- tasks/types.ts: the contracts that the upgrade tasks know, how each is upgraded, and the data of
-- the deployment files.
mod Names
unfoldable pub use Names.*
use token_bridge_contracts.Base.{ℕ, Bool, true, false, ◌||◌, Text, Dict}

pub record QueuedUpdate : Type 0 where
  pub address : Text
  pub deploy_txn : Text
  pub arbitrum_commit_hash : Text
  pub build_info : Text

pub record CurrentDeployment : Type 0 where
  pub proxy_address : Text
  pub impl_address : Text
  pub impl_deployment_txn : Text
  pub impl_arbitrum_commit_hash : Text
  pub impl_build_info : Text

abbrev pub QueuedUpdates : Type 0
QueuedUpdates = Dict ContractNames QueuedUpdate

pub record CurrentDeployments : Type 0 where
  pub proxy_admin_address : Text
  pub contracts : Dict ContractNames CurrentDeployment

pub data UpgradeableType : Type 0 where
  beacon_owned_by_eoa beacon_owned_by_rollup transparent_proxy proxy : UpgradeableType
  rollup_user_facet_type rollup_admin_facet_type : UpgradeableType

abbrev pub type_eq : UpgradeableType → UpgradeableType → Bool
type_eq beacon_owned_by_eoa beacon_owned_by_eoa = true
type_eq beacon_owned_by_rollup beacon_owned_by_rollup = true
type_eq transparent_proxy transparent_proxy = true
type_eq proxy proxy = true
type_eq rollup_user_facet_type rollup_user_facet_type = true
type_eq rollup_admin_facet_type rollup_admin_facet_type = true
type_eq _ _ = false

unfoldable pub proxy_type : ContractNames → UpgradeableType
proxy_type standard_arb_erc20 = beacon_owned_by_eoa
proxy_type node = beacon_owned_by_rollup
proxy_type challenge = beacon_owned_by_rollup
proxy_type outbox_entry = beacon_owned_by_rollup
proxy_type rollup_admin_facet = rollup_admin_facet_type
proxy_type rollup_user_facet = rollup_user_facet_type
proxy_type _ = transparent_proxy

unfoldable pub is_beacon_owned_by_eoa : ContractNames → Bool
unfolding proxy_type
is_beacon_owned_by_eoa n = type_eq (proxy_type n) beacon_owned_by_eoa

unfoldable pub is_beacon_owned_by_rollup : ContractNames → Bool
unfolding proxy_type
is_beacon_owned_by_rollup n = type_eq (proxy_type n) beacon_owned_by_rollup

unfoldable pub is_beacon : ContractNames → Bool
unfolding is_beacon_owned_by_eoa is_beacon_owned_by_rollup
is_beacon n = is_beacon_owned_by_eoa n || is_beacon_owned_by_rollup n

unfoldable pub is_rollup_user_facet : ContractNames → Bool
unfolding proxy_type
is_rollup_user_facet n = type_eq (proxy_type n) rollup_user_facet_type

unfoldable pub is_rollup_admin_facet : ContractNames → Bool
unfolding proxy_type
is_rollup_admin_facet n = type_eq (proxy_type n) rollup_admin_facet_type

-- The chain that a contract belongs to: 1 for the parent, 2 for the child.
unfoldable pub get_layer : ContractNames → ℕ
get_layer l2_erc20_gateway = 2
get_layer l2_gateway_router = 2
get_layer l2_weth_gateway = 2
get_layer l2_custom_gateway = 2
get_layer standard_arb_erc20 = 2
get_layer _ = 1

unfoldable pub has_post_init_hook : ContractNames → Bool
has_post_init_hook l1_gateway_router = true
has_post_init_hook l1_erc20_gateway = true
has_post_init_hook l1_custom_gateway = true
has_post_init_hook l1_weth_gateway = true
has_post_init_hook l2_erc20_gateway = true
has_post_init_hook l2_gateway_router = true
has_post_init_hook l2_custom_gateway = true
has_post_init_hook l2_weth_gateway = true
has_post_init_hook rollup = true
has_post_init_hook sequencer_inbox = true
has_post_init_hook _ = false
