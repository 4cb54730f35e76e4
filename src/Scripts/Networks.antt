-- ===== src/Scripts/Networks.antt =====
-- What the scripts tell the SDK about a chain: `_registerNetworks` of
-- scripts/usdc-bridge-deployment/deployUsdcBridge.ts and `registerNetworks` of the two scripts of
-- scripts/deployment/, which differ in where the rollup comes from.
pub mod Unsent
use token_bridge_contracts.Base.{
  ℕ, ◌*◌, ◌^◌, true, false, Option, none, some, codes, Text, ltb, if◌then◌else◌,
}
use token_bridge_contracts.Scripts.Chain.{Net, Network}
use token_bridge_contracts.Scripts.Monad.{
  Script, pure, view, or_fail, register_network, ◌>>=◌, ◌>>◌, type_error,
}

-- `BigNumber.toNumber`, which throws above the integers that a double holds exactly
abbrev pub to_number : ℕ → Option ℕ
to_number x = if ltb x (2 ^ 53) then some x else none

module _ (n : Net) where
  unfoldable pub read_network : (l1_chain l2_chain : ℕ) → (rollup : Text) → Script Network
  read_network l1_chain l2_chain rollup = do
    period ← view (λ txs. n.confirm_period_blocks txs rollup)
    blocks ← or_fail (to_number period) type_error
    bridge ← view (λ txs. n.rollup_bridge txs rollup)
    inbox ← view (λ txs. n.inbox txs rollup)
    outbox ← view (λ txs. n.rollup_outbox txs rollup)
    sequencer_inbox ← view (λ txs. n.rollup_sequencer_inbox txs rollup)
    pure (record {
      native_token = none;
      is_testnet = false;
      chain_id = l2_chain;
      confirm_period_blocks = blocks;
      eth_bridge = record {
        bridge = bridge;
        inbox = inbox;
        outbox = outbox;
        rollup = rollup;
        sequencer_inbox = sequencer_inbox;
      };
      is_custom = true;
      name = codes "OrbitChain";
      parent_chain_id = l1_chain;
      retryable_lifetime_seconds = 7 * 24 * 60 * 60;
    })

  -- `_registerNetworks`, of an inbox
  unfoldable pub register_networks_of_inbox : Text → Script Network
  unfolding read_network register_network
  register_networks_of_inbox inbox = do
    l1_chain ← view n.chain_id
    l2_chain ← view n.child_chain_id
    bridge ← view (λ txs. n.bridge txs inbox)
    rollup ← view (λ txs. n.bridge_rollup txs bridge)
    network ← read_network l1_chain l2_chain rollup
    register_network n network
    pure network

  -- `registerNetworks`, of a rollup
  unfoldable pub register_networks : Text → Script Network
  unfolding read_network register_network
  register_networks rollup = do
    l1_chain ← view n.chain_id
    l2_chain ← view n.child_chain_id
    network ← read_network l1_chain l2_chain rollup
    register_network n network
    pure network
