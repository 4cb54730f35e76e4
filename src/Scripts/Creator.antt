-- ===== src/Scripts/Creator.antt =====
-- `createTokenBridge` and `registerGateway` of scripts/atomicTokenBridgeDeployer.ts: the fees of
-- the retryable tickets, how they are paid, and the wait for the tickets.
pub mod Payment
pub mod Linked
pub mod Returns
use token_bridge_contracts.Base.{
  ℕ, ◌+◌, ◌*◌, Bool, true, false, not, ◌&&◌, Option, none, some, List, [], ◌∷◌, codes, Text,
  text_eq, if◌then◌else◌,
}
use token_bridge_contracts.Scripts.Chain.{
  Call, Net, GasParams, MessageStatus, L1Deployment, L2Deployment, approve, execute_call,
  set_gateways, create_token_bridge_call,
}
use token_bridge_contracts.Scripts.Monad.{
  Script, World, pure, fail, stop, view, gets, fail_if, send, ◌>>=◌, ◌>>◌, type_error,
  router_not_deployed, router_not_initialized,
}
use token_bridge_contracts.Scripts.Fees.{get_scaled_amount}
use token_bridge_contracts.Scripts.Usdc.{get_fee_token, is_fee_token, is_redeemed, address_zero}

-- What the first half of `createTokenBridge` finds out.
pub record Ticket : Type 0 where
  pub inbox : Text
  pub fee_token : Text
  pub gas_price : ℕ
  pub max_gas_for_contracts : ℕ
  pub fee_for_factory : ℕ
  pub fee_for_contracts : ℕ

pub record Deployment : Type 0 where
  pub l1_deployment : L1Deployment
  pub l2_deployment : L2Deployment
  pub l1_multicall : Text
  pub l1_proxy_admin : Text

-- The first two messages are redeemed, or the process exits. With fewer than two, a property of
-- `undefined` is read, by the test or by the log.
abbrev pub both_redeemed : List MessageStatus → Script Unit
both_redeemed [] = fail type_error
both_redeemed (s ∷ []) = fail type_error
both_redeemed (s ∷ t ∷ rest) = if is_redeemed s && is_redeemed t then pure tt else stop

-- The first message is redeemed, or the process exits.
abbrev pub one_redeemed : List MessageStatus → Script Unit
one_redeemed [] = fail type_error
one_redeemed (s ∷ rest) = if is_redeemed s then pure tt else stop

-- the fees of both tickets, in ether
abbrev pub ether_fee : Ticket → ℕ
ether_fee t = if is_fee_token t.fee_token then 0 else t.fee_for_factory + t.fee_for_contracts

module _ (n : Net) (creator : Text) where
  -- The estimate is for a message from a fresh random address, here the empty text.
  unfoldable pub estimate_tickets : (rollup : Text) → Script Ticket
  unfolding get_fee_token
  estimate_tickets rollup = do
    gas_price ← view (λ txs. n.gas_price txs)
    params ← view (λ txs. n.estimate_all txs [] address_zero)
    max_gas_for_factory ← view (λ txs. n.factory_gas_limit txs creator)
    gas_estimate ← view (λ txs. n.contracts_gas txs creator)
    inbox ← view (λ txs. n.inbox txs rollup)
    fee_token ← get_fee_token n inbox
    pure (record {
      inbox = inbox;
      fee_token = fee_token;
      gas_price = gas_price;
      max_gas_for_contracts = gas_estimate * 2;
      fee_for_factory = params.max_submission_cost + max_gas_for_factory * gas_price;
      fee_for_contracts = params.max_submission_cost * 2 + gas_estimate * 2 * gas_price;
    })

  abbrev pub fee_approval : Ticket → ℕ → Call
  fee_approval t decimals = record {
    to = t.fee_token;
    value = 0;
    calldata = approve creator (
        get_scaled_amount decimals t.fee_for_factory
        + get_scaled_amount decimals t.fee_for_contracts);
  }

  unfoldable pub approve_fee : Ticket → Script Unit
  unfolding send
  approve_fee t =
      if is_fee_token t.fee_token
      then (do
        decimals ← view (λ txs. n.decimals txs t.fee_token)
        send n (fee_approval t decimals))
      else pure tt

  abbrev pub creation_call : Text → Ticket → Call
  creation_call rollup_owner t = record {
    to = creator;
    value = ether_fee t;
    calldata = create_token_bridge_call t.inbox rollup_owner t.max_gas_for_contracts t.gas_price;
  }

  unfoldable pub send_creation : Text → Ticket → Script Unit
  unfolding send
  send_creation rollup_owner t w =
      (send n (creation_call rollup_owner t) >>= λ _.
      both_redeemed (n.message_statuses w.txs (creation_call rollup_owner t)))
        w

  unfoldable pub read_deployment : Ticket → Script Deployment
  read_deployment t = do
    l1 ← view (λ txs. n.l1_deployment txs creator t.inbox)
    l2 ← view (λ txs. n.l2_deployment txs creator t.inbox)
    multicall ← view (λ txs. n.l1_multicall txs creator)
    admin ← view (λ txs. n.proxy_admin txs t.inbox)
    pure (record {
      l1_deployment = l1;
      l2_deployment = l2;
      l1_multicall = multicall;
      l1_proxy_admin = admin;
    })

  unfoldable pub create_token_bridge : (rollup rollup_owner : Text) → Script Deployment
  unfolding estimate_tickets approve_fee send_creation read_deployment
  create_token_bridge rollup rollup_owner = do
    t ← estimate_tickets rollup
    approve_fee t
    send_creation rollup_owner t
    read_deployment t

module _ (n : Net) (upgrade_executor gateway_router : Text) (tokens gateways : List Text) where
  -- `buildCall`
  abbrev pub build_call : GasParams → Call
  build_call params = record {
    to = upgrade_executor;
    value = params.gas_limit * params.max_fee_per_gas + params.max_submission_cost;
    calldata = execute_call gateway_router (
        set_gateways tokens gateways params.gas_limit params.max_fee_per_gas
          params.max_submission_cost none);
  }

  unfoldable pub send_registration : GasParams → Script Unit
  unfolding send
  send_registration params w =
      (send n (build_call params) >>= λ _.
      one_redeemed (n.message_statuses w.txs (build_call params)))
        w

  unfoldable pub register_gateway : Script Unit
  unfolding send_registration
  register_gateway = do
    l2_router ← view (λ txs. n.counterpart txs gateway_router)
    code ← gets (λ txs. n.child_code txs l2_router)
    fail_if (text_eq code (codes "0x")) router_not_deployed
    l1_router ← view (λ txs. n.child_counterpart txs l2_router)
    fail_if (not (text_eq l1_router gateway_router)) router_not_initialized
    params ← view (λ txs. n.populate_params txs upgrade_executor)
    send_registration params
