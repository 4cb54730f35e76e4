-- ===== src/Scripts/Usdc.antt =====
-- The USDC bridge of scripts/usdc-bridge-deployment/deployUsdcBridge.ts: the check of the
-- environment, the initialization of the gateways with the checks that follow it, and the
-- registration of the gateway, which is sent by the rollup's owner or prepared for a multisig.
pub mod Checks
pub mod Token
pub mod Main
pub mod Prepare
pub mod Sent
pub mod Setup
pub mod Returns
use token_bridge_contracts.Base.{
  ℕ, ◌+◌, ◌*◌, ◌-◌, ◌^◌, Bool, true, false, not, ◌&&◌, Option, none, some, List, [], ◌∷◌, codes,
  Text, text_eq, if◌then◌else◌,
}
use token_bridge_contracts.Scripts.Chain.{
  Call, Calldata, Net, GasParams, MessageStatus, redeemed, Field, router_field, inbox_field,
  l1_usdc_field, l2_usdc_field, owner_field, counterpart_field, transfer, approve, execute_call,
  set_gateways, initialize, configure_controller, configure_minter,
}
use token_bridge_contracts.Scripts.Monad.{
  Script, World, Failure, pure, fail, or_fail, view, gets, fail_if, send, write_registration, ◌>>=◌,
  ◌>>◌, missing_env_var, call_failed, type_error, not_upgrade_executor, not_redeemed,
  l1_init_failed, l2_init_failed,
}
use token_bridge_contracts.Scripts.Fees.{get_prescaled_amount}

abbrev pub address_zero : Text
address_zero = codes "0x0000000000000000000000000000000000000000"

abbrev pub required_env_vars : List Text
required_env_vars =
    codes "PARENT_RPC"
    ∷ codes "PARENT_DEPLOYER_KEY"
    ∷ codes "CHILD_RPC"
    ∷ codes "CHILD_DEPLOYER_KEY"
    ∷ codes "L1_ROUTER"
    ∷ codes "L2_ROUTER"
    ∷ codes "INBOX"
    ∷ codes "L1_USDC"
    ∷ []

-- JavaScript's truth of a text that may be undefined
abbrev pub is_set : Option Text → Bool
is_set none = false
is_set (some []) = false
is_set (some (c ∷ rest)) = true

abbrev pub or_zero : Option Text → Text
or_zero none = address_zero
or_zero (some token) = token

abbrev pub is_redeemed : MessageStatus → Bool
is_redeemed redeemed = true
is_redeemed _ = false

abbrev pub first_redeemed : List MessageStatus → Script Unit
first_redeemed [] = fail type_error
first_redeemed (s ∷ rest) = if is_redeemed s then pure tt else fail not_redeemed

-- What the first half of `_registerGateway` finds out.
pub record Registration : Type 0 where
  pub fee_token : Text
  pub router : Text
  pub executor : Text
  pub usdc : Text
  pub gateway : Text
  pub max_gas : ℕ
  pub gas_price_bid : ℕ
  pub max_submission_cost : ℕ
  pub total_fee : ℕ

abbrev pub is_fee_token : Text → Bool
is_fee_token token = not (text_eq token address_zero)

unfoldable pub registration_calldata : Registration → Calldata
registration_calldata r =
    set_gateways (r.usdc ∷ []) (r.gateway ∷ []) r.max_gas r.gas_price_bid r.max_submission_cost
      (if is_fee_token r.fee_token then some r.total_fee else none)

-- the call of the executor that registers the gateway, in both branches
unfoldable pub registration_call : Registration → Call
unfolding registration_calldata
registration_call r = record {
  to = r.executor;
  value = if is_fee_token r.fee_token then 0 else r.total_fee;
  calldata = execute_call r.router (registration_calldata r);
}

abbrev pub fee_transfer : Registration → Call
fee_transfer r = record { to = r.fee_token; value = 0; calldata = transfer r.executor r.total_fee }

-- The transactions for the multisig.
unfoldable pub multisig_txs : Registration → List Call
unfolding registration_call
multisig_txs r =
    if is_fee_token r.fee_token
    then fee_transfer r
      ∷ record { to = r.executor; value = 0; calldata = approve r.router r.total_fee }
      ∷ registration_call r
      ∷ []
    else registration_call r ∷ []

-- The executor approves the router.
abbrev pub fee_approval : Registration → Call
fee_approval r = record {
  to = r.executor;
  value = 0;
  calldata = execute_call r.fee_token (approve r.router r.total_fee);
}

-- The views that are compared after the initializations, in their order.
abbrev pub l1_fields : (router inbox l1_usdc l2_usdc owner counterpart : Text) → List (Field × Text)
l1_fields router inbox l1_usdc l2_usdc owner counterpart =
    (router_field, router)
    ∷ (inbox_field, inbox)
    ∷ (l1_usdc_field, l1_usdc)
    ∷ (l2_usdc_field, l2_usdc)
    ∷ (owner_field, owner)
    ∷ (counterpart_field, counterpart)
    ∷ []

abbrev pub l2_fields : (counterpart router l1_usdc l2_usdc owner : Text) → List (Field × Text)
l2_fields counterpart router l1_usdc l2_usdc owner =
    (counterpart_field, counterpart)
    ∷ (router_field, router)
    ∷ (l1_usdc_field, l1_usdc)
    ∷ (l2_usdc_field, l2_usdc)
    ∷ (owner_field, owner)
    ∷ []

module _ (n : Net) where
  unfoldable pub check_env_vars : List Text → Script Unit
  check_env_vars [] = pure tt
  check_env_vars (name ∷ rest) =
      let checked = check_env_vars rest in
      if is_set (n.env_var name) then checked else fail (missing_env_var name)

  unfoldable pub get_fee_token : Text → Script Text
  get_fee_token inbox = do
    bridge ← view (λ txs. n.bridge txs inbox)
    gets (λ txs. or_zero (n.native_token txs bridge))

  -- the two views in the `try`
  unfoldable pub is_upgrade_executor : List Call → Text → Bool
  is_upgrade_executor txs address = n.has_admin_role txs address && n.has_executor_role txs address

  abbrev pub read_env : Text → Script Text
  read_env name = or_fail (n.env_var name) type_error

  -- the address of the key in a variable
  unfoldable pub load_wallet : Text → Script Text
  load_wallet name = do key ← read_env name; or_fail (n.wallet_address key) type_error

  -- the fee of the retryable ticket, in the decimals of the fee token if there is one
  unfoldable pub registration_fee : Text → ℕ → Script ℕ
  registration_fee fee_token fee =
      if is_fee_token fee_token
      then (do
        decimals ← view (λ txs. n.decimals txs fee_token)
        pure (get_prescaled_amount decimals fee))
      else pure fee

  unfoldable pub prepare_registration : (inbox l1_usdc_gateway : Text) → Script Registration
  unfolding get_fee_token is_upgrade_executor registration_fee
  prepare_registration inbox l1_usdc_gateway = do
    fee_token ← get_fee_token inbox
    l1_router ← read_env (codes "L1_ROUTER")
    l2_router ← read_env (codes "L2_ROUTER")
    l1_usdc ← read_env (codes "L1_USDC")
    executor ← view (λ txs. n.owner txs l1_router)
    is_executor ← gets (λ txs. is_upgrade_executor txs executor)
    fail_if (not is_executor) not_upgrade_executor
    params ← view (λ txs. n.estimate_all txs l1_router l2_router)
    total_fee ←
        registration_fee fee_token
          (params.gas_limit * (params.max_fee_per_gas * 3) + params.max_submission_cost)
    pure (record {
      fee_token = fee_token;
      router = l1_router;
      executor = executor;
      usdc = l1_usdc;
      gateway = l1_usdc_gateway;
      max_gas = params.gas_limit;
      gas_price_bid = params.max_fee_per_gas * 3;
      max_submission_cost = params.max_submission_cost;
      total_fee = total_fee;
    })

  -- the call is mined, and its first message redeemed
  unfoldable pub wait_on_l2_msg : Call → Script Unit
  unfolding send
  wait_on_l2_msg call w = (send n call >>= λ _. first_redeemed (n.message_statuses w.txs call)) w

  unfoldable pub execute_registration : Registration → Script Unit
  unfolding load_wallet send wait_on_l2_msg registration_call
  execute_registration r = do
    _ ← load_wallet (codes "ROLLUP_OWNER_KEY")
    if is_fee_token r.fee_token
        then (do
          send n (fee_transfer r)
          send n (fee_approval r)
          wait_on_l2_msg (registration_call r))
        else wait_on_l2_msg (registration_call r)

  unfoldable pub register_gateway : (inbox l1_usdc_gateway : Text) → Script Unit
  unfolding prepare_registration multisig_txs execute_registration
  register_gateway inbox l1_usdc_gateway = do
    r ← prepare_registration inbox l1_usdc_gateway
    if not (is_set (n.env_var (codes "ROLLUP_OWNER_KEY")))
        then write_registration (multisig_txs r)
        else execute_registration r

  -- The `||` of the checks after an initialization: the views are read until one differs.
  unfoldable pub differs : Text → List (Field × Text) → Script Bool
  differs gateway [] = pure false
  differs gateway ((f, expected) ∷ rest) = do
    let others = differs gateway rest
    actual ← view (λ txs. n.field txs gateway f)
    if not (text_eq actual expected) then pure true else others

  unfoldable pub expect_fields : Text → List (Field × Text) → Failure → Script Unit
  unfolding differs
  expect_fields gateway fields failure = do
    one_differs ← differs gateway fields
    fail_if one_differs failure

  unfoldable pub initialize_gateways :
      (l1_gateway l2_gateway inbox l2_usdc owner_l1 owner_l2 : Text) → Script Unit
  unfolding send expect_fields
  initialize_gateways l1_gateway l2_gateway inbox l2_usdc owner_l1 owner_l2 = do
    l1_router ← read_env (codes "L1_ROUTER")
    l2_router ← read_env (codes "L2_ROUTER")
    l1_usdc ← read_env (codes "L1_USDC")
    send n (record {
      to = l1_gateway;
      value = 0;
      calldata = initialize (l2_gateway ∷ l1_router ∷ inbox ∷ l1_usdc ∷ l2_usdc ∷ owner_l1 ∷ []);
    })
    send n (record {
      to = l2_gateway;
      value = 0;
      calldata = initialize (l1_gateway ∷ l2_router ∷ l1_usdc ∷ l2_usdc ∷ owner_l2 ∷ []);
    })
    expect_fields l1_gateway (l1_fields l1_router inbox l1_usdc l2_usdc owner_l1 l2_gateway)
        l1_init_failed
    expect_fields l2_gateway (l2_fields l1_gateway l2_router l1_usdc l2_usdc owner_l2)
        l2_init_failed

  unfoldable pub add_minter_role_to_l2_gateway :
      (l2_gateway master_minter_owner master_minter : Text) → Script Unit
  unfolding send
  add_minter_role_to_l2_gateway l2_gateway master_minter_owner master_minter = do
    send n (record {
      to = master_minter;
      value = 0;
      calldata = configure_controller master_minter_owner l2_gateway;
    })
    send n (record { to = master_minter; value = 0; calldata = configure_minter (2 ^ 256 - 1) })
