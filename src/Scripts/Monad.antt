-- ===== src/Scripts/Monad.antt =====
-- The monad of the deployment scripts. What was sent before a throw stays, so the world comes back
-- beside every result.
use token_bridge_contracts.Base.{
  Bool, true, false, Option, none, some, List, ◌∷◌, Text, if◌then◌else◌,
}
use token_bridge_contracts.Scripts.Chain.{
  Call, Net, Network, NetworkFile, VerifyCommand, VerifyRequest, VerifyOutcome,
}

pub data Failure : Type 0 where
  missing_env_var : Text → Failure
  tx_reverted call_failed type_error : Failure
  not_upgrade_executor not_redeemed : Failure
  l1_init_failed l2_init_failed : Failure
  router_not_deployed router_not_initialized : Failure
  token_init_failed token_logic_init_failed network_refused gas_limit_or_rollup_missing
        explorer_env_missing :
      Failure

-- `stopped` is `exit()`.
pub data Result (A : Type 0) : Type 0 where
  done : A → Result A
  failed : Failure → Result A
  stopped : Result A

-- The mined transactions, the latest first, the transactions in the file
-- registerUsdcGatewayTx.json, the commands that were run, the requests to the explorer and the
-- networks that the SDK was told,
-- the latest first, and what the file network.json holds.
pub record World : Type 0 where
  pub txs : List Call
  pub registration_file : Option (List Call)
  pub commands : List VerifyCommand
  pub requests : List (VerifyRequest × VerifyOutcome)
  pub networks : List Network
  pub network_file : Option NetworkFile

abbrev pub Script : Type 0 → Type 0
Script A = World → Result A × World

module _ {A : Type 0} where
  abbrev pub pure : A → Script A
  pure a w = (done a, w)

  abbrev pub fail : Failure → Script A
  fail f w = (failed f, w)

  abbrev pub stop : Script A
  stop w = (stopped, w)

  abbrev pub or_fail : Option A → Failure → Script A
  or_fail none f w = (failed f, w)
  or_fail (some a) f w = (done a, w)

  -- a view of the mined transactions
  unfoldable pub view : (List Call → Option A) → Script A
  view f w = or_fail (f w.txs) call_failed w

  abbrev pub gets : (List Call → A) → Script A
  gets f w = (done (f w.txs), w)

infixl 5 ◌>>=◌ ◌>>◌
unfoldable pub ◌>>=◌ : {A B : Type 0} → Script A → (A → Script B) → Script B
◌>>=◌ m f w =
    let (r, w') = m w in
    elim r [ done a ↦ f a w' | failed x ↦ (failed x, w') | stopped ↦ (stopped, w') ]

abbrev pub ◌>>◌ : {A B : Type 0} → Script A → Script B → Script B
m >> k = m >>= λ _. k

abbrev pub fail_if : Bool → Failure → Script Unit
fail_if true f w = (failed f, w)
fail_if false f w = (done tt, w)

-- `await` on a transaction and its `wait()`
unfoldable pub send : Net → Call → Script Unit
send n c w =
    if n.accepts w.txs c then (done tt, record w { txs = c ∷ w.txs }) else (failed tx_reverted, w)

abbrev pub write_registration : List Call → Script Unit
write_registration calls w = (done tt, record w { registration_file = some calls })

-- `registerCustomArbitrumNetwork`
unfoldable pub register_network : Net → Network → Script Unit
register_network n network w =
    if n.registers w.networks network
    then (done tt, record w { networks = network ∷ w.networks })
    else (failed network_refused, w)

abbrev pub write_network : NetworkFile → Script Unit
write_network file w = (done tt, record w { network_file = some file })
