-- ===== src/Upgrades/Monad.antt =====
-- The monad of the upgrade tasks. What was written to a file or sent to the chain before a throw
-- stays, so the world comes back beside every outcome.
use token_bridge_contracts.Base.{
  Bool, true, false, Option, none, some, List, [], ◌∷◌, Text, if◌then◌else◌,
}
use token_bridge_contracts.Contracts.{ContractNames, QueuedUpdates, CurrentDeployments}
use token_bridge_contracts.Upgrades.Chain.{Tx, Receipt, Env}

pub data Error : Type 0 where
  compile_failed : Error
  -- local changes to the file on this line of git's output
  local_changes : Text → Error
  no_current_deployments no_signer : Error
  wrong_layer : ContractNames → Error
  verification_failed signer_not_owner no_updates : Error
  admin_unchanged not_connected_as_owner : Error
  -- a reverted transaction, a view that throws, a property of `undefined`
  tx_reverted call_failed type_error : Error
  -- a name that is not declared, of a `ReferenceError`
  undeclared : Error

-- `exited` is `process.exit(0)`.
pub data Outcome (A : Type 0) : Type 0 where
  ok : A → Outcome A
  thrown : Error → Outcome A
  exited : Outcome A

-- What the user types at a prompt: the field `value` of the result of `prompts`.
pub data Answer : Type 0 where
  answer_bool : Bool → Answer
  answer_text : Text → Answer
  answer_undefined : Answer

-- The three files of the current network (`none`: no such file), the answers that the user is
-- going to give, and the mined transactions, the latest first.
pub record World : Type 0 where
  pub queued_file : Option QueuedUpdates
  pub current_file : Option CurrentDeployments
  pub tmp_file : Option CurrentDeployments
  pub answers : List Answer
  pub txs : List Tx

abbrev pub Action : Type 0 → Type 0
Action A = World → Outcome A × World

module _ {A : Type 0} where
  abbrev pub pure : A → Action A
  pure a w = (ok a, w)

  abbrev pub throw : Error → Action A
  throw e w = (thrown e, w)

  abbrev pub exit : Action A
  exit w = (exited, w)

  abbrev pub gets : (World → A) → Action A
  gets f w = (ok (f w), w)

  -- `none` throws
  abbrev pub or_throw : Option A → Error → Action A
  or_throw none e w = (thrown e, w)
  or_throw (some a) e w = (ok a, w)

  -- `none` throws, of a view of the mined transactions
  unfoldable pub view : (List Tx → Option A) → Action A
  view f w = or_throw (f w.txs) call_failed w

infixl 5 ◌>>=◌ ◌>>◌
unfoldable pub ◌>>=◌ : {A B : Type 0} → Action A → (A → Action B) → Action B
◌>>=◌ m f w =
    let (r, w') = m w in
    elim r [ ok a ↦ f a w' | thrown e ↦ (thrown e, w') | exited ↦ (exited, w') ]

abbrev pub ◌>>◌ : {A B : Type 0} → Action A → Action B → Action B
m >> k = m >>= λ _. k

abbrev pub throw_if : Bool → Error → Action Unit
throw_if true e w = (thrown e, w)
throw_if false e w = (ok tt, w)

abbrev pub modify : (World → World) → Action Unit
modify f w = (ok tt, f w)

-- The next answer; past the last one, `undefined`.
abbrev pub next_answer : List Answer → World → Outcome Answer × World
next_answer [] w = (ok answer_undefined, w)
next_answer (a ∷ rest) w = (ok a, record w { answers = rest })

unfoldable pub ask : Action Answer
ask w = next_answer w.answers w

-- `await` on a transaction and its `wait()`
unfoldable pub send : Env → Tx → Action Receipt
send e tx w =
    if e.accepts w.txs tx
    then (ok (e.receipt w.txs tx), record w { txs = tx ∷ w.txs })
    else (thrown tx_reverted, w)
