-- ===== src/Scripts/Creations.antt =====
-- The creation of contracts by the scripts: `new X__factory(signer).deploy(...)`, with the wait for
-- it by `deployed()` or without, the initialization that follows, and what such steps leave on the
-- chain.
pub mod Rules
pub mod Traces
use token_bridge_contracts.Base.{List, [], ◌∷◌, codes, Text, if◌then◌else◌}
use token_bridge_contracts.Scripts.Chain.{
  Call, Net, Factory, create, initialize, transparent_proxy_factory,
}
use token_bridge_contracts.Scripts.Monad.{
  Script, done, failed, tx_reverted, pure, gets, send, ◌>>=◌, ◌>>◌,
}

abbrev pub creation : Factory → List Text → Call
creation factory args = record { to = []; value = 0; calldata = create factory args }

abbrev pub initialization : Text → List Text → Call
initialization address args = record { to = address; value = 0; calldata = initialize args }

module _ (n : Net) where
  unfoldable pub deploy : Factory → List Text → Script Text
  unfolding send
  deploy factory args w =
      (send n (creation factory args) >>= λ _. gets (λ _. n.created w.txs (creation factory args)))
        w

  -- Without the wait for it: the contract's address is known once the node has the transaction. If
  -- the transaction is reverted, nothing is created and nothing is thrown.
  unfoldable pub create_unwaited : Factory → List Text → Script Text
  create_unwaited factory args w =
      let c = creation factory args in
      if n.submits w.txs c
      then (
        done (n.created w.txs c),
        record w { txs = if n.accepts w.txs c then c ∷ w.txs else w.txs },
      )
      else (failed tx_reverted, w)

  -- a logic contract, and its initialization with dummy data
  unfoldable pub deploy_template : Factory → List Text → Script Text
  unfolding deploy send
  deploy_template factory dummies = do
    address ← deploy factory []
    send n (initialization address dummies)
    pure address

  -- a `TransparentUpgradeableProxy` of a logic contract, without a call
  unfoldable pub deploy_proxy : (logic admin : Text) → Script Text
  unfolding deploy
  deploy_proxy logic admin = deploy transparent_proxy_factory (logic ∷ admin ∷ codes "0x" ∷ [])
