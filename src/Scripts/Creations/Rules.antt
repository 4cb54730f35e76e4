-- ===== src/Scripts/Creations/Rules.antt =====
-- The rules for creations: mined, with the address that the chain gives, or refused.
use token_bridge_contracts.Base.{◌≡◌, refl, Bool, true, false, List, ◌∷◌, Text, if◌then◌else◌}
use token_bridge_contracts.Scripts.Chain.{Call, Net, Factory}
use token_bridge_contracts.Scripts.Monad.{World, Script, done, failed, tx_reverted, send, ◌>>=◌}
use token_bridge_contracts.Scripts.Triples.{After, After-bind, After-send_or}
use token_bridge_contracts.Scripts.Creations.{creation, create_unwaited, deploy}

-- A transaction was refused.
abbrev pub Blocked : Net → World → Type 0
Blocked n w = (c : Call) × (n.accepts w.txs c ≡ false)

-- The node did not take a creation.
abbrev pub Untaken : Net → World → Type 0
Untaken n w = (c : Call) × (n.submits w.txs c ≡ false)

-- the mined transactions with one more, unless it is reverted
abbrev pub with_creation : Net → Call → List Call → List Call
with_creation n c txs = if n.accepts txs c then c ∷ txs else txs

abbrev pub mined : World → Call → World
mined w c = record w { txs = c ∷ w.txs }

module _ {A : Type 0} (n : Net) (E : World → Type 0) (P : A → World → Type 0)
    (blocked : (w : World) → Blocked n w → E w) where
  pub After-mined :
      (c : Call) (k : Unit → Script A) (w : World)
      → After E P (k tt (mined w c))
      → After E P ((send n c >>= k) w)
  After-mined c k w next = After-send_or E P n c k w (λ e. blocked w (c, e)) λ _. next

  pub After-created_last :
      (Q : Text → World → Type 0) (factory : Factory) (args : List Text) (w : World)
      → Q (n.created w.txs (creation factory args)) (mined w (creation factory args))
      → After E Q (deploy n factory args w)
  unfolding deploy
  After-created_last Q factory args w q =
      let c = creation factory args in After-send_or E Q n c _ w (λ e. blocked w (c, e)) λ _. q

  pub After-created :
      (factory : Factory) (args : List Text) (k : Text → Script A) (w : World)
      → After E P (k (n.created w.txs (creation factory args)) (mined w (creation factory args)))
      → After E P ((deploy n factory args >>= k) w)
  unfolding deploy
  After-created factory args k w next =
      let c = creation factory args in
      After-bind E P k (λ a w'. (a ≡ n.created w.txs c) × (w' ≡ mined w c)) (deploy n factory args)
        w (After-send_or E _ n c _ w (λ e. blocked w (c, e)) λ _. (refl, refl))
        λ a w' h. rw (h.0, h.1) next

  pub After-mined_last :
      (Q : Unit → World → Type 0) (c : Call) (w : World) → Q tt (mined w c) → After E Q (send n c w)
  unfolding send
  After-mined_last Q c w q = go (n.accepts w.txs c) refl
    where
      go :
          (b : Bool)
          → n.accepts w.txs c ≡ b
          → After E Q (if b then (done tt, mined w c) else (failed tx_reverted, w))
      go true e = q
      go false e = blocked w (c, e)

module _ {A : Type 0} (n : Net) (E : World → Type 0) (P : A → World → Type 0)
    (untaken : (w : World) → Untaken n w → E w) where
  pub After-unwaited_last :
      (Q : Text → World → Type 0) (factory : Factory) (args : List Text) (w : World)
      → (let c = creation factory args in
          Q (n.created w.txs c) (record w { txs = with_creation n c w.txs }))
      → After E Q (create_unwaited n factory args w)
  unfolding create_unwaited
  After-unwaited_last Q factory args w q = go (n.submits w.txs c) refl
    where
      c : Call
      c = creation factory args

      go :
          (b : Bool)
          → n.submits w.txs c ≡ b
          → After E Q (
              if b
              then (done (n.created w.txs c), record w { txs = with_creation n c w.txs })
              else (failed tx_reverted, w))
      go true e = q
      go false e = untaken w (c, e)

  pub After-unwaited :
      (factory : Factory) (args : List Text) (k : Text → Script A) (w : World)
      → (let c = creation factory args in
          After E P (k (n.created w.txs c) (record w { txs = with_creation n c w.txs })))
      → After E P ((create_unwaited n factory args >>= k) w)
  After-unwaited factory args k w next =
      let c = creation factory args in
      let w1 : World = record w { txs = with_creation n c w.txs } in
      After-bind E P k (λ a w'. (a ≡ n.created w.txs c) × (w' ≡ w1))
        (create_unwaited n factory args) w
        (After-unwaited_last (λ a w'. (a ≡ n.created w.txs c) × (w' ≡ w1)) factory args w
          (refl, refl))
        λ a w' h. rw (h.0, h.1) next
