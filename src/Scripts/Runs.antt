-- ===== src/Scripts/Runs.antt =====
-- Runs of scripts that go through: the result of each step, and of what follows it.
use token_bridge_contracts.Base.{
  ◌≡◌, refl, sym, ap, ◌∙◌, subst, Bool, true, Option, some, List, ◌∷◌, if◌then◌else◌,
}
use token_bridge_contracts.Scripts.Chain.{Call, Net}
use token_bridge_contracts.Scripts.Monad.{
  World, Script, Result, Failure, done, failed, tx_reverted, call_failed, view, or_fail, send,
  ◌>>=◌,
}

bind_of :
    {A B : Type 0} (k : A → Script B) (a : A) (w w' : World) (x : Result A × World)
    → x ≡ (done a, w')
    → ((λ _. x) >>= k) w ≡ k a w'
unfolding ◌>>=◌
bind_of k a w w' x e = subst (λ y. ((λ _. y) >>= k) w ≡ k a w') (sym e) refl

module _ {A B : Type 0} where
  pub run-bind :
      (m : Script A) (k : A → Script B) (a : A) (w w' : World) {r : Result B × World}
      → m w ≡ (done a, w')
      → k a w' ≡ r
      → (m >>= k) w ≡ r
  unfolding ◌>>=◌
  run-bind m k a w w' step next = bind_of k a w w' (m w) step ∙ next

  pub run-failed :
      (m : Script A) (k : A → Script B) (x : Failure) (w w' : World)
      → m w ≡ (failed x, w')
      → (m >>= k) w ≡ (failed x, w')
  unfolding ◌>>=◌
  run-failed m k x w w' step =
      subst (λ (y : Result A × World). ((λ _. y) >>= k) w ≡ (failed x, w')) (sym step) refl

  pub run-view :
      (v : List Call → Option A) (k : A → Script B) (a : A) (w : World) {r : Result B × World}
      → v w.txs ≡ some a
      → k a w ≡ r
      → (view v >>= k) w ≡ r
  unfolding view
  run-view v k a w has next = run-bind (view v) k a w w (ap (λ o. or_fail o call_failed w) has) next

  pub run-or_fail :
      (o : Option A) (x : Failure) (k : A → Script B) (a : A) (w : World) {r : Result B × World}
      → o ≡ some a
      → k a w ≡ r
      → (or_fail o x >>= k) w ≡ r
  run-or_fail o x k a w has next = run-bind (or_fail o x) k a w w (ap (λ o. or_fail o x w) has) next

pub run-send :
    {B : Type 0} (n : Net) (c : Call) (k : Unit → Script B) (w : World) {r : Result B × World}
    → n.accepts w.txs c ≡ true
    → k tt (record w { txs = c ∷ w.txs }) ≡ r
    → (send n c >>= k) w ≡ r
unfolding send
run-send n c k w accepted next =
    let w' : World = record w { txs = c ∷ w.txs } in
    let sent = λ (b : Bool). if b then (done tt, w') else (failed tx_reverted, w) in
    run-bind (send n c) k tt w w' (ap sent accepted) next
