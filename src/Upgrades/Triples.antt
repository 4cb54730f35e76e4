-- ===== src/Upgrades/Triples.antt =====
-- Total postconditions of actions: one predicate for a result with its world, one for the world
-- that a throw or an exit leaves.
use token_bridge_contracts.Base.{
  ◌≡◌, refl, Bool, true, false, List, ◌∷◌, Option, none, some, if◌then◌else◌,
}
use token_bridge_contracts.Upgrades.Chain.{Tx, Env}
use token_bridge_contracts.Upgrades.Monad.{
  World, Action, Outcome, Error, ok, thrown, exited, throw_if, gets, tx_reverted, call_failed, view,
  or_throw, send, ◌>>=◌, ◌>>◌,
}

abbrev pub After :
    {A : Type 0} → (World → Type 0) → (A → World → Type 0) → Outcome A × World → Type 0
After E P (ok a, w) = P a w
After E P (thrown _, w) = E w
After E P (exited, w) = E w

module _ {A B : Type 0} (E : World → Type 0) (P : B → World → Type 0) (f : A → Action B) where
  After-bind_outcome :
      (Q : A → World → Type 0) (r : Outcome A) (w : World)
      → After E Q (r, w)
      → ((a : A) (w' : World) → Q a w' → After E P (f a w'))
      → After E P (((λ _. (r, w)) >>= f) w)
  unfolding ◌>>=◌
  After-bind_outcome Q (ok a) w h next = next a w h
  After-bind_outcome Q (thrown x) w h next = h
  After-bind_outcome Q exited w h next = h

  pub After-bind :
      (Q : A → World → Type 0) (m : Action A) (w : World)
      → After E Q (m w)
      → ((a : A) (w' : World) → Q a w' → After E P (f a w'))
      → After E P ((m >>= f) w)
  unfolding ◌>>=◌
  After-bind Q m w h next = After-bind_outcome Q (m w).0 (m w).1 h next

-- an action that leaves the world alone
pub After-same :
    {A : Type 0} (E : World → Type 0) (w : World) (r : Outcome A) (w' : World)
    → w' ≡ w
    → E w
    → After E (λ _ w''. w'' ≡ w) (r, w')
After-same E w (ok a) w' same h = same
After-same E w (thrown x) w' same h = rw same h
After-same E w exited w' same h = rw same h

-- a weaker postcondition
pub After-weaken :
    {A : Type 0} (E : World → Type 0) (P Q : A → World → Type 0) (r : Outcome A) (w : World)
    → ((a : A) → P a w → Q a w)
    → After E P (r, w)
    → After E Q (r, w)
After-weaken E P Q (ok a) w k h = k a h
After-weaken E P Q (thrown x) w k h = h
After-weaken E P Q exited w k h = h

-- a weaker condition after a throw or an exit
pub After-weaken_left :
    {A : Type 0} (E F : World → Type 0) (P : A → World → Type 0) (r : Outcome A) (w : World)
    → (E w → F w)
    → After E P (r, w)
    → After F P (r, w)
After-weaken_left E F P (ok a) w k h = h
After-weaken_left E F P (thrown x) w k h = k h
After-weaken_left E F P exited w k h = k h

-- one condition for every outcome
pub After-all :
    {A : Type 0} (E : World → Type 0) (r : Outcome A) (w : World) → After E (λ _. E) (r, w) → E w
After-all E (ok a) w h = h
After-all E (thrown x) w h = h
After-all E exited w h = h

pub After-if :
    {A : Type 0} (E : World → Type 0) (P : A → World → Type 0) (b : Bool) (x y : Outcome A × World)
    → After E P x
    → After E P y
    → After E P (if b then x else y)
After-if E P true x y h k = h
After-if E P false x y h k = k

-- A transaction that is mined is recorded, and a reverted one leaves the world alone.
pub After-send :
    (E : World → Type 0) (e : Env) (tx : Tx) (w : World)
    → E w
    → After E (λ _ w'. w' ≡ record w { txs = tx ∷ w.txs }) (send e tx w)
unfolding send
After-send E e tx w h =
    After-if E (λ _ w'. w' ≡ record w { txs = tx ∷ w.txs }) (e.accepts w.txs tx)
      (ok (e.receipt w.txs tx), record w { txs = tx ∷ w.txs }) (thrown tx_reverted, w) refl h

-- two postconditions at once
pub After-both :
    {A : Type 0} (E F : World → Type 0) (P Q : A → World → Type 0) (r : Outcome A) (w : World)
    → After E P (r, w)
    → After F Q (r, w)
    → After E (λ a w'. P a w' × Q a w') (r, w)
After-both E F P Q (ok a) w h k = (h, k)
After-both E F P Q (thrown x) w h k = h
After-both E F P Q exited w h k = h

abbrev pub Any : World → Type 0
Any w = Unit

pub After-Any :
    {A : Type 0} (P : A → World → Type 0) (r : Outcome A) (w : World)
    → ((a : A) → P a w)
    → After Any P (r, w)
After-Any P (ok a) w h = h a
After-Any P (thrown x) w h = tt
After-Any P exited w h = tt

-- A view that throws ends the action, and one that returns hands its value on.
abbrev pub view_then : {A B : Type 0} → Option A → (A → Action B) → Action B
view_then none f w = (thrown call_failed, w)
view_then (some a) f w = f a w

or_throw-bind :
    {A B : Type 0} (f : A → Action B) (w : World) (o : Option A)
    → (or_throw o call_failed >>= f) w ≡ view_then o f w
unfolding ◌>>=◌
or_throw-bind f w none = refl
or_throw-bind f w (some a) = refl

pub view-bind :
    {A B : Type 0} (v : List Tx → Option A) (f : A → Action B) (w : World)
    → (view v >>= f) w ≡ view_then (v w.txs) f w
unfolding view ◌>>=◌
view-bind v f w = or_throw-bind f w (v w.txs)

-- A guard ends the action, or what follows runs in the same world with the test failed.
module _ {A : Type 0} (E : World → Type 0) (P : A → World → Type 0) where
  pub After-throw_if :
      (b : Bool) (x : Error) (m : Action A) (w : World)
      → E w
      → (b ≡ false → After E P (m w))
      → After E P ((throw_if b x >> m) w)
  unfolding ◌>>=◌
  After-throw_if true x m w h next = h
  After-throw_if false x m w h next = next refl

  pub After-gets :
      {B : Type 0} (f : World → B) (k : B → Action A) (w : World)
      → After E P (k (f w) w)
      → After E P ((gets f >>= k) w)
  unfolding ◌>>=◌
  After-gets f k w h = h

  pub After-view :
      {B : Type 0} (v : List Tx → Option B) (k : B → Action A) (w : World)
      → E w
      → ((b : B) → v w.txs ≡ some b → After E P (k b w))
      → After E P ((view v >>= k) w)
  After-view {B} v k w h next = rw view-bind (go (v w.txs) next)
    where
      go : (o : Option B) → ((b : B) → o ≡ some b → After E P (k b w)) → After E P (view_then o k w)
      go none next = h
      go (some b) next = next b refl
