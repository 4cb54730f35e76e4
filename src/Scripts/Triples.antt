-- ===== src/Scripts/Triples.antt =====
-- Total postconditions of scripts: one predicate for a result with its world, one for the world
-- that a throw or an exit leaves.
use token_bridge_contracts.Base.{
  ◌≡◌, refl, Bool, true, false, Option, none, some, List, ◌∷◌, if◌then◌else◌,
}
use token_bridge_contracts.Scripts.Chain.{Call, Net}
use token_bridge_contracts.Scripts.Monad.{
  World, Script, Result, Failure, done, failed, stopped, view, gets, or_fail, fail_if, send,
  tx_reverted, call_failed, ◌>>=◌, ◌>>◌,
}

abbrev pub After :
    {A : Type 0} → (World → Type 0) → (A → World → Type 0) → Result A × World → Type 0
After E P (done a, w) = P a w
After E P (failed _, w) = E w
After E P (stopped, w) = E w

module _ {A B : Type 0} (E : World → Type 0) (P : B → World → Type 0) (f : A → Script B) where
  After-bind_result :
      (Q : A → World → Type 0) (r : Result A) (w : World)
      → After E Q (r, w)
      → ((a : A) (w' : World) → Q a w' → After E P (f a w'))
      → After E P (((λ _. (r, w)) >>= f) w)
  unfolding ◌>>=◌
  After-bind_result Q (done a) w h next = next a w h
  After-bind_result Q (failed x) w h next = h
  After-bind_result Q stopped w h next = h

  pub After-bind :
      (Q : A → World → Type 0) (m : Script A) (w : World)
      → After E Q (m w)
      → ((a : A) (w' : World) → Q a w' → After E P (f a w'))
      → After E P ((m >>= f) w)
  unfolding ◌>>=◌
  After-bind Q m w h next = After-bind_result Q (m w).0 (m w).1 h next

module _ {A : Type 0} (E : World → Type 0) (P : A → World → Type 0) where
  -- A transaction is mined and recorded, or reverts and leaves the world alone.
  pub After-send_or :
      (n : Net) (c : Call) (k : Unit → Script A) (w : World)
      → (n.accepts w.txs c ≡ false → E w)
      → (n.accepts w.txs c ≡ true → After E P (k tt (record w { txs = c ∷ w.txs })))
      → After E P ((send n c >>= k) w)
  unfolding send ◌>>=◌
  After-send_or n c k w h next = go (n.accepts w.txs c) h next
    where
      go :
          (b : Bool)
          → (b ≡ false → E w)
          → (b ≡ true → After E P (k tt (record w { txs = c ∷ w.txs })))
          → After E P (
              ((λ _. if b then (done tt, record w { txs = c ∷ w.txs }) else (failed tx_reverted, w))
                  >>= k)
                w)
      go true h next = next refl
      go false h next = h refl

  pub After-send :
      (n : Net) (c : Call) (k : Unit → Script A) (w : World)
      → E w
      → (n.accepts w.txs c ≡ true → After E P (k tt (record w { txs = c ∷ w.txs })))
      → After E P ((send n c >>= k) w)
  After-send n c k w h = After-send_or n c k w (λ _. h)

  pub After-send_if :
      (b : Bool) (before : World) (a : A) (w' : World)
      → E before
      → (b ≡ true → P a w')
      → After E P (if b then (done a, w') else (failed tx_reverted, before))
  After-send_if true before a w' h next = next refl
  After-send_if false before a w' h next = h

  pub After-fail_if :
      (b : Bool) (x : Failure) (m : Script A) (w : World)
      → E w
      → (b ≡ false → After E P (m w))
      → After E P ((fail_if b x >> m) w)
  unfolding ◌>>=◌
  After-fail_if true x m w h next = h
  After-fail_if false x m w h next = next refl

  pub After-view_or :
      {B : Type 0} (v : List Call → Option B) (k : B → Script A) (w : World)
      → (v w.txs ≡ none → E w)
      → ((b : B) → v w.txs ≡ some b → After E P (k b w))
      → After E P ((view v >>= k) w)
  unfolding view ◌>>=◌
  After-view_or {B} v k w h next = go (v w.txs) h next
    where
      go :
          (o : Option B)
          → (o ≡ none → E w)
          → ((b : B) → o ≡ some b → After E P (k b w))
          → After E P ((or_fail o call_failed >>= k) w)
      go none h next = h refl
      go (some b) h next = next b refl

  pub After-view :
      {B : Type 0} (v : List Call → Option B) (k : B → Script A) (w : World)
      → E w
      → ((b : B) → v w.txs ≡ some b → After E P (k b w))
      → After E P ((view v >>= k) w)
  After-view v k w h = After-view_or v k w (λ _. h)

  pub After-gets :
      {B : Type 0} (f : List Call → B) (k : B → Script A) (w : World)
      → After E P (k (f w.txs) w)
      → After E P ((gets f >>= k) w)
  unfolding ◌>>=◌
  After-gets f k w h = h

  pub After-or_fail :
      {B : Type 0} (o : Option B) (x : Failure) (k : B → Script A) (w : World)
      → E w
      → ((b : B) → o ≡ some b → After E P (k b w))
      → After E P ((or_fail o x >>= k) w)
  unfolding ◌>>=◌
  After-or_fail none x k w h next = h
  After-or_fail (some b) x k w h next = next b refl

-- The result of an action that leaves the world alone is what it computes there.
pub After-remember :
    {A : Type 0} (w : World) (m : Script A)
    → After (λ w'. w' ≡ w) (λ _ w'. w' ≡ w) (m w)
    → After (λ w'. w' ≡ w) (λ a w'. (w' ≡ w) × ((m w).0 ≡ done a)) (m w)
After-remember {A} w m h = go (m w).0 (m w).1 refl h
  where
    go :
        (r : Result A) (w' : World)
        → (m w).0 ≡ r
        → After (λ w'. w' ≡ w) (λ _ w'. w' ≡ w) (r, w')
        → After (λ w'. w' ≡ w) (λ a w'. (w' ≡ w) × ((m w).0 ≡ done a)) (r, w')
    go (done a) w' e h = (h, e)
    go (failed x) w' e h = h
    go stopped w' e h = h

pub After-weaken :
    {A : Type 0} (E F : World → Type 0) (P Q : A → World → Type 0) (r : Result A) (w : World)
    → ((w' : World) → E w' → F w')
    → ((a : A) (w' : World) → P a w' → Q a w')
    → After E P (r, w)
    → After F Q (r, w)
After-weaken E F P Q (done a) w e p h = p a w h
After-weaken E F P Q (failed x) w e p h = e w h
After-weaken E F P Q stopped w e p h = e w h

-- Two postconditions of one action.
pub After-both :
    {A : Type 0} (E : World → Type 0) (P Q : A → World → Type 0) (m : Result A × World)
    → After E P m
    → After E Q m
    → After E (λ a w'. P a w' × Q a w') m
After-both E P Q (done a, w) p q = (p, q)
After-both E P Q (failed x, w) p q = p
After-both E P Q (stopped, w) p q = p

-- What cannot fail returns.
pub After-returns :
    {A : Type 0} (E : World → Type 0) (P : A → World → Type 0) (m : Result A × World)
    → After E P m
    → ((w' : World) → E w' → ⊥)
    → (a : A) × (w' : World) × (m ≡ (done a, w')) × P a w'
After-returns E P (done a, w') h never = (a, w', refl, h)
After-returns E P (failed x, w') h never = elim (never w' h) [ ]
After-returns E P (stopped, w') h never = elim (never w' h) [ ]
