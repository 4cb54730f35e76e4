-- ===== src/Scripts/Usdc/Token/Read.antt =====
-- What the checks of a token's initialization read.
use token_bridge_contracts.Base.{
  ℕ, ◌≡◌, refl, sym, ap, ◌∙◌, Bool, true, false, not, none, some, List, [], ◌∷◌, Text, ◌==◌, ==_iff,
  if◌then◌else◌,
}
use token_bridge_contracts.Scripts.Chain.{
  Call, Net, name_field, symbol_field, currency_field, master_minter_field, pauser_field,
  blacklister_field, owner_field,
}
use token_bridge_contracts.Scripts.Monad.{
  World, Script, Result, Failure, pure, view, fail_if, ◌>>=◌,
}
use token_bridge_contracts.Scripts.Triples.{After, After-bind, After-view_or, After-weaken}
use token_bridge_contracts.Scripts.Usdc.{differs}
use token_bridge_contracts.Scripts.Usdc.Checks.{Says, Reads, differs_lem}
use token_bridge_contracts.Scripts.Usdc.Token.{
  TokenInit, text_fields, role_fields, token_differs, verify_fiat_token,
}

differ : {b : Bool} → b ≡ false → b ≡ true → ⊥
differ x y = cc

module _ (n : Net) where
  -- all views of the token return what it was initialized with
  abbrev pub ReadsInit : List Call → Text → TokenInit → Type 0
  ReadsInit txs token i =
      Reads n token txs
        ((name_field, i.name) ∷ (symbol_field, i.symbol) ∷ (currency_field, i.currency) ∷ [])
      × (n.decimals txs token ≡ some i.decimals)
      × Reads n token txs (
          (master_minter_field, i.master_minter)
          ∷ (pauser_field, i.pauser)
          ∷ (blacklister_field, i.blacklister)
          ∷ (owner_field, i.owner)
          ∷ [])

  some_number : (d e : ℕ) → some d ≡ some e → (d == e) ≡ true
  some_number d e h = (==_iff d e).1 cc

  module _ (token : Text) (i : TokenInit) (w : World) where
    abbrev Unread : World → Type 0
    Unread w' = (w' ≡ w) × (¬ ReadsInit w.txs token i)

    abbrev Answered : Bool → World → Type 0
    Answered b w' = (w' ≡ w) × Says b (ReadsInit w.txs token i)

    After-roles :
        Reads n token w.txs (text_fields i)
        → (d : ℕ) → n.decimals w.txs token ≡ some d
        → (b : Bool) → (d == i.decimals) ≡ b
        → After Unread Answered ((if not b then pure true else differs n token (role_fields i)) w)
    After-roles texts d has false e =
        (refl, λ h. differ e (some_number d i.decimals (sym has ∙ h.1)))
    After-roles texts d has true e =
        let m = differs n token (role_fields i) w in
        After-weaken (λ w'. (w' ≡ w) × (¬ Reads n token w.txs (role_fields i))) Unread
          (λ b w'. (w' ≡ w) × Says b (Reads n token w.txs (role_fields i))) Answered m.0 m.1
          (λ w' h. (h.0, λ all. h.1 (all.2))) (λ b w' h. (h.0, says b (h.1)))
          (differs_lem n token (role_fields i) w)
      where
        says :
            (b : Bool)
            → Says b (Reads n token w.txs (role_fields i))
            → Says b (ReadsInit w.txs token i)
        says false h = (texts, has ∙ ap some ((==_iff d i.decimals).0 e), h)
        says true h = λ all. h (all.2)

    token_differs_lem : After Unread Answered (token_differs n token i w)
    unfolding token_differs
    token_differs_lem =
        After-bind Unread Answered _
          (λ b w'. (w' ≡ w) × Says b (Reads n token w.txs (text_fields i)))
          (differs n token (text_fields i)) w (After-texts) go
      where
        no_number : none ≡ some i.decimals → ⊥
        no_number h = cc

        m : Result Bool × World
        m = differs n token (text_fields i) w

        After-texts :
            After Unread
              (λ b w'. (w' ≡ w) × Says b (Reads n token w.txs (text_fields i)))
              (differs n token (text_fields i) w)
        After-texts =
            After-weaken (λ w'. (w' ≡ w) × (¬ Reads n token w.txs (text_fields i))) Unread
              (λ b w'. (w' ≡ w) × Says b (Reads n token w.txs (text_fields i))) _ m.0 m.1
              (λ w' h. (h.0, λ all. h.1 (all.0))) (λ b w' h. h)
              (differs_lem n token (text_fields i) w)

        go :
            (b : Bool) (w' : World)
            → (w' ≡ w) × Says b (Reads n token w.txs (text_fields i))
            → After Unread Answered (
                (if b then pure true else (do
                  decimals ← view (λ txs. n.decimals txs token)
                  if not (decimals == i.decimals)
                      then pure true
                      else differs n token (role_fields i)))
                  w')
        go true w' h = (h.0, λ all. h.1 (all.0))
        go false w' h = rw (h.0) (
            After-view_or Unread Answered (λ txs. n.decimals txs token) _ w
              (λ e. (refl, λ all. no_number (sym e ∙ all.1)))
              λ d has. After-roles (h.1) d has (d == i.decimals) refl)

  module _ {A : Type 0} (E : World → Type 0) (P : A → World → Type 0) where
    pub After-verified :
        (token : Text) (i : TokenInit) (failure : Failure) (k : Unit → Script A) (w : World)
        → ((¬ ReadsInit w.txs token i) → E w)
        → (ReadsInit w.txs token i → After E P (k tt w))
        → After E P ((verify_fiat_token n token i failure >>= k) w)
    unfolding verify_fiat_token
    After-verified token i failure k w h next =
        After-bind E P k (λ _ w'. (w' ≡ w) × ReadsInit w.txs token i)
          (verify_fiat_token n token i failure) w checked λ _ w' r. rw (r.0) (next (r.1))
      where
        m : Result Bool × World
        m = token_differs n token i w

        E' : World → Type 0
        E' w' = (w' ≡ w) × E w

        stopped :
            (b : Bool) (w' : World)
            → (w' ≡ w) × Says b (ReadsInit w.txs token i)
            → After E (λ _ w'. (w' ≡ w) × ReadsInit w.txs token i) (fail_if b failure w')
        stopped true w' s = rw (s.0) (h (s.1))
        stopped false w' s = s

        checked :
            After E
              (λ _ w'. (w' ≡ w) × ReadsInit w.txs token i)
              (verify_fiat_token n token i failure w)
        checked =
            After-bind E (λ _ w'. (w' ≡ w) × ReadsInit w.txs token i) (λ b. fail_if b failure)
              (λ b w'. (w' ≡ w) × Says b (ReadsInit w.txs token i)) (token_differs n token i) w
              (After-weaken (Unread token i w) E (Answered token i w) _ m.0 m.1
                (λ w' u. rw (u.0) (h (u.1))) (λ b w' s. s) (token_differs_lem token i w))
              stopped
