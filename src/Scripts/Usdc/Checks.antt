-- ===== src/Scripts/Usdc/Checks.antt =====
-- What the checks after an initialization find out, also where they fail.
use token_bridge_contracts.Base.{
  ◌≡◌, refl, sym, ap, ◌∙◌, Bool, true, false, not, none, some, List, [], ◌∷◌, Text, text_eq,
  text_eq_iff, All, if◌then◌else◌,
}
use token_bridge_contracts.Scripts.Chain.{Net, Field, Call}
use token_bridge_contracts.Scripts.Monad.{World, pure}
use token_bridge_contracts.Scripts.Triples.{After, After-view_or, After-weaken}
use token_bridge_contracts.Scripts.Usdc.{differs}

-- the answer to whether something differs from what is expected
abbrev pub Says : Bool → Type 0 → Type 0
Says false Expected = Expected
Says true Expected = ¬ Expected

module _ (n : Net) (gateway : Text) where
  abbrev pub Reads : List Call → List (Field × Text) → Type 0
  Reads txs = All (λ (f, expected). n.field txs gateway f ≡ some expected)

  -- At every end the answer is right: also a view that throws is one that differs.
  pub differs_lem :
      (fields : List (Field × Text)) (w : World)
      → After
          (λ w'. (w' ≡ w) × (¬ Reads w.txs fields))
          (λ b w'. (w' ≡ w) × Says b (Reads w.txs fields))
          (differs n gateway fields w)
  unfolding differs
  differs_lem [] w = (refl, tt)
  differs_lem ((f, text) ∷ rest) w =
      After-view_or (λ w'. (w' ≡ w) × (¬ Reads w.txs ((f, text) ∷ rest))) _
        (λ txs. n.field txs gateway f) _ w (λ e. (refl, λ h. no_answer (sym e ∙ h.0)))
        λ actual has. go actual has (text_eq actual text) refl (differs_lem rest w)
    where
      no_answer : none ≡ some text → ⊥
      no_answer h = cc

      same : (actual : Text) → some actual ≡ some text → text_eq actual text ≡ true
      same actual h = (text_eq_iff actual text).1 cc

      contra : (actual : Text) → text_eq actual text ≡ false → text_eq actual text ≡ true → ⊥
      contra actual x y = cc

      go :
          (actual : Text)
          → n.field w.txs gateway f ≡ some actual
          → (b : Bool) → text_eq actual text ≡ b
          → After
              (λ w'. (w' ≡ w) × (¬ Reads w.txs rest))
              (λ b w'. (w' ≡ w) × Says b (Reads w.txs rest))
              (differs n gateway rest w)
          → After
              (λ w'. (w' ≡ w) × (¬ Reads w.txs ((f, text) ∷ rest)))
              (λ b w'. (w' ≡ w) × Says b (Reads w.txs ((f, text) ∷ rest)))
              ((if not b then pure true else differs n gateway rest) w)
      go actual has false e ih = (refl, λ h. contra actual e (same actual (sym has ∙ h.0)))
      go actual has true e ih =
          let m = differs n gateway rest w in
          After-weaken (λ w'. (w' ≡ w) × (¬ Reads w.txs rest)) _
            (λ b w'. (w' ≡ w) × Says b (Reads w.txs rest)) _ m.0 m.1
            (λ w' h. (h.0, λ all. h.1 (all.1))) (λ b w' h. (h.0, says b (h.1))) ih
        where
          says : (b : Bool) → Says b (Reads w.txs rest) → Says b (Reads w.txs ((f, text) ∷ rest))
          says false h = (has ∙ ap some ((text_eq_iff actual text).0 e), h)
          says true h = λ all. h (all.1)
