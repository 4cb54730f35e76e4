-- ===== src/Deployment/Run/Rules.antt =====
-- When a check passes, by its form.
use token_bridge_contracts.Base.{
  ◌≡◌, ◌≢◌, ◌↔◌, refl, subst, Bool, true, false, not, Option, none, some, Text, text_eq,
  text_eq_iff, to_lower, if◌then◌else◌,
}
use token_bridge_contracts.Deployment.Views.{
  Chain, View, Failure, Check, passed, failed, ◌>>=◌, ◌>>◌, or_throw, expect, expect_same,
  expect_view, expect_other,
}

abbrev pub Passes : Check Unit → Type 0
Passes m = m ≡ passed tt

-- the same address, whatever the case of its letters
abbrev pub SameAddress : Text → Text → Type 0
SameAddress a b = to_lower a ≡ to_lower b

-- what a view answers
abbrev pub Reads : Chain → (address : Text) → View → (expected : Text) → Type 0
Reads c address v expected =
    (actual : Text) × (c.read address v ≡ some actual) × SameAddress actual expected

abbrev pub ReadsOther : Chain → (address : Text) → View → (excluded : Text) → Type 0
ReadsOther c address v excluded =
    (actual : Text) × (c.read address v ≡ some actual) × (to_lower actual ≢ excluded)

pub expect_iff : (b : Bool) → Passes (expect b) ↔ (b ≡ true)
expect_iff true = (λ h. refl, λ h. refl)
expect_iff false = (λ h. cc, λ h. cc)

module _ {P Q : Type 0} where
  pub then_iff : (m k : Check Unit) → (Passes m ↔ P) → (Passes k ↔ Q) → Passes (m >> k) ↔ (P × Q)
  then_iff (passed u) k p q = (λ h. (p.0 refl, q.0 h), λ h. q.1 (h.1))
  then_iff (failed x) k p q = (λ h. absurd (never h), λ h. absurd (never (p.1 (h.0))))
    where
      never : failed x ≡ passed tt → ⊥
      never h = cc

  pub branch_iff :
      (b : Bool) (m k : Check Unit)
      → (Passes m ↔ P)
      → (Passes k ↔ Q)
      → Passes (if b then m else k) ↔ ((b ≡ true → P) × (b ≡ false → Q))
  branch_iff true m k p q = (λ h. (λ _. p.0 h, λ e. cc), λ h. p.1 (h.0 refl))
  branch_iff false m k p q = (λ h. (λ e. cc, λ _. q.0 h), λ h. q.1 (h.1 refl))

pub when_iff :
    {P : Type 0} (b : Bool) (m : Check Unit)
    → (Passes m ↔ P)
    → Passes (if b then m else passed tt) ↔ (b ≡ true → P)
when_iff true m p = (λ h _. p.0 h, λ h. p.1 (h refl))
when_iff false m p = (λ h e. cc, λ h. refl)

module _ {A : Type 0} (P : A → Type 0) (k : A → Check Unit) (p : (a : A) → Passes (k a) ↔ P a) where
  pub bind_iff : (m : Check A) → Passes (m >>= k) ↔ ((a : A) × (m ≡ passed a) × P a)
  bind_iff (passed a) = (λ h. (a, refl, (p a).0 h), λ (b, e, h). (p a).1 (subst P (same b e) h))
    where
      same : (b : A) → passed a ≡ passed b → b ≡ a
      same b e = cc
  bind_iff (failed x) = (λ h. absurd (never h), λ (b, e, h). absurd (none_passed b e))
    where
      never : failed x ≡ passed tt → ⊥
      never h = cc

      none_passed : (b : A) → failed x ≡ passed b → ⊥
      none_passed b h = cc

  pub or_throw_iff :
      (o : Option A) (x : Failure) → Passes (or_throw o x >>= k) ↔ ((a : A) × (o ≡ some a) × P a)
  or_throw_iff (some a) x = (λ h. (a, refl, (p a).0 h), λ (b, e, h). (p a).1 (subst P (same b e) h))
    where
      same : (b : A) → some a ≡ some b → b ≡ a
      same b e = cc
  or_throw_iff none x = (λ h. absurd (never h), λ (b, e, h). absurd (none_found b e))
    where
      never : failed x ≡ passed tt → ⊥
      never h = cc

      none_found : (b : A) → none ≡ some b → ⊥
      none_found b h = cc

pub ↔_trans : {P Q R : Type 0} → (P ↔ Q) → (Q ↔ R) → P ↔ R
↔_trans p q = (λ h. q.0 (p.0 h), λ h. p.1 (q.1 h))

pub expect_eq_iff : (a b : Text) → Passes (expect (text_eq a b)) ↔ (a ≡ b)
expect_eq_iff a b = ↔_trans (expect_iff (text_eq a b)) (text_eq_iff a b)

pub expect_same_iff : (a b : Text) → Passes (expect_same a b) ↔ SameAddress a b
expect_same_iff a b = expect_eq_iff (to_lower a) (to_lower b)

pub ne_iff : (a b : Text) → (not (text_eq a b) ≡ true) ↔ (a ≢ b)
ne_iff a b = go (text_eq a b) (text_eq_iff a b)
  where
    go : (t : Bool) → ((t ≡ true) ↔ (a ≡ b)) → (not t ≡ true) ↔ (a ≢ b)
    go true e = (λ h. cc, λ h. absurd (h (e.0 refl)))
    go false e = (λ h q. cc (e.1 q), λ h. refl)

pub expect_ne_iff : (a b : Text) → Passes (expect (not (text_eq a b))) ↔ (a ≢ b)
expect_ne_iff a b = ↔_trans (expect_iff (not (text_eq a b))) (ne_iff a b)

pub expect_view_iff :
    (c : Chain) (address : Text) (v : View) (expected : Text)
    → Passes (expect_view c address v expected) ↔ Reads c address v expected
unfolding expect_view
expect_view_iff c address v expected =
    or_throw_iff _ _ (λ actual. expect_same_iff actual expected) (c.read address v) _

pub expect_other_iff :
    (c : Chain) (address : Text) (v : View) (excluded : Text)
    → Passes (expect_other c address v excluded) ↔ ReadsOther c address v excluded
unfolding expect_other
expect_other_iff c address v excluded =
    or_throw_iff _ _ (λ actual. expect_ne_iff (to_lower actual) excluded) (c.read address v) _
