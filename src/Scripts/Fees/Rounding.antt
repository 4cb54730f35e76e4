-- ===== src/Scripts/Fees/Rounding.antt =====
-- What the two fee conversions compute: the least amount of the token that is worth the fee.
use native.Mathlib.Nat.{
  lt-div-mul-add, div-mul-le_self, mul-le-mul_right, le_of_mul-le-mul_right, one-le-pow, pow-zero,
}
use native.Mathlib.Omega.{pow_step}
use token_bridge_contracts.Base.{
  ℕ, zero, suc, ◌+◌, ◌-◌, ◌*◌, ◌/◌, ◌^◌, ◌≤◌, ◌<◌, ◌≡◌, ◌↔◌, refl, ◌==◌, ltb, if◌then◌else◌, arith,
  ap, ◌∙◌, Bool-cases, ==_iff, ltb→lt, Bool, true, false, ◌⊎◌, inl, inr,
}
use token_bridge_contracts.Scripts.Fees.{round_up, get_scaled_amount, get_prescaled_amount}

-- Both scripts convert a fee the same way.
pub get_scaled_amount-eq-prescaled :
    (decimals amount : ℕ) → get_scaled_amount decimals amount ≡ get_prescaled_amount decimals amount
unfolding get_scaled_amount get_prescaled_amount
get_scaled_amount-eq-prescaled decimals amount = ground arith

module _ (a f q : ℕ) (lower : q * f ≤ a) (upper : a < q * f + f) where
  quotient_up : (s : ℕ) → q * f < a → (q + 1 ≤ s) ↔ (a ≤ s * f)
  quotient_up s less = (
    λ h. let bound = mul-le-mul_right f h in omega arith,
    λ h. elim (below_or s q) [
      | inl more ↦ more
      | inr under ↦ let bound = mul-le-mul_right f under in omega arith
    ],
  )
    where
      below_or : (s q : ℕ) → (q + 1 ≤ s) ⊎ (s ≤ q)
      below_or s q = ground arith

  quotient_same : (s : ℕ) → 0 < f → a ≤ q * f → (q ≤ s) ↔ (a ≤ s * f)
  quotient_same s pos exact = (
    λ h. let bound = mul-le-mul_right f h in omega arith,
    λ h. le_of_mul-le-mul_right {n = s} {k = f} (omega arith) pos,
  )

  rounded_iff :
      (b : Bool) (s : ℕ) → ltb (q * f) a ≡ b → 0 < f → ((if b then q + 1 else q) ≤ s) ↔ (a ≤ s * f)
  rounded_iff true s is_less pos = quotient_up s (ground arith)
  rounded_iff false s is_less pos = quotient_same s pos (ground arith)

round_up_iff : (a f s : ℕ) → 0 < f → (round_up a f ≤ s) ↔ (a ≤ s * f)
round_up_iff a f s pos =
    rounded_iff a f (a / f) (div-mul-le_self a f) (lt-div-mul-add pos) _ s refl pos

pow_add : (c m n : ℕ) → c ^ (m + n) ≡ c ^ m * c ^ n
pow_add c zero n = let sum : zero + n ≡ n = omega arith in rw (sum, pow-zero) omega arith
pow_add c (suc m) n =
    let ih = pow_add c m n in
    let left = pow_step c (m + n) in
    let right = pow_step c m in
    let sum : suc m + n ≡ suc (m + n) = omega arith in rw (sum, left, right, ih) omega arith

-- A factor of both sides cancels.
scale_iff : (a s p q r : ℕ) → r ≡ p * q → 0 < q → (a ≤ s * p) ↔ (a * q ≤ s * r)
scale_iff a s p q r split pos = (
  λ h. let bound = mul-le-mul_right q h in rw split omega arith,
  λ h. let product = rw split at h in le_of_mul-le-mul_right {n = s * p} {k = q} (omega arith) pos,
)

scale_below : (d : ℕ) → d < 18 → 10 ^ 18 ≡ 10 ^ (18 - d) * 10 ^ d
scale_below d low =
    let sum : 18 ≡ 18 - d + d = omega arith in ap (λ n. 10 ^ n) sum ∙ pow_add 10 (18 - d) d

scale_above : (d : ℕ) → 18 ≤ d → 10 ^ d ≡ 10 ^ (d - 18) * 10 ^ 18
scale_above d high =
    let sum : d ≡ d - 18 + 18 = omega arith in ap (λ n. 10 ^ n) sum ∙ pow_add 10 (d - 18) 18

above_iff : (a s p q r : ℕ) → r ≡ p * q → 0 < q → (a * p ≤ s) ↔ (a * r ≤ s * q)
above_iff a s p q r split pos = (
  λ h. let bound = mul-le-mul_right q h in rw split omega arith,
  λ h. let product = rw split at h in le_of_mul-le-mul_right {n = s} {k = q} (omega arith) pos,
)

module _ (d a s : ℕ) where
  least_same : d == 18 ≡ true → (get_scaled_amount d a ≤ s) ↔ (a * 10 ^ d ≤ s * 10 ^ 18)
  unfolding get_scaled_amount
  least_same same =
      let eighteen = (==_iff d 18).0 same in rw eighteen (λ h. omega arith, λ h. omega arith)

  least_low :
      d == 18 ≡ false → ltb d 18 ≡ true → (get_scaled_amount d a ≤ s) ↔ (a * 10 ^ d ≤ s * 10 ^ 18)
  unfolding get_scaled_amount
  least_low other low =
      let rounded = round_up_iff a (10 ^ (18 - d)) s (one-le-pow (18 - d) 10 (omega arith)) in
      let scaled =
        scale_iff a s (10 ^ (18 - d)) (10 ^ d) (10 ^ 18) (scale_below d (ltb→lt d 18 low))
          (one-le-pow d 10 (omega arith)) in
      rw (other, low) (λ h. scaled.0 (rounded.0 h), λ h. rounded.1 (scaled.1 h))

  least_high :
      d == 18 ≡ false → ltb d 18 ≡ false → (get_scaled_amount d a ≤ s) ↔ (a * 10 ^ d ≤ s * 10 ^ 18)
  unfolding get_scaled_amount
  least_high other high =
      let more : 18 ≤ d = ground arith in
      let scaled =
        above_iff a s (10 ^ (d - 18)) (10 ^ 18) (10 ^ d) (scale_above d more)
          (one-le-pow 18 10 (omega arith)) in
      rw (other, high) scaled

-- The converted fee is the least amount of the token that is worth the fee: an amount of the token
-- reaches it if and only if it pays the fee, both counted in units of 10 ^ -(18 + decimals).
pub get_scaled_amount-least :
    (decimals amount paid : ℕ)
    → (get_scaled_amount decimals amount ≤ paid) ↔ (amount * 10 ^ decimals ≤ paid * 10 ^ 18)
get_scaled_amount-least d a s = elim (Bool-cases (d == 18)) [
  | inl same ↦ least_same d a s same
  | inr other ↦ elim (Bool-cases (ltb d 18)) [
    | inl low ↦ least_low d a s other low
    | inr high ↦ least_high d a s other high
  ]
]

below_or : (m n : ℕ) → (m ≤ n) ⊎ (n < m)
below_or m n = ground arith

-- The least amount that pays overpays by less than a unit.
least_tight : (x e m : ℕ) → 0 < e → ((s : ℕ) → x ≤ s * e → m ≤ s) → m * e < x + e
least_tight x e zero pos least = omega arith
least_tight x e (suc k) pos least = elim (below_or x (k * e)) [
  | inl paid ↦ let too_low = least k paid in omega arith
  | inr short ↦ omega arith
]

-- `createTokenBridge` of scripts/atomicTokenBridgeDeployer.ts converts the fees of its two
-- retryable tickets one by one: what it approves covers the sum, and exceeds it by one unit at
-- most.
pub get_scaled_amount-sum :
    (decimals first second : ℕ)
    → (get_scaled_amount decimals (first + second)
        ≤ get_scaled_amount decimals first + get_scaled_amount decimals second)
      × (get_scaled_amount decimals first + get_scaled_amount decimals second
          ≤ get_scaled_amount decimals (first + second) + 1)
get_scaled_amount-sum d a b =
    let first = (get_scaled_amount-least d a (get_scaled_amount d a)).0 (omega arith) in
    let second = (get_scaled_amount-least d b (get_scaled_amount d b)).0 (omega arith) in
    let both = (get_scaled_amount-least d (a + b) (get_scaled_amount d (a + b))).0 (omega arith) in
    let tight_first =
      least_tight (a * 10 ^ d) (10 ^ 18) _ (omega arith) (λ s. (get_scaled_amount-least d a s).1) in
    let tight_second =
      least_tight (b * 10 ^ d) (10 ^ 18) _ (omega arith) (λ s. (get_scaled_amount-least d b s).1) in
    (
      (get_scaled_amount-least d (a + b) (get_scaled_amount d a + get_scaled_amount d b)).1
          (omega arith),
      omega arith,
    )
