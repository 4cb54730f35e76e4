-- ===== src/Deployment/Alias/Roundtrip.antt =====
-- The alias of the test helper is that of the contracts.
use token_bridge_contracts.Base.{
  ℕ, zero, suc, ◌+◌, ◌-◌, ◌*◌, ◌/◌, ◌%◌, ◌^◌, ◌≤◌, ◌<◌, ◌≡◌, refl, ap, ◌∙◌, ◌==◌, false, some, [],
  ◌∷◌, ◌++◌, codes, Text, length, starts_with, arith, Bool-cases, inl, inr,
}
use token_bridge_contracts.Scripts.CreationCode.{hex_digit}
use token_bridge_contracts.Deployment.Alias.{
  offset, apply_l1_to_l2_alias, undo_l1_to_l2_alias, digit_value, next_digit, read_digits, big_int,
  digits_onto, zeros, pad_start, apply_alias,
}

-- the numbers of so many digits
pow16 : ℕ → ℕ
pow16 zero = 1
pow16 (suc k) = 16 * pow16 k

pow16_bits : pow16 40 ≡ 2 ^ 160
unfolding pow16
pow16_bits = refl

digit_value-hex_digit : (d : ℕ) → d < 16 → digit_value (hex_digit d) ≡ some d
digit_value-hex_digit d h = ground arith

read_digits-cons :
    (d n : ℕ) (t : Text)
    → d < 16
    → read_digits (hex_digit d ∷ t) (some n) ≡ read_digits t (some (n * 16 + d))
unfolding read_digits
read_digits-cons d n t h = ap (λ v. read_digits t (next_digit n v)) (digit_value-hex_digit d h)

read_digits-zeros :
    (k : ℕ) (t : Text) → read_digits (zeros k ++ t) (some 0) ≡ read_digits t (some 0)
unfolding zeros read_digits
read_digits-zeros zero t = refl
read_digits-zeros (suc k) t = read_digits-zeros k t

fuel_pos : (fuel n : ℕ) → n < 16 * pow16 fuel → n / 16 == 0 ≡ false → 0 < fuel
unfolding pow16
fuel_pos zero n h e = ground arith
fuel_pos (suc fuel) n h e = omega arith

read_digits-digits_onto :
    (fuel n : ℕ) (t : Text)
    → n < pow16 fuel
    → 0 < fuel
    → read_digits (digits_onto fuel n t) (some 0) ≡ read_digits t (some n)
unfolding digits_onto pow16
read_digits-digits_onto zero n t h pos = absurd (omega arith)
read_digits-digits_onto (suc fuel) n t h pos = elim (Bool-cases (n / 16 == 0)) [
  | inl e ↦ rw e (
      read_digits-cons (n % 16) 0 t (omega arith) ∙ ap (λ v. read_digits t (some v)) (ground arith))
  | inr e ↦ rw e (
      read_digits-digits_onto fuel (n / 16) (hex_digit (n % 16) ∷ t) (omega arith)
        (fuel_pos fuel n h e)
      ∙ read_digits-cons (n % 16) (n / 16) t (omega arith)
      ∙ ap (λ v. read_digits t (some v)) (omega arith))
]

length-digits_onto : (fuel n : ℕ) (t : Text) → length (digits_onto fuel n t) ≤ fuel + length t
unfolding digits_onto
length-digits_onto zero n t = omega arith
length-digits_onto (suc fuel) n t = elim (Bool-cases (n / 16 == 0)) [
  | inl e ↦ rw e (omega arith)
  | inr e ↦ rw e (omega (arith, length-digits_onto fuel (n / 16) (hex_digit (n % 16) ∷ t)))
]

length-zeros : (k : ℕ) (t : Text) → length (zeros k ++ t) ≡ k + length t
unfolding zeros
length-zeros zero t = omega arith
length-zeros (suc k) t = omega (arith, length-zeros k t)

length-pad_start : (t : Text) → length t ≤ 40 → length (pad_start 40 t) ≡ 40
unfolding pad_start
length-pad_start t h = omega (arith, length-zeros (40 - length t) t)

big_int-prefix : (t : Text) → 0 < length t → big_int (codes "0x" ++ t) ≡ read_digits t (some 0)
unfolding big_int starts_with
big_int-prefix [] h = absurd (omega arith)
big_int-prefix (c ∷ t) h = ground arith

-- what a number of 160 bits is printed as
padded : ℕ → Text
padded n = pad_start 40 (digits_onto 40 n [])

length-padded : (n : ℕ) → length (padded n) ≡ 40
unfolding padded
length-padded n = length-pad_start (digits_onto 40 n []) (omega (arith, length-digits_onto 40 n []))

big_int-padded : (n : ℕ) → n < 2 ^ 160 → big_int (codes "0x" ++ padded n) ≡ some n
unfolding padded pad_start read_digits
big_int-padded n h =
    big_int-prefix (padded n) (omega (arith, length-padded n))
    ∙ read_digits-zeros (40 - length (digits_onto 40 n [])) (digits_onto 40 n [])
    ∙ read_digits-digits_onto 40 n [] (rw pow16_bits h) (omega arith)

-- For every text that `BigInt` reads as a number, `applyAlias` gives 0x and forty digits, which read
-- as what `applyL1ToL2Alias` gives for the number; and `undoL1ToL2Alias` gives an address of 160 bits
-- back.
pub apply_alias_roundtrip :
    (address : Text) (m : ℕ)
    → big_int address ≡ some m
    → (alias : Text) × (apply_alias address ≡ some alias)
      × (length alias ≡ 42)
      × (big_int alias ≡ some (apply_l1_to_l2_alias m))
      × (m < 2 ^ 160 → undo_l1_to_l2_alias (apply_l1_to_l2_alias m) ≡ m)
unfolding apply_alias apply_l1_to_l2_alias undo_l1_to_l2_alias padded
apply_alias_roundtrip address m e =
    let n : ℕ = (m + offset) % 2 ^ 160 in
    (
      codes "0x" ++ padded n,
      rw (e, apply_alias) refl,
      omega (arith, length-padded n),
      big_int-padded n (omega arith),
      λ small. omega arith,
    )
