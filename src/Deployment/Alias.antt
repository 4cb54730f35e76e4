-- ===== src/Deployment/Alias.antt =====
-- `applyAlias` of test/testhelper.ts on hexadecimal texts, and the two functions of
-- contracts/tokenbridge/libraries/AddressAliasHelper.sol.
pub mod Roundtrip
use token_bridge_contracts.Base.{
  ℕ, zero, suc, ◌+◌, ◌-◌, ◌*◌, ◌/◌, ◌%◌, ◌^◌, ◌==◌, ◌&&◌, leb, ltb, Option, none, some, [], ◌∷◌,
  ◌++◌, codes, Text, length, drop, starts_with, if◌then◌else◌,
}
use token_bridge_contracts.Scripts.CreationCode.{hex_digit}

abbrev pub offset : ℕ
offset = 0x1111000000000000000000000000000000001111

unfoldable pub apply_l1_to_l2_alias : (l1_address : ℕ) → ℕ
apply_l1_to_l2_alias l1_address = (l1_address + offset) % 2 ^ 160

unfoldable pub undo_l1_to_l2_alias : (l2_address : ℕ) → ℕ
undo_l1_to_l2_alias l2_address = (l2_address + 2 ^ 160 - offset) % 2 ^ 160

abbrev pub digit_value : ℕ → Option ℕ
digit_value c =
    if leb 48 c && leb c 57
    then some (c - 48)
    else if leb 97 c && leb c 102
    then some (c - 87)
    else if leb 65 c && leb c 70
    then some (c - 55)
    else none

abbrev pub next_digit : ℕ → Option ℕ → Option ℕ
next_digit n none = none
next_digit n (some d) = some (n * 16 + d)

-- the digits read so far, and those that follow
unfoldable pub read_digits : Text → Option ℕ → Option ℕ
read_digits [] n = n
read_digits (c ∷ t) none = none
read_digits (c ∷ t) (some n) = read_digits t (next_digit n (digit_value c))

-- `BigInt(t)` on a text that starts with 0x; a text without digits after it throws
unfoldable pub big_int : Text → Option ℕ
unfolding read_digits
big_int t =
    if starts_with (codes "0x") t && ltb 2 (length t) then read_digits (drop 2 t) (some 0) else none

-- `n.toString(16)`, in front of a text; the fuel bounds the digits
unfoldable pub digits_onto : ℕ → ℕ → Text → Text
digits_onto zero n t = t
digits_onto (suc fuel) n t =
    let more = digits_onto fuel (n / 16) (hex_digit (n % 16) ∷ t) in
    if n / 16 == 0 then hex_digit (n % 16) ∷ t else more

unfoldable pub zeros : ℕ → Text
zeros zero = []
zeros (suc k) = 48 ∷ zeros k

-- `t.padStart(width, '0')`
unfoldable pub pad_start : ℕ → Text → Text
unfolding zeros
pad_start width t = zeros (width - length t) ++ t

-- A number of 160 bits has forty digits at most.
unfoldable pub apply_alias : (address : Text) → Option Text
unfolding big_int digits_onto pad_start
apply_alias address = elim (big_int address) [
  | none ↦ none
  | some n ↦ some (codes "0x" ++ pad_start 40 (digits_onto 40 ((n + offset) % 2 ^ 160) []))
]
