-- ===== src/Scripts/CreationCode.antt =====
-- The helpers of test-e2e/creationCodeTest.ts, and the creation code that
-- contracts/tokenbridge/libraries/CreationCodeHelper.sol generates, as hexadecimal texts.
pub mod Extracted
use token_bridge_contracts.Base.{
  ℕ, ◌+◌, ◌*◌, ◌/◌, ◌%◌, ◌^◌, Option, none, some, List, [], ◌∷◌, ◌++◌, codes, Text, starts_with,
  includes, length, drop, ltb, ◌==◌, if◌then◌else◌,
}

pub record Artifact : Type 0 where
  pub bytecode : Text
  pub deployed_bytecode : Text

-- `t.replace(p, '')`
unfoldable pub remove_first : Text → Text → Text
unfolding starts_with
remove_first p [] = []
remove_first p (c ∷ t) =
    let rest = remove_first p t in
    if starts_with p (c ∷ t) then drop (length p) (c ∷ t) else c ∷ rest

-- The error for a creation code without the runtime code is `none`.
unfoldable pub get_constructor_bytecode : Artifact → Option Text
unfolding includes remove_first
get_constructor_bytecode a =
    let creation_code = drop 2 a.bytecode in
    let runtime_code = drop 2 a.deployed_bytecode in
    if includes runtime_code creation_code
    then some (remove_first runtime_code creation_code)
    else none

-- half the length; `none` stands for a number that is not whole
unfoldable pub length_in_bytes : Text → Option ℕ
length_in_bytes hex = if length hex % 2 == 0 then some (length hex / 2) else none

abbrev pub hex_digit : ℕ → ℕ
hex_digit d = if ltb d 10 then d + 48 else d + 87

-- the four digits of a `uint16`
abbrev pub hex_uint16 : ℕ → Text
hex_uint16 n =
    hex_digit (n / 4096 % 16)
    ∷ hex_digit (n / 256 % 16)
    ∷ hex_digit (n / 16 % 16)
    ∷ hex_digit (n % 16)
    ∷ []

-- the code before the runtime code
unfoldable pub constructor_prefix : Text → Text
constructor_prefix runtime_code =
    codes "608060405234801561001057600080fd5b50"
    ++ (codes "61"
        ++ (hex_uint16 (length runtime_code / 2 % 2 ^ 16) ++ codes "806100206000396000f3fe"))

unfoldable pub get_creation_code_for : Text → Text
unfolding constructor_prefix
get_creation_code_for runtime_code = constructor_prefix runtime_code ++ runtime_code
