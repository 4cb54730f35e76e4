-- ===== src/Upgrades/Slots/Words.antt =====
-- The address that the tasks and scripts/orbitVerifyOnBlockscout.ts cut out of a storage word.
use token_bridge_contracts.Base.{
  ◌%◌, ◌==◌, ◌≡◌, refl, ap, ◌≢◌, Bool-cases, inl, inr, ==_iff, List, [], ◌∷◌, ◌++◌, length, take,
  drop, Text, codes, length-append, length-drop, drop-append, arith,
}
use token_bridge_contracts.Upgrades.Slots.{last_address, even_digits}

-- `storageValue.substring(0, 2) + storageValue.substring(26)`
unfoldable pub format_address : Text → Text
format_address value = take 2 value ++ drop 26 value

take_all {ℓ} : {A : Type ℓ} (xs : List A) → take (length xs) xs ≡ xs
take_all [] = refl
take_all (x ∷ xs) = ap (λ t. x ∷ t) (take_all xs)

-- the last 40 digits of a padded address
last_digits :
    (padding address : Text)
    → length padding ≡ 24
    → length address ≡ 40
    → take 40 (drop 24 (padding ++ address)) ≡ address
last_digits padding address p a = rw (← p, ← a) (rw drop-append (take_all address))

word_length :
    (padding address : Text)
    → length padding ≡ 24
    → length address ≡ 40
    → length (codes "0x" ++ (padding ++ address)) ≡ 66
word_length padding address p a = omega (arith, length-append padding address)

-- Out of a word of 32 bytes `getAdminFromProxyStorage` takes the address in its last 20 bytes.
pub last_address-word :
    (padding address : Text)
    → length padding ≡ 24
    → length address ≡ 40
    → last_address (codes "0x" ++ (padding ++ address)) ≡ codes "0x" ++ address
unfolding last_address
last_address-word padding address p a =
    rw (word_length padding address p a)
      (ap (λ (t : Text). codes "0x" ++ t) (last_digits padding address p a))

drop_padding :
    (padding address : Text) → length padding ≡ 24 → drop 24 (padding ++ address) ≡ address
drop_padding padding address p = rw (← p) (drop-append padding address)

-- The two scripts cut the same address out of a word of 32 bytes.
pub format_address-eq-last_address :
    (padding address : Text)
    → length padding ≡ 24
    → length address ≡ 40
    → format_address (codes "0x" ++ (padding ++ address))
      ≡ last_address (codes "0x" ++ (padding ++ address))
unfolding format_address
format_address-eq-last_address padding address p a =
    rw (last_address-word padding address p a)
      (ap (λ (t : Text). codes "0x" ++ t) (drop_padding padding address p))

-- `hexlify` is handed an even number of digits, whatever the node returned after `0x`.
pub length-even_digits : (raw : Text) → length raw ≢ 1 → length (even_digits raw) % 2 ≡ 0
unfolding even_digits
length-even_digits raw h = elim (Bool-cases (length raw % 2 == 1)) [
  | inl odd ↦ rw odd (omega (arith, length-drop 2 raw, (==_iff _ _).0 odd))
  | inr even ↦ rw even (ground arith)
]
