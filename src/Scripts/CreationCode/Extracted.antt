-- ===== src/Scripts/CreationCode/Extracted.antt =====
-- What is left of a creation code without the runtime code.
use token_bridge_contracts.Base.{
  ◌+◌, ◌/◌, ◌%◌, ◌≡◌, refl, ap, Bool, true, false, ◌&&◌, ◌||◌, Option, none, some, [], ◌∷◌, ◌++◌,
  codes, Text, starts_with, includes, length, length-append, drop, ◌==◌, if◌then◌else◌, ==_iff,
  arith,
}
use token_bridge_contracts.Scripts.CreationCode.{
  Artifact, remove_first, get_constructor_bytecode, length_in_bytes, constructor_prefix,
  get_creation_code_for,
}

starts_with-split : (p t : Text) → starts_with p t ≡ true → t ≡ p ++ drop (length p) t
unfolding starts_with
starts_with-split [] t h = refl
starts_with-split (a ∷ p) [] h = cc
starts_with-split (a ∷ p) (b ∷ t) h = go (a == b) refl h (starts_with-split p t)
  where
    go :
        (e : Bool)
        → (a == b) ≡ e
        → (e && starts_with p t) ≡ true
        → (starts_with p t ≡ true → t ≡ p ++ drop (length p) t)
        → b ∷ t ≡ a ∷ (p ++ drop (length p) t)
    go true e h ih = rw ((==_iff a b).0 e) (ap (λ u. b ∷ u) (ih h))
    go false e h ih = cc

starts_with_self : (p : Text) → starts_with p p ≡ true
unfolding starts_with
starts_with_self [] = refl
starts_with_self (a ∷ p) = ground (arith, starts_with_self p)

or_true : (b : Bool) → (b || true) ≡ true
or_true true = refl
or_true false = refl

includes_self : (p : Text) → includes p p ≡ true
unfolding includes starts_with
includes_self [] = refl
includes_self (a ∷ p) = rw (starts_with_self (a ∷ p), includes) refl

includes-append : (s p : Text) → includes p (s ++ p) ≡ true
unfolding includes
includes-append [] p = includes_self p
includes-append (c ∷ s) p =
    rw (includes-append s p, includes) (or_true (starts_with p (c ∷ (s ++ p))))

-- the text with one copy of the other in it, and without
abbrev pub Without : (p t rest : Text) → Type 0
Without p t rest =
    (before : Text) × (after : Text) × (t ≡ before ++ (p ++ after)) × (rest ≡ before ++ after)

remove_first-Without : (p t : Text) → includes p t ≡ true → Without p t (remove_first p t)
unfolding includes remove_first starts_with
remove_first-Without [] [] h = ([], [], refl, refl)
remove_first-Without (a ∷ p) [] h = cc
remove_first-Without p (c ∷ t) h = go (starts_with p (c ∷ t)) refl h (remove_first-Without p t)
  where
    go :
        (b : Bool)
        → starts_with p (c ∷ t) ≡ b
        → (b || includes p t) ≡ true
        → (includes p t ≡ true → Without p t (remove_first p t))
        → Without p (c ∷ t) (if b then drop (length p) (c ∷ t) else c ∷ remove_first p t)
    go true e h ih = ([], drop (length p) (c ∷ t), starts_with-split p (c ∷ t) e, refl)
    go false e h ih = let w = ih h in (c ∷ w.0, w.1, ap (λ u. c ∷ u) (w.2), ap (λ u. c ∷ u) (w.3))

Without-length : (p t rest : Text) → Without p t rest → length rest + length p ≡ length t
Without-length p t rest (before, after, whole, left) =
    rw (whole, left)
      (omega (
        arith,
        length-append before after,
        length-append p after,
        length-append before (p ++ after),
      ))

abbrev pub IsExtracted : Artifact → Option Text → Type 0
IsExtracted a none = includes (drop 2 a.deployed_bytecode) (drop 2 a.bytecode) ≡ false
IsExtracted a (some c) = Without (drop 2 a.deployed_bytecode) (drop 2 a.bytecode) c

-- Either the runtime code is not in the creation code and the error is thrown, or the creation code
-- is what is extracted with one copy of the runtime code put into it.
pub get_constructor_bytecode_lem : (a : Artifact) → IsExtracted a (get_constructor_bytecode a)
unfolding get_constructor_bytecode
get_constructor_bytecode_lem a = go (includes (drop 2 a.deployed_bytecode) (drop 2 a.bytecode)) refl
  where
    go :
        (b : Bool)
        → includes (drop 2 a.deployed_bytecode) (drop 2 a.bytecode) ≡ b
        → IsExtracted a (
            if b
            then some (remove_first (drop 2 a.deployed_bytecode) (drop 2 a.bytecode))
            else none)
    go true e = remove_first-Without (drop 2 a.deployed_bytecode) (drop 2 a.bytecode) e
    go false e = e

-- The constructor's bytecode, extracted from the code that the Solidity library generates, has 32
-- bytes, whatever the runtime code, and it makes up the generated code again when the runtime code
-- is put into it.
pub get_constructor_bytecode-generated :
    (runtime_code : Text)
    → (c : Text) × (get_constructor_bytecode (record {
      bytecode = codes "0x" ++ get_creation_code_for runtime_code;
      deployed_bytecode = codes "0x" ++ runtime_code;
    })
        ≡ some c)
      × (length_in_bytes c ≡ some 32)
      × Without runtime_code (get_creation_code_for runtime_code) c
unfolding get_constructor_bytecode get_creation_code_for length_in_bytes constructor_prefix
get_constructor_bytecode-generated runtime_code =
    let whole = constructor_prefix runtime_code ++ runtime_code in
    let found = includes-append (constructor_prefix runtime_code) runtime_code in
    let w = remove_first-Without runtime_code whole found in
    let size : length (remove_first runtime_code whole) ≡ 64 = omega (
      arith,
      Without-length runtime_code whole (remove_first runtime_code whole) w,
      length-append (constructor_prefix runtime_code) runtime_code,
    ) in
    (
      remove_first runtime_code whole,
      rw found refl,
      ap (λ k. if k % 2 == 0 then some (k / 2) else none) size,
      w,
    )
