-- ===== src/Scripts/Usdc/Token/Linked.antt =====
-- The bytecode of the token after it is linked.
use token_bridge_contracts.Base.{
  ℕ, ◌+◌, ◌-◌, ◌≤◌, ◌≡◌, refl, zero, suc, Bool, true, false, List, [], ◌∷◌, ◌++◌, Text, length,
  length-append, starts_with, ◌==◌, arith, ap, ◌∙◌, All, drop,
}
use token_bridge_contracts.Scripts.Usdc.Token.{split_join, link_library, placeholder, strip_0x}

starts_with-length : (p t : Text) → starts_with p t ≡ true → length p ≤ length t
unfolding starts_with
starts_with-length [] t h = omega arith
starts_with-length (a ∷ p) [] h = cc
starts_with-length (a ∷ p) (b ∷ t) h = ground (arith, starts_with-length p t)

split_join-length :
    (a : ℕ) (p r : Text) (skip : ℕ) (t : Text)
    → length r ≡ length (a ∷ p)
    → skip ≤ length t
    → length (split_join (a ∷ p) r skip t) + skip ≡ length t
unfolding split_join
split_join-length a p r zero [] same h = refl
split_join-length a p r (suc skip) [] same h = omega arith
split_join-length a p r (suc skip) (c ∷ t) same h =
    omega (arith, split_join-length a p r skip t same (omega arith))
split_join-length a p r zero (c ∷ t) same h =
    go (starts_with (a ∷ p) (c ∷ t)) refl (λ k fits. split_join-length a p r k t same fits)
  where
    go :
        (b : Bool)
        → starts_with (a ∷ p) (c ∷ t) ≡ b
        → ((k : ℕ) → k ≤ length t → length (split_join (a ∷ p) r k t) + k ≡ length t)
        → length (elim b [
          | true ↦ r ++ split_join (a ∷ p) r (length (a ∷ p) - 1) t
          | false ↦ c ∷ split_join (a ∷ p) r 0 t
        ])
            + 0
          ≡ length (c ∷ t)
    go true e ih =
        let k = length p in
        let fits : k ≤ length t = omega (arith, starts_with-length (a ∷ p) (c ∷ t) e) in
        omega (arith, length-append r (split_join (a ∷ p) r (length (a ∷ p) - 1) t), ih k fits)
    go false e ih = omega (arith, ih 0 (omega arith))

starts_with-append : (p t : Text) → starts_with p (p ++ t) ≡ true
unfolding starts_with
starts_with-append [] t = refl
starts_with-append (a ∷ p) t = ground (arith, starts_with-append p t)

split_join-skip : (p r q t : Text) → split_join p r (length q) (q ++ t) ≡ split_join p r 0 t
unfolding split_join
split_join-skip p r [] t = refl
split_join-skip p r (c ∷ q) t = split_join-skip p r q t

-- some pieces with a separator in between
abbrev pub joined : Text → Text → List Text → Text
joined separator first [] = first
joined separator first (next ∷ rest) = first ++ (separator ++ joined separator next rest)

abbrev pub Lacks : ℕ → Text → Type 0
Lacks a = All (λ c. (a == c) ≡ false)

module _ (a : ℕ) (p r : Text) where
  split_join-plain :
      (s t : Text) → Lacks a s → split_join (a ∷ p) r 0 (s ++ t) ≡ s ++ split_join (a ∷ p) r 0 t
  unfolding split_join starts_with
  split_join-plain [] t h = refl
  split_join-plain (c ∷ s) t h =
      rw (h.0, split_join, starts_with) (ap (λ u. c ∷ u) (split_join-plain s t (h.1)))

  split_join-none : (s : Text) → Lacks a s → split_join (a ∷ p) r 0 s ≡ s
  unfolding split_join starts_with
  split_join-none [] h = refl
  split_join-none (c ∷ s) h =
      rw (h.0, split_join, starts_with) (ap (λ u. c ∷ u) (split_join-none s (h.1)))

  split_join-here :
      (t : Text) → split_join (a ∷ p) r 0 ((a ∷ p) ++ t) ≡ r ++ split_join (a ∷ p) r 0 t
  unfolding split_join
  split_join-here t =
      let left : length (a ∷ p) - 1 ≡ length p = omega arith in
      rw (starts_with-append (a ∷ p) t, split_join)
        (ap (λ u. r ++ u)
          (ap (λ k. split_join (a ∷ p) r k (p ++ t)) left ∙ split_join-skip (a ∷ p) r p t))

  split_join-joined :
      (first : Text) (rest : List Text)
      → Lacks a first
      → All (Lacks a) rest
      → split_join (a ∷ p) r 0 (joined (a ∷ p) first rest) ≡ joined r first rest
  unfolding split_join
  split_join-joined first [] h hs = split_join-none first h
  split_join-joined first (next ∷ rest) h hs =
      split_join-plain first ((a ∷ p) ++ joined (a ∷ p) next rest) h
      ∙ ap (λ u. first ++ u)
          (split_join-here (joined (a ∷ p) next rest)
            ∙ ap (λ u. r ++ u) (split_join-joined next rest (hs.0) (hs.1)))

-- Linking puts the library's address in the place of every placeholder and changes nothing else,
-- however many there are, if the rest of the bytecode has no underscore.
pub link_library_lem :
    (library first : Text) (rest : List Text)
    → Lacks 95 first
    → All (Lacks 95) rest
    → link_library (joined placeholder first rest) library ≡ joined (strip_0x library) first rest
unfolding link_library
link_library_lem library first rest =
    split_join-joined 95 (drop 1 placeholder) (strip_0x library) first rest

-- With an address of forty digits the bytecode keeps its length, whatever it holds.
pub link_library-length :
    (bytecode library : Text)
    → length (strip_0x library) ≡ 40
    → length (link_library bytecode library) ≡ length bytecode
unfolding link_library
link_library-length bytecode library forty =
    let k = split_join-length 95 (drop 1 placeholder) (strip_0x library) 0 bytecode forty in
    omega (arith, k (omega arith))
