-- ===== src/Scripts/Compare.antt =====
-- The task of tasks/compareBytecode.ts: the code of each address against the local artifacts. The
-- node, the files, the hash and the plugin that compares without constructor arguments are
-- parameters: an artifact may be unreadable, and ethers refuses to hash bytecode that is not
-- hexadecimal, such as that of a contract with libraries that are not linked.
pub mod Reports
use token_bridge_contracts.Base.{
  ℕ, Bool, true, false, ◌&&◌, ◌||◌, Option, none, some, List, [], ◌∷◌, ◌++◌, codes, Text, text_eq,
  starts_with, drop, leb, ◌==◌, if◌then◌else◌,
}
use token_bridge_contracts.Scripts.Usdc.{is_set}

pub record LocalArtifact : Type 0 where
  pub contract_name : Text
  pub deployed_bytecode : Option Text

-- what is logged about an address
pub data Report : Type 0 where
  matches : (address contract_name : Text) → Report
  matches_without_arguments : (address contract_name : Text) → Report
  no_match : (address : Text) → Report

infixl 5 ◌>>=◌
abbrev pub ◌>>=◌ : {A B : Type 0} → Option A → (A → Option B) → Option B
none >>= f = none
some a >>= f = f a

-- put a character in front of the first piece
abbrev pub onto_first : ℕ → List Text → List Text
onto_first c [] = (c ∷ []) ∷ []
onto_first c (piece ∷ rest) = (c ∷ piece) ∷ rest

-- `t.split(',')`
unfoldable pub split_commas : Text → List Text
split_commas [] = [] ∷ []
split_commas (c ∷ t) = let rest = split_commas t in if c == 44 then [] ∷ rest else onto_first c rest

abbrev pub is_space : ℕ → Bool
is_space c = c == 32 || leb 9 c && leb c 13

unfoldable pub trim_start : Text → Text
trim_start [] = []
trim_start (c ∷ t) = let rest = trim_start t in if is_space c then rest else c ∷ t

-- what is left of a text whose end is trimmed already
abbrev pub unless_space : ℕ → Text → Text
unless_space c [] = if is_space c then [] else c ∷ []
unless_space c (d ∷ t) = c ∷ d ∷ t

unfoldable pub trim_end : Text → Text
trim_end [] = []
trim_end (c ∷ t) = unless_space c (trim_end t)

-- `t.trim()`, on ASCII
unfoldable pub trim : Text → Text
unfolding trim_start trim_end
trim t = trim_end (trim_start t)

unfoldable pub strip_prefix : Text → Text
strip_prefix code = if starts_with (codes "0x") code then drop 2 code else code

module _ (keccak256 : Text → Option Text) where
  -- whether an artifact has bytecode of that hash; a file that cannot be read throws
  abbrev pub has_hash : Text → Option LocalArtifact → Option Bool
  has_hash hash none = none
  has_hash hash (some a) =
      if is_set a.deployed_bytecode
      then elim (hash_of a.deployed_bytecode) [ none ↦ none | some h ↦ some (text_eq hash h) ]
      else some false
    where
      hash_of : Option Text → Option Text
      hash_of none = none
      hash_of (some code) = keccak256 code

  -- A throw ends the task, a match the loop, with its `break`.
  abbrev pub choose :
      Option LocalArtifact
      → Option Bool
      → (later : Option (Option LocalArtifact)) → Option (Option LocalArtifact)
  choose entry none later = none
  choose entry (some true) later = some entry
  choose entry (some false) later = later

  -- the loop over the artifacts
  unfoldable pub find_artifact : Text → List (Option LocalArtifact) → Option (Option LocalArtifact)
  find_artifact hash [] = some none
  find_artifact hash (entry ∷ rest) = choose entry (has_hash hash entry) (find_artifact hash rest)

-- the `try` and its `catch` for a code whose hash no artifact has
abbrev pub report_unmatched : (address : Text) → Option Text → Report
report_unmatched address (some contract_name) = matches_without_arguments address contract_name
report_unmatched address none = no_match address

module _ (get_code keccak256 contract_information : Text → Option Text)
    (artifacts : List (Option LocalArtifact)) where
  abbrev pub report_of : (address code : Text) → Option LocalArtifact → Report
  report_of address code (some a) = matches address a.contract_name
  report_of address code none = report_unmatched address (contract_information (strip_prefix code))

  -- `none` where it throws
  unfoldable pub compare_one : (address code : Text) → Option Report
  unfolding find_artifact strip_prefix
  compare_one address code = do
    hash ← keccak256 code
    found ← find_artifact keccak256 hash artifacts
    some (report_of address code found)

  unfoldable pub compare_address : (address : Text) → Option Report
  unfolding compare_one
  compare_address address = do code ← get_code address; compare_one address code

  -- The reports up to the first address for which the task throws, and whether there is none.
  unfoldable pub compare_each : List Text → List Report × Bool
  unfolding compare_address trim
  compare_each [] = ([], true)
  compare_each (address ∷ rest) =
      let later = compare_each rest in
      elim (compare_address (trim address)) [
        | none ↦ ([], false)
        | some report ↦ (report ∷ later.0, later.1)
      ]

  unfoldable pub compare_bytecode : Text → List Report × Bool
  unfolding split_commas compare_each
  compare_bytecode contract_addrs = compare_each (split_commas contract_addrs)
