-- ===== src/Scripts/Compare/Reports.antt =====
-- What the task reports.
use token_bridge_contracts.Base.{
  ◌≡◌, ◌⊎◌, inl, inr, refl, ap, Bool, true, false, Option, none, some, List, [], ◌∷◌, ◌++◌, Text,
  All,
}
use token_bridge_contracts.Scripts.Compare.{
  LocalArtifact, Report, matches, matches_without_arguments, no_match, has_hash, choose,
  find_artifact, report_of, report_unmatched, compare_one, compare_address, compare_each,
  compare_bytecode, split_commas, trim, strip_prefix, ◌>>=◌,
}

module _ (keccak256 : Text → Option Text) where
  -- readable and hashable files of another hash, or without bytecode
  abbrev pub NoneOf : Text → List (Option LocalArtifact) → Type 0
  NoneOf hash = All (λ entry. has_hash keccak256 hash entry ≡ some false)

  -- the first file of which something holds
  abbrev pub IsFirst : Text → List (Option LocalArtifact) → (Option LocalArtifact → Type 0) → Type 0
  IsFirst hash files P =
      (before : List (Option LocalArtifact)) × (entry : Option LocalArtifact) × (after : List
        (Option LocalArtifact))
      × (files ≡ before ++ (entry ∷ after))
      × NoneOf hash before
      × P entry

  -- how the loop over the files ends: a throw, no match, or a match
  abbrev pub IsFound : Text → List (Option LocalArtifact) → Option (Option LocalArtifact) → Type 0
  IsFound hash files none = IsFirst hash files (λ entry. has_hash keccak256 hash entry ≡ none)
  IsFound hash files (some none) = NoneOf hash files
  IsFound hash files (some (some a)) =
      IsFirst hash files (λ entry. (entry ≡ some a) × (has_hash keccak256 hash entry ≡ some true))

  find_artifact-IsFound :
      (hash : Text) (files : List (Option LocalArtifact))
      → IsFound hash files (find_artifact keccak256 hash files)
  unfolding find_artifact
  find_artifact-IsFound hash [] = tt
  find_artifact-IsFound hash (entry ∷ rest) =
      go entry (has_hash keccak256 hash entry) refl (find_artifact keccak256 hash rest)
        (find_artifact-IsFound hash rest)
    where
      shift :
          {P : Option LocalArtifact → Type 0} (e : Option LocalArtifact)
          → has_hash keccak256 hash e ≡ some false
          → IsFirst hash rest P
          → IsFirst hash (e ∷ rest) P
      shift e other (before, entry, after, same, clear, p) =
          (e ∷ before, entry, after, ap (λ files. e ∷ files) same, (other, clear), p)

      go :
          (e : Option LocalArtifact) (o : Option Bool)
          → has_hash keccak256 hash e ≡ o
          → (later : Option (Option LocalArtifact)) → IsFound hash rest later
          → IsFound hash (e ∷ rest) (choose keccak256 e o later)
      go e none eq later h = ([], e, rest, refl, tt, eq)
      go none (some true) eq later h = cc
      go (some a) (some true) eq later h = ([], some a, rest, refl, tt, (refl, eq))
      go e (some false) eq none h = shift e eq h
      go e (some false) eq (some none) h = (eq, h)
      go e (some false) eq (some (some a)) h = shift e eq h

module _ (get_code keccak256 contract_information : Text → Option Text)
    (artifacts : List (Option LocalArtifact)) where
  -- The report says whether, and with which artifact first, the hash of a code agrees.
  abbrev pub IsRight : (address code hash : Text) → Report → Type 0
  IsRight address code hash (matches a name) =
      (file : LocalArtifact) × IsFound keccak256 hash artifacts (some (some file))
      × (a ≡ address)
      × (name ≡ file.contract_name)
  IsRight address code hash (matches_without_arguments a name) =
      NoneOf keccak256 hash artifacts
      × (a ≡ address)
      × (contract_information (strip_prefix code) ≡ some name)
  IsRight address code hash (no_match a) =
      NoneOf keccak256 hash artifacts
      × (a ≡ address)
      × (contract_information (strip_prefix code) ≡ none)

  -- what an address comes to: a report, or a throw of the node, of the hash or in the loop
  abbrev pub IsOutcome : (address : Text) → Option Report → Type 0
  IsOutcome address (some report) =
      (code : Text) × (hash : Text) × (get_code address ≡ some code)
      × (keccak256 code ≡ some hash)
      × IsRight address code hash report
  IsOutcome address none =
      (get_code address ≡ none)
      ⊎ ((code : Text) × (get_code address ≡ some code)
          × ((keccak256 code ≡ none)
              ⊎ ((hash : Text) × (keccak256 code ≡ some hash)
                  × IsFound keccak256 hash artifacts none)))

  compare_address-IsOutcome :
      (address : Text)
      → IsOutcome address
          (compare_address get_code keccak256 contract_information artifacts address)
  unfolding compare_address
  compare_address-IsOutcome address = by_code (get_code address) refl
    where
      report : Text → Option LocalArtifact → Report
      report = report_of get_code keccak256 contract_information artifacts address

      after_loop : (code : Text) → Option (Option LocalArtifact) → Option Report
      after_loop code found = found >>= λ f. some (report code f)

      asked :
          (code hash : Text) (o : Option Text)
          → contract_information (strip_prefix code) ≡ o
          → NoneOf keccak256 hash artifacts
          → IsRight address code hash (report_unmatched address o)
      asked code hash none e h = (h, refl, e)
      asked code hash (some name) e h = (h, refl, e)

      by_loop :
          (code hash : Text)
          → get_code address ≡ some code
          → keccak256 code ≡ some hash
          → (found : Option (Option LocalArtifact)) → IsFound keccak256 hash artifacts found
          → IsOutcome address (after_loop code found)
      by_loop code hash c k none h = inr (code, c, inr (hash, k, h))
      by_loop code hash c k (some none) h =
          (code, hash, c, k, asked code hash (contract_information (strip_prefix code)) refl h)
      by_loop code hash c k (some (some file)) h = (code, hash, c, k, (file, h, refl, refl))

      by_hash :
          (code : Text)
          → get_code address ≡ some code
          → (o : Option Text) → keccak256 code ≡ o
          → IsOutcome address
              (o >>= λ hash. after_loop code (find_artifact keccak256 hash artifacts))
      by_hash code c none k = inr (code, c, inl k)
      by_hash code c (some hash) k =
          by_loop code hash c k (find_artifact keccak256 hash artifacts)
            (find_artifact-IsFound keccak256 hash artifacts)

      by_code :
          (o : Option Text)
          → get_code address ≡ o
          → IsOutcome address
              (o >>= compare_one get_code keccak256 contract_information artifacts address)
      by_code none c = inl c
      by_code (some code) c = by_hash code c (keccak256 code) refl

  -- The reports stand for the addresses in order, each right for the trimmed address; they end at the
  -- first address for which the task throws, and only then is the run not complete.
  abbrev pub IsReported : List Text → List Report → Bool → Type 0
  IsReported [] [] complete = complete ≡ true
  IsReported [] (report ∷ reports) complete = ⊥
  IsReported (address ∷ rest) [] complete = IsOutcome (trim address) none × (complete ≡ false)
  IsReported (address ∷ rest) (report ∷ reports) complete =
      IsOutcome (trim address) (some report) × IsReported rest reports complete

  compare_each-IsReported :
      (addresses : List Text)
      → IsReported addresses
          ((compare_each get_code keccak256 contract_information artifacts addresses).0)
          ((compare_each get_code keccak256 contract_information artifacts addresses).1)
  unfolding compare_each
  compare_each-IsReported [] = refl
  compare_each-IsReported (address ∷ rest) =
      go (compare_address get_code keccak256 contract_information artifacts (trim address))
        (compare_address-IsOutcome (trim address)) (compare_each-IsReported rest)
    where
      run : List Report × Bool
      run = compare_each get_code keccak256 contract_information artifacts rest

      next : Option Report → List Report × Bool
      next none = ([], false)
      next (some report) = (report ∷ run.0, run.1)

      go :
          (o : Option Report)
          → IsOutcome (trim address) o
          → IsReported rest (run.0) (run.1)
          → IsReported (address ∷ rest) ((next o).0) ((next o).1)
      go none e h = (e, refl)
      go (some report) e h = (e, h)

  -- For every text of addresses, `compare_bytecode` reports on its comma-separated pieces in order: with
  -- the first artifact whose bytecode has the hash of the code at the trimmed address, without artifact
  -- only when none has it and then by the answer of the comparison without arguments; it ends early
  -- exactly at the first address whose code the node does not give or ethers does not hash, or for
  -- which a file that cannot be read or hashed stands before any match.
  pub compare_bytecode-IsReported :
      (contract_addrs : Text)
      → IsReported
          (split_commas contract_addrs)
          ((compare_bytecode get_code keccak256 contract_information artifacts contract_addrs).0)
          ((compare_bytecode get_code keccak256 contract_information artifacts contract_addrs).1)
  unfolding compare_bytecode
  compare_bytecode-IsReported contract_addrs = compare_each-IsReported (split_commas contract_addrs)
