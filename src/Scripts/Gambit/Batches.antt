-- ===== src/Scripts/Gambit/Batches.antt =====
-- The batches test every mutant once, in order, and the totals count them all.
use token_bridge_contracts.Base.{
  ℕ, zero, suc, ◌+◌, ◌≤◌, ◌<◌, ◌≡◌, refl, sym, ap, ◌∙◌, Bool, true, false, not, ◌&&◌, List, [], ◌∷◌,
  ◌++◌, map, Text, length, take, drop, ltb, if◌then◌else◌, arith, take-append-drop,
}
use token_bridge_contracts.Scripts.Gambit.{
  Mutant, TestResult, max_tasks, test_mutant, test_batches, test_all_mutants, Counts, count_results,
  print_results, killed, survived, mutant_status, MutantStatus, count_result,
}

module _ {A : Type 0} where
  drop_all : (xs : List A) (n : ℕ) → length xs ≤ n → drop n xs ≡ []
  drop_all [] zero long = refl
  drop_all [] (suc n) long = refl
  drop_all (x ∷ xs) zero long = absurd (omega arith)
  drop_all (x ∷ xs) (suc n) long = drop_all xs n (omega arith)

  drop_nil : (n : ℕ) → drop {A = A} n [] ≡ []
  drop_nil zero = refl
  drop_nil (suc n) = refl

  drop_add : (m n : ℕ) (xs : List A) → drop (m + n) xs ≡ drop n (drop m xs)
  drop_add zero n xs = let sum : zero + n ≡ n = omega arith in ap (λ k. drop k xs) sum
  drop_add (suc m) n [] = drop_nil (suc m + n) ∙ sym (drop_nil n)
  drop_add (suc m) n (x ∷ xs) =
      let sum : suc m + n ≡ suc (m + n) = omega arith in
      ap (λ k. drop k (x ∷ xs)) sum ∙ drop_add m n xs

  append_assoc : (xs ys zs : List A) → (xs ++ ys) ++ zs ≡ xs ++ (ys ++ zs)
  append_assoc [] ys zs = refl
  append_assoc (x ∷ xs) ys zs = ap (λ t. x ∷ t) (append_assoc xs ys zs)

  append_nil : (xs : List A) → xs ++ [] ≡ xs
  append_nil [] = refl
  append_nil (x ∷ xs) = ap (λ t. x ∷ t) (append_nil xs)

map_append : {A B : Type 0} (f : A → B) (xs ys : List A) → map f (xs ++ ys) ≡ map f xs ++ map f ys
map_append f [] ys = refl
map_append f (x ∷ xs) ys = ap (λ t. f x ∷ t) (map_append f xs ys)

max_tasks_pos : (cpus : ℕ) → 0 < max_tasks cpus
unfolding max_tasks
max_tasks_pos cpus = ground arith

-- how many elements pass a test
unfoldable pub how_many : {A : Type 0} → (A → Bool) → List A → ℕ
how_many p [] = 0
how_many p (x ∷ xs) = let n = how_many p xs in if p x then suc n else n

plus_zero : (n : ℕ) → 0 + n ≡ n
plus_zero n = omega arith

module _ (builds passes : Mutant → Bool) (basename : Text → Text) where
  abbrev test : Mutant → TestResult
  test = test_mutant builds passes basename

  -- one batch and the rest
  batch_step :
      (i tasks : ℕ) (mutants : List Mutant) (results : List TestResult)
      → (results ++ map test (take tasks (drop i mutants))) ++ map test (drop (i + tasks) mutants)
        ≡ results ++ map test (drop i mutants)
  batch_step i tasks mutants results =
      append_assoc results (map test (take tasks (drop i mutants)))
        (map test (drop (i + tasks) mutants))
      ∙ ap (λ xs. results ++ xs)
          (ap (λ xs. map test (take tasks (drop i mutants)) ++ map test xs)
              (drop_add i tasks mutants)
            ∙ sym (map_append test (take tasks (drop i mutants)) (drop tasks (drop i mutants)))
            ∙ ap (map test) (take-append-drop tasks (drop i mutants)))

  batches_next :
      (rest : List TestResult) (i tasks : ℕ) (mutants : List Mutant) (results : List TestResult)
      (b : Bool)
      → ltb i (length mutants) ≡ b
      → rest
        ≡ (results ++ map test (take tasks (drop i mutants))) ++ map test (drop (i + tasks) mutants)
      → (if b then rest else results) ≡ results ++ map test (drop i mutants)
  batches_next rest i tasks mutants results true is_left tested =
      tested ∙ batch_step i tasks mutants results
  batches_next rest i tasks mutants results false is_left tested =
      sym
        (ap (λ xs. results ++ map test xs) (drop_all mutants i (ground arith)) ∙ append_nil results)

  batches_lem :
      (fuel i tasks : ℕ) (mutants : List Mutant) (results : List TestResult)
      → 0 < tasks
      → length mutants ≤ i + fuel
      → test_batches builds passes basename fuel i tasks mutants results
        ≡ results ++ map test (drop i mutants)
  unfolding test_batches
  batches_lem zero i tasks mutants results pos enough =
      sym
        (ap (λ xs. results ++ map test xs) (drop_all mutants i (omega arith)) ∙ append_nil results)
  batches_lem (suc fuel) i tasks mutants results pos enough =
      batches_next _ i tasks mutants results (ltb i (length mutants)) refl (
        batches_lem fuel (i + tasks) tasks mutants
          (results ++ map test (take tasks (drop i mutants))) pos (omega arith))

  -- Every mutant is tested once, and the results come in the order of the mutants, whatever the
  -- number of processors; the loop's fuel, the number of mutants, is enough.
  pub test_all_mutants-map :
      (cpus : ℕ) (mutants : List Mutant)
      → test_all_mutants builds passes basename cpus mutants ≡ map test mutants
  unfolding test_all_mutants
  test_all_mutants-map cpus mutants =
      batches_lem (length mutants) 0 (max_tasks cpus) mutants [] (max_tasks_pos cpus) (omega arith)

  total_same : (s : MutantStatus) (c : Counts) → (count_result s c).total_count ≡ c.total_count
  total_same killed c = refl
  total_same survived c = refl

  count_step :
      (built passed : Bool) (n : ℕ) (c : Counts)
      → (count_result (mutant_status built passed) c).killed_count + n
        ≡ c.killed_count + (if not (built && passed) then suc n else n)
  count_step true true n c = refl
  count_step true false n c = omega arith
  count_step false passed n c = omega arith

  count_survivor :
      (built passed : Bool) (n : ℕ) (c : Counts)
      → (count_result (mutant_status built passed) c).survived_count + n
        ≡ c.survived_count + (if built && passed then suc n else n)
  count_survivor true true n c = omega arith
  count_survivor true false n c = refl
  count_survivor false passed n c = refl

  count_lem :
      (mutants : List Mutant) (c : Counts)
      → ((count_results (map test mutants) c).killed_count
          ≡ c.killed_count + how_many (λ m. not (builds m && passes m)) mutants)
        × ((count_results (map test mutants) c).survived_count
            ≡ c.survived_count + how_many (λ m. builds m && passes m) mutants)
        × ((count_results (map test mutants) c).total_count ≡ c.total_count)
  unfolding count_results how_many test_mutant
  count_lem [] c = (omega arith, omega arith, refl)
  count_lem (m ∷ rest) c =
      let next = count_result (mutant_status (builds m) (passes m)) c in
      let ih = count_lem rest next in
      (
        ih.0 ∙ count_step (builds m) (passes m) _ c,
        ih.1 ∙ count_survivor (builds m) (passes m) _ c,
        ih.2 ∙ total_same (mutant_status (builds m) (passes m)) c,
      )

  length-map : (mutants : List Mutant) → length (map test mutants) ≡ length mutants
  length-map [] = refl
  length-map (m ∷ rest) = ap suc (length-map rest)

  -- The printed totals: as many mutants are killed as fail to build or fail a test, as many
  -- survive as build and pass, and the total is their number.
  pub print_results-test_all_mutants :
      (cpus : ℕ) (mutants : List Mutant)
      → let counts = print_results (test_all_mutants builds passes basename cpus mutants) in
        (counts.killed_count ≡ how_many (λ m. not (builds m && passes m)) mutants)
        × (counts.survived_count ≡ how_many (λ m. builds m && passes m) mutants)
        × (counts.total_count ≡ length mutants)
  unfolding print_results
  print_results-test_all_mutants cpus mutants =
      let start : Counts = record {
        killed_count = 0;
        survived_count = 0;
        total_count = length (map test mutants);
      } in
      let totals = count_lem mutants start in
      rw test_all_mutants-map
        (totals.0 ∙ plus_zero _, totals.1 ∙ plus_zero _, totals.2 ∙ length-map mutants)
