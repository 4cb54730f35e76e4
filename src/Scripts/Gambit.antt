-- ===== src/Scripts/Gambit.antt =====
-- The mutation tests of test-mutation/gambitTester.ts: the mutants go through `forge` in batches,
-- and the results are counted by status.
pub mod Batches
use token_bridge_contracts.Base.{
  ℕ, zero, suc, ◌+◌, ◌-◌, Bool, true, false, List, [], ◌∷◌, ◌++◌, map, Text, length, take, drop,
  ltb, if◌then◌else◌,
}

pub record Mutant : Type 0 where
  pub id : Text
  pub name : Text
  pub original : Text

pub data MutantStatus : Type 0 where
  killed survived : MutantStatus

pub record TestResult : Type 0 where
  pub mutant_id : Text
  pub file_name : Text
  pub status : MutantStatus

-- `MAX_TASKS`, from the number of processors: `Math.max(1, cpus - 2)`
unfoldable pub max_tasks : (cpus : ℕ) → ℕ
max_tasks cpus = if ltb 1 (cpus - 2) then cpus - 2 else 1

-- built and tested: a mutant that fails either is killed
abbrev pub mutant_status : (built passed : Bool) → MutantStatus
mutant_status true true = survived
mutant_status true false = killed
mutant_status false passed = killed

-- `builds` and `passes`: whether `forge build` and `forge test` succeed on the mutant; `basename`
-- is the last part of a path.
module _ (builds passes : Mutant → Bool) (basename : Text → Text) where
  unfoldable pub test_mutant : Mutant → TestResult
  test_mutant mutant = record {
    mutant_id = mutant.id;
    file_name = basename mutant.name;
    status = mutant_status (builds mutant) (passes mutant);
  }

  -- The loop of `_testAllMutants` from index `i`, with the results so far. Fuel: an index that
  -- grows by at least one on every turn passes the length after that many turns.
  unfoldable pub test_batches : (fuel i tasks : ℕ) → List Mutant → List TestResult → List TestResult
  unfolding test_mutant
  test_batches zero i tasks mutants results = results
  test_batches (suc fuel) i tasks mutants results =
      let batch = take tasks (drop i mutants) in
      let rest = test_batches fuel (i + tasks) tasks mutants (results ++ map test_mutant batch) in
      if ltb i (length mutants) then rest else results

  unfoldable pub test_all_mutants : (cpus : ℕ) → List Mutant → List TestResult
  unfolding test_batches max_tasks
  test_all_mutants cpus mutants = test_batches (length mutants) 0 (max_tasks cpus) mutants []

-- The totals that `_printResults` prints.
pub record Counts : Type 0 where
  pub killed_count : ℕ
  pub survived_count : ℕ
  pub total_count : ℕ

abbrev count_result : MutantStatus → Counts → Counts
count_result killed c = record c { killed_count = c.killed_count + 1 }
count_result survived c = record c { survived_count = c.survived_count + 1 }

-- `forEach`, from the first result to the last
unfoldable pub count_results : List TestResult → Counts → Counts
count_results [] c = c
count_results (r ∷ rest) c = count_results rest (count_result r.status c)

unfoldable pub print_results : List TestResult → Counts
unfolding count_results
print_results results =
    count_results results
      (record { killed_count = 0; survived_count = 0; total_count = length results })
