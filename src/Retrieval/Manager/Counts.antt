-- ===== src/Retrieval/Manager/Counts.antt =====
-- The log of retrieval/targetmanager.go: how often a target set is run and cancelled.
use promeproxy.Common.{
  string_eq, ℕ, suc, ◌+◌, String, ◌≡◌, Bool, true, false, List, [], ◌∷◌, ◌++◌, arith, if◌then◌else◌,
  ◌==◌,
}
use promeproxy.Retrieval.Manager.{Action, runs, cancels, updates}

module _ {S : Type 0} where
  -- how often a job's target set was run, and cancelled
  abbrev pub count_runs : String → List (Action S) → ℕ
  count_runs job [] = 0
  count_runs job (runs name ∷ log) =
      if name == job then suc (count_runs job log) else count_runs job log
  count_runs job (cancels name ∷ log) = count_runs job log
  count_runs job (updates name s ∷ log) = count_runs job log

  abbrev pub count_cancels : String → List (Action S) → ℕ
  count_cancels job [] = 0
  count_cancels job (cancels name ∷ log) =
      if name == job then suc (count_cancels job log) else count_cancels job log
  count_cancels job (runs name ∷ log) = count_cancels job log
  count_cancels job (updates name s ∷ log) = count_cancels job log

  pub count_runs-append :
      (job : String) (l k : List (Action S))
      → count_runs job (l ++ k) ≡ count_runs job l + count_runs job k
  count_runs-append job [] k = omega arith
  count_runs-append job (runs name ∷ l) k = ground (arith, count_runs-append job l k)
  count_runs-append job (cancels name ∷ l) k = count_runs-append job l k
  count_runs-append job (updates name s ∷ l) k = count_runs-append job l k

  pub count_cancels-append :
      (job : String) (l k : List (Action S))
      → count_cancels job (l ++ k) ≡ count_cancels job l + count_cancels job k
  count_cancels-append job [] k = omega arith
  count_cancels-append job (cancels name ∷ l) k = ground (arith, count_cancels-append job l k)
  count_cancels-append job (runs name ∷ l) k = count_cancels-append job l k
  count_cancels-append job (updates name s ∷ l) k = count_cancels-append job l k

abbrev pub one_if : Bool → ℕ
one_if true = 1
one_if false = 0
