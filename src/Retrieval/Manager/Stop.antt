-- ===== src/Retrieval/Manager/Stop.antt =====
-- TargetManager.Stop of retrieval/targetmanager.go.
use promeproxy.Common.{
  string_eq, String, ◌≡◌, refl, Bool, true, false, Option, none, some, List, [], ◌∷◌, ◌++◌, arith,
  if◌then◌else◌, has, lookup, Unique,
}
use promeproxy.Retrieval.Scrape.{ScrapePool}
use promeproxy.Retrieval.Manager.{Action, cancels, TargetManager}
use promeproxy.Retrieval.Manager.Counts.{
  count_runs, count_cancels, count_runs-append, count_cancels-append, one_if,
}
use promeproxy.Retrieval.Manager.Laws.{IsBalanced}

module _ {S H T : Type 0} where
  -- cancelling the base context, from which the context of every target set is derived
  unfoldable pub cancel_all : List (String × ScrapePool S H T) → List (Action S)
  cancel_all [] = []
  cancel_all ((name, sp) ∷ sets) = cancels name ∷ cancel_all sets

  -- TargetManager.Stop; none for the call of a nil function where Run has not set tm.cancel
  unfoldable pub stop_manager : TargetManager S H T → Option (TargetManager S H T)
  unfolding cancel_all
  stop_manager tm =
      if tm.started then some (record tm { log = tm.log ++ cancel_all tm.target_sets }) else none

  count_runs-cancel_all :
      (sets : List (String × ScrapePool S H T)) (job : String)
      → count_runs job (cancel_all sets) ≡ 0
  unfolding cancel_all
  count_runs-cancel_all [] job = refl
  count_runs-cancel_all ((name, sp) ∷ sets) job = count_runs-cancel_all sets job

  count_cancels-cancel_all :
      (sets : List (String × ScrapePool S H T)) (job : String)
      → Unique sets
      → count_cancels job (cancel_all sets) ≡ one_if (has (lookup job sets))
  unfolding cancel_all lookup
  count_cancels-cancel_all [] job u = refl
  count_cancels-cancel_all ((name, sp) ∷ sets) job u =
      ground (arith, string_eq.beq_iff name job, count_cancels-cancel_all sets job u.1, u.0)

  -- how Stop ends: with a panic before Run, and else with each job's target sets cancelled as often as they
  -- were run, so that the wait for them ends
  abbrev pub Stops : TargetManager S H T → Option (TargetManager S H T) → Type 0
  Stops tm none = tm.started ≡ false
  Stops tm (some tm') =
      (tm.started ≡ true)
      × (tm'.target_sets ≡ tm.target_sets)
      × ((job : String) → count_runs job tm'.log ≡ count_cancels job tm'.log)

  -- If the manager is balanced, Stop leaves no target set running: each job's were cancelled as often as
  -- run. If Run has not been called before, and only then, Stop panics.
  pub stop_manager-Stops :
      (tm : TargetManager S H T) → IsBalanced tm.target_sets tm.log → Stops tm (stop_manager tm)
  unfolding stop_manager
  stop_manager-Stops tm b = go tm.started refl
    where
      stopped : TargetManager S H T
      stopped = record tm { log = tm.log ++ cancel_all tm.target_sets }

      balanced : (job : String) → count_runs job stopped.log ≡ count_cancels job stopped.log
      balanced job = omega (
        arith,
        b.balance job,
        count_runs-append job tm.log (cancel_all tm.target_sets),
        count_runs-cancel_all tm.target_sets job,
        count_cancels-append job tm.log (cancel_all tm.target_sets),
        count_cancels-cancel_all tm.target_sets job b.unique,
      )

      go :
          (started : Bool)
          → tm.started ≡ started
          → Stops tm (if started then some stopped else none)
      go true e = (e, refl, balanced)
      go false e = e
