-- ===== src/Retrieval/Manager.antt =====
-- retrieval/targetmanager.go: a target set for each job. The discovery library, which runs the target
-- sets, is told what to do through a log.
pub mod Counts
pub mod Laws
pub mod Reload
pub mod Stop
use promeproxy.Common.{
  string_eq, String, ◌⊎◌, Bool, true, false, ◌||◌, none, some, List, [], ◌∷◌, ◌++◌, map,
  if◌then◌else◌, ◌==◌, lookup, insert,
}
use promeproxy.Retrieval.Scrape.{ScrapePool, new_scrape_pool, reload}

-- config.ScrapeConfig, as far as the manager reads it
pub record ScrapeConfig (S : Type 0) : Type 0 where
  pub job_name : String
  pub scrape : S

-- The calls on a job's target set: Run, in a goroutine of its own, UpdateProviders, and cancel.
pub data Action (S : Type 0) : Type 0 where
  runs cancels : String → Action S
  updates : String → S → Action S

-- TargetManager. `started` says that its context has been set, which Run does.
pub record TargetManager (S H T : Type 0) : Type 0 where
  pub scrape_configs : List (ScrapeConfig S)
  pub started : Bool
  pub target_sets : List (String × ScrapePool S H T)
  pub log : List (Action S)

-- a job is in the set jobs
abbrev pub has_job : {S : Type 0} → String → List (ScrapeConfig S) → Bool
has_job job [] = false
has_job job (scfg ∷ scfgs) = scfg.job_name == job || has_job job scfgs

module _ {S H T E : Type 0} (new_client : S → H ⊎ E) where
  -- One round of the loop that starts and updates target sets.
  unfoldable pub reload_one :
      ScrapeConfig S
      → List (String × ScrapePool S H T) × List (Action S)
      → List (String × ScrapePool S H T) × List (Action S)
  unfolding new_scrape_pool reload
  reload_one scfg (sets, log) = elim (lookup scfg.job_name sets) [
    | none ↦ (
      insert scfg.job_name (new_scrape_pool scfg.scrape) sets,
      log ++ runs scfg.job_name ∷ updates scfg.job_name scfg.scrape ∷ [],
    )
    | some sp ↦ (
      insert scfg.job_name (reload new_client scfg.scrape sp) sets,
      log ++ updates scfg.job_name scfg.scrape ∷ [],
    )
  ]

  unfoldable pub reload_all :
      List (ScrapeConfig S)
      → List (String × ScrapePool S H T) × List (Action S)
      → List (String × ScrapePool S H T) × List (Action S)
  unfolding reload_one
  reload_all [] state = state
  reload_all (scfg ∷ scfgs) state = reload_all scfgs (reload_one scfg state)

module _ {S H T : Type 0} where
  -- The loop that removes old target sets.
  unfoldable pub remove_old :
      List (ScrapeConfig S)
      → List (String × ScrapePool S H T)
      → List (String × ScrapePool S H T) × List (Action S)
  remove_old scfgs [] = ([], [])
  remove_old scfgs ((name, sp) ∷ sets) =
      let (kept, log) = remove_old scfgs sets in
      if has_job name scfgs then ((name, sp) ∷ kept, log) else (kept, cancels name ∷ log)

module _ {S H T E : Type 0} (new_client : S → H ⊎ E) where
  -- TargetManager.reload
  unfoldable pub reload_manager : TargetManager S H T → TargetManager S H T
  unfolding reload_all remove_old
  reload_manager tm =
      let (sets, log) = reload_all new_client tm.scrape_configs (tm.target_sets, tm.log) in
      let (kept, cancelled) = remove_old tm.scrape_configs sets in
      record tm { target_sets = kept; log = log ++ cancelled }

  -- TargetManager.Run, up to its wait
  unfoldable pub run_manager : TargetManager S H T → TargetManager S H T
  unfolding reload_manager
  run_manager tm = reload_manager (record tm { started = true })

  -- TargetManager.ApplyConfig, whose error is always nil
  unfoldable pub apply_config : List (ScrapeConfig S) → TargetManager S H T → TargetManager S H T
  unfolding reload_manager
  apply_config scfgs tm =
      let next = record tm { scrape_configs = scfgs } in
      if tm.started then reload_manager next else next

module _ {S H T : Type 0} where
  -- NewTargetManager
  unfoldable pub new_target_manager : TargetManager S H T
  new_target_manager = record { scrape_configs = []; started = false; target_sets = []; log = [] }

  -- TargetManager.Targets
  unfoldable pub targets : List (String × ScrapePool S H T) → List T
  targets [] = []
  targets ((name, sp) ∷ sets) = map (λ e. e.1) sp.targets ++ targets sets
