-- ===== src/Retrieval/Manager/Laws.antt =====
-- reload of retrieval/targetmanager.go: the target sets that there are, and what the log says of them.
use promeproxy.Common.{
  string_eq, ◌+◌, String, ◌≡◌, refl, ap, ◌∙◌, ◌⊎◌, inl, inr, true, Option, none, some, List, [],
  ◌∷◌, ◌++◌, arith, if◌then◌else◌, ◌==◌, Bool-cases, Option-cases, has, lookup, lookup-insert,
  Unique, insert-Unique,
}
use promeproxy.Retrieval.Scrape.{ScrapePool, new_scrape_pool, reload}
use promeproxy.Retrieval.Manager.{
  ScrapeConfig, Action, runs, updates, TargetManager, has_job, reload_one, reload_all, remove_old,
  reload_manager,
}
use promeproxy.Retrieval.Manager.Counts.{
  count_runs, count_cancels, count_runs-append, count_cancels-append, one_if,
}

module _ {S H T : Type 0} where
  -- Each job that has a target set was run once more than it was cancelled, each other as often; and no
  -- job has two target sets.
  pub record IsBalanced (sets : List (String × ScrapePool S H T)) (log : List (Action S))
      : Type 0 where
    pub unique : Unique sets
    pub balance :
        (job : String) → count_runs job log ≡ count_cancels job log + one_if (has (lookup job sets))

  pub lookup-remove_old :
      (scfgs : List (ScrapeConfig S)) (sets : List (String × ScrapePool S H T)) (job : String)
      → lookup job (remove_old scfgs sets).0 ≡ (if has_job job scfgs then lookup job sets else none)
  unfolding lookup remove_old
  lookup-remove_old scfgs [] job = ground arith
  lookup-remove_old scfgs ((name, sp) ∷ sets) job =
      ground (arith, string_eq.beq_iff name job, lookup-remove_old scfgs sets job)

  remove_old-Unique :
      (scfgs : List (ScrapeConfig S)) (sets : List (String × ScrapePool S H T))
      → Unique sets
      → Unique (remove_old scfgs sets).0
  unfolding remove_old
  remove_old-Unique scfgs [] u = tt
  remove_old-Unique scfgs ((name, sp) ∷ sets) u =
      ground (arith, remove_old-Unique scfgs sets u.1, lookup-remove_old scfgs sets name, u.0)

  pub count_cancels-remove_old :
      (scfgs : List (ScrapeConfig S)) (sets : List (String × ScrapePool S H T)) (job : String)
      → Unique sets
      → (count_cancels job (remove_old scfgs sets).1
          ≡ (if has_job job scfgs then 0 else one_if (has (lookup job sets))))
        × (count_runs job (remove_old scfgs sets).1 ≡ 0)
  unfolding lookup remove_old
  count_cancels-remove_old scfgs [] job u = ground arith
  count_cancels-remove_old scfgs ((name, sp) ∷ sets) job u =
      ground (arith, string_eq.beq_iff name job, count_cancels-remove_old scfgs sets job u.1, u.0)

module _ {S H T E : Type 0} (new_client : S → H ⊎ E) where
  -- a pool as one configuration of its job leaves it
  abbrev pub renewed : S → Option (ScrapePool S H T) → ScrapePool S H T
  renewed cfg none = new_scrape_pool cfg
  renewed cfg (some sp) = reload new_client cfg sp

  -- a job's pool after the configurations: made or reloaded by each that names the job, in order
  abbrev pub configured :
      String → List (ScrapeConfig S) → Option (ScrapePool S H T) → Option (ScrapePool S H T)
  configured job [] o = o
  configured job (scfg ∷ scfgs) o =
      configured job scfgs (if scfg.job_name == job then some (renewed scfg.scrape o) else o)

  pub lookup-reload_one :
      (scfg : ScrapeConfig S) (sets : List (String × ScrapePool S H T)) (log : List (Action S))
      (job : String)
      → lookup job (reload_one new_client scfg (sets, log)).0 ≡ (
          if scfg.job_name == job
          then some (renewed scfg.scrape (lookup job sets))
          else lookup job sets)
  unfolding reload_one
  lookup-reload_one scfg sets log job = elim (Option-cases (lookup scfg.job_name sets)) [
    | inl e ↦
        rw (e, reload_one, lookup-insert scfg.job_name job (new_scrape_pool scfg.scrape) sets)
          (ground (arith, string_eq.beq_iff scfg.job_name job))
    | inr (sp, e) ↦
        rw (e, reload_one, lookup-insert scfg.job_name job (reload new_client scfg.scrape sp) sets)
          (ground (arith, string_eq.beq_iff scfg.job_name job))
  ]

  pub lookup-reload_all :
      (scfgs : List (ScrapeConfig S)) (sets : List (String × ScrapePool S H T))
      (log : List (Action S)) (job : String)
      → lookup job (reload_all new_client scfgs (sets, log)).0
        ≡ configured job scfgs (lookup job sets)
  unfolding reload_all
  lookup-reload_all [] sets log job = refl
  lookup-reload_all (scfg ∷ scfgs) sets log job =
      lookup-reload_all scfgs (reload_one new_client scfg (sets, log)).0
        (reload_one new_client scfg (sets, log)).1 job
      ∙ ap (configured job scfgs) (lookup-reload_one scfg sets log job)

  -- After a reload exactly the configured jobs have a pool: the old pool of the job, or a new one, as
  -- each configuration of the job reloads it in turn.
  pub lookup-reload_manager :
      (tm : TargetManager S H T) (job : String)
      → lookup job (reload_manager new_client tm).target_sets ≡ (
          if has_job job tm.scrape_configs
          then configured job tm.scrape_configs (lookup job tm.target_sets)
          else none)
  unfolding reload_manager
  lookup-reload_manager tm job =
      lookup-remove_old tm.scrape_configs
        (reload_all new_client tm.scrape_configs (tm.target_sets, tm.log)).0 job
      ∙ rw (lookup-reload_all tm.scrape_configs tm.target_sets tm.log job)

  configured-targets :
      (job : String) (scfgs : List (ScrapeConfig S)) (sp : ScrapePool S H T)
      → (sp' : ScrapePool S H T) × (configured job scfgs (some sp) ≡ some sp')
        × (sp'.targets ≡ sp.targets)
  unfolding reload
  configured-targets job [] sp = (sp, refl, refl)
  configured-targets job (scfg ∷ scfgs) sp = elim (Bool-cases (scfg.job_name == job)) [
    | inl e ↦ rw e (configured-targets job scfgs (reload new_client scfg.scrape sp))
    | inr e ↦ rw e (configured-targets job scfgs sp)
  ]

  -- A job that is configured and has a pool keeps its targets over a reload.
  pub reload_manager-targets :
      (tm : TargetManager S H T) (job : String) (sp : ScrapePool S H T)
      → has_job job tm.scrape_configs ≡ true
      → lookup job tm.target_sets ≡ some sp
      → (sp' : ScrapePool S H T) × (lookup job (reload_manager new_client tm).target_sets
          ≡ some sp')
        × (sp'.targets ≡ sp.targets)
  reload_manager-targets tm job sp h e =
      let (sp', p, q) = configured-targets job tm.scrape_configs sp in
      (sp', lookup-reload_manager tm job ∙ rw (h, e) p, q)

  reload_one-IsBalanced :
      (scfg : ScrapeConfig S) (sets : List (String × ScrapePool S H T)) (log : List (Action S))
      → IsBalanced sets log
      → let (sets', log') = reload_one new_client scfg (sets, log) in IsBalanced sets' log'
  unfolding reload_one
  reload_one-IsBalanced scfg sets log v = elim (Option-cases (lookup scfg.job_name sets)) [
    | inl e ↦
        rw (e, reload_one)
          record {
            unique = insert-Unique scfg.job_name (new_scrape_pool scfg.scrape) sets v.unique;
            balance = λ job. ground (
              arith,
              string_eq.beq_iff scfg.job_name job,
              v.balance job,
              lookup-insert scfg.job_name job (new_scrape_pool scfg.scrape) sets,
              count_runs-append job log
                  (runs scfg.job_name ∷ updates scfg.job_name scfg.scrape ∷ []),
              count_cancels-append job log
                  (runs scfg.job_name ∷ updates scfg.job_name scfg.scrape ∷ []),
            );
          }
    | inr (sp, e) ↦
        rw (e, reload_one)
          record {
            unique = insert-Unique scfg.job_name (reload new_client scfg.scrape sp) sets v.unique;
            balance = λ job. ground (
              arith,
              string_eq.beq_iff scfg.job_name job,
              v.balance job,
              lookup-insert scfg.job_name job (reload new_client scfg.scrape sp) sets,
              count_runs-append job log (updates scfg.job_name scfg.scrape ∷ []),
              count_cancels-append job log (updates scfg.job_name scfg.scrape ∷ []),
            );
          }
  ]

  pub reload_all-IsBalanced :
      (scfgs : List (ScrapeConfig S)) (sets : List (String × ScrapePool S H T))
      (log : List (Action S))
      → IsBalanced sets log
      → let (sets', log') = reload_all new_client scfgs (sets, log) in IsBalanced sets' log'
  unfolding reload_all
  reload_all-IsBalanced [] sets log v = v
  reload_all-IsBalanced (scfg ∷ scfgs) sets log v =
      reload_all-IsBalanced scfgs (reload_one new_client scfg (sets, log)).0
        (reload_one new_client scfg (sets, log)).1 (reload_one-IsBalanced scfg sets log v)

  -- A reload keeps the balance: each target set that comes is run once, each that goes is cancelled once,
  -- and each that stays is neither run nor cancelled again.
  pub reload_manager-IsBalanced :
      (tm : TargetManager S H T)
      → IsBalanced tm.target_sets tm.log
      → let tm' = reload_manager new_client tm in IsBalanced tm'.target_sets tm'.log
  unfolding reload_manager
  reload_manager-IsBalanced tm v =
      removed (reload_all new_client tm.scrape_configs (tm.target_sets, tm.log)).0
        (reload_all new_client tm.scrape_configs (tm.target_sets, tm.log)).1
        (reload_all-IsBalanced tm.scrape_configs tm.target_sets tm.log v)
    where
      removed :
          (sets : List (String × ScrapePool S H T)) (log : List (Action S))
          → IsBalanced sets log
          → IsBalanced
              (remove_old tm.scrape_configs sets).0
              (log ++ (remove_old tm.scrape_configs sets).1)
      removed sets log b = record {
        unique = remove_old-Unique tm.scrape_configs sets b.unique;
        balance = λ job. ground (
          arith,
          b.balance job,
          lookup-remove_old tm.scrape_configs sets job,
          count_cancels-remove_old tm.scrape_configs sets job b.unique,
          count_runs-append job log (remove_old tm.scrape_configs sets).1,
          count_cancels-append job log (remove_old tm.scrape_configs sets).1,
        );
      }
