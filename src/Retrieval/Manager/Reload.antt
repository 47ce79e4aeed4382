-- ===== src/Retrieval/Manager/Reload.antt =====
-- reload of retrieval/targetmanager.go: what it tells the discovery library to do.
use promeproxy.Common.{
  string_eq, ◌+◌, String, ◌≡◌, refl, ap, ◌∙◌, ◌⊎◌, inl, inr, Bool, true, false, not, ◌&&◌, ◌||◌,
  Option, none, some, List, [], ◌∷◌, arith, if◌then◌else◌, ◌==◌, Bool-cases, Option-cases, has,
  lookup,
}
use promeproxy.Retrieval.Scrape.{ScrapePool}
use promeproxy.Retrieval.Manager.{
  ScrapeConfig, Action, runs, updates, TargetManager, has_job, reload_one, reload_all, remove_old,
  reload_manager,
}
use promeproxy.Retrieval.Manager.Counts.{
  count_runs, count_cancels, count_runs-append, count_cancels-append, one_if,
}
use promeproxy.Retrieval.Manager.Laws.{
  IsBalanced, count_cancels-remove_old, configured, lookup-reload_one, lookup-reload_all,
  lookup-reload_manager, reload_all-IsBalanced, reload_manager-IsBalanced,
}

has-if :
    {A : Type 0} (b : Bool) (x : A) (o : Option A) → has (if b then some x else o) ≡ (b || has o)
has-if true x o = refl
has-if false x o = refl

one_if-round :
    (b c h : Bool) → one_if (b && not h) + one_if (c && not (b || h)) ≡ one_if ((b || c) && not h)
one_if-round true true true = refl
one_if-round true true false = refl
one_if-round true false true = refl
one_if-round true false false = refl
one_if-round false c h = omega arith

module _ {S H T E : Type 0} (new_client : S → H ⊎ E) where
  -- one round runs its job's target set if there is none, and cancels nothing
  reload_one-counts :
      (scfg : ScrapeConfig S) (sets : List (String × ScrapePool S H T)) (log : List (Action S))
      (job : String)
      → (count_runs job (reload_one new_client scfg (sets, log)).1
          ≡ count_runs job log + one_if (scfg.job_name == job && not (has (lookup job sets))))
        × (count_cancels job (reload_one new_client scfg (sets, log)).1 ≡ count_cancels job log)
  unfolding reload_one
  reload_one-counts scfg sets log job = elim (Option-cases (lookup scfg.job_name sets)) [
    | inl e ↦
        rw (e, reload_one)
          (ground (
            arith,
            e,
            string_eq.beq_iff scfg.job_name job,
            count_runs-append job log (runs scfg.job_name ∷ updates scfg.job_name scfg.scrape ∷ []),
            count_cancels-append job log
                (runs scfg.job_name ∷ updates scfg.job_name scfg.scrape ∷ []),
          ))
    | inr (sp, e) ↦
        rw (e, reload_one)
          (ground (
            arith,
            e,
            string_eq.beq_iff scfg.job_name job,
            count_runs-append job log (updates scfg.job_name scfg.scrape ∷ []),
            count_cancels-append job log (updates scfg.job_name scfg.scrape ∷ []),
          ))
  ]

  -- the rounds run the target set of every configured job that has none, once
  reload_all-counts :
      (scfgs : List (ScrapeConfig S)) (sets : List (String × ScrapePool S H T))
      (log : List (Action S)) (job : String)
      → (count_runs job (reload_all new_client scfgs (sets, log)).1
          ≡ count_runs job log + one_if (has_job job scfgs && not (has (lookup job sets))))
        × (count_cancels job (reload_all new_client scfgs (sets, log)).1 ≡ count_cancels job log)
  unfolding reload_all
  reload_all-counts [] sets log job = (omega arith, refl)
  reload_all-counts (scfg ∷ scfgs) sets log job =
      let (sets', log') = reload_one new_client scfg (sets, log) in
      let (r, c) = reload_one-counts scfg sets log job in
      let (rs, cs) = reload_all-counts scfgs sets' log' job in
      let found : has (lookup job sets') ≡ (scfg.job_name == job || has (lookup job sets)) =
        ap has (lookup-reload_one new_client scfg sets log job)
        ∙ has-if (scfg.job_name == job) _ _ in
      (
        rs
            ∙ ap (λ h. count_runs job log' + one_if (has_job job scfgs && not h)) found
            ∙ omega (
              arith,
              r,
              one_if-round (scfg.job_name == job) (has_job job scfgs) (has (lookup job sets)),
            ),
        cs ∙ c,
      )

  configured-other :
      (job : String) (scfgs : List (ScrapeConfig S)) (o : Option (ScrapePool S H T))
      → has_job job scfgs ≡ false
      → configured new_client job scfgs o ≡ o
  configured-other job [] o e = refl
  configured-other job (scfg ∷ scfgs) o e =
      let (p, q) : ((scfg.job_name == job) ≡ false) × (has_job job scfgs ≡ false) = ground arith in
      rw (p) (configured-other job scfgs o q)

  -- What a reload does about a job: its target set is run once if the job is configured and had none, and not
  -- at all otherwise; it is cancelled once if the job had one and is not configured, and not at all otherwise.
  abbrev pub Reloads : TargetManager S H T → TargetManager S H T → String → Type 0
  Reloads tm tm' job =
      (count_runs job tm'.log
        ≡ count_runs job tm.log
          + one_if (has_job job tm.scrape_configs && not (has (lookup job tm.target_sets))))
      × (count_cancels job tm'.log
          ≡ count_cancels job tm.log
            + one_if (has (lookup job tm.target_sets) && not (has_job job tm.scrape_configs)))
      × (lookup job tm'.target_sets ≡ (
          if has_job job tm.scrape_configs
          then configured new_client job tm.scrape_configs (lookup job tm.target_sets)
          else none))

  -- If before each job that has a target set has run it once more than cancelled it, and each other job as often, a
  -- reload keeps this so. It runs exactly the target sets of the configured jobs that had none, once
  -- each, cancels exactly those of the jobs that are configured no more, once each, and neither runs nor cancels
  -- one that stays; exactly the configured jobs have a pool then, made or reloaded by each configuration
  -- of the job in turn.
  pub reload_manager-Reloads :
      (tm : TargetManager S H T) (job : String)
      → IsBalanced tm.target_sets tm.log
      → IsBalanced (reload_manager new_client tm).target_sets (reload_manager new_client tm).log
        × Reloads tm (reload_manager new_client tm) job
  unfolding reload_manager
  reload_manager-Reloads tm job v =
      let (sets, log) = reload_all new_client tm.scrape_configs (tm.target_sets, tm.log) in
      let (r, c) = reload_all-counts tm.scrape_configs tm.target_sets tm.log job in
      let u = (reload_all-IsBalanced new_client tm.scrape_configs tm.target_sets tm.log v).unique in
      let (cs, rs) = count_cancels-remove_old tm.scrape_configs sets job u in
      (
        reload_manager-IsBalanced new_client tm v,
        (
          omega (arith, r, rs, count_runs-append job log (remove_old tm.scrape_configs sets).1),
          count_cancels-append job log (remove_old tm.scrape_configs sets).1
              ∙ ap (λ n. count_cancels job log + n) (cs ∙ gone)
              ∙ omega (arith, c),
          lookup-reload_manager new_client tm job,
        ),
      )
    where
      gone :
          (if has_job job tm.scrape_configs
            then 0
            else one_if (
                has (
                  lookup job (reload_all new_client tm.scrape_configs (tm.target_sets, tm.log)).0)))
          ≡ one_if (has (lookup job tm.target_sets) && not (has_job job tm.scrape_configs))
      gone = elim (Bool-cases (has_job job tm.scrape_configs)) [
        | inl e ↦ rw (e) (ground arith)
        | inr e ↦
            rw
              (
                e,
                lookup-reload_all new_client tm.scrape_configs tm.target_sets tm.log job,
                configured-other job tm.scrape_configs (lookup job tm.target_sets) e,
              )
              (ground arith)
      ]
