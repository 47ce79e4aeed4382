-- ===== src/Tests/Scrapes.antt =====
-- Runs of the theorems on retrieval.
use promeproxy.Common.{
  string_eq, nat_eq, ℕ, ◌+◌, ◌%◌, String, ◌≡◌, refl, subst, ◌⊎◌, inl, inr, true, none, some, [],
  ◌∷◌, ◌==◌, Bool-cases, has, lookup, insert, fill,
}
use promeproxy.Model.{LabelSet}
use promeproxy.Retrieval.Scrape.{ScrapePool, sync}
use promeproxy.Retrieval.Scrape.Laws.{lookup-sync}
use promeproxy.Retrieval.Manager.{runs, TargetManager, reload_manager}
use promeproxy.Retrieval.Manager.Counts.{count_runs, count_cancels, one_if}
use promeproxy.Retrieval.Manager.Laws.{IsBalanced}
use promeproxy.Retrieval.Manager.Reload.{Reloads, reload_manager-Reloads}
use promeproxy.Retrieval.Manager.Stop.{stop_manager, Stops, stop_manager-Stops}
use promeproxy.Retrieval.Target.{
  TargetConfig, scrape_labels, Outside, with_port, strip_meta, default_instance, finish_labels,
  check_labels, populate_labels,
}
use promeproxy.Retrieval.Target.Laws.{IsTarget, populate_labels-IsTarget}

-- Targets are numbers, and their hash is the last digit.
abbrev digit : ℕ → ℕ
digit n = n % 10

abbrev pool : ScrapePool ℕ ℕ ℕ
pool = record { config = 5; client = none; targets = (1, 11) ∷ (2, 12) ∷ [] }

lookup-sync_example : lookup 1 (sync digit (21 ∷ 33 ∷ []) pool).targets ≡ some 11
unfolding lookup
lookup-sync_example = lookup-sync digit (21 ∷ 33 ∷ []) pool 1

-- Job "a" stays, "b" goes and "c" comes.
abbrev scrape_manager : TargetManager ℕ ℕ ℕ
scrape_manager = record {
  scrape_configs =
      record { job_name = "a"; scrape = 7 } ∷ record { job_name = "c"; scrape = 8 } ∷ [];
  started = true;
  target_sets = ("a", pool) ∷ ("b", pool) ∷ [];
  log = runs "a" ∷ runs "b" ∷ [];
}

abbrev http : ℕ → ℕ ⊎ String
http n = inl n

abbrev Balances : String → Type 0
Balances job =
    count_runs job scrape_manager.log
    ≡ count_cancels job scrape_manager.log + one_if (has (lookup job scrape_manager.target_sets))

balance_of : (job : String) → Balances job
unfolding lookup
balance_of job = elim (Bool-cases ("a" == job)) [
  | inl e ↦ subst Balances ((string_eq.beq_iff "a" job).0 e) refl
  | inr e ↦ elim (Bool-cases ("b" == job)) [
    | inl g ↦ subst Balances ((string_eq.beq_iff "b" job).0 g) refl
    | inr g ↦ rw (e, g) refl
  ]
]

scrape_manager-IsBalanced : IsBalanced scrape_manager.target_sets scrape_manager.log
unfolding lookup
scrape_manager-IsBalanced = record { unique = (refl, (refl, tt)); balance = balance_of }

reload_manager-Reloads_example :
    IsBalanced
      (reload_manager http scrape_manager).target_sets
      (reload_manager http scrape_manager).log
    × Reloads http scrape_manager (reload_manager http scrape_manager) "b"
reload_manager-Reloads_example =
    reload_manager-Reloads http scrape_manager "b" scrape_manager-IsBalanced

abbrev outside : Outside
outside = record {
  process = some;
  splits = λ s. s == "host:1234";
  address_ok = λ s. true;
  valid = λ s. true;
}

abbrev http_config : TargetConfig
http_config = record { scheme = "http"; metrics_path = "/metrics"; job_name = "a"; params = [] }

abbrev discovered : LabelSet
discovered = ("__address__", "host") ∷ ("__meta_zone", "z") ∷ []

abbrev before_relabelling : LabelSet
before_relabelling =
    ("__address__", "host")
    ∷ ("__meta_zone", "z")
    ∷ ("__scheme__", "http")
    ∷ ("__metrics_path__", "/metrics")
    ∷ ("job", "a")
    ∷ []

abbrev final_labels : LabelSet
final_labels =
    ("__address__", "host:80")
    ∷ ("__scheme__", "http")
    ∷ ("__metrics_path__", "/metrics")
    ∷ ("job", "a")
    ∷ ("instance", "host:80")
    ∷ []

populate_labels-IsTarget_example :
    IsTarget outside final_labels × (before_relabelling ≡ scrape_labels http_config discovered)
unfolding populate_labels scrape_labels check_labels finish_labels with_port strip_meta
    default_instance lookup insert fill
populate_labels-IsTarget_example =
    populate_labels-IsTarget outside discovered http_config final_labels before_relabelling refl

stop_manager-Stops_example : Stops scrape_manager (stop_manager scrape_manager)
stop_manager-Stops_example = stop_manager-Stops scrape_manager scrape_manager-IsBalanced
