-- ===== src/Tests/Pipeline.antt =====
-- Runs of the theorems on the way of a sample to the remote storages and back.
use promeproxy.Common.{
  string_eq, ℕ, ◌≡◌, refl, sym, subst, inl, inr, true, false, some, List, [], ◌∷◌, arith, ◌==◌,
  Bool-cases, pos, has, lookup, Unique,
}
use promeproxy.Common.{string_eq}
use promeproxy.Model.{LabelSet, SampleStream, Sample}
use promeproxy.Labels.{IsApart, as_written, as_maps, remove_labels-as_written}
use promeproxy.Remote.Read.{remove_labels}
use promeproxy.Remote.Queue.Backoff.{default_config}
use promeproxy.Remote.Queue.Lifecycle.{new_manager}
use promeproxy.Remote.Pipeline.Turns.{append_each, SimulatesAll, append_each-Simulates}
use promeproxy.Remote.Queue.Manager.{QueueManager, new_queue_manager}
use promeproxy.Remote.Queue.Shards.{new_shards}
use promeproxy.Tests.Remotes.{whole}

abbrev region : LabelSet
region = ("region", "eu") ∷ []

-- A sample of job "a".
abbrev ingested : Sample ℕ
ingested = record { metric = ("job", "a") ∷ []; value = 7; timestamp = pos 1 }

abbrev keeping : QueueManager ℕ ℕ
keeping = new_queue_manager whole default_config region

region-Unique : Unique region
unfolding lookup
region-Unique = (refl, tt)

append_each-Simulates_example :
    (u : QueueManager ℕ ℕ) × (append_each whole
        (λ m. 3)
        (λ m. some m)
        (ingested ∷ ingested ∷ [])
        keeping
      ≡ some u)
    × SimulatesAll whole (λ m. 3) (λ m. some m) (ingested ∷ ingested ∷ []) new_manager keeping u
unfolding new_queue_manager new_shards
append_each-Simulates_example =
    append_each-Simulates whole (λ m. 3) (λ m. some m) (ingested ∷ ingested ∷ []) keeping
      new_manager (omega arith) refl

-- A stream of job "a", and one without labels.
abbrev stored : List (SampleStream ℕ)
stored =
    record { metric = ("job", "a") ∷ []; values = record { timestamp = pos 1; value = 7 } ∷ [] }
    ∷ record { metric = []; values = [] }
    ∷ []

job-IsApart : IsApart region (("job", "a") ∷ [])
unfolding lookup
job-IsApart ln h = elim (Bool-cases ("job" == ln)) [
  | inl e ↦
      let impossible : false ≡ true =
        subst (λ l. has (lookup l region) ≡ true) (sym ((string_eq.beq_iff "job" ln).0 e)) h in
      cc
  | inr e ↦ rw (e) refl
]

remove_labels-as_written_example :
    as_maps (remove_labels (as_written region stored) region) ≡ as_maps stored
unfolding lookup
remove_labels-as_written_example =
    remove_labels-as_written region stored region-Unique (job-IsApart, ((λ ln h. refl), tt))
