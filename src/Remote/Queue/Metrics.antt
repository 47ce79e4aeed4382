-- ===== src/Remote/Queue/Metrics.antt =====
-- The metrics of storage/remote/queue_manager.go, and their registration by init.
use text.Mathlib.Text.{starts_with}
use promeproxy.Common.{
  String, ◌≡◌, refl, sym, ◌∙◌, subst, inl, inr, Bool, true, false, not, Option, none, some, List,
  [], ◌∷◌, if◌then◌else◌, ◌==◌, string_eq, Bool-cases, str_append, All, has,
}
use promeproxy.Common.{string_eq}

pub data Kind : Type 0 where
  counter gauge histogram : Kind

-- The options of a collector with one variable label: CounterOpts, GaugeOpts or HistogramOpts; the buckets of the
-- histogram are the library's own.
pub record Opts : Type 0 where
  pub kind : Kind
  pub name : String
  pub help : String

-- the constants namespace, subsystem and queue
abbrev pub namespace : String
namespace = "prometheus"

abbrev pub subsystem : String
subsystem = "remote_storage"

abbrev pub queue : String
queue = "queue"

-- the collectors that init registers, in order, each with the label `queue`
abbrev pub queue_metrics : List Opts
queue_metrics =
    record {
      kind = counter;
      name = "succeeded_samples_total";
      help = "Total number of samples successfully sent to remote storage.";
    }
    ∷ record {
      kind = counter;
      name = "failed_samples_total";
      help = "Total number of samples which failed on send to remote storage.";
    }
    ∷ record {
      kind = counter;
      name = "dropped_samples_total";
      help = "Total number of samples which were dropped due to the queue being full.";
    }
    ∷ record {
      kind = histogram;
      name = "sent_batch_duration_seconds";
      help = "Duration of sample batch send calls to the remote storage.";
    }
    ∷ record {
      kind = gauge;
      name = "queue_length";
      help = "The number of processed samples queued to be sent to the remote storage.";
    }
    ∷ record {
      kind = gauge;
      name = "queue_capacity";
      help = "The capacity of the queue of samples to be sent to the remote storage.";
    }
    ∷ record {
      kind = gauge;
      name = "shards";
      help = "The number of shards used for parallel sending to the remote storage.";
    }
    ∷ []

-- the name under which a collector is registered, as the library builds it
unfoldable pub full_name : Opts → String
full_name o = str_append namespace (str_append "_" (str_append subsystem (str_append "_" o.name)))

-- a name is registered
unfoldable pub is_taken : String → List String → Bool
is_taken name [] = false
is_taken name (n ∷ names) = if n == name then true else is_taken name names

-- the calls of MustRegister, with the names that are registered; none is its panic for a name that is taken
unfoldable pub must_register : List Opts → List String → Option (List String)
unfolding full_name is_taken
must_register [] names = some names
must_register (o ∷ os) names =
    let rest = must_register os (full_name o ∷ names) in
    if is_taken (full_name o) names then none else rest

abbrev pub starts_apart : String → Bool
starts_apart name = not (starts_with name "prometheus_remote_storage_")

-- no name starts with the namespace and the subsystem
abbrev pub AreApart : List String → Type 0
AreApart = All (λ name. starts_apart name ≡ true)

is_taken-apart :
    (name : String) (names : List String)
    → starts_apart name ≡ false
    → AreApart names
    → is_taken name names ≡ false
unfolding is_taken
is_taken-apart name [] h a = refl
is_taken-apart name (n ∷ names) h (p, a) = elim (Bool-cases (n == name)) [
  | inl e ↦
      let impossible : false ≡ true =
        sym h ∙ subst (λ x. starts_apart x ≡ true) ((string_eq.beq_iff n name).0 e) p in
      cc
  | inr e ↦ rw (e) (is_taken-apart name names h a)
]

-- init registers its collectors without a panic, if no name that is registered before starts with the namespace
-- and the subsystem.
pub must_register-queue_metrics :
    (names : List String) → AreApart names → has (must_register queue_metrics names) ≡ true
unfolding must_register full_name is_taken
must_register-queue_metrics names a =
    rw
      (
        is_taken-apart "prometheus_remote_storage_succeeded_samples_total" names refl a,
        is_taken-apart "prometheus_remote_storage_failed_samples_total" names refl a,
        is_taken-apart "prometheus_remote_storage_dropped_samples_total" names refl a,
        is_taken-apart "prometheus_remote_storage_sent_batch_duration_seconds" names refl a,
        is_taken-apart "prometheus_remote_storage_queue_length" names refl a,
        is_taken-apart "prometheus_remote_storage_queue_capacity" names refl a,
        is_taken-apart "prometheus_remote_storage_shards" names refl a,
      )
      refl
