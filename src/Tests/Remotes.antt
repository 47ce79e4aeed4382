-- ===== src/Tests/Remotes.antt =====
-- Runs of the theorems on the queue manager's shards, the clients and the reader.
use promeproxy.Common.{
  string_eq, nat_eq, ℕ, suc, ◌+◌, ◌-◌, ◌*◌, ◌/◌, String, ◌≡◌, refl, ◌↔◌, ◌⊎◌, inl, true, false,
  none, some, List, [], ◌∷◌, ltb, leb, length, ℤ, pos, pos_part,
}
use promeproxy.Model.{LabelSet, SampleStream, Sample}
use promeproxy.Floats.{Floats}
use promeproxy.Metric.Matcher.{equal, LabelMatcher}
use promeproxy.Remote.Ewma.{EwmaRate}
use promeproxy.Remote.Queue.Backoff.{default_config, recoverable}
use promeproxy.Remote.Queue.Manager.{QueueManager, measured, calculate_desired_shards}
use promeproxy.Remote.Queue.Manager.Laws.{Asks, calculate_desired_shards-Asks}
use promeproxy.Remote.Client.{TimeSeries, write_request, Answer, status, store}
use promeproxy.Remote.Client.Laws.{IsSuccess, IsRetryable, store-answers}
use promeproxy.Remote.Read.{read_querier}
use promeproxy.Remote.Read.Laws.{added_label, StripsAll, read_querier-StripsAll}

-- Whole numbers in place of floats, every operation rounding down.
abbrev pub whole : Floats ℕ
whole = record {
  constant = λ n d. n / d;
  of_int = pos_part;
  add = λ a b. a + b;
  sub = λ a b. a - b;
  mul = λ a b. a * b;
  div = λ a b. a / b;
  le = leb;
  lt = ltb;
  ceil = pos;
}

abbrev rate_of : ℕ → EwmaRate ℕ
rate_of n = record {
  new_events = n;
  alpha = 0;
  interval = 10;
  last_rate = 0;
  init = false;
  ticked = 0;
}

-- A manager whose shard sent ten samples in no measurable time.
abbrev quick_manager : List (List (Sample ℕ)) → QueueManager ℕ ℕ
quick_manager shards = record {
  cfg = default_config;
  external_labels = ("region", "eu") ∷ [];
  shards = shards;
  num_shards = pos 1;
  samples_in = rate_of 0;
  samples_out = rate_of 10;
  samples_out_duration = rate_of 0;
  integral_accumulator = 0;
  queue_length = pos 0;
  dropped = 0;
}

abbrev sample : Sample ℕ
sample = record { metric = ("job", "a") ∷ []; value = 7; timestamp = pos 3 }

abbrev managed : QueueManager ℕ ℕ
managed = quick_manager ([] ∷ [])

calculate_desired_shards-Asks_example :
    Asks whole (measured whole 0 0 0 managed) (calculate_desired_shards whole true 0 0 0 managed)
    × ((measured whole 0 0 0 managed).num_shards ≡ pos 1)
    × ((measured whole 0 0 0 managed).cfg ≡ default_config)
calculate_desired_shards-Asks_example = calculate_desired_shards-Asks whole true 0 0 0 managed

abbrev encode : List (TimeSeries ℕ) → ℕ ⊎ String
encode ts = inl (length ts)

abbrev to_request : ℕ → ℕ ⊎ String
to_request n = inl n

abbrev unavailable : Answer String
unavailable = status 503 ""

store-answers_example :
    ((store encode suc to_request (λ q. unavailable) (sample ∷ []) ≡ none) ↔ IsSuccess unavailable)
    × ((store encode suc to_request (λ q. unavailable) (sample ∷ []) ≡ some recoverable)
        ↔ IsRetryable unavailable)
unfolding write_request
store-answers_example =
    store-answers encode suc to_request (λ q. unavailable) (sample ∷ []) unavailable
      (1, 2, refl, refl, refl)

abbrev equal_matcher : String → String → LabelMatcher Unit ℕ
equal_matcher name value = record { type = equal; name = name; value = value; re = none; score = 0 }

abbrev asked : List (LabelMatcher Unit ℕ)
asked = equal_matcher "job" "a" ∷ []

abbrev external : LabelSet
external = ("region", "eu") ∷ ("job", "x") ∷ []

abbrev answer_series : List (SampleStream ℕ)
answer_series = record { metric = ("job", "a") ∷ ("region", "eu") ∷ []; values = [] } ∷ []

abbrev client_read : ℤ → ℤ → List (LabelMatcher Unit ℕ) → List (SampleStream ℕ) ⊎ String
client_read from through matchers = inl answer_series

read_querier-StripsAll_example :
    (out : List (SampleStream ℕ)) × (read_querier equal_matcher client_read external
        (pos 1)
        (pos 2)
        asked
      ≡ inl out)
    × StripsAll (added_label external asked) answer_series out
read_querier-StripsAll_example =
    read_querier-StripsAll equal_matcher client_read external (pos 1) (pos 2) asked answer_series
      refl
