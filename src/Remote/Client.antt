-- ===== src/Remote/Client.antt =====
-- storage/remote/client.go: a client of one remote HTTP endpoint. Protocol buffers, snappy and the HTTP
-- client are parameters.
pub mod Laws
pub mod Matchers
use promeproxy.Common.{
  string_eq, ℕ, ◌/◌, String, ◌⊎◌, inl, inr, Option, none, some, List, [], ◌∷◌, nat_eqb,
  if◌then◌else◌, str_append, set, ℤ, quot, insert,
}
use promeproxy.Model.{LabelSet, SamplePair, SampleStream, Sample}
use promeproxy.Metric.Matcher.{LabelMatcher}
use promeproxy.Remote.Queue.Backoff.{StoreError, recoverable, other}

-- Client and clientConfig; `H` and `G` are the HTTP client and its configuration.
pub record Client (H : Type 0) : Type 0 where
  pub index : ℕ
  pub url : String
  pub client : H
  pub timeout : ℕ

pub record ClientConfig (G : Type 0) : Type 0 where
  pub url : String
  pub timeout : ℕ
  pub http_client_config : G

-- NewClient
unfoldable pub new_client : {H G E : Type 0} → (G → H ⊎ E) → ℕ → ClientConfig G → Client H ⊎ E
new_client new_http_client index conf = elim (new_http_client conf.http_client_config) [
  | inr err ↦ inr err
  | inl h ↦ inl (record { index = index; url = conf.url; client = h; timeout = conf.timeout })
]

-- The protocol's LabelPair, Sample and TimeSeries.
pub record LabelPair : Type 0 where
  pub name : String
  pub value : String

pub record TimeSeries (V : Type 0) : Type 0 where
  pub labels : List LabelPair
  pub samples : List (SamplePair V)

abbrev pub label_pairs : LabelSet → List LabelPair
label_pairs [] = []
label_pairs ((k, v) ∷ m) = record { name = k; value = v } ∷ label_pairs m

-- labelPairsToMetric
unfoldable pub insert_pairs : List LabelPair → LabelSet → LabelSet
insert_pairs [] m = m
insert_pairs (l ∷ ls) m = insert_pairs ls (insert l.name l.value m)

unfoldable pub label_pairs_to_metric : List LabelPair → LabelSet
unfolding insert_pairs
label_pairs_to_metric ls = insert_pairs ls []

module _ {V : Type 0} where
  -- the body of the loop in Store
  unfoldable pub time_series : Sample V → TimeSeries V
  time_series s = record {
    labels = label_pairs s.metric;
    samples = record { timestamp = s.timestamp; value = s.value } ∷ [];
  }

  unfoldable pub write_request : List (Sample V) → List (TimeSeries V)
  unfolding time_series
  write_request [] = []
  write_request (s ∷ ss) = time_series s ∷ write_request ss

  -- matrixFromProto
  unfoldable pub matrix_from_proto : List (TimeSeries V) → List (SampleStream V)
  unfolding label_pairs_to_metric
  matrix_from_proto [] = []
  matrix_from_proto (ts ∷ set) =
      record { metric = label_pairs_to_metric ts.labels; values = ts.samples }
      ∷ matrix_from_proto set

-- What ctxhttp.Do gives: an error, or a response's status code and body.
pub data Answer (B : Type 0) : Type 0 where
  unreachable : Answer B
  status : ℕ → B → Answer B

-- the end of Store, from the call of ctxhttp.Do on
unfoldable pub store_answer : {B : Type 0} → Answer B → Option StoreError
store_answer unreachable = some recoverable
store_answer (status code body) =
    if nat_eqb (code / 100) 5
    then some recoverable
    else if nat_eqb (code / 100) 2
    then none
    else some other

-- Store: `marshal` and `new_request` fail with errors that are not recoverable; `send` is the exchange.
unfoldable pub store :
    {V P Q B E : Type 0}
    → (marshal : List (TimeSeries V) → P ⊎ E) → (compress : P → P) → (new_request : P → Q ⊎ E)
    → (send : Q → Answer B) → List (Sample V)
    → Option StoreError
unfolding write_request store_answer
store marshal compress new_request send samples = elim (marshal (write_request samples)) [
  | inr err ↦ some other
  | inl bytes ↦ elim (new_request (compress bytes)) [
    | inr err ↦ some other
    | inl req ↦ store_answer (send req)
  ]
]

-- The query of Read's URL.
pub record ReadQuery : Type 0 where
  pub start : ℤ
  pub end : ℤ
  pub query : String
  pub step : String

abbrev pub nanos_per_tick : ℕ
nanos_per_tick = 1000

unfoldable pub read_query :
    {R F : Type 0}
    → (List (LabelMatcher R F) → String)
    → ℤ
    → ℤ
    → List (LabelMatcher R F)
    → ReadQuery
unfolding quot
read_query print from through matchers = record {
  start = quot from nanos_per_tick;
  end = quot through nanos_per_tick;
  query = str_append "{" (str_append (print matchers) "}");
  step = "2";
}

pub data ReadError : Type 0 where
  request_failed status_not_ok body_unreadable not_json : ReadError

-- Read: `print` is LabelMatchers.String of Prometheus, `receive` is the exchange, `read_all` and `unmarshal` read the body.
-- The code also leaves the query in the client's URL, where the next Read sets all four parameters anew;
-- that is not part of the model.
unfoldable pub read :
    {V R F B P E : Type 0}
    → (List (LabelMatcher R F) → String)
    → (receive : ReadQuery → Answer B) → (read_all : B → P ⊎ E)
    → (unmarshal : P → List (SampleStream V) ⊎ E) → ℤ
    → ℤ
    → List (LabelMatcher R F)
    → List (SampleStream V) ⊎ ReadError
unfolding read_query
read print receive read_all unmarshal from through matchers =
    elim (receive (read_query print from through matchers)) [
      | unreachable ↦ inr request_failed
      | status code body ↦
          if nat_eqb (code / 100) 2
          then (elim (read_all body) [
            | inr err ↦ inr body_unreadable
            | inl bytes ↦ elim (unmarshal bytes) [
              | inr err ↦ inr not_json
              | inl result ↦ inl result
            ]
          ])
          else inr status_not_ok
    ]
