-- ===== src/Fanin/Remotes.antt =====
-- How storage/fanin/fanin.go and storage/remote/read.go work together: Queryable.Querier, the queries of its
-- querier, the remote queriers' QueryRange and QueryInstant, and MatrixToIterators.
pub mod Laws
pub mod Streams
use promeproxy.Common.{
  string_eq, nat_eq, ℕ, String, ◌⊎◌, inl, inr, Bool, true, false, Option, none, some, List, [], ◌∷◌,
  map, if◌then◌else◌, ◌==◌, ℤ, get_or,
}
use promeproxy.Model.{earliest, LabelSet, SampleStream}
use promeproxy.Metric.Matcher.{LabelMatcher}
use promeproxy.Remote.Iterator.{value_at_or_before_time, range_values}
use promeproxy.Remote.Client.{Client}
use promeproxy.Remote.Read.{Reader, RemoteQuerier, queriers, read_querier, read_instant}
use promeproxy.Fanin.Iterator.{SeriesIterator}
use promeproxy.Fanin.Query.{Querier, QueryResult, query}

-- a context, as the keys that were set on it; contextKey's values are texts
abbrev pub Context : Type 0
Context = List String

-- WithLocalOnly
unfoldable pub with_local_only : Context → Context
with_local_only ctx = "local-only" ∷ ctx

-- localOnly
unfoldable pub local_only : Context → Bool
local_only [] = false
local_only (key ∷ ctx) = if key == "local-only" then true else local_only ctx

module _ {V W : Type 0} (zero_value : V) where
  -- A sampleStreamIterator as an iterator. Its slices do not panic for ascending samples and an interval
  -- that is not empty; where they would, nothing is found here.
  unfoldable pub stream_iterator : SampleStream V → SeriesIterator V W
  unfolding value_at_or_before_time range_values
  stream_iterator ss = record {
    value_at = λ t.
        get_or (value_at_or_before_time zero_value ss t)
          (record { timestamp = earliest; value = zero_value });
    range = λ i. get_or (range_values ss i) [];
    metric = ss.metric;
    close = λ w. w;
  }

  -- MatrixToIterators
  unfoldable pub matrix_to_iterators :
      {E : Type 0} → List (SampleStream V) ⊎ E → List (SeriesIterator V W) × Option E
  unfolding stream_iterator
  matrix_to_iterators (inr err) = ([], some err)
  matrix_to_iterators (inl m) = (map stream_iterator m, none)

-- Queryable.Querier, with what the local storage's Querier gives
unfoldable pub queryable_querier :
    {Q H E : Type 0} → Q ⊎ E → Reader H → Querier (Q ⊎ RemoteQuerier H) ⊎ E
unfolding queriers
queryable_querier (inr err) r = inr err
queryable_querier (inl l) r =
    inl (record { local = inl l; remotes = map (λ q. inr q) (queriers r) })

-- The outside of a query: the local storage's queries, metric.NewLabelMatcher for equality, the clients' Read, the
-- hash of metrics, and the zero float.
pub record Storages (Q H R F V W E : Type 0) : Type 0 where
  pub local_range : Q → ℤ → ℤ → List (LabelMatcher R F) → List (SeriesIterator V W) × Option E
  pub local_instant : Q → ℤ → ℕ → List (LabelMatcher R F) → List (SeriesIterator V W) × Option E
  pub new_equal : String → String → LabelMatcher R F
  pub client_read : Client H → ℤ → ℤ → List (LabelMatcher R F) → List (SampleStream V) ⊎ E
  pub fingerprint : LabelSet → ℕ
  pub zero_value : V

module _ {Q H R F V W E : Type 0} (o : Storages Q H R F V W E) where
  -- what a remote querier reads for a range
  unfoldable pub read_range :
      ℤ → ℤ → List (LabelMatcher R F) → RemoteQuerier H → List (SampleStream V) ⊎ E
  unfolding read_querier
  read_range from through matchers q =
      read_querier o.new_equal (o.client_read q.client) q.external_labels from through matchers

  unfoldable pub read_at :
      ℤ → ℕ → List (LabelMatcher R F) → RemoteQuerier H → List (SampleStream V) ⊎ E
  unfolding read_instant
  read_at ts staleness_delta matchers q =
      read_instant o.new_equal (o.client_read q.client) q.external_labels ts staleness_delta
        matchers

  -- QueryRange of a local or remote querier
  unfoldable pub ask_range :
      ℤ → ℤ → List (LabelMatcher R F) → Q ⊎ RemoteQuerier H → List (SeriesIterator V W) × Option E
  unfolding matrix_to_iterators read_range
  ask_range from through matchers (inl l) = o.local_range l from through matchers
  ask_range from through matchers (inr q) =
      matrix_to_iterators o.zero_value (read_range from through matchers q)

  -- QueryInstant of a local or remote querier
  unfoldable pub ask_instant :
      ℤ → ℕ → List (LabelMatcher R F) → Q ⊎ RemoteQuerier H → List (SeriesIterator V W) × Option E
  unfolding matrix_to_iterators read_at
  ask_instant ts staleness_delta matchers (inl l) = o.local_instant l ts staleness_delta matchers
  ask_instant ts staleness_delta matchers (inr q) =
      matrix_to_iterators o.zero_value (read_at ts staleness_delta matchers q)

  -- querier.QueryRange of fanin.go
  unfoldable pub query_range :
      Context
      → ℤ
      → ℤ
      → List (LabelMatcher R F)
      → Querier (Q ⊎ RemoteQuerier H)
      → (finish : List (Q ⊎ RemoteQuerier H)) → QueryResult V W E
  unfolding query local_only ask_range
  query_range ctx from through matchers q finish =
      query o.fingerprint (local_only ctx) (ask_range from through matchers) q finish

  -- querier.QueryInstant of fanin.go
  unfoldable pub query_instant :
      Context
      → ℤ
      → ℕ
      → List (LabelMatcher R F)
      → Querier (Q ⊎ RemoteQuerier H)
      → (finish : List (Q ⊎ RemoteQuerier H)) → QueryResult V W E
  unfolding query local_only ask_instant
  query_instant ctx ts staleness_delta matchers q finish =
      query o.fingerprint (local_only ctx) (ask_instant ts staleness_delta matchers) q finish

-- MetricsForLabelMatchers, LastSampleForLabelMatchers and LabelValuesForLabelName of fanin.go, each with the
-- local querier's method as the call
unfoldable pub local_metadata : {Q A : Type 0} → (Q → A) → Querier Q → A
local_metadata call q = call q.local

-- the same three methods of a remote querier, which are not implemented
unfoldable pub remote_metadata : {A E : Type 0} → List A × Option E
remote_metadata = ([], none)
