-- ===== src/Fanin/Remotes/Laws.antt =====
-- Which iterators a query through storage/fanin/fanin.go holds, in terms of what the remote storages answer.
use promeproxy.Common.{
  string_eq, nat_eq, ℕ, ◌≡◌, refl, sym, ap, ◌∙◌, ◌⊎◌, inl, inr, Bool, true, false, ◌||◌, Option,
  none, some, List, [], ◌∷◌, ◌++◌, map, map-append, nat_eqb, Bool-cases, Option-cases, filterb,
  is_empty, ℤ, lookup,
}
use promeproxy.Model.{SampleStream}
use promeproxy.Remote.Client.{read}
use promeproxy.Fanin.Query.Laws.{group, answered, has_print, last_local, lookup-query_groups}
use promeproxy.Fanin.Remotes.{
  Context, with_local_only, local_only, stream_iterator, matrix_to_iterators, Storages, read_range,
  ask_range, query_range,
}
use promeproxy.Metric.Matcher.{LabelMatcher}
use promeproxy.Remote.Read.{RemoteQuerier}
use promeproxy.Fanin.Iterator.{SeriesIterator}
use promeproxy.Fanin.Query.{Querier, QueryResult, failed, plain, query_groups, query}

-- the streams of an answer, none where it is an error
abbrev pub streams_of : {V E : Type 0} → List (SampleStream V) ⊎ E → List (SampleStream V)
streams_of (inl m) = m
streams_of (inr err) = []

-- the streams of the remote queriers that answer without an error, in order
abbrev pub streams :
    {A V E : Type 0} → (A → List (SampleStream V) ⊎ E) → List A → List (SampleStream V)
streams read [] = []
streams read (q ∷ qs) = streams_of (read q) ++ streams read qs

module _ {V W E : Type 0} (zero_value : V) where
  iterators-streams_of :
      (r : List (SampleStream V) ⊎ E)
      → (matrix_to_iterators {W = W} zero_value r).0
        ≡ map (stream_iterator zero_value) (streams_of r)
  unfolding matrix_to_iterators
  iterators-streams_of (inl m) = refl
  iterators-streams_of (inr err) = refl

  answered-streams :
      {A : Type 0} (read : A → List (SampleStream V) ⊎ E) (qs : List A)
      → answered (map (λ q. matrix_to_iterators {W = W} zero_value (read q)) qs)
        ≡ map (stream_iterator zero_value) (streams read qs)
  answered-streams read [] = refl
  answered-streams read (q ∷ qs) =
      rw (iterators-streams_of (read q), answered-streams read qs)
        (sym (map-append (stream_iterator zero_value) (streams_of (read q)) (streams read qs)))

filterb-map :
    {A B : Type 0} (p : B → Bool) (q : A → Bool) (g : A → B)
    → ((x : A) → p (g x) ≡ q x)
    → (xs : List A) → filterb p (map g xs) ≡ map g (filterb q xs)
filterb-map p q g h [] = refl
filterb-map p q g h (x ∷ xs) = elim (Bool-cases (q x)) [
  | inl e ↦ rw (h x, e, filterb-map p q g h xs) refl
  | inr e ↦ rw (h x, e, filterb-map p q g h xs) refl
]

map-inr :
    {A B C : Type 0} (ask : A ⊎ B → C) (qs : List B)
    → map ask (map (λ q. inr q) qs) ≡ map (λ q. ask (inr q)) qs
map-inr ask [] = refl
map-inr ask (q ∷ qs) = ap (λ l. ask (inr q) ∷ l) (map-inr ask qs)

module _ {Q H R F V W E : Type 0} (o : Storages Q H R F V W E) where
  has_print-stream :
      (f : ℕ) (ss : SampleStream V)
      → has_print {W = W} o.fingerprint f (stream_iterator o.zero_value ss)
        ≡ nat_eqb (o.fingerprint ss.metric) f
  unfolding stream_iterator
  has_print-stream f ss = refl

  -- A query of a range over the remote queriers, in the order in which they come to merge, holds under
  -- each fingerprint the last local iterator with it and an iterator over each stream with it that
  -- a remote storage answered, without the labels that were added; a storage that fails adds nothing.
  pub query_groups-streams :
      (f : ℕ) (from through : ℤ) (matchers : List (LabelMatcher R F))
      (local_its : List (SeriesIterator V W)) (finish : List (RemoteQuerier H))
      → lookup f (
          query_groups o.fingerprint
            (ask_range o from through matchers)
            local_its
            (map (λ q. inr q) finish))
        ≡ group (last_local o.fingerprint f local_its) (
            map (stream_iterator o.zero_value) (
              filterb
                (λ ss. nat_eqb (o.fingerprint ss.metric) f)
                (streams (read_range o from through matchers) finish)))
  unfolding ask_range
  query_groups-streams f from through matchers local_its finish =
      rw
        (
          lookup-query_groups o.fingerprint f (ask_range o from through matchers) local_its
              (map (λ q. inr q) finish),
          map-inr (ask_range o from through matchers) finish,
        )
        (ap (λ its. group (last_local o.fingerprint f local_its) its)
          (ap (filterb (has_print o.fingerprint f))
              (answered-streams o.zero_value (read_range o from through matchers) finish)
            ∙ filterb-map (has_print o.fingerprint f) (λ ss. nat_eqb (o.fingerprint ss.metric) f)
                (stream_iterator o.zero_value) (λ ss. has_print-stream f ss)
                (streams (read_range o from through matchers) finish)))

or_true : (b : Bool) → (b || true) ≡ true
or_true true = refl
or_true false = refl

-- what the local storage answers, on its own
abbrev pub local_answer :
    {V W E : Type 0} → List (SeriesIterator V W) × Option E → QueryResult V W E
local_answer (its, none) = plain its
local_answer (its, some err) = failed err

module _ {Q H R F V W E : Type 0} (o : Storages Q H R F V W E) where
  query-local_only :
      (only : Bool) (from through : ℤ) (matchers : List (LabelMatcher R F))
      (q : Querier (Q ⊎ RemoteQuerier H)) (finish : List (Q ⊎ RemoteQuerier H))
      → (is_empty q.remotes || only) ≡ true
      → query o.fingerprint only (ask_range o from through matchers) q finish
        ≡ local_answer (ask_range o from through matchers q.local)
  unfolding query
  query-local_only only from through matchers q finish h =
      elim (Option-cases (ask_range o from through matchers q.local).1) [
        | inl e ↦ rw (e, query) (rw (h) refl)
        | inr (err, e) ↦ rw (e, query) refl
      ]

  -- A query of a range in a context made by WithLocalOnly, and one over a querier without remote queriers,
  -- answer what the local storage answers, its error included, whatever the remote storages are.
  pub query_range-local_only :
      (ctx : Context) (from through : ℤ) (matchers : List (LabelMatcher R F))
      (q : Querier (Q ⊎ RemoteQuerier H)) (finish : List (Q ⊎ RemoteQuerier H))
      → (query_range o (with_local_only ctx) from through matchers q finish
          ≡ local_answer (ask_range o from through matchers q.local))
        × (q.remotes ≡ []
            → query_range o ctx from through matchers q finish
              ≡ local_answer (ask_range o from through matchers q.local))
  unfolding query_range with_local_only local_only
  query_range-local_only ctx from through matchers q finish = (
    query-local_only true from through matchers q finish (or_true (is_empty q.remotes)),
    λ e.
        query-local_only (local_only ctx) from through matchers q finish
          (ap (λ l. is_empty l || local_only ctx) e),
  )
