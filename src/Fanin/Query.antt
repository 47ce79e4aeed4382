-- ===== src/Fanin/Query.antt =====
-- querier.query and mergeIterators of storage/fanin/fanin.go. `fingerprint` stands for the hash of a
-- metric in prometheus/common/model.
pub mod Laws
pub mod Race
use promeproxy.Common.{
  nat_eq, ℕ, Bool, ◌||◌, Option, none, some, List, [], ◌∷◌, ◌++◌, map, if◌then◌else◌, is_empty,
  lookup, insert,
}
use promeproxy.Model.{LabelSet}
use promeproxy.Fanin.Iterator.{SeriesIterator, MergeIterator}

-- `Q` stands for the queriers, which the storage libraries implement.
pub record Querier (Q : Type 0) : Type 0 where
  pub local : Q
  pub remotes : List Q

-- What querier.query returns: an error, the local iterators, or merge iterators.
pub data QueryResult (V W E : Type 0) : Type 0 where
  failed : E → QueryResult V W E
  plain : List (SeriesIterator V W) → QueryResult V W E
  merged : List (MergeIterator V W) → QueryResult V W E

module _ {V W : Type 0} (fingerprint : LabelSet → ℕ) where
  -- the loop over localIts
  unfoldable pub index_local :
      List (ℕ × MergeIterator V W) → List (SeriesIterator V W) → List (ℕ × MergeIterator V W)
  index_local m [] = m
  index_local m (it ∷ its) =
      index_local (insert (fingerprint it.metric) (record { local = some it; remote = [] }) m) its

  -- one round of the loop in mergeIterators
  unfoldable pub merge_iterator :
      List (ℕ × MergeIterator V W) → SeriesIterator V W → List (ℕ × MergeIterator V W)
  merge_iterator m it = elim (lookup (fingerprint it.metric) m) [
    | none ↦ insert (fingerprint it.metric) (record { local = none; remote = it ∷ [] }) m
    | some g ↦ insert (fingerprint it.metric) (record g { remote = g.remote ++ it ∷ [] }) m
  ]

  unfoldable pub merge_iterators :
      List (ℕ × MergeIterator V W) → List (SeriesIterator V W) → List (ℕ × MergeIterator V W)
  merge_iterators m [] = m
  merge_iterators m (it ∷ its) = merge_iterators (merge_iterator m it) its

  -- The goroutines of the remote queriers, each merging the iterators of its answer and dropping its
  -- error, one after another.
  unfoldable pub merge_answers :
      {E : Type 0}
      → List (ℕ × MergeIterator V W)
      → List (List (SeriesIterator V W) × Option E)
      → List (ℕ × MergeIterator V W)
  merge_answers m [] = m
  merge_answers m ((its, err) ∷ answers) = merge_answers (merge_iterators m its) answers

  -- `finish` is q.remotes in the order in which the goroutines come to merge.
  unfoldable pub query_groups :
      {Q E : Type 0}
      → (Q → List (SeriesIterator V W) × Option E)
      → List (SeriesIterator V W)
      → List Q
      → List (ℕ × MergeIterator V W)
  query_groups ask local_its finish = merge_answers (index_local [] local_its) (map ask finish)

  unfoldable pub query :
      {Q E : Type 0}
      → (local_only : Bool) → (Q → List (SeriesIterator V W) × Option E)
      → Querier Q
      → (finish : List Q) → QueryResult V W E
  query local_only ask q finish = elim (ask q.local).1 [
    | some err ↦ failed err
    | none ↦
        if is_empty q.remotes || local_only
        then plain (ask q.local).0
        else merged (map (λ e. e.1) (query_groups ask (ask q.local).0 finish))
  ]
