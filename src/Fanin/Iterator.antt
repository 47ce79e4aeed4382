-- ===== src/Fanin/Iterator.antt =====
-- The iterators of storage/fanin/fanin.go: mergeIterator over a local one and some remote ones.
pub mod Laws
use promeproxy.Common.{
  Bool, not, ◌&&◌, Option, none, some, List, [], ◌∷◌, if◌then◌else◌, length, take, ℤ, eqb_ℤ,
}
use promeproxy.Common.Search.{search, test_at}
use promeproxy.Model.{earliest, latest, LabelSet, SamplePair, before, after}
use promeproxy.Remote.Iterator.{Interval}
use promeproxy.Fanin.Merge.{merge_samples}

-- local.SeriesIterator: an interface of the storage library. `W` is the state that Close acts on.
pub record SeriesIterator (V W : Type 0) : Type 0 where
  pub value_at : ℤ → SamplePair V
  pub range : Interval → List (SamplePair V)
  pub metric : LabelSet
  pub close : W → W

pub record MergeIterator (V W : Type 0) : Type 0 where
  pub local : Option (SeriesIterator V W)
  pub remote : List (SeriesIterator V W)

-- What the code uses of float64: the zero value, and `==`.
pub record Float (V : Type 0) : Type 0 where
  pub zero_value : V
  pub value_eqb : V → V → Bool

module _ {V : Type 0} (fl : Float V) where
  -- model.ZeroSamplePair
  abbrev pub zero_sample_pair : SamplePair V
  zero_sample_pair = record { timestamp = earliest; value = fl.zero_value }

  -- Go's `==` on two sample pairs
  abbrev pub pair_eqb : SamplePair V → SamplePair V → Bool
  pair_eqb s u = eqb_ℤ s.timestamp u.timestamp && fl.value_eqb s.value u.value

module _ {V : Type 0} where
  -- the timestamp of the first local sample, or model.Latest
  abbrev pub cutoff : List (SamplePair V) → ℤ
  cutoff [] = latest
  cutoff (s ∷ ss) = s.timestamp

  -- vs[:n], with n the first index that is not before the cutoff
  unfoldable pub older : ℤ → List (SamplePair V) → List (SamplePair V)
  older c vs = take (search (length vs) (test_at (λ s. not (before s.timestamp c)) vs)) vs

module _ {V W : Type 0} where
  -- the loop over mit.remote in ValueAtOrBeforeTime
  unfoldable pub latest_remote : ℤ → SamplePair V → List (SeriesIterator V W) → SamplePair V
  latest_remote t best [] = best
  latest_remote t best (it ∷ its) =
      let v = it.value_at t in
      latest_remote t (if after v.timestamp best.timestamp then v else best) its

  abbrev pub local_range : Option (SeriesIterator V W) → Interval → List (SamplePair V)
  local_range none i = []
  local_range (some it) i = it.range i

  -- the loop over mit.remote in RangeValues
  unfoldable pub merge_remotes :
      Interval → ℤ → List (SamplePair V) → List (SeriesIterator V W) → List (SamplePair V)
  merge_remotes i c values [] = values
  merge_remotes i c values (it ∷ its) =
      merge_remotes i c (merge_samples values (older c (it.range i))) its

  -- MergeIterator.RangeValues
  unfoldable pub merged_range : MergeIterator V W → Interval → List (SamplePair V)
  merged_range mit i =
      let values = local_range mit.local i in merge_remotes i (cutoff values) values mit.remote

  abbrev pub first_metric : List (SeriesIterator V W) → Option LabelSet
  first_metric [] = none
  first_metric (it ∷ its) = some it.metric

  -- MergeIterator.Metric; `none` is the panic of mit.remote[0] on an empty slice
  unfoldable pub merged_metric : MergeIterator V W → Option LabelSet
  merged_metric mit = elim mit.local [ some it ↦ some it.metric | none ↦ first_metric mit.remote ]

  abbrev pub close_all : List (SeriesIterator V W) → W → W
  close_all [] w = w
  close_all (it ∷ its) w = close_all its (it.close w)

  -- MergeIterator.Close
  unfoldable pub merged_close : MergeIterator V W → W → W
  merged_close mit w = elim mit.local [
    | some it ↦ close_all mit.remote (it.close w)
    | none ↦ close_all mit.remote w
  ]

module _ {V W : Type 0} (fl : Float V) where
  abbrev pub local_value : Option (SeriesIterator V W) → ℤ → SamplePair V
  local_value none t = zero_sample_pair fl
  local_value (some it) t = it.value_at t

  -- MergeIterator.ValueAtOrBeforeTime
  unfoldable pub merged_value_at : MergeIterator V W → ℤ → SamplePair V
  merged_value_at mit t =
      let found = local_value mit.local t in
      if pair_eqb fl found (zero_sample_pair fl) then latest_remote t found mit.remote else found
