-- ===== src/Remote/Iterator.antt =====
-- storage/remote/iterator.go: the series iterator over one sample stream.
pub mod Laws
use promeproxy.Common.{
  ℕ, ◌-◌, not, ◌&&◌, Option, none, some, List, [], leb, nat_eqb, if◌then◌else◌, length, get_elem?,
  take, drop, ℤ,
}
use promeproxy.Common.Search.{search, test_at}
use promeproxy.Model.{earliest, SamplePair, SampleStream, before, after}

-- metric.Interval, from storage/metric/sample.go.
pub record Interval : Type 0 where
  pub oldest_inclusive : ℤ
  pub newest_inclusive : ℤ

module _ {V : Type 0} where
  -- `xs[start:end]`; `none` is the panic of a slice that is out of range.
  unfoldable pub slice : List (SamplePair V) → ℕ → ℕ → Option (List (SamplePair V))
  slice xs start end =
      if leb start end && leb end (length xs) then some (drop start (take end xs)) else none

  unfoldable pub value_at_or_before_time : V → SampleStream V → ℤ → Option (SamplePair V)
  value_at_or_before_time zero_value ss ts =
      let i = search (length ss.values) (test_at (λ s. after s.timestamp ts) ss.values) in
      if nat_eqb i 0
      then some (record { timestamp = earliest; value = zero_value })
      else get_elem? ss.values (i - 1)

  unfoldable pub range_values : SampleStream V → Interval → Option (List (SamplePair V))
  unfolding slice
  range_values ss in_ =
      let n = length ss.values in
      let start =
        search n (test_at (λ s. not (before s.timestamp in_.oldest_inclusive)) ss.values) in
      let end = search n (test_at (λ s. after s.timestamp in_.newest_inclusive) ss.values) in
      if nat_eqb start n then some [] else slice ss.values start end
