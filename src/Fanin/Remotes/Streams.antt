-- ===== src/Fanin/Remotes/Streams.antt =====
-- What an iterator over a stream of a remote storage answers (MatrixToIterators of storage/remote/read.go,
-- storage/remote/iterator.go).
use promeproxy.Common.{◌≡◌, ap, Bool, true, not, ◌&&◌, [], filterb, ℤ, ◌≤ℤ◌, has, get_or}
use promeproxy.Common.Search.{last_or}
use promeproxy.Model.{earliest, SamplePair, SampleStream, before, after, Ascending}
use promeproxy.Remote.Iterator.{Interval, value_at_or_before_time, range_values}
use promeproxy.Remote.Iterator.Laws.{up_to, value_at-last, range_values-interval}
use promeproxy.Fanin.Remotes.{stream_iterator}

-- the sample is in the closed interval
abbrev pub within : {V : Type 0} → Interval → SamplePair V → Bool
within i s =
    not (before s.timestamp i.oldest_inclusive) && not (after s.timestamp i.newest_inclusive)

module _ {V : Type 0} (W : Type 0) (zero_value : V) where
  -- The iterator that MatrixToIterators makes of a stream with rising timestamps: at a time, the lookup does not panic
  -- and gives the last sample that is not after the time, or the pair (Earliest, 0) where there is none;
  -- and for an interval that is not reversed, the slices do not panic and give exactly the samples of the
  -- closed interval, in their order.
  pub stream_iterator-answers :
      (ss : SampleStream V) (t : ℤ) (i : Interval)
      → Ascending ss.values
      → i.oldest_inclusive ≤ℤ i.newest_inclusive
      → (has (value_at_or_before_time zero_value ss t) ≡ true)
        × ((stream_iterator {W = W} zero_value ss).value_at t
            ≡ last_or (record { timestamp = earliest; value = zero_value }) (up_to t ss.values))
        × (has (range_values ss i) ≡ true)
        × ((stream_iterator {W = W} zero_value ss).range i ≡ filterb (within i) ss.values)
  unfolding stream_iterator
  stream_iterator-answers ss t i a h =
      let value = value_at-last zero_value ss t a in
      let samples = range_values-interval ss i a h in
      (
        ap has value,
        ap (λ o. get_or o (record { timestamp = earliest; value = zero_value })) value,
        ap has samples,
        ap (λ o. get_or o []) samples,
      )
