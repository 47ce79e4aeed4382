-- ===== src/Tests/Series.antt =====
-- Runs of the theorems on storage/fanin and on the iterators of storage/remote.
use promeproxy.Common.{
  string_eq, nat_eq, ℕ, zero, suc, ◌<◌, String, ◌≡◌, refl, ◌⊎◌, true, false, not, ◌&&◌, Option,
  none, some, List, [], ◌∷◌, arith, nat_eqb, str_len, length, filterb, pos, has, get_or, lookup,
}
use promeproxy.Common.Search.{last_or}
use promeproxy.Model.{earliest, LabelSet, SamplePair, SampleStream, before, after}
use promeproxy.Remote.Iterator.{Interval, value_at_or_before_time, range_values}
use promeproxy.Fanin.Merge.Laws.{sample_at}
use promeproxy.Fanin.Iterator.{SeriesIterator, MergeIterator, Float, merged_range, merged_value_at}
use promeproxy.Fanin.Iterator.Laws.{
  sample_at-merged_range, IsValueOf, NoneLater, merged_value_at-latest,
}
use promeproxy.Fanin.Remotes.{stream_iterator}
use promeproxy.Fanin.Remotes.Streams.{stream_iterator-answers}
use promeproxy.Fanin.Query.Race.{Groups, remotes_of, interleave, starting, interleave-loses}

abbrev at : ℕ → ℕ → SamplePair ℕ
at t v = record { timestamp = pos t; value = v }

-- Values are numbers, and the world of Close counts the calls.
abbrev floats : Float ℕ
floats = record { zero_value = 0; value_eqb = nat_eqb }

abbrev zero_pair : SamplePair ℕ
zero_pair = record { timestamp = earliest; value = 0 }

abbrev series : String → List (SamplePair ℕ) → SeriesIterator ℕ ℕ
series job ss = record {
  value_at = λ t. last_or zero_pair (filterb (λ s. not (after s.timestamp t)) ss);
  range = λ i.
      filterb
        (λ s.
          not (before s.timestamp i.oldest_inclusive) && not (after s.timestamp i.newest_inclusive))
        ss;
  metric = ("job", job) ∷ [];
  close = suc;
}

abbrev local_series : SeriesIterator ℕ ℕ
local_series = series "a" (at 5 50 ∷ at 6 60 ∷ [])

abbrev remote_one : SeriesIterator ℕ ℕ
remote_one = series "a" (at 1 11 ∷ at 5 51 ∷ [])

abbrev remote_two : SeriesIterator ℕ ℕ
remote_two = series "a" (at 1 12 ∷ at 2 22 ∷ [])

abbrev other_job : SeriesIterator ℕ ℕ
other_job = series "bb" (at 3 33 ∷ [])

abbrev group_of_a : MergeIterator ℕ ℕ
group_of_a = record { local = some local_series; remote = remote_one ∷ remote_two ∷ [] }

abbrev remote_only : MergeIterator ℕ ℕ
remote_only = record { local = none; remote = remote_one ∷ remote_two ∷ [] }

abbrev all_time : Interval
all_time = record { oldest_inclusive = pos 0; newest_inclusive = pos 9 }

sample_at-merged_range_example :
    sample_at (pos 2) (merged_range group_of_a all_time) ≡ some (at 2 22)
sample_at-merged_range_example =
    sample_at-merged_range (pos 2) group_of_a all_time ((omega arith, tt), (tt, tt))
      (((omega arith, tt), (tt, tt)), (((omega arith, tt), (tt, tt)), tt))

merged_value_at-latest_example :
    NoneLater (merged_value_at floats remote_only (pos 4)) (pos 4) remote_only.remote
    × ((merged_value_at floats remote_only (pos 4) ≡ zero_pair)
        ⊎ IsValueOf (merged_value_at floats remote_only (pos 4)) (pos 4) remote_only.remote)
merged_value_at-latest_example = merged_value_at-latest floats remote_only (pos 4) refl

-- The fingerprint is the number of letters of the job.
abbrev print_of : LabelSet → ℕ
print_of m = str_len (get_or (lookup "job" m) "")

-- 0 is the local storage; of the remote ones, 1 also fails.
abbrev ask : ℕ → List (SeriesIterator ℕ ℕ) × Option String
ask zero = (local_series ∷ [], none)
ask (suc zero) = (remote_one ∷ [], some "down")
ask (suc (suc n)) = (remote_two ∷ other_job ∷ [], none)

-- The group of job "a" is at the address 0.
abbrev one_group : Groups ℕ ℕ
one_group = record {
  cells = record { local = some local_series; remote = [] } ∷ [];
  index = (1, 0) ∷ [];
}

one_group-valid : (a : ℕ) → lookup 1 one_group.index ≡ some a → a < length one_group.cells
unfolding lookup
one_group-valid a h = ground arith

interleave-loses_example :
    (remotes_of 1 (
        interleave print_of
          (true ∷ true ∷ true ∷ false ∷ false ∷ false ∷ [])
          one_group
          (starting print_of remote_one)
          (starting print_of remote_two))
      ≡ remote_one ∷ remote_two ∷ [])
    × (remotes_of 1 (
          interleave print_of
            (true ∷ false ∷ true ∷ false ∷ true ∷ false ∷ [])
            one_group
            (starting print_of remote_one)
            (starting print_of remote_two))
        ≡ remote_two ∷ [])
    × (remotes_of 1 (
          interleave print_of
            (true ∷ false ∷ true ∷ true ∷ false ∷ false ∷ [])
            one_group
            (starting print_of remote_one)
            (starting print_of remote_two))
        ≡ remote_one ∷ remote_two ∷ [])
unfolding lookup
interleave-loses_example =
    interleave-loses print_of one_group remote_one remote_two refl one_group-valid

abbrev stream : SampleStream ℕ
stream = record { metric = []; values = at 1 11 ∷ at 3 33 ∷ at 5 51 ∷ [] }

stream_iterator-answers_example :
    (has (value_at_or_before_time 0 stream (pos 4)) ≡ true)
    × ((stream_iterator {W = ℕ} 0 stream).value_at (pos 4) ≡ at 3 33)
    × (has (range_values stream (record { oldest_inclusive = pos 2; newest_inclusive = pos 5 }))
        ≡ true)
    × ((stream_iterator {W = ℕ} 0 stream).range
          (record { oldest_inclusive = pos 2; newest_inclusive = pos 5 })
        ≡ at 3 33 ∷ at 5 51 ∷ [])
stream_iterator-answers_example =
    stream_iterator-answers ℕ 0 stream (pos 4)
      (record { oldest_inclusive = pos 2; newest_inclusive = pos 5 })
      ((omega arith, (omega arith, tt)), ((omega arith, tt), (tt, tt))) (omega arith)
