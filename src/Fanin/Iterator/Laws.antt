-- ===== src/Fanin/Iterator/Laws.antt =====
-- mergeIterator of storage/fanin/fanin.go, for iterators that keep the contract of local.SeriesIterator.
use promeproxy.Common.{
  ◌≡◌, refl, sym, ◌∙◌, ◌⊎◌, inl, inr, Bool, true, false, not, Option, none, List, [], ◌∷◌, arith,
  if◌then◌else◌, All, filterb, ℤ, ◌≤ℤ◌, eqb_ℤ_iff, or_else, or_else_assoc, or_else-none,
}
use promeproxy.Common.Search.{search-cut, take-cut}
use promeproxy.Model.{SamplePair, before, after, Later, Ascending}
use promeproxy.Remote.Iterator.{Interval}
use promeproxy.Remote.Iterator.Laws.{Turns-not-before}
use promeproxy.Fanin.Merge.{merge_samples}
use promeproxy.Fanin.Merge.Laws.{sample_at, merge_samples-Ascending, sample_at-merge_samples}
use promeproxy.Fanin.Iterator.{
  SeriesIterator, MergeIterator, Float, zero_sample_pair, pair_eqb, cutoff, older, latest_remote,
  local_range, merge_remotes, merged_range, local_value, merged_value_at,
}

module _ {V : Type 0} where
  -- the round of the loop over the remote values
  abbrev newer : SamplePair V → SamplePair V → SamplePair V
  newer v best = if after v.timestamp best.timestamp then v else best

  newer-le :
      (v best : SamplePair V)
      → (v.timestamp ≤ℤ (newer v best).timestamp) × (best.timestamp ≤ℤ (newer v best).timestamp)
  newer-le v best = ground arith

  newer-cases : (v best : SamplePair V) → (newer v best ≡ v) ⊎ (newer v best ≡ best)
  newer-cases v best = ground arith

  -- a remote sample counts if it is before the cutoff
  abbrev pub only_before : ℤ → ℤ → Option (SamplePair V) → Option (SamplePair V)
  only_before c t o = if before t c then o else none

  if_none : (b : Bool) (o : Option (SamplePair V)) → o ≡ or_else o (if b then none else none)
  if_none true o = sym (or_else-none o)
  if_none false o = sym (or_else-none o)

  or_else-only_before :
      (b : Bool) (o p q : Option (SamplePair V))
      → or_else (or_else o (if b then p else none)) (if b then q else none)
        ≡ or_else o (if b then or_else p q else none)
  or_else-only_before true o p q = or_else_assoc o p q
  or_else-only_before false o p q = or_else_assoc o none none

  older_lem :
      (c : ℤ) (vs : List (SamplePair V))
      → Ascending vs
      → older c vs ≡ filterb (λ s. not (not (before s.timestamp c))) vs
  unfolding older
  older_lem c vs a = let t = Turns-not-before c vs a in rw (search-cut _ vs t) (take-cut _ vs t)

  Later-filterb :
      (t : ℤ) (p : SamplePair V → Bool) (vs : List (SamplePair V))
      → Later t vs
      → Later t (filterb p vs)
  Later-filterb t p [] l = tt
  Later-filterb t p (v ∷ vs) l = ground (arith, Later-filterb t p vs l.1)

  Ascending-filterb :
      (p : SamplePair V → Bool) (vs : List (SamplePair V)) → Ascending vs → Ascending (filterb p vs)
  Ascending-filterb p [] a = tt
  Ascending-filterb p (v ∷ vs) a =
      ground (arith, Ascending-filterb p vs a.1, Later-filterb v.timestamp p vs a.0)

  older-Ascending : (c : ℤ) (vs : List (SamplePair V)) → Ascending vs → Ascending (older c vs)
  older-Ascending c vs a = rw (older_lem c vs a) (Ascending-filterb _ vs a)

  sample_at-filterb :
      (c t : ℤ) (vs : List (SamplePair V))
      → sample_at t (filterb (λ s. not (not (before s.timestamp c))) vs)
        ≡ only_before c t (sample_at t vs)
  sample_at-filterb c t [] = ground arith
  sample_at-filterb c t (v ∷ vs) = ground (arith, eqb_ℤ_iff v.timestamp t, sample_at-filterb c t vs)

  sample_at-older :
      (c t : ℤ) (vs : List (SamplePair V))
      → Ascending vs
      → sample_at t (older c vs) ≡ only_before c t (sample_at t vs)
  sample_at-older c t vs a = rw (older_lem c vs a) (sample_at-filterb c t vs)

module _ {V W : Type 0} where
  -- The iterators return samples with rising timestamps for the interval.
  abbrev pub AllAscending : Interval → List (SeriesIterator V W) → Type 0
  AllAscending i = All (λ it. Ascending (it.range i))

  -- the first remote iterator's sample at a time
  abbrev pub remote_at : ℤ → Interval → List (SeriesIterator V W) → Option (SamplePair V)
  remote_at t i [] = none
  remote_at t i (it ∷ its) = or_else (sample_at t (it.range i)) (remote_at t i its)

  merge_remotes-Ascending :
      (i : Interval) (c : ℤ) (values : List (SamplePair V)) (its : List (SeriesIterator V W))
      → Ascending values
      → AllAscending i its
      → Ascending (merge_remotes i c values its)
  unfolding merge_remotes
  merge_remotes-Ascending i c values [] a r = a
  merge_remotes-Ascending i c values (it ∷ its) a r =
      merge_remotes-Ascending i c (merge_samples values (older c (it.range i))) its
        (merge_samples-Ascending values _ a (older-Ascending c (it.range i) r.0)) r.1

  sample_at-merge_remotes :
      (t : ℤ) (i : Interval) (c : ℤ) (values : List (SamplePair V))
      (its : List (SeriesIterator V W))
      → Ascending values
      → AllAscending i its
      → sample_at t (merge_remotes i c values its)
        ≡ or_else (sample_at t values) (only_before c t (remote_at t i its))
  unfolding merge_remotes
  sample_at-merge_remotes t i c values [] a r = if_none (before t c) (sample_at t values)
  sample_at-merge_remotes t i c values (it ∷ its) a r =
      let o = older-Ascending c (it.range i) r.0 in
      rw
        (
          sample_at-merge_remotes t i c (merge_samples values (older c (it.range i))) its
              (merge_samples-Ascending values _ a o) r.1,
          sample_at-merge_samples t values (older c (it.range i)) a o,
          sample_at-older c t (it.range i) r.0,
        )
        (or_else-only_before (before t c) (sample_at t values) (sample_at t (it.range i))
          (remote_at t i its))

  -- If the local iterator and the remote ones return rising timestamps for an interval, so does the
  -- merged one: no timestamp comes twice.
  pub merged_range-Ascending :
      (mit : MergeIterator V W) (i : Interval)
      → Ascending (local_range mit.local i)
      → AllAscending i mit.remote
      → Ascending (merged_range mit i)
  unfolding merged_range
  merged_range-Ascending mit i a r = merge_remotes-Ascending i _ _ mit.remote a r

  -- If the iterators return rising timestamps, the merged one has at each time the local sample; where
  -- there is none, and the time is before the first local sample (before model.Latest if there is no
  -- local sample at all), the first remote iterator's sample; and otherwise none.
  pub sample_at-merged_range :
      (t : ℤ) (mit : MergeIterator V W) (i : Interval)
      → Ascending (local_range mit.local i)
      → AllAscending i mit.remote
      → sample_at t (merged_range mit i)
        ≡ or_else
            (sample_at t (local_range mit.local i))
            (only_before (cutoff (local_range mit.local i)) t (remote_at t i mit.remote))
  unfolding merged_range
  sample_at-merged_range t mit i a r = sample_at-merge_remotes t i _ _ mit.remote a r

  -- `v` is the value of one of the iterators at the time.
  abbrev pub IsValueOf : SamplePair V → ℤ → List (SeriesIterator V W) → Type 0
  IsValueOf v t [] = ⊥
  IsValueOf v t (it ∷ its) = (v ≡ it.value_at t) ⊎ IsValueOf v t its

  -- No iterator has a later value at the time.
  abbrev pub NoneLater : SamplePair V → ℤ → List (SeriesIterator V W) → Type 0
  NoneLater v t = All (λ it. (it.value_at t).timestamp ≤ℤ v.timestamp)

  latest_remote-grows :
      (t : ℤ) (best : SamplePair V) (its : List (SeriesIterator V W))
      → best.timestamp ≤ℤ (latest_remote t best its).timestamp
  unfolding latest_remote
  latest_remote-grows t best [] = omega arith
  latest_remote-grows t best (it ∷ its) =
      omega (
        arith,
        newer-le (it.value_at t) best,
        latest_remote-grows t (newer (it.value_at t) best) its,
      )

  latest_remote-NoneLater :
      (t : ℤ) (best : SamplePair V) (its : List (SeriesIterator V W))
      → NoneLater (latest_remote t best its) t its
  unfolding latest_remote
  latest_remote-NoneLater t best [] = tt
  latest_remote-NoneLater t best (it ∷ its) = (
    omega (
      arith,
      newer-le (it.value_at t) best,
      latest_remote-grows t (newer (it.value_at t) best) its,
    ),
    latest_remote-NoneLater t (newer (it.value_at t) best) its,
  )

  latest_remote-from :
      (t : ℤ) (best : SamplePair V) (its : List (SeriesIterator V W))
      → (latest_remote t best its ≡ best) ⊎ IsValueOf (latest_remote t best its) t its
  unfolding latest_remote
  latest_remote-from t best [] = inl refl
  latest_remote-from t best (it ∷ its) =
      elim (latest_remote-from t (newer (it.value_at t) best) its) [
        | inr h ↦ inr (inr h)
        | inl h ↦ elim (newer-cases (it.value_at t) best) [
          | inl e ↦ inr (inl (h ∙ e))
          | inr e ↦ inl (h ∙ e)
        ]
      ]

  -- If the local iterator has no value at the time (it is absent, or gives what equals the zero pair),
  -- the merged value is the latest of the remote ones: no remote value is later, and it is a remote value
  -- or what the local side gave.
  pub merged_value_at-latest :
      (fl : Float V) (mit : MergeIterator V W) (t : ℤ)
      → pair_eqb fl (local_value fl mit.local t) (zero_sample_pair fl) ≡ true
      → NoneLater (merged_value_at fl mit t) t mit.remote
        × ((merged_value_at fl mit t ≡ local_value fl mit.local t)
            ⊎ IsValueOf (merged_value_at fl mit t) t mit.remote)
  unfolding merged_value_at
  merged_value_at-latest fl mit t h =
      rw h (latest_remote-NoneLater t _ mit.remote, latest_remote-from t _ mit.remote)
