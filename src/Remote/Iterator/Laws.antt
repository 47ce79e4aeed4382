-- ===== src/Remote/Iterator/Laws.antt =====
-- The iterator of storage/remote/iterator.go on a stream with rising timestamps.
use promeproxy.Common.{
  ℕ, zero, suc, ◌-◌, ◌≤◌, ◌≡◌, refl, Bool, true, not, ◌&&◌, some, List, [], ◌∷◌, arith, nat_eqb,
  if◌then◌else◌, length, get_elem?, take, drop, length-take, All, filterb, ℤ, ◌≤ℤ◌,
}
use promeproxy.Common.Search.{
  Turns, cut, cut-le, search-cut, take-cut, cut_mono, drop-take-cut, last_or, last-take,
}
use promeproxy.Model.{earliest, SamplePair, SampleStream, before, after, Later, Ascending}
use promeproxy.Remote.Iterator.{Interval, slice, value_at_or_before_time, range_values}

module _ {V : Type 0} where
  All-after :
      (ts t : ℤ) (xs : List (SamplePair V))
      → after t ts ≡ true
      → Later t xs
      → All (λ s. after s.timestamp ts ≡ true) xs
  All-after ts t [] h l = tt
  All-after ts t (x ∷ xs) h l = (ground arith, All-after ts t xs h l.1)

  Turns-after :
      (ts : ℤ) (xs : List (SamplePair V)) → Ascending xs → Turns (λ s. after s.timestamp ts) xs
  Turns-after ts [] a = tt
  Turns-after ts (x ∷ xs) a = (λ e. All-after ts x.timestamp xs e a.0, Turns-after ts xs a.1)

  All-not-before :
      (ts t : ℤ) (xs : List (SamplePair V))
      → not (before t ts) ≡ true
      → Later t xs
      → All (λ s. not (before s.timestamp ts) ≡ true) xs
  All-not-before ts t [] h l = tt
  All-not-before ts t (x ∷ xs) h l = (ground arith, All-not-before ts t xs h l.1)

  pub Turns-not-before :
      (ts : ℤ) (xs : List (SamplePair V))
      → Ascending xs
      → Turns (λ s. not (before s.timestamp ts)) xs
  Turns-not-before ts [] a = tt
  Turns-not-before ts (x ∷ xs) a =
      (λ e. All-not-before ts x.timestamp xs e a.0, Turns-not-before ts xs a.1)

  -- the samples that are not after `ts`
  abbrev pub up_to : ℤ → List (SamplePair V) → List (SamplePair V)
  up_to ts = filterb (λ s. not (after s.timestamp ts))

  pick-last :
      (d : SamplePair V) (c : ℕ) (xs : List (SamplePair V))
      → c ≤ length xs
      → (if nat_eqb c 0 then some d else get_elem? xs (c - 1)) ≡ some (last_or d (take c xs))
  pick-last d zero xs h = ground arith
  pick-last d (suc n) xs h = ground (arith, last-take d n xs)

  drop_short : (n : ℕ) (xs : List (SamplePair V)) → length xs ≤ n → drop n xs ≡ []
  drop_short zero [] h = refl
  drop_short zero (x ∷ xs) h = absurd (omega arith)
  drop_short (suc n) [] h = refl
  drop_short (suc n) (x ∷ xs) h = drop_short n xs (omega arith)

  slice-some :
      (start end : ℕ) (xs : List (SamplePair V))
      → start ≤ end
      → end ≤ length xs
      → (if nat_eqb start (length xs) then some [] else slice xs start end)
        ≡ some (drop start (take end xs))
  unfolding slice
  slice-some start end xs h k = ground (arith, drop_short start (take end xs), length-take end xs)

  -- On a stream with rising timestamps the lookup does not panic, and returns the last sample that is
  -- not after the given time, or the pair (Earliest, 0) where there is none.
  pub value_at-last :
      (zero_value : V) (ss : SampleStream V) (ts : ℤ)
      → Ascending ss.values
      → value_at_or_before_time zero_value ss ts
        ≡ some (last_or (record { timestamp = earliest; value = zero_value }) (up_to ts ss.values))
  unfolding value_at_or_before_time
  value_at-last z ss ts a =
      let p : SamplePair V → Bool = λ s. after s.timestamp ts in
      let t = Turns-after ts ss.values a in
      rw (search-cut p ss.values t, ← take-cut p ss.values t)
        (pick-last _ (cut p ss.values) ss.values (cut-le p ss.values))

  -- On a stream with rising timestamps and an interval that is not reversed, the call does not panic,
  -- and returns exactly the samples of the closed interval, in their order.
  pub range_values-interval :
      (ss : SampleStream V) (i : Interval)
      → Ascending ss.values
      → i.oldest_inclusive ≤ℤ i.newest_inclusive
      → range_values ss i
        ≡ some (
            filterb
              (λ s.
                not (before s.timestamp i.oldest_inclusive)
                && not (after s.timestamp i.newest_inclusive))
              ss.values)
  unfolding range_values
  range_values-interval ss i a h =
      let p : SamplePair V → Bool = λ s. not (before s.timestamp i.oldest_inclusive) in
      let q : SamplePair V → Bool = λ s. after s.timestamp i.newest_inclusive in
      let tp = Turns-not-before i.oldest_inclusive ss.values a in
      let tq = Turns-after i.newest_inclusive ss.values a in
      let earlier = cut_mono p q (λ x e. ground arith) ss.values in
      rw (search-cut p ss.values tp, search-cut q ss.values tq)
        (rw (← drop-take-cut p q ss.values tp tq earlier)
          (slice-some (cut p ss.values) (cut q ss.values) ss.values earlier (cut-le q ss.values)))
