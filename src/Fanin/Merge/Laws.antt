-- ===== src/Fanin/Merge/Laws.antt =====
-- mergeSamples of storage/fanin/fanin.go: the timestamps of what it returns.
use promeproxy.Common.{
  ◌≡◌, refl, sym, ◌⊎◌, inl, inr, Option, none, some, List, [], ◌∷◌, arith, if◌then◌else◌,
  Bool-cases, ℤ, ◌≤ℤ◌, ◌<ℤ◌, eqb_ℤ, eq_of_parts, or_else, or_else-none,
}
use promeproxy.Model.{SamplePair, before, after, Later, Ascending, Later-trans}
use promeproxy.Fanin.Merge.{merge_samples}

module _ {V : Type 0} where
  -- The sample that a list holds at a time.
  abbrev pub sample_at : ℤ → List (SamplePair V) → Option (SamplePair V)
  sample_at t [] = none
  sample_at t (s ∷ ss) = if eqb_ℤ s.timestamp t then some s else sample_at t ss

  pub merge_samples-Later :
      (t : ℤ) (a b : List (SamplePair V)) → Later t a → Later t b → Later t (merge_samples a b)
  unfolding merge_samples
  merge_samples-Later t [] b la lb = lb
  merge_samples-Later t (x ∷ a) [] la lb = la
  merge_samples-Later t (x ∷ a) (y ∷ b) la lb = ground (
    arith,
    merge_samples-Later t a (y ∷ b) la.1 lb,
    merge_samples-Later t (x ∷ a) b la lb.1,
    merge_samples-Later t a b la.1 lb.1,
  )

  -- Of two lists with rising timestamps the merged list has rising timestamps too, so it holds no
  -- timestamp twice.
  pub merge_samples-Ascending :
      (a b : List (SamplePair V)) → Ascending a → Ascending b → Ascending (merge_samples a b)
  unfolding merge_samples
  merge_samples-Ascending [] b aa ab = ab
  merge_samples-Ascending (x ∷ a) [] aa ab = aa
  merge_samples-Ascending (x ∷ a) (y ∷ b) aa ab = ground (
    arith,
    merge_samples-Ascending a (y ∷ b) aa.1 ab,
    merge_samples-Ascending (x ∷ a) b aa ab.1,
    merge_samples-Ascending a b aa.1 ab.1,
    merge_samples-Later x.timestamp a (y ∷ b) aa.0,
    merge_samples-Later y.timestamp (x ∷ a) b,
    merge_samples-Later x.timestamp a b aa.0,
    Later-trans x.timestamp y.timestamp b,
    Later-trans y.timestamp x.timestamp a,
  )

  pub sample_at-Later :
      (t u : ℤ) (a : List (SamplePair V)) → Later u a → t ≤ℤ u → sample_at t a ≡ none
  sample_at-Later t u [] l h = refl
  sample_at-Later t u (x ∷ a) l h = ground (arith, sample_at-Later t u a l.1 h)

  -- One round of the loop.
  pub merge_samples-step :
      (x y : SamplePair V) (a b : List (SamplePair V))
      → ((x.timestamp <ℤ y.timestamp)
          × (merge_samples (x ∷ a) (y ∷ b) ≡ x ∷ merge_samples a (y ∷ b)))
        ⊎ (((y.timestamp <ℤ x.timestamp)
              × (merge_samples (x ∷ a) (y ∷ b) ≡ y ∷ merge_samples (x ∷ a) b))
            ⊎ ((x.timestamp ≡ y.timestamp)
                × (merge_samples (x ∷ a) (y ∷ b) ≡ x ∷ merge_samples a b)))
  unfolding merge_samples
  merge_samples-step x y a b = elim (Bool-cases (before x.timestamp y.timestamp)) [
    | inl e ↦ inl (ground arith, rw (e, merge_samples))
    | inr e ↦ elim (Bool-cases (after x.timestamp y.timestamp)) [
      | inl g ↦ inr (inl (ground arith, rw (e, merge_samples, g)))
      | inr g ↦
          inr (inr (eq_of_parts x.timestamp y.timestamp (ground arith), rw (e, merge_samples, g)))
    ]
  ]

  sample_at-cons-Later :
      (t : ℤ) (y : SamplePair V) (o : Option (SamplePair V)) (xs b : List (SamplePair V))
      → Later y.timestamp xs
      → o ≡ or_else (sample_at t xs) (sample_at t b)
      → (if eqb_ℤ y.timestamp t then some y else o) ≡ or_else (sample_at t xs) (sample_at t (y ∷ b))
  sample_at-cons-Later t y o xs b l h = elim (Bool-cases (eqb_ℤ y.timestamp t)) [
    | inl e ↦ rw (e, sample_at-Later t y.timestamp xs l (ground arith))
    | inr e ↦ rw e h
  ]

  sample_at-cons_first :
      (t : ℤ) (x : SamplePair V) (o p q : Option (SamplePair V))
      → o ≡ or_else p q
      → (if eqb_ℤ x.timestamp t then some x else o)
        ≡ or_else (if eqb_ℤ x.timestamp t then some x else p) q
  sample_at-cons_first t x o p q h = elim (Bool-cases (eqb_ℤ x.timestamp t)) [
    | inl e ↦ rw e
    | inr e ↦ rw e h
  ]

  sample_at-cons_both :
      (t : ℤ) (x y : SamplePair V) (o p q : Option (SamplePair V))
      → x.timestamp ≡ y.timestamp
      → o ≡ or_else p q
      → (if eqb_ℤ x.timestamp t then some x else o)
        ≡ or_else
            (if eqb_ℤ x.timestamp t then some x else p)
            (if eqb_ℤ y.timestamp t then some y else q)
  sample_at-cons_both t x y o p q d h =
      rw (← d) (elim (Bool-cases (eqb_ℤ x.timestamp t)) [ inl e ↦ rw e | inr e ↦ rw e h ])

  -- Of two lists with rising timestamps the merged list has at each time the first list's sample, and
  -- where that has none, the second list's.
  pub sample_at-merge_samples :
      (t : ℤ) (a b : List (SamplePair V))
      → Ascending a
      → Ascending b
      → sample_at t (merge_samples a b) ≡ or_else (sample_at t a) (sample_at t b)
  unfolding merge_samples
  sample_at-merge_samples t [] b aa ab = refl
  sample_at-merge_samples t (x ∷ a) [] aa ab = sym (or_else-none _)
  sample_at-merge_samples t (x ∷ a) (y ∷ b) aa ab =
      let r₁ = sample_at-merge_samples t a (y ∷ b) aa.1 ab in
      let r₂ = sample_at-merge_samples t (x ∷ a) b aa ab.1 in
      let r₃ = sample_at-merge_samples t a b aa.1 ab.1 in
      elim (merge_samples-step x y a b) [
        | inl (l, e) ↦ rw e (sample_at-cons_first t x _ (sample_at t a) (sample_at t (y ∷ b)) r₁)
        | inr (inl (l, e)) ↦ rw e (
            sample_at-cons-Later t y _ (x ∷ a) b
              (l, Later-trans y.timestamp x.timestamp a (omega arith) aa.0) r₂)
        | inr (inr (l, e)) ↦ rw e (sample_at-cons_both t x y _ (sample_at t a) (sample_at t b) l r₃)
      ]
