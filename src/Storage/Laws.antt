-- ===== src/Storage/Laws.antt =====
-- Fanout of storage/storage.go: the samples that the appenders get, and the error.
use promeproxy.Common.{
  ◌≡◌, sym, ap, ◌∙◌, ◌↔◌, ◌⊎◌, inl, inr, true, Option, none, List, [], ◌∷◌, arith, Bool-cases,
  or_else, or_else_assoc, or_else-none,
}
use promeproxy.Model.{Sample}
use promeproxy.Storage.{SampleAppender, append_all, fanout_append, fanout_needs_throttling}

abbrev pub first_some : {E : Type 0} → List (Option E) → Option E
first_some [] = none
first_some (o ∷ os) = or_else o (first_some os)

module _ {V W E : Type 0} where
  -- the state after all appenders had the sample, each in its turn
  abbrev pub appended : List (SampleAppender V W E) → Sample V → W → W
  appended [] s w = w
  appended (a ∷ f) s w = appended f s (a.append s w).0

  -- the errors of the appenders, in their order
  abbrev pub errors : List (SampleAppender V W E) → Sample V → W → List (Option E)
  errors [] s w = []
  errors (a ∷ f) s w = (a.append s w).1 ∷ errors f s (a.append s w).0

  append_all-appends :
      (f : List (SampleAppender V W E)) (s : Sample V) (w : W) (err : Option E)
      → append_all f s w err ≡ (appended f s w, or_else err (first_some (errors f s w)))
  unfolding append_all
  append_all-appends [] s w err = ap (λ (o : Option E). (w, o)) (sym (or_else-none err))
  append_all-appends (a ∷ f) s w err =
      append_all-appends f s (a.append s w).0 (or_else err (a.append s w).1)
      ∙ ap (λ (o : Option E). (appended f s (a.append s w).0, o))
          (or_else_assoc err (a.append s w).1 (first_some (errors f s (a.append s w).0)))

  -- Fanout.Append hands the sample to every appender in order, also after an error, and returns the first
  -- error in that order, or none if there is none.
  pub fanout_append-appends :
      (f : List (SampleAppender V W E)) (s : Sample V) (w : W)
      → fanout_append f s w ≡ (appended f s w, first_some (errors f s w))
  unfolding fanout_append
  fanout_append-appends f s w = append_all-appends f s w none

  -- one of the appenders needs throttling
  abbrev pub AnyThrottles : List (SampleAppender V W E) → W → Type 0
  AnyThrottles [] w = ⊥
  AnyThrottles (a ∷ f) w = (a.needs_throttling w ≡ true) ⊎ AnyThrottles f w

  -- Fanout.NeedsThrottling says yes exactly if one of the appenders needs throttling.
  pub fanout_needs_throttling_iff :
      (f : List (SampleAppender V W E)) (w : W)
      → (fanout_needs_throttling f w ≡ true) ↔ AnyThrottles f w
  unfolding fanout_needs_throttling
  fanout_needs_throttling_iff [] w = ground arith
  fanout_needs_throttling_iff (a ∷ f) w = elim (Bool-cases (a.needs_throttling w)) [
    | inl e ↦ (λ h. inl e, λ h. rw (e, fanout_needs_throttling))
    | inr e ↦
        rw (e, fanout_needs_throttling)
          (
            λ h. inr ((fanout_needs_throttling_iff f w).0 h),
            λ h. elim h [ inl x ↦ cc | inr y ↦ (fanout_needs_throttling_iff f w).1 y ],
          )
  ]
