-- ===== src/Storage.antt =====
-- storage/storage.go: sample appenders, and the fan-out to several of them.
pub mod Laws
use promeproxy.Common.{Bool, true, false, Option, none, List, [], ◌∷◌, if◌then◌else◌, or_else}
use promeproxy.Model.{Sample}

-- SampleAppender. `W` is the state that appending changes; `E` the errors.
pub record SampleAppender (V W E : Type 0) : Type 0 where
  pub append : Sample V → W → W × Option E
  pub needs_throttling : W → Bool

module _ {V W E : Type 0} where
  -- the loop of Fanout.Append, with the first error so far
  unfoldable pub append_all : List (SampleAppender V W E) → Sample V → W → Option E → W × Option E
  append_all [] s w err = (w, err)
  append_all (a ∷ f) s w err = let (w', e) = a.append s w in append_all f s w' (or_else err e)

  -- Fanout.Append
  unfoldable pub fanout_append : List (SampleAppender V W E) → Sample V → W → W × Option E
  unfolding append_all
  fanout_append f s w = append_all f s w none

  -- Fanout.NeedsThrottling
  unfoldable pub fanout_needs_throttling : List (SampleAppender V W E) → W → Bool
  fanout_needs_throttling [] w = false
  fanout_needs_throttling (a ∷ f) w =
      if a.needs_throttling w then true else fanout_needs_throttling f w
