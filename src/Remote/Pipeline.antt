-- ===== src/Remote/Pipeline.antt =====
-- The way of a sample to the queues of the remote storages: Writer.Append of storage/remote/write.go calls
-- QueueManager.Append of queue_manager.go for each storage.
pub mod Laws
pub mod Turns
use mathlib.Core.Option
use promeproxy.Common.{string_eq, ℕ, false, Option, none, some, List, [], ◌∷◌}
use promeproxy.Floats.{Floats}
use promeproxy.Model.{LabelSet, Sample}
use promeproxy.Storage.{SampleAppender, fanout_append, fanout_needs_throttling}
use promeproxy.Remote.Queue.Manager.{QueueManager, needs_throttling, append}

-- A queue manager with its relabel configurations, as relabel.Process applies them.
pub record Managed (F V : Type 0) : Type 0 where
  pub manager : QueueManager F V
  pub process : LabelSet → Option LabelSet

module _ {F V : Type 0} (fl : Floats F) (fast_fingerprint : LabelSet → ℕ) where
  -- QueueManager.Append; none is its panic
  unfoldable pub append_managed : Sample V → Managed F V → Option (Managed F V)
  unfolding append
  append_managed s q =
      Option.map (λ t. record q { manager = t }) (append fl fast_fingerprint q.process q.manager s)

  -- a queue manager and those after it, unless it has panicked
  unfoldable pub and_then :
      Option (Managed F V) → Option (List (Managed F V)) → Option (List (Managed F V))
  and_then none rest = none
  and_then (some q) rest = Option.map (λ qs. q ∷ qs) rest

  -- the loop of Writer.Append; a panic ends it
  unfoldable pub append_queues : Sample V → List (Managed F V) → Option (List (Managed F V))
  unfolding append_managed and_then
  append_queues s [] = some []
  append_queues s (q ∷ qs) = and_then (append_managed s q) (append_queues s qs)
