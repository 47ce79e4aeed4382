-- ===== src/Remote/Queue/Manager.antt =====
-- QueueManager of storage/remote/queue_manager.go: Append, and the choice of the number of shards.
-- `fast_fingerprint` and `process` stand for the hash of a metric and for relabel.Process with the
-- queue's relabel configurations, where `none` is a dropped sample.
pub mod Laws
use mathlib.Core.Option
use promeproxy.Common.{
  string_eq, ℕ, ◌+◌, Bool, true, false, ◌&&◌, Option, none, some, List, if◌then◌else◌, ℤ, pos, ◌+ℤ◌,
  ltb_ℤ, eqb_ℤ, insert_missing,
}
use promeproxy.Model.{LabelSet, Sample}
use promeproxy.Floats.{Floats}
use promeproxy.Remote.Ewma.{EwmaRate, new_ewma_rate, incr, tick}
use promeproxy.Remote.Queue.Backoff.{Config}
use promeproxy.Remote.Queue.Shards.{new_shards, enqueue}

pub record QueueManager (F V : Type 0) : Type 0 where
  pub cfg : Config
  pub external_labels : LabelSet
  pub shards : List (List (Sample V))
  pub num_shards : ℤ
  pub samples_in : EwmaRate F
  pub samples_out : EwmaRate F
  pub samples_out_duration : EwmaRate F
  pub integral_accumulator : F
  -- the gauge of the queues' length, and the counter of dropped samples
  pub queue_length : ℤ
  pub dropped : ℕ

-- the labels of the sample that Append queues, before relabelling
unfoldable pub with_external_labels : LabelSet → LabelSet → LabelSet
with_external_labels external_labels metric = insert_missing metric external_labels metric

-- the clamp and the test in front of the send to reshardChan
abbrev pub clamp : ℕ → ℤ → ℤ
clamp max_shards n = if ltb_ℤ (pos max_shards) n then pos max_shards else n

module _ {F V : Type 0} (fl : Floats F) where
  open fl use {constant, of_int, add, sub, mul, div, le, ceil}

  -- NewQueueManager: shardUpdateDuration is 10 seconds, ewmaWeight 0.2
  unfoldable pub new_queue_manager : Config → LabelSet → QueueManager F V
  unfolding new_shards new_ewma_rate
  new_queue_manager cfg external_labels =
      let ewma : EwmaRate F = new_ewma_rate fl (constant 2 10) (constant 10 1) in
      record {
        cfg = cfg;
        external_labels = external_labels;
        shards = new_shards 1;
        num_shards = pos 1;
        samples_in = ewma;
        samples_out = ewma;
        samples_out_duration = ewma;
        integral_accumulator = constant 0 1;
        queue_length = pos 0;
        dropped = 0;
      }

  -- The send, where `idle` says whether reshardLoop is ready to receive.
  abbrev pub request : Bool → QueueManager F V → ℤ → QueueManager F V × Option ℤ
  request idle t n =
      if eqb_ℤ n t.num_shards
      then (t, none)
      else if idle
      then (record t { num_shards = n }, some n)
      else (t, none)

  -- the ticks, with the events that arrive in them, and the integral: the first part of calculateDesiredShards
  unfoldable pub measured : ℕ → ℕ → ℕ → QueueManager F V → QueueManager F V
  unfolding tick
  measured i o d t =
      let in_ = tick fl i t.samples_in in
      let out = tick fl o t.samples_out in
      let pending = sub in_.last_rate out.last_rate in
      record t {
        samples_in = in_;
        samples_out = out;
        samples_out_duration = tick fl d t.samples_out_duration;
        integral_accumulator = add t.integral_accumulator (mul pending (constant 1 10));
      }

  -- desiredShards, from a state that has been measured
  unfoldable pub desired_shards : QueueManager F V → F
  desired_shards t =
      let in_ = t.samples_in.last_rate in
      let out = t.samples_out.last_rate in
      let time_per_sample = div t.samples_out_duration.last_rate out in
      div (mul time_per_sample (add (add in_ (sub in_ out)) t.integral_accumulator))
        (constant 1_000_000_000 1)

  -- whether a number of shards is within 30% of the current one
  unfoldable pub tolerated : QueueManager F V → F → Bool
  tolerated t desired =
      le (mul (of_int t.num_shards) (sub (constant 1 1) (constant 3 10))) desired
      && le desired (mul (of_int t.num_shards) (add (constant 1 1) (constant 3 10)))

  -- the rest of calculateDesiredShards, on a state that has been measured
  unfoldable pub decide_shards : Bool → QueueManager F V → QueueManager F V × Option ℤ
  decide_shards idle t =
      if le t.samples_out.last_rate (constant 0 1)
      then (t, none)
      else if tolerated t (desired_shards t)
      then (t, none)
      else request idle t (clamp t.cfg.max_shards (ceil (desired_shards t)))

  -- calculateDesiredShards: the new state, and the number that was sent to reshardChan, if any
  unfoldable pub calculate_desired_shards :
      Bool → ℕ → ℕ → ℕ → QueueManager F V → QueueManager F V × Option ℤ
  unfolding decide_shards
  calculate_desired_shards idle i o d t = decide_shards idle (measured i o d t)

  -- NeedsThrottling
  abbrev pub needs_throttling : QueueManager F V → Bool
  needs_throttling t = false

  -- the end of Append, on the answer of enqueue
  abbrev pub count_enqueued : QueueManager F V → Bool × List (List (Sample V)) → QueueManager F V
  count_enqueued t (true, shards) = record t {
    shards = shards;
    samples_in = incr fl 1 t.samples_in;
    queue_length = t.queue_length +ℤ pos 1;
  }
  count_enqueued t (false, shards) = record t {
    shards = shards;
    samples_in = incr fl 1 t.samples_in;
    dropped = t.dropped + 1;
  }

module _ {F V : Type 0} (fl : Floats F) (fast_fingerprint : LabelSet → ℕ) where
  -- Append after relabelling
  unfoldable pub append_relabelled :
      QueueManager F V → Sample V → Option LabelSet → Option (QueueManager F V)
  unfolding enqueue
  append_relabelled t s none = some t
  append_relabelled t s (some labels) = Option.map (count_enqueued fl t) (
      enqueue t.cfg.queue_capacity t.shards (fast_fingerprint labels)
        (record s { metric = labels }))

  -- Append, whose error is always nil. `none` is the panic of enqueue without shards.
  unfoldable pub append :
      (LabelSet → Option LabelSet) → QueueManager F V → Sample V → Option (QueueManager F V)
  unfolding with_external_labels append_relabelled
  append process t s =
      append_relabelled t s (process (with_external_labels t.external_labels s.metric))
