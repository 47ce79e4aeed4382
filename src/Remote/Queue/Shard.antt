-- ===== src/Remote/Queue/Shard.antt =====
-- runShard of storage/remote/queue_manager.go: one goroutine that batches the samples of its queue.
pub mod Batches
pub mod Laws
use promeproxy.Common.{
  ℕ, zero, suc, Bool, true, false, Option, List, [], ◌∷◌, ◌++◌, leb, if◌then◌else◌, length, take,
  drop, ℤ, pos, ◌-ℤ◌,
}
use promeproxy.Remote.Queue.Backoff.{Config, StoreError, Sender, send_samples}

-- What the goroutine's select can meet: a sample from the queue, the deadline, or the closed queue.
pub data Event (A : Type 0) : Type 0 where
  received : A → Event A
  deadline : Event A
  closed : Event A

pub record Shard (A C : Type 0) : Type 0 where
  pub pending : List A
  pub queue_length : ℤ
  pub sender : Sender A C
  pub returned : Bool

module _ {A C : Type 0} (store : C → List A → Option StoreError × C) (cfg : Config)
    (took : C → List A → ℕ) where
  abbrev pub send_batch : List A → Sender A C → Sender A C
  send_batch samples s = send_samples store cfg (took s.client samples) samples s

  -- for len(pendingSamples) >= MaxSamplesPerSend { send the first ones }
  unfoldable pub send_full : ℕ → List A → Sender A C → List A × Sender A C
  send_full zero pending s = (pending, s)
  send_full (suc fuel) pending s = elim (leb cfg.max_samples_per_send (length pending)) [
    | true ↦
        send_full fuel (drop cfg.max_samples_per_send pending)
          (send_batch (take cfg.max_samples_per_send pending) s)
    | false ↦ (pending, s)
  ]

  abbrev pub send_rest : List A → Sender A C → Sender A C
  send_rest [] s = s
  send_rest (a ∷ as_) s = send_batch (a ∷ as_) s

  -- One round of the loop. Every send takes at least one sample off, so the samples bound the sends.
  unfoldable pub shard_step : Event A → Shard A C → Shard A C
  unfolding send_full
  shard_step (received a) sh =
      let pending = sh.pending ++ a ∷ [] in
      let (rest, s) = send_full (length pending) pending sh.sender in
      record sh { pending = rest; queue_length = sh.queue_length -ℤ pos 1; sender = s }
  shard_step deadline sh = record sh { pending = []; sender = send_rest sh.pending sh.sender }
  shard_step closed sh = record sh {
    pending = [];
    sender = send_rest sh.pending sh.sender;
    returned = true;
  }

  -- The goroutine returns when the queue is closed.
  unfoldable pub run_shard : List (Event A) → Shard A C → Shard A C
  unfolding shard_step
  run_shard [] sh = sh
  run_shard (e ∷ events) sh =
      let next = run_shard events (shard_step e sh) in if sh.returned then sh else next
