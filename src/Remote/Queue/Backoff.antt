-- ===== src/Remote/Queue/Backoff.antt =====
-- sendSamples and sendSamplesWithBackoff of storage/remote/queue_manager.go. Durations are numbers of
-- nanoseconds; the configured ones are far below the range of int64.
pub mod Laws
use promeproxy.Common.{
  ℕ, zero, suc, ◌+◌, ◌*◌, Option, none, some, List, [], ◌∷◌, ◌++◌, ltb, if◌then◌else◌, length,
}

-- QueueManagerConfig
pub record Config : Type 0 where
  pub queue_capacity : ℕ
  pub max_shards : ℕ
  pub max_samples_per_send : ℕ
  pub batch_send_deadline : ℕ
  pub max_retries : ℕ
  pub min_backoff : ℕ
  pub max_backoff : ℕ

-- defaultQueueManagerConfig
abbrev pub default_config : Config
default_config = record {
  queue_capacity = 100 * 1000;
  max_shards = 1000;
  max_samples_per_send = 100;
  batch_send_deadline = 5_000_000_000;
  max_retries = 10;
  min_backoff = 30_000_000;
  max_backoff = 100_000_000;
}

-- How StorageClient.Store fails: by a recoverableError or by another error.
pub data StoreError : Type 0 where
  recoverable other : StoreError

-- What sending changes. `C` is the state of the storage client; the calls of Store, the pauses and the
-- batches are logged, oldest first; `elapsed` is what time.Since gave, summed up.
pub record Sender (A C : Type 0) : Type 0 where
  pub client : C
  pub calls : ℕ
  pub pauses : List ℕ
  pub batches : List (List A)
  pub succeeded : ℕ
  pub failed : ℕ
  pub samples_out : ℕ
  pub elapsed : ℕ

-- The next pause: twice as long, up to the maximum.
abbrev pub next_backoff : Config → ℕ → ℕ
next_backoff cfg b = if ltb cfg.max_backoff (b * 2) then cfg.max_backoff else b * 2

module _ {A C : Type 0} (store : C → List A → Option StoreError × C) (cfg : Config) where
  -- The loop, with the retries that are left and the next pause.
  unfoldable pub send_loop : ℕ → ℕ → List A → Sender A C → Sender A C
  send_loop zero backoff samples s = record s { failed = s.failed + length samples }
  send_loop (suc retries) backoff samples s =
      let t = record s { client = (store s.client samples).1; calls = s.calls + 1 } in
      elim (store s.client samples).0 [
        | none ↦ record t { succeeded = s.succeeded + length samples }
        | some other ↦ record t { failed = s.failed + length samples }
        | some recoverable ↦
            send_loop retries (next_backoff cfg backoff) samples
              (record t { pauses = s.pauses ++ backoff ∷ [] })
      ]

  unfoldable pub send_samples_with_backoff : List A → Sender A C → Sender A C
  send_samples_with_backoff samples s = send_loop cfg.max_retries cfg.min_backoff samples s

  -- `took` is the time that the sending took.
  unfoldable pub send_samples : ℕ → List A → Sender A C → Sender A C
  send_samples took samples s =
      let t = send_samples_with_backoff samples s in
      record t {
        batches = t.batches ++ samples ∷ [];
        samples_out = t.samples_out + length samples;
        elapsed = t.elapsed + took;
      }
