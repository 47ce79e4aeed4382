-- ===== src/Tests/Queue.antt =====
-- Runs of the theorems on the queue manager of storage/remote.
use promeproxy.Common.{
  ℕ, zero, suc, ◌+◌, ◌%◌, ◌≡◌, refl, false, Option, none, some, List, [], ◌∷◌, ◌++◌, arith, pos,
}
use promeproxy.Remote.Queue.Backoff.{Config, StoreError, recoverable, Sender, send_samples}
use promeproxy.Remote.Queue.Backoff.Laws.{Delivered, send_samples-delivers}
use promeproxy.Remote.Queue.Shard.{Event, received, closed, Shard, run_shard}
use promeproxy.Remote.Queue.Shard.Batches.{joined}
use promeproxy.Remote.Queue.Shard.Laws.{IsSteady, run_shard-flushes}
use promeproxy.Remote.Queue.Shards.{new_shards, enqueue}
use promeproxy.Remote.Queue.Shards.Channels.{of_series, waiting}
use promeproxy.Remote.Queue.Shards.Order.{
  Delivery, accept, drain, swap, Reach, here, next, old_queues, initial, Reach-order,
}

-- Samples are numbers, and the parity is the series. The channel takes two samples.
abbrev parity : ℕ → ℕ
parity n = n % 2

-- 4 is accepted, and then 6, and then two shards take over, which also accept 8; 4 and 6 are delivered
-- while the old shard drains.
abbrev two_accepted : Delivery ℕ
two_accepted = record {
  queues = (4 ∷ 6 ∷ []) ∷ [];
  draining = none;
  accepted = 4 ∷ 6 ∷ [];
  delivered = [];
}

abbrev swapped : Delivery ℕ
swapped = record {
  queues = new_shards 2;
  draining = some ((4 ∷ 6 ∷ []) ∷ []);
  accepted = 4 ∷ 6 ∷ [];
  delivered = [];
}

abbrev third_accepted : Delivery ℕ
third_accepted = record {
  queues = (8 ∷ []) ∷ [] ∷ [];
  draining = some ((4 ∷ 6 ∷ []) ∷ []);
  accepted = 4 ∷ 6 ∷ 8 ∷ [];
  delivered = [];
}

abbrev one_drained : Delivery ℕ
one_drained = record {
  queues = (8 ∷ []) ∷ [] ∷ [];
  draining = some ((6 ∷ []) ∷ []);
  accepted = 4 ∷ 6 ∷ 8 ∷ [];
  delivered = 4 ∷ [];
}

drained-Reach : Reach parity 2 (initial parity 2) one_drained
unfolding enqueue new_shards
drained-Reach =
    next {t = third_accepted}
      (next {t = swapped}
        (next {t = two_accepted}
          (next (next here (accept (initial parity 2) 4 ((4 ∷ []) ∷ []) refl))
            (accept _ 6 ((4 ∷ 6 ∷ []) ∷ []) refl))
          (swap two_accepted 2 refl))
        (accept swapped 8 ((8 ∷ []) ∷ [] ∷ []) refl))
      (drain third_accepted ((4 ∷ 6 ∷ []) ∷ []) 0 4 (6 ∷ []) refl refl)

Reach-order_example :
    of_series parity 0 one_drained.delivered
      ++ (waiting parity 0 (old_queues parity 2 one_drained) ++ waiting parity 0 one_drained.queues)
    ≡ of_series parity 0 one_drained.accepted
Reach-order_example = Reach-order parity 2 0 drained-Reach

-- The first call of Store fails with an error that may be tried again, and every later one succeeds.
abbrev store_second : ℕ → List ℕ → Option StoreError × ℕ
store_second zero samples = (some recoverable, 1)
store_second (suc n) samples = (none, suc (suc n))

abbrev small : Config
small = record {
  queue_capacity = 2;
  max_shards = 4;
  max_samples_per_send = 2;
  batch_send_deadline = 5;
  max_retries = 3;
  min_backoff = 3;
  max_backoff = 10;
}

abbrev idle_sender : Sender ℕ ℕ
idle_sender = record {
  client = 0;
  calls = 0;
  pauses = [];
  batches = [];
  succeeded = 0;
  failed = 0;
  samples_out = 0;
  elapsed = 0;
}

abbrev no_time : ℕ → List ℕ → ℕ
no_time c samples = 0

abbrev idle_shard : Shard ℕ ℕ
idle_shard = record { pending = []; queue_length = pos 0; sender = idle_sender; returned = false }

abbrev three : List (Event ℕ)
three = received 1 ∷ received 2 ∷ received 3 ∷ []

abbrev final_shard : Shard ℕ ℕ
final_shard = run_shard store_second small no_time (three ++ closed ∷ []) idle_shard

idle_shard-IsSteady : IsSteady store_second small no_time idle_shard
idle_shard-IsSteady = record {
  short = omega arith;
  tallied = record { fits = tt; counted = refl; out = refl };
}

run_shard-flushes_example :
    (joined final_shard.sender.batches ≡ 1 ∷ 2 ∷ 3 ∷ [])
    × (final_shard.sender.succeeded + final_shard.sender.failed ≡ 3)
run_shard-flushes_example =
    run_shard-flushes store_second small no_time three idle_shard idle_shard-IsSteady refl refl

abbrev sent : Sender ℕ ℕ
sent = send_samples store_second small 7 (5 ∷ 6 ∷ []) idle_sender

send_samples-delivers_example : Delivered store_second small 1 (5 ∷ 6 ∷ []) idle_sender sent
send_samples-delivers_example =
    send_samples-delivers store_second small 1 7 (5 ∷ 6 ∷ []) idle_sender (omega arith) (refl, tt)
      refl
