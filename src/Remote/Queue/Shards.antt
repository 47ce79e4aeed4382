-- ===== src/Remote/Queue/Shards.antt =====
-- The shards of storage/remote/queue_manager.go: newShards, enqueue and reshard. A buffered channel is
-- the list of the samples in it, oldest first.
pub mod Channels
pub mod Order
use promeproxy.Common.{
  ℕ, ◌%◌, Bool, true, false, Option, none, some, List, [], ◌∷◌, ◌++◌, ltb, nat_eqb, if◌then◌else◌,
  length, get_elem?, set, replicate, get_or,
}

module _ {A : Type 0} where
  -- newShards, with its empty channels
  unfoldable pub new_shards : ℕ → List (List A)
  new_shards n = replicate n []

  -- the samples in the channel at an index
  abbrev pub queue_at : ℕ → List (List A) → List A
  queue_at i queues = get_or (get_elem? queues i) []

  -- shards.enqueue: a select that sends to the sample's channel if there is room. `none` is the run-time
  -- panic of `%` when there are no shards.
  unfoldable pub enqueue : ℕ → List (List A) → ℕ → A → Option (Bool × List (List A))
  enqueue queue_capacity queues fp a =
      let shard = fp % length queues in
      let q = queue_at shard queues in
      if nat_eqb (length queues) 0
      then none
      else if ltb (length q) queue_capacity
      then some (true, set queues shard (q ++ a ∷ []))
      else some (false, queues)
