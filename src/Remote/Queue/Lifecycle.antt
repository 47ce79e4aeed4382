-- ===== src/Remote/Queue/Lifecycle.antt =====
-- The life of a queue manager of storage/remote/queue_manager.go: Start, Append, updateShardsLoop,
-- reshardLoop with reshard, the shards' goroutines, and Stop, as the turns that they can take.
pub mod Laws
pub mod Stop
pub mod Waiting
use promeproxy.Common.{
  ℕ, ◌<◌, ◌≡◌, Bool, true, false, none, some, List, [], ◌∷◌, ◌++◌, get_elem?, set, All,
}
use promeproxy.Remote.Queue.Shards.{new_shards, enqueue}
use promeproxy.Remote.Queue.Shards.Order.{Delivery}

-- Where reshardLoop is: in its select, with a number that it has received, in oldShards.stop, or gone.
pub data ReshardLoop : Type 0 where
  selecting flushing returned : ReshardLoop
  asked : ℕ → ReshardLoop

-- Where Stop is: not called, in t.wg.Wait with t.quit closed, in t.shards.stop with the mutex held, or done.
pub data Stopping : Type 0 where
  not_called awaiting closing done : Stopping

-- The manager. `updating` says that updateShardsLoop runs, and `started` that Start was called.
pub record Manager (A : Type 0) : Type 0 where
  pub delivery : Delivery A
  pub started : Bool
  pub updating : Bool
  pub loop : ReshardLoop
  pub stopping : Stopping

-- Stop holds the mutex for shards.stop; and no sample is appended to a manager that has been stopped,
-- since the writer's lock is held while its managers are exchanged.
abbrev pub is_closed : Stopping → Bool
is_closed not_called = false
is_closed awaiting = false
is_closed closing = true
is_closed done = true

-- t.quit is closed
abbrev pub is_quitting : Stopping → Bool
is_quitting not_called = false
is_quitting awaiting = true
is_quitting closing = true
is_quitting done = true

module _ {A : Type 0} where
  -- what NewQueueManager makes
  abbrev pub new_manager : Manager A
  new_manager = record {
    delivery = record { queues = new_shards 1; draining = none; accepted = []; delivered = [] };
    started = false;
    updating = false;
    loop = selecting;
    stopping = not_called;
  }

module _ {A : Type 0} (fingerprint : A → ℕ) (queue_capacity : ℕ) where
  -- One turn of a caller of Append, of Start or Stop, of a loop, or of a shard's goroutine. A negative
  -- number of shards, with which newShards panics, is left out.
  pub data Turn : Manager A → Manager A → Type 0 where
    accepts :
        (m : Manager A) (a : A) (queues' : List (List A))
        → is_closed m.stopping ≡ false
        → enqueue queue_capacity m.delivery.queues (fingerprint a) a ≡ some (true, queues')
        → Turn m (record m {
          delivery = record m.delivery {
            queues = queues';
            accepted = m.delivery.accepted ++ a ∷ [];
          };
        })
    discards :
        (m : Manager A) (a : A) (queues' : List (List A))
        → is_closed m.stopping ≡ false
        → enqueue queue_capacity m.delivery.queues (fingerprint a) a ≡ some (false, queues')
        → Turn m (record m { delivery = record m.delivery { queues = queues' } })
    starts :
        (m : Manager A) → m.started ≡ false → Turn m (record m { started = true; updating = true })
    receives :
        (m : Manager A) (i : ℕ) (a : A) (rest : List A)
        → m.started ≡ true
        → m.delivery.draining ≡ none
        → get_elem? m.delivery.queues i ≡ some (a ∷ rest)
        → Turn m (record m {
          delivery = record m.delivery {
            queues = set m.delivery.queues i rest;
            delivered = m.delivery.delivered ++ a ∷ [];
          };
        })
    drains :
        (m : Manager A) (old : List (List A)) (i : ℕ) (a : A) (rest : List A)
        → m.delivery.draining ≡ some old
        → get_elem? old i ≡ some (a ∷ rest)
        → Turn m (record m {
          delivery = record m.delivery {
            draining = some (set old i rest);
            delivered = m.delivery.delivered ++ a ∷ [];
          };
        })
    -- calculateDesiredShards sends a number, which reshardLoop receives
    asks :
        (m : Manager A) (n : ℕ)
        → m.updating ≡ true
        → m.loop ≡ selecting
        → Turn m (record m { loop = asked n })
    swaps :
        (m : Manager A) (n : ℕ)
        → m.loop ≡ asked n
        → Turn m (record m {
          delivery = record m.delivery { queues = new_shards n; draining = some m.delivery.queues };
          loop = flushing;
        })
    -- oldShards.stop returns, and the new shards start
    flushes :
        (m : Manager A) (old : List (List A))
        → m.loop ≡ flushing
        → m.delivery.draining ≡ some old
        → All (λ q. q ≡ []) old
        → Turn m (record m { delivery = record m.delivery { draining = none }; loop = selecting })
    quits :
        (m : Manager A)
        → m.started ≡ true
        → m.stopping ≡ not_called
        → Turn m (record m { stopping = awaiting })
    update_returns :
        (m : Manager A)
        → is_quitting m.stopping ≡ true
        → m.updating ≡ true
        → Turn m (record m { updating = false })
    reshard_returns :
        (m : Manager A)
        → is_quitting m.stopping ≡ true
        → m.loop ≡ selecting
        → Turn m (record m { loop = returned })
    -- t.wg.Wait returns, and the channels are closed
    closes :
        (m : Manager A)
        → m.stopping ≡ awaiting
        → m.updating ≡ false
        → m.loop ≡ returned
        → Turn m (record m { stopping = closing })
    -- s.wg.Wait returns: every shard has met the end of its channel
    stops :
        (m : Manager A)
        → m.stopping ≡ closing
        → All (λ q. q ≡ []) m.delivery.queues
        → Turn m (record m { stopping = done })

  -- The states that turns lead to.
  pub data Runs (m : Manager A) : Manager A → Type 0 where
    begin : Runs m m
    more : {t u : Manager A} → Runs m t → Turn t u → Runs m u

  pub Runs-trans : {m t u : Manager A} → Runs m t → Runs t u → Runs m u
  Runs-trans r begin = r
  Runs-trans r (more q st) = more (Runs-trans r q) st
