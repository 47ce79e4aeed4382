-- ===== src/Tests/Lives.antt =====
-- Runs of the theorems on the life of a queue manager.
use promeproxy.Common.{ℕ, ◌%◌, ◌≡◌, refl, true, false, Option, none, some, List, [], ◌∷◌}
use promeproxy.Remote.Queue.Shards.{new_shards, enqueue}
use promeproxy.Remote.Queue.Shards.Channels.{of_series}
use promeproxy.Remote.Queue.Shards.Order.{Delivery, Reach, initial}
use promeproxy.Remote.Queue.Lifecycle.{
  selecting, flushing, returned, asked, awaiting, closing, done, Manager, new_manager, accepts,
  starts, drains, asks, swaps, flushes, quits, update_returns, reshard_returns, closes, stops, Runs,
  begin, more,
}
use promeproxy.Remote.Queue.Lifecycle.Laws.{Runs-Reach, Runs-done}
use promeproxy.Remote.Queue.Lifecycle.Stop.{Leads, Runs-Leads}

-- Samples are numbers, and the parity is the series. The channel takes two samples.
abbrev series_of_number : ℕ → ℕ
series_of_number n = n % 2

abbrev channels : List (List ℕ) → Option (List (List ℕ)) → List ℕ → Delivery ℕ
channels queues draining delivered = record {
  queues = queues;
  draining = draining;
  accepted = 4 ∷ 6 ∷ [];
  delivered = delivered;
}

-- 4 and 6 are accepted, then a reshard to two shards begins, and Stop is called in the middle of it.
abbrev at_start : Manager ℕ
at_start = record new_manager { started = true; updating = true }

abbrev with_four : Manager ℕ
with_four = record at_start {
  delivery = record { queues = (4 ∷ []) ∷ []; draining = none; accepted = 4 ∷ []; delivered = [] };
}

abbrev with_six : Manager ℕ
with_six = record at_start { delivery = channels ((4 ∷ 6 ∷ []) ∷ []) none [] }

abbrev resharding : Manager ℕ
resharding = record with_six {
  delivery = channels (new_shards 2) (some ((4 ∷ 6 ∷ []) ∷ [])) [];
  loop = flushing;
}

abbrev quitting : Manager ℕ
quitting = record resharding { stopping = awaiting }

quitting-Runs : Runs series_of_number 2 new_manager quitting
unfolding enqueue new_shards
quitting-Runs =
    more {t = resharding}
      (more {t = record with_six { loop = asked 2 }}
        (more {t = with_six}
          (more {t = with_four}
            (more {t = at_start} (more begin (starts new_manager refl))
              (accepts at_start 4 ((4 ∷ []) ∷ []) refl refl))
            (accepts with_four 6 ((4 ∷ 6 ∷ []) ∷ []) refl refl))
          (asks with_six 2 refl refl))
        (swaps (record with_six { loop = asked 2 }) 2 refl))
      (quits resharding refl refl)

Runs-Reach_example : Reach series_of_number 2 (initial series_of_number 2) quitting.delivery
Runs-Reach_example = Runs-Reach series_of_number 2 quitting-Runs

Runs-Leads_example : Leads series_of_number 2 quitting (λ t. t.stopping ≡ done)
Runs-Leads_example = Runs-Leads series_of_number 2 quitting quitting-Runs refl

-- The old shard drains, the loops return, and the channels are closed while they are empty.
abbrev drained : Manager ℕ
drained = record quitting { delivery = channels (new_shards 2) (some ([] ∷ [])) (4 ∷ 6 ∷ []) }

abbrev flushed : Manager ℕ
flushed = record quitting { delivery = channels (new_shards 2) none (4 ∷ 6 ∷ []); loop = selecting }

abbrev closed_up : Manager ℕ
closed_up = record flushed { updating = false; loop = returned; stopping = closing }

stopped-Runs : Runs series_of_number 2 new_manager (record closed_up { stopping = done })
unfolding new_shards
stopped-Runs =
    more {t = closed_up}
      (more {t = record flushed { updating = false; loop = returned }}
        (more {t = record flushed { updating = false }}
          (more {t = flushed}
            (more {t = drained}
              (more
                {t = record quitting {
                  delivery = channels (new_shards 2) (some ((6 ∷ []) ∷ [])) (4 ∷ []);
                }}
                (more quitting-Runs (drains quitting ((4 ∷ 6 ∷ []) ∷ []) 0 4 (6 ∷ []) refl refl))
                (drains _ ((6 ∷ []) ∷ []) 0 6 [] refl refl))
              (flushes drained ([] ∷ []) refl refl (refl, tt)))
            (update_returns flushed refl refl))
          (reshard_returns (record flushed { updating = false }) refl refl))
        (closes (record flushed { updating = false; loop = returned }) refl refl refl))
      (stops closed_up refl (refl, (refl, tt)))

Runs-done_example :
    of_series series_of_number 0 (4 ∷ 6 ∷ []) ≡ of_series series_of_number 0 (4 ∷ 6 ∷ [])
Runs-done_example = Runs-done series_of_number 2 0 stopped-Runs refl
