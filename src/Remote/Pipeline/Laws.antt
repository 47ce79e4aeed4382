-- ===== src/Remote/Pipeline/Laws.antt =====
-- What becomes of a sample in the queues of the remote storages (storage/remote/write.go,
-- storage/remote/queue_manager.go).
use mathlib.Core.Option
use promeproxy.Common.{
  ℕ, ◌+◌, ◌%◌, ◌<◌, ◌≡◌, refl, ap, inl, inr, Bool, true, false, Option, none, some, List, [], ◌∷◌,
  ◌++◌, arith, ltb, nat_eqb, if◌then◌else◌, Bool-cases, length, set, All,
}
use promeproxy.Common.{string_eq}
use promeproxy.Floats.{Floats}
use promeproxy.Model.{LabelSet, Sample}
use promeproxy.Remote.Queue.Manager.{
  QueueManager, with_external_labels, count_enqueued, append_relabelled, append,
}
use promeproxy.Remote.Queue.Shards.{queue_at, enqueue}
use promeproxy.Remote.Pipeline.{Managed, append_managed, and_then, append_queues}

module _ {F V : Type 0} (fl : Floats F) (fast_fingerprint : LabelSet → ℕ) where
  -- the channel for these labels
  abbrev pub shard_of : LabelSet → QueueManager F V → ℕ
  shard_of labels t = fast_fingerprint labels % length t.shards

  -- the channel has room
  abbrev pub has_room : LabelSet → QueueManager F V → Bool
  has_room labels t = ltb (length (queue_at (shard_of labels t) t.shards)) t.cfg.queue_capacity

  -- the channels once the sample stands at the end of its channel
  abbrev pub shards_with : Sample V → QueueManager F V → List (List (Sample V))
  shards_with s t =
      set t.shards (shard_of s.metric t) (queue_at (shard_of s.metric t) t.shards ++ s ∷ [])

  -- What a queue manager makes of a sample that relabelling gave these labels: nothing where relabelling
  -- dropped it, else it stands at the end of its channel where that has room, and is counted as
  -- dropped where not.
  abbrev pub Takes : Sample V → Option LabelSet → QueueManager F V → QueueManager F V → Type 0
  Takes s none t u = u ≡ t
  Takes s (some relabelled) t u =
      if has_room relabelled t
      then (u.shards ≡ shards_with (record s { metric = relabelled }) t) × (u.dropped ≡ t.dropped)
      else (u.shards ≡ t.shards) × (u.dropped ≡ t.dropped + 1)

  pub enqueue-room :
      (t : QueueManager F V) (s : Sample V)
      → 0 < length t.shards
      → has_room s.metric t ≡ true
      → enqueue t.cfg.queue_capacity t.shards (fast_fingerprint s.metric) s
        ≡ some (true, shards_with s t)
  unfolding enqueue
  enqueue-room t s h r =
      let some_shards : nat_eqb (length t.shards) 0 ≡ false = ground arith in
      rw (some_shards, r) refl

  pub enqueue-full :
      (t : QueueManager F V) (s : Sample V)
      → 0 < length t.shards
      → has_room s.metric t ≡ false
      → enqueue t.cfg.queue_capacity t.shards (fast_fingerprint s.metric) s ≡ some (false, t.shards)
  unfolding enqueue
  enqueue-full t s h r =
      let some_shards : nat_eqb (length t.shards) 0 ≡ false = ground arith in
      rw (some_shards, r) refl

  append_relabelled-Takes :
      (t : QueueManager F V) (s : Sample V) (relabelled : Option LabelSet)
      → 0 < length t.shards
      → (u : QueueManager F V) × (append_relabelled fl fast_fingerprint t s relabelled ≡ some u)
        × Takes s relabelled t u
  unfolding append_relabelled
  append_relabelled-Takes t s none h = (t, refl, refl)
  append_relabelled-Takes t s (some l) h = elim (Bool-cases (has_room l t)) [
    | inl r ↦ (
      _,
      ap (Option.map (count_enqueued fl t)) (enqueue-room t (record s { metric = l }) h r),
      rw (r) (refl, refl),
    )
    | inr r ↦ (
      _,
      ap (Option.map (count_enqueued fl t)) (enqueue-full t (record s { metric = l }) h r),
      rw (r) (refl, refl),
    )
  ]

  -- Each queue manager, with its relabelling, takes the sample with its external labels.
  abbrev pub AllTake : Sample V → List (Managed F V) → List (Managed F V) → Type 0
  AllTake s [] [] = Unit
  AllTake s [] (r ∷ rs) = ⊥
  AllTake s (q ∷ qs) [] = ⊥
  AllTake s (q ∷ qs) (r ∷ rs) =
      (r.process ≡ q.process)
      × Takes s (q.process (with_external_labels q.manager.external_labels s.metric)) q.manager
          r.manager
      × AllTake s qs rs

  -- every queue manager has a shard
  abbrev pub HaveShards : List (Managed F V) → Type 0
  HaveShards = All (λ q. 0 < length q.manager.shards)

  -- Writer.Append on queue managers that each have a shard does not panic, and each does with the sample what
  -- Takes says, with its own external labels and relabelling.
  pub append_queues-AllTake :
      (s : Sample V) (qs : List (Managed F V))
      → HaveShards qs
      → (rs : List (Managed F V)) × (append_queues fl fast_fingerprint s qs ≡ some rs)
        × AllTake s qs rs
  unfolding append_queues append_managed append and_then
  append_queues-AllTake s [] h = ([], refl, tt)
  append_queues-AllTake s (q ∷ qs) (h, hs) =
      let (rs, e, t) = append_queues-AllTake s qs hs in
      let (u, e', t') =
        append_relabelled-Takes q.manager s
          (q.process (with_external_labels q.manager.external_labels s.metric)) h in
      (
        record q { manager = u } ∷ rs,
        λ i. and_then fl fast_fingerprint (Option.map (λ t. record q { manager = t }) (e' i)) (e i),
        (refl, t', t),
      )
