-- ===== src/Remote/Pipeline/Turns.antt =====
-- Calls of QueueManager.Append of storage/remote/queue_manager.go as turns in the life of its queue manager.
use mathlib.Core.Option
use promeproxy.Common.{
  ℕ, ◌+◌, ◌<◌, ◌≡◌, refl, ap, ◌∙◌, ◌⊎◌, inl, inr, false, Option, none, some, List, [], ◌∷◌, ◌++◌,
  arith, Bool-cases, length, length-set,
}
use promeproxy.Common.{string_eq}
use promeproxy.Floats.{Floats}
use promeproxy.Model.{LabelSet, Sample}
use promeproxy.Remote.Queue.Shards.{queue_at}
use promeproxy.Remote.Queue.Manager.{
  QueueManager, with_external_labels, count_enqueued, append_relabelled, append,
}
use promeproxy.Remote.Queue.Lifecycle.{Manager, is_closed, Turn, accepts, discards}
use promeproxy.Remote.Pipeline.Laws.{shard_of, has_room, shards_with, enqueue-room, enqueue-full}

module _ {F V : Type 0} (fl : Floats F) (fast_fingerprint : LabelSet → ℕ) where
  abbrev pub print_of : Sample V → ℕ
  print_of s = fast_fingerprint s.metric

  -- the life of a queue manager with the channels that a manager's state has
  abbrev pub life : Manager (Sample V) → QueueManager F V → Manager (Sample V)
  life m t = record m { delivery = record m.delivery { queues = t.shards } }

  -- One turn of the life, in which a channel accepts the sample, or the sample is counted as dropped; Stop and the
  -- configuration are as before.
  pub record TakesTurn (s : Sample V) (m left : Manager (Sample V)) (t u : QueueManager F V)
      : Type 0 where
    pub turn : Turn print_of t.cfg.queue_capacity (life m t) (life left u)
    pub outcome :
        ((left.delivery.accepted ≡ m.delivery.accepted ++ s ∷ []) × (u.dropped ≡ t.dropped))
        ⊎ ((left.delivery.accepted ≡ m.delivery.accepted) × (u.dropped ≡ t.dropped + 1))
    pub same_stop : left.stopping ≡ m.stopping
    pub same_config : u.cfg ≡ t.cfg
    pub same_labels : u.external_labels ≡ t.external_labels
    pub some_shards : 0 < length u.shards

  append_relabelled-TakesTurn :
      (t : QueueManager F V) (s : Sample V) (l : LabelSet) (m : Manager (Sample V))
      → 0 < length t.shards
      → is_closed m.stopping ≡ false
      → (u : QueueManager F V) × (append_relabelled fl fast_fingerprint t s (some l) ≡ some u)
        × (left : Manager (Sample V)) × TakesTurn (record s { metric = l }) m left t u
  unfolding append_relabelled
  append_relabelled-TakesTurn t s l m h c =
      let s' : Sample V = record s { metric = l } in
      elim (Bool-cases (has_room fl fast_fingerprint l t)) [
        | inl r ↦
            let e = enqueue-room fl fast_fingerprint t s' h r in
            (
              _,
              ap (Option.map (count_enqueued fl t)) e,
              record m {
                delivery = record m.delivery { accepted = m.delivery.accepted ++ s' ∷ [] };
              },
              record {
                turn = accepts (life m t) s' (shards_with fl fast_fingerprint s' t) c e;
                outcome = inl (refl, refl);
                same_stop = refl;
                same_config = refl;
                same_labels = refl;
                some_shards = omega (
                  arith,
                  h,
                  length-set t.shards (shard_of fl fast_fingerprint l t)
                      (queue_at (shard_of fl fast_fingerprint l t) t.shards ++ s' ∷ []),
                );
              },
            )
        | inr r ↦
            let e = enqueue-full fl fast_fingerprint t s' h r in
            (
              _,
              ap (Option.map (count_enqueued fl t)) e,
              m,
              record {
                turn = discards (life m t) s' t.shards c e;
                outcome = inr (refl, refl);
                same_stop = refl;
                same_config = refl;
                same_labels = refl;
                some_shards = h;
              },
            )
      ]

  module _ (process : LabelSet → Option LabelSet) where
    -- the calls of Append for samples, one after another; none is a panic
    abbrev pub append_each : List (Sample V) → QueueManager F V → Option (QueueManager F V)
    append_each [] t = some t
    append_each (s ∷ ss) t = Option.bind (append fl fast_fingerprint process t s) (append_each ss)

    -- The sample, with the labels that relabelling leaves, takes one turn, or none where relabelling drops it.
    abbrev pub Simulates :
        Option LabelSet
        → Sample V
        → Manager (Sample V)
        → Manager (Sample V)
        → QueueManager F V
        → QueueManager F V
        → Type 0
    Simulates none s m left t u = (left ≡ m) × (u ≡ t)
    Simulates (some l) s m left t u = TakesTurn (record s { metric = l }) m left t u

    -- the samples, one after another, with the external labels that the queue manager has
    abbrev pub SimulatesAll :
        List (Sample V) → Manager (Sample V) → QueueManager F V → QueueManager F V → Type 0
    SimulatesAll [] m t u = u ≡ t
    SimulatesAll (s ∷ ss) m t u =
        (left : Manager (Sample V)) × (v : QueueManager F V) × Simulates
          (process (with_external_labels t.external_labels s.metric)) s m left t v
        × SimulatesAll ss left v u

    append_relabelled-Simulates :
        (t : QueueManager F V) (s : Sample V) (o : Option LabelSet) (m : Manager (Sample V))
        → 0 < length t.shards
        → is_closed m.stopping ≡ false
        → (u : QueueManager F V) × (append_relabelled fl fast_fingerprint t s o ≡ some u)
          × (left : Manager (Sample V)) × Simulates o s m left t u
          × (0 < length u.shards)
          × (is_closed left.stopping ≡ false)
    unfolding append_relabelled
    append_relabelled-Simulates t s none m h c = (t, refl, m, (refl, refl), h, c)
    append_relabelled-Simulates t s (some l) m h c =
        let (u, e, left, p) = append_relabelled-TakesTurn t s l m h c in
        (u, e, left, p, p.some_shards, ap is_closed p.same_stop ∙ c)

    -- Calls of Append on a queue manager that has a shard, while its Stop has not closed the channels, do not panic.
    -- Each sample that relabelling keeps, with its external labels and relabelled, is one turn in the life of the
    -- queue manager, in which either a channel accepts that sample or it is counted as dropped; and
    -- a sample that relabelling drops is none, and changes nothing.
    pub append_each-Simulates :
        (ss : List (Sample V)) (t : QueueManager F V) (m : Manager (Sample V))
        → 0 < length t.shards
        → is_closed m.stopping ≡ false
        → (u : QueueManager F V) × (append_each ss t ≡ some u) × SimulatesAll ss m t u
    unfolding append Option.bind
    append_each-Simulates [] t m h c = (t, refl, refl)
    append_each-Simulates (s ∷ ss) t m h c =
        let (v, e, left, p, h', c') =
          append_relabelled-Simulates t s
            (process (with_external_labels t.external_labels s.metric)) m h c in
        let (u, f, q) = append_each-Simulates ss v left h' c' in
        (u, ap (λ o. Option.bind o (append_each ss)) e ∙ f, (left, v, p, q))
