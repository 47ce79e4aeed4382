-- ===== src/Remote/Queue/Shards/Order.antt =====
-- The order of the samples of one series in the shards of storage/remote/queue_manager.go, across
-- resharding.
use promeproxy.Common.{
  ℕ, ◌%◌, ◌<◌, ◌≡◌, ap, ◌∙◌, subst, true, false, Option, none, some, List, [], ◌∷◌, ◌++◌,
  append_assoc, append-nil, arith, length, get_elem?, set, All, get_or,
}
use promeproxy.Remote.Queue.Shards.Channels.{
  of_series, IsPlaced, waiting, of_series-append, waiting-first, first-IsPlaced, waiting-added,
  added-IsPlaced, new_shards-IsPlaced, waiting-new_shards, queue_at-empty,
}
use promeproxy.Remote.Queue.Shards.{new_shards, queue_at, enqueue}

-- The current channels; the old ones, from the swap until oldShards.stop returns; and, for the
-- statements, what was accepted and what the shards' goroutines have received, oldest first.
pub record Delivery (A : Type 0) : Type 0 where
  pub queues : List (List A)
  pub draining : Option (List (List A))
  pub accepted : List A
  pub delivered : List A

module _ {A : Type 0} (fingerprint : A → ℕ) (queue_capacity : ℕ) where
  -- One step of a producer, of a shard's goroutine, or of reshard.
  pub data Step : Delivery A → Delivery A → Type 0 where
    accept :
        (s : Delivery A) (a : A) (queues' : List (List A))
        → enqueue queue_capacity s.queues (fingerprint a) a ≡ some (true, queues')
        → Step s (record s { queues = queues'; accepted = s.accepted ++ a ∷ [] })
    discard :
        (s : Delivery A) (a : A) (queues' : List (List A))
        → enqueue queue_capacity s.queues (fingerprint a) a ≡ some (false, queues')
        → Step s (record s { queues = queues' })
    receive :
        (s : Delivery A) (i : ℕ) (a : A) (rest : List A)
        → s.draining ≡ none
        → get_elem? s.queues i ≡ some (a ∷ rest)
        → Step s (record s { queues = set s.queues i rest; delivered = s.delivered ++ a ∷ [] })
    drain :
        (s : Delivery A) (old : List (List A)) (i : ℕ) (a : A) (rest : List A)
        → s.draining ≡ some old
        → get_elem? old i ≡ some (a ∷ rest)
        → Step s (record s { draining = some (set old i rest); delivered = s.delivered ++ a ∷ [] })
    swap :
        (s : Delivery A) (n : ℕ)
        → s.draining ≡ none
        → Step s (record s { queues = new_shards n; draining = some s.queues })
    stopped :
        (s : Delivery A) (old : List (List A))
        → s.draining ≡ some old
        → All (λ q. q ≡ []) old
        → Step s (record s { draining = none })

  pub data Reach (s : Delivery A) : Delivery A → Type 0 where
    here : Reach s s
    next : {t u : Delivery A} → Reach s t → Step t u → Reach s u

  -- The old channels, if they are being flushed.
  abbrev pub old_queues : Delivery A → List (List A)
  old_queues s = get_or s.draining []

  -- For a series: what was delivered, then what waits in the old channels, then what waits in the current
  -- ones is what was accepted, in its order.
  pub record IsOrdered (f : ℕ) (s : Delivery A) : Type 0 where
    pub placed : IsPlaced fingerprint s.queues
    pub old_placed : IsPlaced fingerprint (old_queues s)
    pub order :
        of_series fingerprint f s.delivered
          ++ (waiting fingerprint f (old_queues s) ++ waiting fingerprint f s.queues)
        ≡ of_series fingerprint f s.accepted

  enqueue-accepts :
      (queues queues' : List (List A)) (a : A)
      → enqueue queue_capacity queues (fingerprint a) a ≡ some (true, queues')
      → (0 < length queues)
        × (queues'
            ≡ set queues
                (fingerprint a % length queues)
                (queue_at (fingerprint a % length queues) queues ++ a ∷ []))
  unfolding enqueue
  enqueue-accepts queues queues' a e = ground arith

  enqueue-discards :
      (queues queues' : List (List A)) (a : A)
      → enqueue queue_capacity queues (fingerprint a) a ≡ some (false, queues')
      → queues' ≡ queues
  unfolding enqueue
  enqueue-discards queues queues' a e = ground arith

  -- Each step keeps the order of every series.
  pub Step-IsOrdered : (f : ℕ) {s t : Delivery A} → Step s t → IsOrdered f s → IsOrdered f t
  Step-IsOrdered f (accept s a queues' e) v =
      let (sh, q) = enqueue-accepts s.queues queues' a e in
      rw q record {
        placed = added-IsPlaced fingerprint s.queues v.placed sh a;
        old_placed = v.old_placed;
        order =
            rw
              (
                waiting-added fingerprint s.queues v.placed sh a f,
                of_series-append fingerprint f s.accepted (a ∷ []),
                ← v.order,
              )
              (simp append_assoc);
      }
  Step-IsOrdered f (discard s a queues' e) v = rw (enqueue-discards s.queues queues' a e) v
  Step-IsOrdered f (receive s i a rest d e) v =
      let old : waiting fingerprint f (old_queues s) ≡ [] =
        ap (λ (o : Option (List (List A))). waiting fingerprint f (get_or o [])) d in
      record {
        placed = first-IsPlaced fingerprint s.queues v.placed i a rest e;
        old_placed = v.old_placed;
        order =
            rw (of_series-append fingerprint f s.delivered (a ∷ []), old)
              (append_assoc (of_series fingerprint f s.delivered) (of_series fingerprint f (a ∷ []))
                  (waiting fingerprint f (set s.queues i rest))
                ∙ (rw (old, waiting-first fingerprint s.queues v.placed i a rest e f) at v.order));
      }
  Step-IsOrdered f (drain s old i a rest d e) v =
      let o : old_queues s ≡ old = ap (λ (x : Option (List (List A))). get_or x []) d in
      let p : IsPlaced fingerprint old =
        subst (λ (x : List (List A)). IsPlaced fingerprint x) o v.old_placed in
      record {
        placed = v.placed;
        old_placed = first-IsPlaced fingerprint old p i a rest e;
        order = rw (of_series-append fingerprint f s.delivered (a ∷ [])) (
            simp append_assoc (
              simp append_assoc at (
                rw (ap (waiting fingerprint f) o, waiting-first fingerprint old p i a rest e f) at
                  v.order)));
      }
  Step-IsOrdered f (swap s n d) v =
      let old : waiting fingerprint f (old_queues s) ≡ [] =
        ap (λ (o : Option (List (List A))). waiting fingerprint f (get_or o [])) d in
      record {
        placed = new_shards-IsPlaced fingerprint n;
        old_placed = v.placed;
        order = rw (waiting-new_shards fingerprint f n, append-nil) (rw old at v.order);
      }
  Step-IsOrdered f (stopped s old d h) v =
      let o : old_queues s ≡ old = ap (λ (x : Option (List (List A))). get_or x []) d in
      record {
        placed = v.placed;
        old_placed = λ i. tt;
        order =
            rw
              (
                ap (waiting fingerprint f) o,
                ap (of_series fingerprint f) (queue_at-empty fingerprint (f % length old) old h),
              )
              at v.order;
      }

  -- the state that NewQueueManager makes, with one shard
  abbrev pub initial : Delivery A
  initial = record { queues = new_shards 1; draining = none; accepted = []; delivered = [] }

  initial-IsOrdered : (f : ℕ) → IsOrdered f initial
  initial-IsOrdered f = record {
    placed = new_shards-IsPlaced fingerprint 1;
    old_placed = λ i. tt;
    order = waiting-new_shards fingerprint f 1;
  }

  Reach-IsOrdered : (f : ℕ) {s t : Delivery A} → IsOrdered f s → Reach s t → IsOrdered f t
  Reach-IsOrdered f v here = v
  Reach-IsOrdered f v (next r st) = Step-IsOrdered f st (Reach-IsOrdered f v r)

  -- In whatever way samples come in, shards run, and resharding goes on: of each series, what has been
  -- delivered, followed by what waits in the old channels and then in the current ones, is what was
  -- accepted, in its order. So no accepted sample is lost, doubled or overtaken by a later one of its
  -- series.
  pub Reach-order :
      (f : ℕ) {s : Delivery A}
      → Reach initial s
      → of_series fingerprint f s.delivered
          ++ (waiting fingerprint f (old_queues s) ++ waiting fingerprint f s.queues)
        ≡ of_series fingerprint f s.accepted
  Reach-order f r = (Reach-IsOrdered f (initial-IsOrdered f) r).order
