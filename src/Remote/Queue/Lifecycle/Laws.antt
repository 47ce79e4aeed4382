-- ===== src/Remote/Queue/Lifecycle/Laws.antt =====
-- The turns of a queue manager of storage/remote/queue_manager.go, its channels, and its end.
use promeproxy.Common.{
  ℕ, zero, suc, ◌%◌, ◌≡◌, refl, sym, ap, ◌∙◌, subst, ◌≢◌, ◌⊎◌, inl, inr, Bool, true, false, Option,
  none, some, List, [], ◌∷◌, append-nil, arith, length, get_elem?, set, All, get_or,
}
use promeproxy.Remote.Queue.Shards.Channels.{of_series, waiting, queue_at-empty}
use promeproxy.Remote.Queue.Shards.Order.{
  Delivery, accept, discard, receive, drain, swap, stopped, Reach, here, next, old_queues, initial,
  Reach-order,
}
use promeproxy.Remote.Queue.Lifecycle.{
  ReshardLoop, selecting, flushing, returned, asked, Stopping, not_called, awaiting, closing, done,
  Manager, is_closed, new_manager, Turn, accepts, discards, starts, receives, drains, asks, swaps,
  flushes, quits, update_returns, reshard_returns, closes, stops, Runs, begin, more,
}

module _ {A : Type 0} where
  -- old channels are flushed exactly while reshardLoop waits for that
  abbrev pub LoopFits : ReshardLoop → Option (List (List A)) → Type 0
  LoopFits selecting draining = draining ≡ none
  LoopFits flushing draining = (old : List (List A)) × (draining ≡ some old)
  LoopFits returned draining = draining ≡ none
  LoopFits (asked n) draining = draining ≡ none

  -- what Stop has waited for, of the fields started, updating and loop, and of the channels
  abbrev pub StopFits : Stopping → Bool → Bool → ReshardLoop → List (List A) → Type 0
  StopFits not_called started updating loop queues = Unit
  StopFits awaiting started updating loop queues = started ≡ true
  StopFits closing started updating loop queues =
      (started ≡ true) × (updating ≡ false) × (loop ≡ returned)
  StopFits done started updating loop queues =
      (started ≡ true) × (updating ≡ false) × (loop ≡ returned) × All (λ q. q ≡ []) queues

  pub record IsSound (m : Manager A) : Type 0 where
    pub loop_fits : LoopFits m.loop m.delivery.draining
    pub stop_fits : StopFits m.stopping m.started m.updating m.loop m.delivery.queues

  not-empty_at :
      (queues : List (List A)) (i : ℕ) (a : A) (rest : List A)
      → All (λ q. q ≡ []) queues
      → get_elem? queues i ≡ some (a ∷ rest)
      → ⊥
  not-empty_at [] i a rest h e = cc
  not-empty_at (q ∷ queues) zero a rest h e = cc (h.0)
  not-empty_at (q ∷ queues) (suc i) a rest h e = not-empty_at queues i a rest h.1 e

  LoopFits-drain :
      (l : ReshardLoop) (draining : Option (List (List A))) (old old' : List (List A))
      → draining ≡ some old
      → LoopFits l draining
      → LoopFits l (some old')
  LoopFits-drain selecting draining old old' d v = absurd (ground arith)
  LoopFits-drain flushing draining old old' d v = (old', refl)
  LoopFits-drain returned draining old old' d v = absurd (ground arith)
  LoopFits-drain (asked n) draining old old' d v = absurd (ground arith)

  -- before the mutex is taken for the last time, the channels may change
  StopFits-open :
      (p : Stopping) (st u : Bool) (l : ReshardLoop) (q q' : List (List A))
      → is_closed p ≡ false
      → StopFits p st u l q
      → StopFits p st u l q'
  StopFits-open not_called st u l q q' c v = tt
  StopFits-open awaiting st u l q q' c v = v
  StopFits-open closing st u l q q' c v = absurd (ground arith)
  StopFits-open done st u l q q' c v = absurd (ground arith)

  StopFits-start :
      (p : Stopping) (st u : Bool) (l : ReshardLoop) (q : List (List A))
      → st ≡ false
      → StopFits p st u l q
      → StopFits p true true l q
  StopFits-start not_called st u l q e v = tt
  StopFits-start awaiting st u l q e v = refl
  StopFits-start closing st u l q e v = absurd (ground arith)
  StopFits-start done st u l q e v = absurd (cc (v.0))

  StopFits-receive :
      (p : Stopping) (st u : Bool) (l : ReshardLoop) (q q' : List (List A)) (i : ℕ) (a : A)
      (rest : List A)
      → get_elem? q i ≡ some (a ∷ rest)
      → StopFits p st u l q
      → StopFits p st u l q'
  StopFits-receive not_called st u l q q' i a rest e v = tt
  StopFits-receive awaiting st u l q q' i a rest e v = v
  StopFits-receive closing st u l q q' i a rest e v = v
  StopFits-receive done st u l q q' i a rest e v = absurd (not-empty_at q i a rest v.3 e)

  -- while a loop runs, nothing that Stop has waited for can fail
  StopFits-running :
      (p : Stopping) (st u : Bool) (l l' : ReshardLoop) (q q' : List (List A))
      → (u ≡ true) ⊎ (l ≢ returned)
      → StopFits p st u l q
      → StopFits p st u l' q'
  StopFits-running not_called st u l l' q q' r v = tt
  StopFits-running awaiting st u l l' q q' r v = v
  StopFits-running closing st u l l' q q' (inl r) v = absurd (cc (v.1))
  StopFits-running closing st u l l' q q' (inr r) v = absurd (r v.2)
  StopFits-running done st u l l' q q' (inl r) v = absurd (cc (v.1))
  StopFits-running done st u l l' q q' (inr r) v = absurd (r v.2)

  StopFits-update_returns :
      (p : Stopping) (st u : Bool) (l : ReshardLoop) (q : List (List A))
      → StopFits p st u l q
      → StopFits p st false l q
  StopFits-update_returns not_called st u l q v = tt
  StopFits-update_returns awaiting st u l q v = v
  StopFits-update_returns closing st u l q v = (v.0, refl, v.2)
  StopFits-update_returns done st u l q v = (v.0, refl, v.2, v.3)

module _ {A : Type 0} (fingerprint : A → ℕ) (queue_capacity : ℕ) where
  pub Turn-IsSound : {m t : Manager A} → Turn fingerprint queue_capacity m t → IsSound m → IsSound t
  Turn-IsSound (accepts m a queues' c e) v = record {
    loop_fits = v.loop_fits;
    stop_fits = StopFits-open m.stopping _ _ _ _ _ c v.stop_fits;
  }
  Turn-IsSound (discards m a queues' c e) v = record {
    loop_fits = v.loop_fits;
    stop_fits = StopFits-open m.stopping _ _ _ _ _ c v.stop_fits;
  }
  Turn-IsSound (starts m e) v = record {
    loop_fits = v.loop_fits;
    stop_fits = StopFits-start m.stopping _ _ _ _ e v.stop_fits;
  }
  Turn-IsSound (receives m i a rest st d e) v = record {
    loop_fits = v.loop_fits;
    stop_fits = StopFits-receive m.stopping _ _ _ _ _ i a rest e v.stop_fits;
  }
  Turn-IsSound (drains m old i a rest d e) v = record {
    loop_fits = LoopFits-drain m.loop _ old (set old i rest) d v.loop_fits;
    stop_fits = v.stop_fits;
  }
  Turn-IsSound (asks m n u l) v = record {
    loop_fits = subst (λ x. LoopFits x m.delivery.draining) l v.loop_fits;
    stop_fits = StopFits-running m.stopping _ _ _ _ _ _ (inl u) v.stop_fits;
  }
  Turn-IsSound (swaps m n l) v = record {
    loop_fits = (m.delivery.queues, refl);
    stop_fits = StopFits-running m.stopping _ _ m.loop _ _ _ (inr (λ r. ground arith)) v.stop_fits;
  }
  Turn-IsSound (flushes m old l d e) v = record {
    loop_fits = refl;
    stop_fits = StopFits-running m.stopping _ _ m.loop _ _ _ (inr (λ r. ground arith)) v.stop_fits;
  }
  Turn-IsSound (quits m st n) v = record { loop_fits = v.loop_fits; stop_fits = st }
  Turn-IsSound (update_returns m q u) v = record {
    loop_fits = v.loop_fits;
    stop_fits = StopFits-update_returns m.stopping _ _ _ _ v.stop_fits;
  }
  Turn-IsSound (reshard_returns m q l) v = record {
    loop_fits = subst (λ x. LoopFits x m.delivery.draining) l v.loop_fits;
    stop_fits = StopFits-running m.stopping _ _ m.loop _ _ _ (inr (λ r. ground arith)) v.stop_fits;
  }
  Turn-IsSound (closes m w u l) v = record {
    loop_fits = v.loop_fits;
    stop_fits =
        (subst (λ p. StopFits p m.started m.updating m.loop m.delivery.queues) w v.stop_fits, u, l);
  }
  Turn-IsSound (stops m c e) v =
      let w = subst (λ p. StopFits p m.started m.updating m.loop m.delivery.queues) c v.stop_fits in
      record { loop_fits = v.loop_fits; stop_fits = (w.0, w.1, w.2, e) }

  pub new_manager-IsSound : IsSound {A = A} new_manager
  new_manager-IsSound = record { loop_fits = refl; stop_fits = tt }

  pub Runs-IsSound : {m t : Manager A} → IsSound m → Runs fingerprint queue_capacity m t → IsSound t
  Runs-IsSound v begin = v
  Runs-IsSound v (more r st) = Turn-IsSound st (Runs-IsSound v r)

  -- What a turn does to the channels is a step of them, or nothing.
  Turn-Reach :
      {m t : Manager A} {d : Delivery A}
      → Turn fingerprint queue_capacity m t
      → IsSound m
      → Reach fingerprint queue_capacity d m.delivery
      → Reach fingerprint queue_capacity d t.delivery
  Turn-Reach (accepts m a queues' c e) v r = next r (accept m.delivery a queues' e)
  Turn-Reach (discards m a queues' c e) v r = next r (discard m.delivery a queues' e)
  Turn-Reach (starts m e) v r = r
  Turn-Reach (receives m i a rest st d e) v r = next r (receive m.delivery i a rest d e)
  Turn-Reach (drains m old i a rest d e) v r = next r (drain m.delivery old i a rest d e)
  Turn-Reach (asks m n u l) v r = r
  Turn-Reach (swaps m n l) v r =
      let w = subst (λ x. LoopFits x m.delivery.draining) l v.loop_fits in
      next r (swap m.delivery n w)
  Turn-Reach (flushes m old l d e) v r = next r (stopped m.delivery old d e)
  Turn-Reach (quits m st n) v r = r
  Turn-Reach (update_returns m q u) v r = r
  Turn-Reach (reshard_returns m q l) v r = r
  Turn-Reach (closes m w u l) v r = r
  Turn-Reach (stops m c e) v r = r

  -- Whatever turns a new queue manager takes, its channels go through steps that the specification of
  -- delivery allows: Start, Stop and the two loops add nothing to it.
  pub Runs-Reach :
      {m : Manager A}
      → Runs fingerprint queue_capacity new_manager m
      → Reach fingerprint queue_capacity (initial fingerprint queue_capacity) m.delivery
  Runs-Reach begin = here
  Runs-Reach (more r st) = Turn-Reach st (Runs-IsSound new_manager-IsSound r) (Runs-Reach r)

  -- When Stop has returned, the shards have received every sample that was accepted, those of each
  -- series in the order in which they were accepted.
  pub Runs-done :
      (f : ℕ) {m : Manager A}
      → Runs fingerprint queue_capacity new_manager m
      → m.stopping ≡ done
      → of_series fingerprint f m.delivery.delivered ≡ of_series fingerprint f m.delivery.accepted
  Runs-done f {m} r e =
      let v = Runs-IsSound new_manager-IsSound r in
      let w = subst (λ p. StopFits p m.started m.updating m.loop m.delivery.queues) e v.stop_fits in
      let d = subst (λ x. LoopFits x m.delivery.draining) w.2 v.loop_fits in
      let g = of_series fingerprint f in
      let old : waiting fingerprint f (old_queues fingerprint queue_capacity m.delivery) ≡ [] =
        ap (λ (o : Option (List (List A))). waiting fingerprint f (get_or o [])) d in
      let new : waiting fingerprint f m.delivery.queues ≡ [] =
        ap g (queue_at-empty fingerprint (f % length m.delivery.queues) m.delivery.queues w.3) in
      sym (append-nil _)
      ∙ (rw (old, new) at (Reach-order fingerprint queue_capacity f (Runs-Reach r)))
