-- ===== src/Remote/Queue/Lifecycle/Stop.antt =====
-- QueueManager.Stop of storage/remote/queue_manager.go: the turns after its call.
use promeproxy.Common.{
  ℕ, zero, suc, ◌≤◌, ◌≡◌, refl, sym, ap, ◌∙◌, subst, ◌⊎◌, inl, inr, true, false, none, some, List,
  [], ◌∷◌, ◌++◌, arith, Bool-cases, set, All,
}
use promeproxy.Remote.Queue.Shards.{new_shards}
use promeproxy.Remote.Queue.Lifecycle.Waiting.{total, Waits-cases, total-set}
use promeproxy.Remote.Queue.Lifecycle.Laws.{
  LoopFits, StopFits, IsSound, Turn-IsSound, new_manager-IsSound, Runs-IsSound,
}
use promeproxy.Remote.Queue.Lifecycle.{
  ReshardLoop, selecting, flushing, returned, asked, Stopping, not_called, awaiting, closing, done,
  Manager, is_quitting, new_manager, Turn, receives, drains, swaps, flushes, update_returns,
  reshard_returns, closes, stops, Runs, begin, more, Runs-trans,
}

Loop-cases :
    (l : ReshardLoop)
    → (l ≡ selecting) ⊎ (l ≡ flushing) ⊎ (l ≡ returned) ⊎ ((n : ℕ) × (l ≡ asked n))
Loop-cases selecting = inl refl
Loop-cases flushing = inr (inl refl)
Loop-cases returned = inr (inr (inl refl))
Loop-cases (asked n) = inr (inr (inr (n, refl)))

module _ {A : Type 0} (fingerprint : A → ℕ) (queue_capacity : ℕ) where
  -- Turns lead from the state to one with the property; no sample is accepted on the way.
  abbrev pub Leads : Manager A → (Manager A → Type 0) → Type 0
  Leads m P =
      (t : Manager A) × Runs fingerprint queue_capacity m t
      × P t
      × (t.delivery.accepted ≡ m.delivery.accepted)

  Leads-trans :
      (m : Manager A) (P Q : Manager A → Type 0)
      → Leads m P
      → ((t : Manager A) → Runs fingerprint queue_capacity m t → P t → Leads t Q)
      → Leads m Q
  Leads-trans m P Q (t, r, p, e) f =
      let (u, q, h, g) = f t r p in (u, Runs-trans fingerprint queue_capacity r q, h, g ∙ e)

  Leads-turn :
      (m t : Manager A) (Q : Manager A → Type 0)
      → Turn fingerprint queue_capacity m t
      → t.delivery.accepted ≡ m.delivery.accepted
      → Leads t Q
      → Leads m Q
  Leads-turn m t Q st e l =
      Leads-trans m (λ u. u ≡ t) Q (t, more begin st, refl, e)
        (λ u r p. subst (λ x. Leads x Q) (sym p) l)

  -- t.quit is closed, and Stop waits for the loops
  abbrev IsAwaited : Manager A → Type 0
  IsAwaited m = (m.started ≡ true) × (m.stopping ≡ awaiting)

  flushed :
      (m : Manager A) (old : List (List A))
      → m.loop ≡ flushing
      → m.delivery.draining ≡ some old
      → All (λ q. q ≡ []) old
      → IsAwaited m
      → Leads m (λ t. (t.loop ≡ selecting) × IsAwaited t)
  flushed m old l d e w = (
    record m { delivery = record m.delivery { draining = none }; loop = selecting },
    more begin (flushes m old l d e),
    (refl, w),
    refl,
  )

  selecting_returns :
      (m : Manager A)
      → m.loop ≡ selecting
      → IsAwaited m
      → Leads m (λ t. (t.loop ≡ returned) × IsAwaited t)
  selecting_returns m l w = (
    record m { loop = returned },
    more begin (reshard_returns m (ap is_quitting w.1) l),
    (refl, w),
    refl,
  )

  flush_all :
      (n : ℕ) (m : Manager A) (old : List (List A))
      → total old ≤ n
      → m.loop ≡ flushing
      → m.delivery.draining ≡ some old
      → IsAwaited m
      → Leads m (λ t. (t.loop ≡ selecting) × IsAwaited t)
  flush_all zero m old h l d w = elim (Waits-cases old) [
    | inl e ↦ flushed m old l d e w
    | inr (i, a, rest, e) ↦ absurd (omega (arith, total-set old i a rest e))
  ]
  flush_all (suc n) m old h l d w = elim (Waits-cases old) [
    | inl e ↦ flushed m old l d e w
    | inr (i, a, rest, e) ↦
        let t = record m {
          delivery = record m.delivery {
            draining = some (set old i rest);
            delivered = m.delivery.delivered ++ a ∷ [];
          };
        } in
        Leads-turn m t (λ u. (u.loop ≡ selecting) × IsAwaited u) (drains m old i a rest d e) refl
          (flush_all n t (set old i rest) (omega (arith, total-set old i a rest e)) l refl w)
  ]

  flushing_returns :
      (m : Manager A) (old : List (List A))
      → m.loop ≡ flushing
      → m.delivery.draining ≡ some old
      → IsAwaited m
      → Leads m (λ t. (t.loop ≡ returned) × IsAwaited t)
  flushing_returns m old l d w =
      Leads-trans m (λ t. (t.loop ≡ selecting) × IsAwaited t)
        (λ t. (t.loop ≡ returned) × IsAwaited t) (flush_all (total old) m old (omega arith) l d w)
        (λ t r (s, u). selecting_returns t s u)

  -- reshardLoop returns
  loop_returns :
      (m : Manager A) → IsSound m → IsAwaited m → Leads m (λ t. (t.loop ≡ returned) × IsAwaited t)
  loop_returns m v w = elim (Loop-cases m.loop) [
    | inl l ↦ selecting_returns m l w
    | inr (inl l) ↦
        let (old, d) = subst (λ x. LoopFits x m.delivery.draining) l v.loop_fits in
        flushing_returns m old l d w
    | inr (inr (inl l)) ↦ (m, begin, (l, w), refl)
    | inr (inr (inr (n, l))) ↦
        let t = record m {
          delivery = record m.delivery { queues = new_shards n; draining = some m.delivery.queues };
          loop = flushing;
        } in
        Leads-turn m t (λ u. (u.loop ≡ returned) × IsAwaited u) (swaps m n l) refl
          (flushing_returns t m.delivery.queues refl refl w)
  ]

  -- both loops return
  loops_return :
      (m : Manager A)
      → IsSound m
      → IsAwaited m
      → Leads m (λ t. (t.updating ≡ false) × (t.loop ≡ returned) × IsAwaited t)
  loops_return m v w =
      Leads-trans m (λ t. (t.loop ≡ returned) × IsAwaited t)
        (λ t. (t.updating ≡ false) × (t.loop ≡ returned) × IsAwaited t) (loop_returns m v w)
        (λ t r (l, u). elim (Bool-cases t.updating) [
          | inl b ↦ (
            record t { updating = false },
            more begin (update_returns t (ap is_quitting u.1) b),
            (refl, l, u),
            refl,
          )
          | inr b ↦ (t, begin, (b, l, u), refl)
        ])

  empty_all :
      (n : ℕ) (m : Manager A)
      → total m.delivery.queues ≤ n
      → m.started ≡ true
      → m.stopping ≡ closing
      → m.delivery.draining ≡ none
      → Leads m (λ t. t.stopping ≡ done)
  empty_all zero m h st c d = elim (Waits-cases m.delivery.queues) [
    | inl e ↦ (record m { stopping = done }, more begin (stops m c e), refl, refl)
    | inr (i, a, rest, e) ↦ absurd (omega (arith, total-set m.delivery.queues i a rest e))
  ]
  empty_all (suc n) m h st c d = elim (Waits-cases m.delivery.queues) [
    | inl e ↦ (record m { stopping = done }, more begin (stops m c e), refl, refl)
    | inr (i, a, rest, e) ↦
        let t = record m {
          delivery = record m.delivery {
            queues = set m.delivery.queues i rest;
            delivered = m.delivery.delivered ++ a ∷ [];
          };
        } in
        Leads-turn m t (λ u. u.stopping ≡ done) (receives m i a rest st d e) refl
          (empty_all n t (omega (arith, total-set m.delivery.queues i a rest e)) st c d)
  ]

  closing_ends :
      (m : Manager A) → IsSound m → m.stopping ≡ closing → Leads m (λ t. t.stopping ≡ done)
  closing_ends m v c =
      let w = subst (λ p. StopFits p m.started m.updating m.loop m.delivery.queues) c v.stop_fits in
      empty_all (total m.delivery.queues) m (omega arith) w.0 c
        (subst (λ x. LoopFits x m.delivery.draining) w.2 v.loop_fits)

  awaiting_ends : (m : Manager A) → IsSound m → IsAwaited m → Leads m (λ t. t.stopping ≡ done)
  awaiting_ends m v w =
      Leads-trans m (λ t. (t.updating ≡ false) × (t.loop ≡ returned) × IsAwaited t)
        (λ t. t.stopping ≡ done) (loops_return m v w)
        (λ t r (u, l, a).
          let st = closes t a.1 u l in
          Leads-turn t (record t { stopping = closing }) (λ x. x.stopping ≡ done) st refl
            (closing_ends (record t { stopping = closing })
              (Turn-IsSound fingerprint queue_capacity st
                (Runs-IsSound fingerprint queue_capacity v r))
              refl))

  Stopping-cases :
      (p : Stopping) → is_quitting p ≡ true → (p ≡ awaiting) ⊎ (p ≡ closing) ⊎ (p ≡ done)
  Stopping-cases not_called q = absurd (ground arith)
  Stopping-cases awaiting q = inl refl
  Stopping-cases closing q = inr (inl refl)
  Stopping-cases done q = inr (inr refl)

  -- Stop cannot get stuck: from every state that a new manager comes to after Stop was called, in the
  -- middle of a reshard or with samples in the channels, finitely many turns, in which no sample is
  -- accepted, lead to the end of Stop.
  pub Runs-Leads :
      (m : Manager A)
      → Runs fingerprint queue_capacity new_manager m
      → is_quitting m.stopping ≡ true
      → Leads m (λ t. t.stopping ≡ done)
  Runs-Leads m r q =
      let v =
        Runs-IsSound fingerprint queue_capacity (new_manager-IsSound fingerprint queue_capacity)
          r in
      elim (Stopping-cases m.stopping q) [
        | inl a ↦
            let st =
              subst (λ p. StopFits p m.started m.updating m.loop m.delivery.queues) a v.stop_fits in
            awaiting_ends m v (st, a)
        | inr (inl c) ↦ closing_ends m v c
        | inr (inr d) ↦ (m, begin, d, refl)
      ]
