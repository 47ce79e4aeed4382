-- ===== src/Remote/Queue/Shard/Batches.antt =====
-- runShard of storage/remote/queue_manager.go: the samples of its batches, in their order.
use promeproxy.Common.{
  ℕ, zero, suc, ◌≡◌, refl, sym, ap, ◌∙◌, inl, inr, Bool, true, false, Option, List, [], ◌∷◌, ◌++◌,
  append_assoc, append-nil, leb, if◌then◌else◌, Bool-cases, length, take, drop, take-append-drop,
}
use promeproxy.Remote.Queue.Backoff.{Config, StoreError, Sender}
use promeproxy.Remote.Queue.Backoff.Laws.{send_samples-batches}
use promeproxy.Remote.Queue.Shard.{
  Event, received, deadline, closed, Shard, send_batch, send_full, send_rest, shard_step, run_shard,
}

module _ {A : Type 0} where
  abbrev pub joined : List (List A) → List A
  joined [] = []
  joined (b ∷ bs) = b ++ joined bs

  joined-append : (bs cs : List (List A)) → joined (bs ++ cs) ≡ joined bs ++ joined cs
  joined-append [] cs = refl
  joined-append (b ∷ bs) cs =
      rw (joined-append bs cs) (sym (append_assoc b (joined bs) (joined cs)))

  pub joined-snoc : (bs : List (List A)) (b : List A) → joined (bs ++ b ∷ []) ≡ joined bs ++ b
  joined-snoc bs b = joined-append bs (b ∷ []) ∙ ap (◌++◌ (joined bs)) (append-nil b)

  -- the samples that the queue hands out before it is closed
  abbrev pub accepted : List (Event A) → List A
  accepted [] = []
  accepted (received a ∷ events) = a ∷ accepted events
  accepted (deadline ∷ events) = accepted events
  accepted (closed ∷ events) = []

  pub accepted-closed :
      (events : List (Event A)) → accepted (events ++ closed ∷ []) ≡ accepted events
  accepted-closed [] = refl
  accepted-closed (received a ∷ events) = ap (◌∷◌ a) (accepted-closed events)
  accepted-closed (deadline ∷ events) = accepted-closed events
  accepted-closed (closed ∷ events) = refl

module _ {A C : Type 0} (store : C → List A → Option StoreError × C) (cfg : Config)
    (took : C → List A → ℕ) where
  -- all samples that a shard has taken on so far, in their order
  abbrev pub taken : List A → Sender A C → List A
  taken pending s = joined s.batches ++ pending

  taken-send :
      (b rest : List A) (s : Sender A C)
      → taken rest (send_batch store cfg took b s) ≡ joined s.batches ++ (b ++ rest)
  taken-send b rest s =
      rw ((send_samples-batches store cfg (took s.client b) b s).0, joined-snoc s.batches b)
        (append_assoc (joined s.batches) b rest)

  send_full-taken :
      (fuel : ℕ) (pending : List A) (s : Sender A C)
      → let (rest, t) = send_full store cfg took fuel pending s in taken rest t ≡ taken pending s
  unfolding send_full
  send_full-taken zero pending s = refl
  send_full-taken (suc fuel) pending s =
      elim (Bool-cases (leb cfg.max_samples_per_send (length pending))) [
        | inr e ↦ rw (e, send_full)
        | inl e ↦
            rw (e, send_full)
              (send_full-taken fuel (drop cfg.max_samples_per_send pending)
                  (send_batch store cfg took (take cfg.max_samples_per_send pending) s)
                ∙ taken-send (take cfg.max_samples_per_send pending)
                    (drop cfg.max_samples_per_send pending) s
                ∙ ap (◌++◌ (joined s.batches)) (take-append-drop cfg.max_samples_per_send pending))
      ]

  send_rest-taken :
      (pending : List A) (s : Sender A C)
      → taken [] (send_rest store cfg took pending s) ≡ taken pending s
  send_rest-taken [] s = refl
  send_rest-taken (a ∷ as_) s =
      taken-send (a ∷ as_) [] s ∙ ap (◌++◌ (joined s.batches)) (append-nil (a ∷ as_))

  pub run_shard-returned :
      (events : List (Event A)) (sh : Shard A C)
      → sh.returned ≡ true
      → run_shard store cfg took events sh ≡ sh
  unfolding run_shard
  run_shard-returned [] sh r = refl
  run_shard-returned (e ∷ events) sh r = rw r

  pub run_shard-step :
      (e : Event A) (events : List (Event A)) (sh : Shard A C)
      → sh.returned ≡ false
      → run_shard store cfg took (e ∷ events) sh
        ≡ run_shard store cfg took events (shard_step store cfg took e sh)
  unfolding run_shard
  run_shard-step e events sh r =
      ap
        (λ (b : Bool).
          if b then sh else run_shard store cfg took events (shard_step store cfg took e sh))
        r

  -- Whatever the queue and the deadlines do, the batches that were sent, one after another, with what is
  -- still pending behind them, are the samples received before the queue was closed, in their order.
  pub run_shard-taken :
      (events : List (Event A)) (sh : Shard A C)
      → sh.returned ≡ false
      → let t = run_shard store cfg took events sh in
        taken t.pending t.sender ≡ taken sh.pending sh.sender ++ accepted events
  unfolding run_shard shard_step
  run_shard-taken [] sh r = sym (append-nil _)
  run_shard-taken (received a ∷ events) sh r =
      rw
        (
          run_shard-step (received a) events sh r,
          run_shard-taken events (shard_step store cfg took (received a) sh) r,
          send_full-taken (length (sh.pending ++ a ∷ [])) (sh.pending ++ a ∷ []) sh.sender,
        )
        (simp append_assoc)
  run_shard-taken (deadline ∷ events) sh r =
      rw
        (
          run_shard-step deadline events sh r,
          run_shard-taken events (shard_step store cfg took deadline sh) r,
        )
        (ap (λ (t : List A). t ++ accepted events) (send_rest-taken sh.pending sh.sender))
  run_shard-taken (closed ∷ events) sh r =
      rw
        (
          run_shard-step closed events sh r,
          run_shard-returned events (shard_step store cfg took closed sh) refl,
        )
        (send_rest-taken sh.pending sh.sender ∙ sym (append-nil _))

  pub run_shard-closes :
      (events : List (Event A)) (sh : Shard A C)
      → sh.returned ≡ false
      → (run_shard store cfg took (events ++ closed ∷ []) sh).pending ≡ []
  unfolding run_shard shard_step
  run_shard-closes [] sh r = rw (run_shard-step closed [] sh r)
  run_shard-closes (received a ∷ events) sh r =
      rw (run_shard-step (received a) (events ++ closed ∷ []) sh r)
        (run_shard-closes events (shard_step store cfg took (received a) sh) r)
  run_shard-closes (deadline ∷ events) sh r =
      rw (run_shard-step deadline (events ++ closed ∷ []) sh r)
        (run_shard-closes events (shard_step store cfg took deadline sh) r)
  run_shard-closes (closed ∷ events) sh r = rw (
    run_shard-step closed (events ++ closed ∷ []) sh r,
    run_shard-returned (events ++ closed ∷ []) (shard_step store cfg took closed sh) refl,
  )
