-- ===== src/Remote/Queue/Shard/Laws.antt =====
-- runShard of storage/remote/queue_manager.go: the sizes of its batches, its counts, and its end.
use promeproxy.Common.{
  ℕ, zero, suc, ◌+◌, ◌≤◌, ◌<◌, ◌≡◌, sym, ap, ◌∙◌, inl, inr, false, Option, List, [], ◌∷◌, ◌++◌,
  append-nil, arith, leb, Bool-cases, length, take, drop, length-append, length-take, length-drop,
  All, All-append,
}
use promeproxy.Remote.Queue.Backoff.{Config, StoreError, Sender}
use promeproxy.Remote.Queue.Backoff.Laws.{send_samples-counts, send_samples-batches}
use promeproxy.Remote.Queue.Shard.{
  Event, received, deadline, closed, Shard, send_batch, send_full, send_rest, shard_step, run_shard,
}
use promeproxy.Remote.Queue.Shard.Batches.{
  joined, joined-snoc, accepted, taken, run_shard-returned, run_shard-step, run_shard-taken,
  run_shard-closes, accepted-closed,
}

module _ {A C : Type 0} (store : C → List A → Option StoreError × C) (cfg : Config)
    (took : C → List A → ℕ) where
  -- a batch that may be sent
  abbrev pub Fits : List A → Type 0
  Fits b = (0 < length b) × (length b ≤ cfg.max_samples_per_send)

  -- a sender whose batches fit, and whose counts are those of its batches
  pub record IsTallied (s : Sender A C) : Type 0 where
    pub fits : All Fits s.batches
    pub counted : s.succeeded + s.failed ≡ length (joined s.batches)
    pub out : s.samples_out ≡ length (joined s.batches)

  send_batch-IsTallied :
      (b : List A) (s : Sender A C)
      → Fits b
      → IsTallied s
      → IsTallied (send_batch store cfg took b s)
  send_batch-IsTallied b s f v =
      let (p, q) = send_samples-batches store cfg (took s.client b) b s in
      record {
        fits = rw p (All-append Fits s.batches (b ∷ []) v.fits (f, tt));
        counted =
            rw (p, joined-snoc s.batches b)
              (omega (
                arith,
                send_samples-counts store cfg (took s.client b) b s,
                length-append (joined s.batches) b,
                v.counted,
              ));
        out =
            rw (p, joined-snoc s.batches b)
              (omega (arith, length-append (joined s.batches) b, v.out, q));
      }

  send_full-IsTallied :
      (fuel : ℕ) (pending : List A) (s : Sender A C)
      → 0 < cfg.max_samples_per_send
      → length pending ≤ fuel
      → IsTallied s
      → let (rest, t) = send_full store cfg took fuel pending s in
        (length rest < cfg.max_samples_per_send) × IsTallied t
  unfolding send_full
  send_full-IsTallied zero pending s m h v = (omega arith, v)
  send_full-IsTallied (suc fuel) pending s m h v =
      elim (Bool-cases (leb cfg.max_samples_per_send (length pending))) [
        | inr e ↦ rw (e, send_full) (ground arith, v)
        | inl e ↦
            let full : cfg.max_samples_per_send ≤ length pending = ground arith in
            rw (e, send_full)
              (send_full-IsTallied fuel (drop cfg.max_samples_per_send pending)
                (send_batch store cfg took (take cfg.max_samples_per_send pending) s) m
                (omega (arith, length-drop cfg.max_samples_per_send pending))
                (send_batch-IsTallied (take cfg.max_samples_per_send pending) s
                  (omega (arith, length-take cfg.max_samples_per_send pending)) v))
      ]

  send_rest-IsTallied :
      (pending : List A) (s : Sender A C)
      → length pending < cfg.max_samples_per_send
      → IsTallied s
      → IsTallied (send_rest store cfg took pending s)
  send_rest-IsTallied [] s h v = v
  send_rest-IsTallied (a ∷ as_) s h v =
      send_batch-IsTallied (a ∷ as_) s (omega arith, omega arith) v

  -- Fewer samples than fill a batch are pending, and the sender is tallied.
  pub record IsSteady (sh : Shard A C) : Type 0 where
    pub short : length sh.pending < cfg.max_samples_per_send
    pub tallied : IsTallied sh.sender

  shard_step-IsSteady :
      (e : Event A) (sh : Shard A C) → IsSteady sh → IsSteady (shard_step store cfg took e sh)
  unfolding shard_step
  shard_step-IsSteady (received a) sh v =
      let (p, q) =
        send_full-IsTallied (length (sh.pending ++ a ∷ [])) (sh.pending ++ a ∷ []) sh.sender
          (omega (arith, v.short)) (omega arith) v.tallied in
      record { short = p; tallied = q }
  shard_step-IsSteady deadline sh v = record {
    short = omega (arith, v.short);
    tallied = send_rest-IsTallied sh.pending sh.sender v.short v.tallied;
  }
  shard_step-IsSteady closed sh v = record {
    short = omega (arith, v.short);
    tallied = send_rest-IsTallied sh.pending sh.sender v.short v.tallied;
  }

  -- From a steady shard on, after any events: each batch holds at least one sample and at most
  -- MaxSamplesPerSend, fewer than that are pending, and each sample that was sent is counted once, as
  -- succeeded or as failed, and once in samplesOut.
  pub run_shard-IsSteady :
      (events : List (Event A)) (sh : Shard A C)
      → IsSteady sh
      → IsSteady (run_shard store cfg took events sh)
  unfolding run_shard
  run_shard-IsSteady [] sh v = v
  run_shard-IsSteady (e ∷ events) sh v = elim (Bool-cases sh.returned) [
    | inl r ↦ rw (run_shard-returned store cfg took (e ∷ events) sh r) v
    | inr r ↦
        rw (run_shard-step store cfg took e events sh r)
          (run_shard-IsSteady events (shard_step store cfg took e sh) (shard_step-IsSteady e sh v))
  ]

  -- A steady shard with nothing sent or pending, whose queue is closed in the end, sends exactly the
  -- samples received before that, in their order, and counts each of them as succeeded or failed.
  pub run_shard-flushes :
      (events : List (Event A)) (sh : Shard A C)
      → IsSteady sh
      → sh.returned ≡ false
      → taken store cfg took sh.pending sh.sender ≡ []
      → let t = run_shard store cfg took (events ++ closed ∷ []) sh in
        (joined t.sender.batches ≡ accepted events)
        × (t.sender.succeeded + t.sender.failed ≡ length (accepted events))
  run_shard-flushes events sh v r fresh =
      let t : Shard A C = run_shard store cfg took (events ++ closed ∷ []) sh in
      let sent : joined t.sender.batches ≡ accepted events =
        sym (append-nil _)
        ∙ ap (◌++◌ (joined t.sender.batches)) (sym (run_shard-closes store cfg took events sh r))
        ∙ run_shard-taken store cfg took (events ++ closed ∷ []) sh r
        ∙ ap (λ (x : List A). x ++ accepted (events ++ closed ∷ [])) fresh
        ∙ accepted-closed events in
      (sent, (run_shard-IsSteady (events ++ closed ∷ []) sh v).tallied.counted ∙ ap length sent)
