-- ===== src/Remote/Queue/Backoff/Laws.antt =====
-- sendSamplesWithBackoff of storage/remote/queue_manager.go: how often it calls the storage, how long it
-- pauses, and what it counts.
use promeproxy.Common.{
  ℕ, zero, suc, ◌+◌, ◌≤◌, ◌<◌, ◌≡◌, refl, ◌∙◌, ◌⊎◌, inl, inr, Option, none, some, List, [], ◌∷◌,
  ◌++◌, append_assoc, append-nil, arith, length, All,
}
use promeproxy.Remote.Queue.Backoff.{
  Config, StoreError, recoverable, other, Sender, next_backoff, send_loop,
  send_samples_with_backoff, send_samples,
}

StoreError-cases :
    (o : Option StoreError) → (o ≡ none) ⊎ ((o ≡ some recoverable) ⊎ (o ≡ some other))
StoreError-cases none = inl refl
StoreError-cases (some recoverable) = inr (inl refl)
StoreError-cases (some other) = inr (inr refl)

-- `n` pauses, from the given one on
abbrev pub backoffs : Config → ℕ → ℕ → List ℕ
backoffs cfg zero backoff = []
backoffs cfg (suc n) backoff = backoff ∷ backoffs cfg n (next_backoff cfg backoff)

module _ {A C : Type 0} where
  -- the sample counts after a batch: it is counted once, as sent or as failed
  abbrev pub Counted : List A → Sender A C → Sender A C → Type 0
  Counted samples s t =
      ((t.succeeded ≡ s.succeeded + length samples) × (t.failed ≡ s.failed))
      ⊎ ((t.succeeded ≡ s.succeeded) × (t.failed ≡ s.failed + length samples))

module _ {A C : Type 0} (store : C → List A → Option StoreError × C) (cfg : Config) where
  -- what a call of Store leaves, before its answer is read
  abbrev called : List A → Sender A C → Sender A C
  called samples s = record s { client = (store s.client samples).1; calls = s.calls + 1 }

  abbrev paused : ℕ → List A → Sender A C → Sender A C
  paused backoff samples s = record s {
    client = (store s.client samples).1;
    calls = s.calls + 1;
    pauses = s.pauses ++ backoff ∷ [];
  }

  send_loop-counts :
      (retries backoff : ℕ) (samples : List A) (s : Sender A C)
      → Counted samples s (send_loop store cfg retries backoff samples s)
  unfolding send_loop
  send_loop-counts zero backoff samples s = inr (refl, refl)
  send_loop-counts (suc retries) backoff samples s =
      elim (StoreError-cases (store s.client samples).0) [
        | inl e ↦ rw (e, send_loop) (inl (refl, refl))
        | inr (inl e) ↦
            rw (e, send_loop)
              (send_loop-counts retries (next_backoff cfg backoff) samples
                (paused backoff samples s))
        | inr (inr e) ↦ rw (e, send_loop) (inr (refl, refl))
      ]

  -- A batch is counted exactly once: all its samples as succeeded, or all as failed.
  pub send_samples-counts :
      (took : ℕ) (samples : List A) (s : Sender A C)
      → Counted samples s (send_samples store cfg took samples s)
  unfolding send_samples send_samples_with_backoff
  send_samples-counts took samples s = send_loop-counts cfg.max_retries cfg.min_backoff samples s

  -- `n` pauses were made, with at least `n` and at most `limit` calls
  abbrev pub Paused : ℕ → ℕ → Sender A C → Sender A C → Type 0
  Paused limit backoff s t =
      (n : ℕ) × (t.pauses ≡ s.pauses ++ backoffs cfg n backoff)
      × (n ≤ limit)
      × (s.calls + n ≤ t.calls)
      × (t.calls ≤ s.calls + limit)

  send_loop-pauses :
      (retries backoff : ℕ) (samples : List A) (s : Sender A C)
      → Paused retries backoff s (send_loop store cfg retries backoff samples s)
  unfolding send_loop
  send_loop-pauses zero backoff samples s =
      (0, rw append-nil, omega arith, omega arith, omega arith)
  send_loop-pauses (suc retries) backoff samples s =
      elim (StoreError-cases (store s.client samples).0) [
        | inl e ↦ rw (e, send_loop) (0, rw append-nil, omega arith, omega arith, omega arith)
        | inr (inl e) ↦
            let (n, p, q, r, t) =
              send_loop-pauses retries (next_backoff cfg backoff) samples
                (paused backoff samples s) in
            rw (e, send_loop)
              (
                suc n,
                p
                    ∙ append_assoc s.pauses (backoff ∷ [])
                        (backoffs cfg n (next_backoff cfg backoff)),
                omega arith,
                omega arith,
                omega arith,
              )
        | inr (inr e) ↦ rw (e, send_loop) (0, rw append-nil, omega arith, omega arith, omega arith)
      ]

  -- Sending a batch calls the storage at most MaxRetries times, and its pauses are MinBackoff, then each
  -- twice the last but at most MaxBackoff; there are not more pauses than calls.
  pub send_samples-pauses :
      (took : ℕ) (samples : List A) (s : Sender A C)
      → Paused cfg.max_retries cfg.min_backoff s (send_samples store cfg took samples s)
  unfolding send_samples send_samples_with_backoff
  send_samples-pauses took samples s = send_loop-pauses cfg.max_retries cfg.min_backoff samples s

  -- the first `n` calls of Store with the batch fail, and may be tried again
  abbrev pub Recoverable : ℕ → List A → C → Type 0
  Recoverable zero samples c = Unit
  Recoverable (suc n) samples c =
      ((store c samples).0 ≡ some recoverable) × Recoverable n samples (store c samples).1

  abbrev pub client_after : ℕ → List A → C → C
  client_after zero samples c = c
  client_after (suc n) samples c = client_after n samples (store c samples).1

  abbrev pub Delivered : ℕ → List A → Sender A C → Sender A C → Type 0
  Delivered n samples s t =
      (t.succeeded ≡ s.succeeded + length samples)
      × (t.failed ≡ s.failed)
      × (t.calls ≡ s.calls + (n + 1))

  send_loop-delivers :
      (n retries backoff : ℕ) (samples : List A) (s : Sender A C)
      → n < retries
      → Recoverable n samples s.client
      → (store (client_after n samples s.client) samples).0 ≡ none
      → Delivered n samples s (send_loop store cfg retries backoff samples s)
  unfolding send_loop
  send_loop-delivers n zero backoff samples s h r e = absurd (omega arith)
  send_loop-delivers zero (suc retries) backoff samples s h r e =
      rw (e, send_loop) (refl, refl, omega arith)
  send_loop-delivers (suc n) (suc retries) backoff samples s h r e =
      let (a, b, c) =
        send_loop-delivers n retries (next_backoff cfg backoff) samples (paused backoff samples s)
          (omega arith) r.1 e in
      rw (r.0, send_loop) (a, b, omega arith)

  -- If the first n calls of Store fail recoverably, n is below MaxRetries, and the next call succeeds, the
  -- batch counts as succeeded after n + 1 calls.
  pub send_samples-delivers :
      (n took : ℕ) (samples : List A) (s : Sender A C)
      → n < cfg.max_retries
      → Recoverable n samples s.client
      → (store (client_after n samples s.client) samples).0 ≡ none
      → Delivered n samples s (send_samples store cfg took samples s)
  unfolding send_samples send_samples_with_backoff
  send_samples-delivers n took samples s h r e =
      send_loop-delivers n cfg.max_retries cfg.min_backoff samples s h r e

  send_loop-batches :
      (retries backoff : ℕ) (samples : List A) (s : Sender A C)
      → let t = send_loop store cfg retries backoff samples s in
        (t.batches ≡ s.batches) × (t.samples_out ≡ s.samples_out)
  unfolding send_loop
  send_loop-batches zero backoff samples s = (refl, refl)
  send_loop-batches (suc retries) backoff samples s =
      elim (StoreError-cases (store s.client samples).0) [
        | inl e ↦ rw (e, send_loop) (refl, refl)
        | inr (inl e) ↦
            rw (e, send_loop)
              (send_loop-batches retries (next_backoff cfg backoff) samples
                (paused backoff samples s))
        | inr (inr e) ↦ rw (e, send_loop) (refl, refl)
      ]

  pub send_samples-batches :
      (took : ℕ) (samples : List A) (s : Sender A C)
      → let t = send_samples store cfg took samples s in
        (t.batches ≡ s.batches ++ samples ∷ []) × (t.samples_out ≡ s.samples_out + length samples)
  unfolding send_samples send_samples_with_backoff
  send_samples-batches took samples s =
      let (p, q) = send_loop-batches cfg.max_retries cfg.min_backoff samples s in (rw p, rw q)

-- The pauses never exceed the larger of MinBackoff and MaxBackoff.
pub backoffs-le :
    (cfg : Config) (n backoff bound : ℕ)
    → backoff ≤ bound
    → cfg.max_backoff ≤ bound
    → All (λ b. b ≤ bound) (backoffs cfg n backoff)
backoffs-le cfg zero backoff bound h k = tt
backoffs-le cfg (suc n) backoff bound h k =
    (h, backoffs-le cfg n (next_backoff cfg backoff) bound (ground arith) k)
