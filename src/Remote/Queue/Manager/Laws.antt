-- ===== src/Remote/Queue/Manager/Laws.antt =====
-- QueueManager of storage/remote/queue_manager.go: what Append queues, and which numbers of shards
-- calculateDesiredShards asks for.
use promeproxy.Common.{
  string_eq, ℕ, String, ◌≡◌, refl, sym, subst, ◌≢◌, ◌⊎◌, inl, inr, Bool, true, false, Option, none,
  some, arith, if◌then◌else◌, Bool-cases, ℤ, pos, ◌≤ℤ◌, eqb_ℤ, eqb_ℤ_iff, has, lookup, or_else,
  or_else-none, Unique, lookup-insert_missing,
}
use promeproxy.Model.{LabelSet, Sample}
use promeproxy.Floats.{Floats}
use promeproxy.Remote.Queue.Shards.{new_shards}
use promeproxy.Remote.Queue.Manager.{
  QueueManager, with_external_labels, clamp, request, measured, desired_shards, tolerated,
  decide_shards, calculate_desired_shards, append_relabelled, append,
}

-- A sample is queued with its own labels, and with the external labels that it has not: where both
-- name a label, the sample's value counts.
pub lookup-with_external_labels :
    (external_labels metric : LabelSet) (ln : String)
    → Unique external_labels
    → lookup ln (with_external_labels external_labels metric)
      ≡ or_else (lookup ln metric) (lookup ln external_labels)
unfolding with_external_labels
lookup-with_external_labels external_labels metric ln u =
    rw (lookup-insert_missing metric external_labels metric ln u) (chosen (lookup ln metric))
  where
    chosen :
        (o : Option String)
        → (if has o then o else or_else (lookup ln external_labels) o)
          ≡ or_else o (lookup ln external_labels)
    chosen none = or_else-none _
    chosen (some v) = refl

clamp-le : (k : ℕ) (n : ℤ) → clamp k n ≤ℤ pos k
clamp-le k n = ground arith

module _ {F V : Type 0} (fl : Floats F) where
  open fl use {constant, ceil, le}

  -- what a request does: none, or one for another number in range
  abbrev pub Asks : QueueManager F V → QueueManager F V × Option ℤ → Type 0
  Asks t (t', asked) =
      ((asked ≡ none) × (t'.num_shards ≡ t.num_shards))
      ⊎ ((n : ℤ) × (asked ≡ some n)
          × (t'.num_shards ≡ n)
          × (n ≤ℤ pos t.cfg.max_shards)
          × (n ≢ t.num_shards)
          × (le t.samples_out.last_rate (constant 0 1) ≡ false)
          × (tolerated fl t (desired_shards fl t) ≡ false))

  decide_shards-request :
      (idle : Bool) (t : QueueManager F V)
      → le t.samples_out.last_rate (constant 0 1) ≡ false
      → tolerated fl t (desired_shards fl t) ≡ false
      → decide_shards fl idle t
        ≡ request fl idle t (clamp t.cfg.max_shards (ceil (desired_shards fl t)))
  unfolding decide_shards
  decide_shards-request idle t a b = rw (a, b)

  decide_shards-Asks : (idle : Bool) (t : QueueManager F V) → Asks t (decide_shards fl idle t)
  unfolding decide_shards
  decide_shards-Asks idle t = elim (Bool-cases (le t.samples_out.last_rate (constant 0 1))) [
    | inl a ↦ inl (rw a, rw a)
    | inr a ↦ elim (Bool-cases (tolerated fl t (desired_shards fl t))) [
      | inl b ↦ inl (rw (a, b), rw (a, b))
      | inr b ↦
          subst (λ (r : QueueManager F V × Option ℤ). Asks t r)
            (sym (decide_shards-request idle t a b))
            (asked (clamp t.cfg.max_shards (ceil (desired_shards fl t))) a b
              (clamp-le t.cfg.max_shards (ceil (desired_shards fl t))))
    ]
  ]
    where
      asked :
          (n : ℤ)
          → le t.samples_out.last_rate (constant 0 1) ≡ false
          → tolerated fl t (desired_shards fl t) ≡ false
          → n ≤ℤ pos t.cfg.max_shards
          → Asks t (request fl idle t n)
      asked n a b h = elim (Bool-cases (eqb_ℤ n t.num_shards)) [
        | inl e ↦ inl (rw e, rw e)
        | inr e ↦ elim (Bool-cases idle) [
          | inl g ↦ inr (n, rw (e, g), rw (e, g), h, (λ (k : n ≡ t.num_shards). differs k e), a, b)
          | inr g ↦ inl (rw (e, g), rw (e, g))
        ]
      ]
        where
          differs : n ≡ t.num_shards → eqb_ℤ n t.num_shards ≡ false → ⊥
          differs k e = ground (arith, eqb_ℤ_iff n t.num_shards)

  -- When calculateDesiredShards asks for a number of shards, that is at most MaxShards and another than
  -- the current one, it becomes the current one, the measured rate of outgoing samples is above zero and
  -- the computed number of shards lies outside the tolerance; when it asks for none, the number stays as
  -- it is. Measuring changes neither the number nor MaxShards.
  pub calculate_desired_shards-Asks :
      (idle : Bool) (i o d : ℕ) (t : QueueManager F V)
      → Asks (measured fl i o d t) (calculate_desired_shards fl idle i o d t)
        × ((measured fl i o d t).num_shards ≡ t.num_shards)
        × ((measured fl i o d t).cfg ≡ t.cfg)
  unfolding calculate_desired_shards measured
  calculate_desired_shards-Asks idle i o d t =
      (decide_shards-Asks idle (measured fl i o d t), refl, refl)

  decide_shards-zero :
      (t : QueueManager F V)
      → le t.samples_out.last_rate (constant 0 1) ≡ false
      → tolerated fl t (desired_shards fl t) ≡ false
      → ceil (desired_shards fl t) ≡ pos 0
      → t.num_shards ≢ pos 0
      → (decide_shards fl true t).1 ≡ some (pos 0)
  unfolding decide_shards
  decide_shards-zero t a b c e = rw (a, b, c) (ground (arith, eqb_ℤ_iff (pos 0) t.num_shards))

  -- The number is not kept above zero: if the rate of outgoing samples is above zero and the computed
  -- number of shards, outside the tolerance, rounds up to zero, then an idle manager with shards asks for
  -- zero shards; and with no shards, Append panics on every sample that relabelling does not drop.
  pub calculate_desired_shards-zero :
      (fast_fingerprint : LabelSet → ℕ) (process : LabelSet → Option LabelSet) (i o d : ℕ)
      (t u : QueueManager F V) (s : Sample V) (labels : LabelSet)
      → le (measured fl i o d t).samples_out.last_rate (constant 0 1) ≡ false
      → tolerated fl (measured fl i o d t) (desired_shards fl (measured fl i o d t)) ≡ false
      → ceil (desired_shards fl (measured fl i o d t)) ≡ pos 0
      → t.num_shards ≢ pos 0
      → u.shards ≡ new_shards 0
      → process (with_external_labels u.external_labels s.metric) ≡ some labels
      → ((calculate_desired_shards fl true i o d t).1 ≡ some (pos 0))
        × (append fl fast_fingerprint process u s ≡ none)
  unfolding calculate_desired_shards append append_relabelled new_shards
  calculate_desired_shards-zero fast_fingerprint process i o d t u s labels a b c e f g = (
    decide_shards-zero (measured fl i o d t) a b c
        (rw (calculate_desired_shards-Asks true i o d t).1 e),
    ground arith,
  )
