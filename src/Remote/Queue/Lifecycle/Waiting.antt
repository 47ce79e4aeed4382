-- ===== src/Remote/Queue/Lifecycle/Waiting.antt =====
-- The channels of storage/remote/queue_manager.go: the samples that wait in them.
use promeproxy.Common.{
  ℕ, zero, suc, ◌+◌, ◌≡◌, refl, ap, ◌⊎◌, inl, inr, Option, some, List, [], ◌∷◌, arith, length,
  get_elem?, set, All, get_or,
}

module _ {A : Type 0} where
  -- how many samples wait in some channels
  abbrev pub total : List (List A) → ℕ
  total [] = 0
  total (q ∷ queues) = length q + total queues

  -- a channel with a sample, and the sample
  abbrev pub Waits : List (List A) → Type 0
  Waits queues = (i : ℕ) × (a : A) × (rest : List A) × (get_elem? queues i ≡ some (a ∷ rest))

  pub Waits-cases : (queues : List (List A)) → All (λ q. q ≡ []) queues ⊎ Waits queues
  Waits-cases [] = inl tt
  Waits-cases ([] ∷ queues) = elim (Waits-cases queues) [
    | inl h ↦ inl (refl, h)
    | inr (i, a, rest, e) ↦ inr (suc i, a, rest, e)
  ]
  Waits-cases ((a ∷ rest) ∷ queues) = inr (0, a, rest, refl)

  pub total-set :
      (queues : List (List A)) (i : ℕ) (a : A) (rest : List A)
      → get_elem? queues i ≡ some (a ∷ rest)
      → total queues ≡ total (set queues i rest) + 1
  total-set [] i a rest e = absurd (ground arith)
  total-set (q ∷ queues) zero a rest e =
      omega (arith, ap (λ (o : Option (List A)). length (get_or o [])) e)
  total-set (q ∷ queues) (suc i) a rest e = omega (arith, total-set queues i a rest e)
