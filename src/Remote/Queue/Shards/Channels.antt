-- ===== src/Remote/Queue/Shards/Channels.antt =====
-- The channels of storage/remote/queue_manager.go: the samples of one series in them.
use native.Mathlib.Nat.{mod-lt}
use promeproxy.Common.{
  ℕ, zero, suc, ◌%◌, ◌<◌, ◌≡◌, refl, sym, ap, ◌∙◌, subst, ◌≢◌, inl, inr, false, Option, some, List,
  [], ◌∷◌, ◌++◌, append-nil, arith, nat_eqb, if◌then◌else◌, nat_eqb_iff, Bool-cases, length,
  get_elem?, set, All, All-append, filterb, length-set, get_or,
}
use promeproxy.Remote.Queue.Shards.{new_shards, queue_at}

module _ {A : Type 0} (fingerprint : A → ℕ) where
  -- the samples of a series
  abbrev pub of_series : ℕ → List A → List A
  of_series f = filterb (λ a. nat_eqb (fingerprint a) f)

  -- each channel holds only samples that belong to its shard
  abbrev pub IsPlaced : List (List A) → Type 0
  IsPlaced queues = (i : ℕ) → All (λ a. fingerprint a % length queues ≡ i) (queue_at i queues)

  -- the samples of a series that wait in its channel
  abbrev pub waiting : ℕ → List (List A) → List A
  waiting f queues = of_series f (queue_at (f % length queues) queues)

  pub of_series-append :
      (f : ℕ) (xs ys : List A) → of_series f (xs ++ ys) ≡ of_series f xs ++ of_series f ys
  of_series-append f [] ys = refl
  of_series-append f (x ∷ xs) ys = ground (arith, of_series-append f xs ys)

  of_series-other : (f : ℕ) (a : A) → fingerprint a ≢ f → of_series f (a ∷ []) ≡ []
  of_series-other f a h = ground arith

  queue_at-set :
      (i j : ℕ) (queues : List (List A)) (q : List A)
      → i < length queues
      → queue_at j (set queues i q) ≡ (if nat_eqb i j then q else queue_at j queues)
  queue_at-set i j [] q h = absurd (omega arith)
  queue_at-set zero zero (x ∷ queues) q h = ground arith
  queue_at-set zero (suc j) (x ∷ queues) q h = ground arith
  queue_at-set (suc i) zero (x ∷ queues) q h = ground arith
  queue_at-set (suc i) (suc j) (x ∷ queues) q h = ground (arith, queue_at-set i j queues q)

  get_elem?-lt :
      (i : ℕ) (queues : List (List A)) {q : List A}
      → get_elem? queues i ≡ some q
      → i < length queues
  get_elem?-lt i [] e = cc
  get_elem?-lt zero (x ∷ queues) e = omega arith
  get_elem?-lt (suc i) (x ∷ queues) e = omega (arith, get_elem?-lt i queues e)

  queue_at-of :
      (i : ℕ) (queues : List (List A)) {q : List A}
      → get_elem? queues i ≡ some q
      → queue_at i queues ≡ q
  queue_at-of i queues e = ap (λ (o : Option (List A)). get_or o []) e

  -- taking the first sample off a channel
  module _ (queues : List (List A)) (placed : IsPlaced queues) (i : ℕ) (a : A) (rest : List A)
      (full : get_elem? queues i ≡ some (a ∷ rest)) where
    first-placed : All (λ x. fingerprint x % length queues ≡ i) (a ∷ rest)
    first-placed =
        subst (λ (q : List A). All (λ x. fingerprint x % length queues ≡ i) q)
          (queue_at-of i queues full) (placed i)

    pub waiting-first :
        (f : ℕ) → waiting f queues ≡ of_series f (a ∷ []) ++ waiting f (set queues i rest)
    waiting-first f =
        rw
          (
            length-set queues i rest,
            queue_at-set i (f % length queues) queues rest (get_elem?-lt i queues full),
          )
          (elim (Bool-cases (nat_eqb i (f % length queues))) [
            | inl e ↦ rw e (
                subst
                  (λ (j : ℕ).
                    of_series f (queue_at j queues) ≡ of_series f (a ∷ []) ++ of_series f rest)
                  ((nat_eqb_iff i (f % length queues)).0 e)
                  (ap (of_series f) (queue_at-of i queues full) ∙ of_series-append f (a ∷ []) rest))
            | inr e ↦ rw (e, of_series-other f a (λ (h : fingerprint a ≡ f). differs f e h))
          ])
      where
        differs : (f : ℕ) → nat_eqb i (f % length queues) ≡ false → fingerprint a ≡ f → ⊥
        differs f e h = ground (arith, first-placed.0, ap (λ (k : ℕ). k % length queues) h)

    pub first-IsPlaced : IsPlaced (set queues i rest)
    first-IsPlaced j =
        rw (length-set queues i rest, queue_at-set i j queues rest (get_elem?-lt i queues full))
          (elim (Bool-cases (nat_eqb i j)) [
            | inl e ↦ rw e (
                subst (λ (k : ℕ). All (λ x. fingerprint x % length queues ≡ k) rest)
                  ((nat_eqb_iff i j).0 e) first-placed.1)
            | inr e ↦ rw e (placed j)
          ])

  -- adding a sample to its channel
  module _ (queues : List (List A)) (placed : IsPlaced queues) (some_shard : 0 < length queues)
      (a : A) where
    abbrev home : ℕ
    home = fingerprint a % length queues

    abbrev added : List (List A)
    added = set queues home (queue_at home queues ++ a ∷ [])

    home-lt : home < length queues
    home-lt = mod-lt (fingerprint a) some_shard

    pub waiting-added : (f : ℕ) → waiting f added ≡ waiting f queues ++ of_series f (a ∷ [])
    waiting-added f =
        rw
          (
            length-set queues home (queue_at home queues ++ a ∷ []),
            queue_at-set home (f % length queues) queues (queue_at home queues ++ a ∷ []) home-lt,
          )
          (elim (Bool-cases (nat_eqb home (f % length queues))) [
            | inl e ↦ rw e (
                of_series-append f (queue_at home queues) (a ∷ [])
                ∙ ap (λ (j : ℕ). of_series f (queue_at j queues) ++ of_series f (a ∷ []))
                    ((nat_eqb_iff home (f % length queues)).0 e))
            | inr e ↦
                rw (e, of_series-other f a (λ (h : fingerprint a ≡ f). differs f e h))
                  (sym (append-nil _))
          ])
      where
        differs : (f : ℕ) → nat_eqb home (f % length queues) ≡ false → fingerprint a ≡ f → ⊥
        differs f e h = ground (arith, ap (λ (k : ℕ). k % length queues) h)

    pub added-IsPlaced : IsPlaced added
    added-IsPlaced j =
        rw
          (
            length-set queues home (queue_at home queues ++ a ∷ []),
            queue_at-set home j queues (queue_at home queues ++ a ∷ []) home-lt,
          )
          (elim (Bool-cases (nat_eqb home j)) [
            | inl e ↦ rw e (
                subst
                  (λ (k : ℕ).
                    All (λ x. fingerprint x % length queues ≡ k) (queue_at home queues ++ a ∷ []))
                  ((nat_eqb_iff home j).0 e)
                  (All-append (λ x. fingerprint x % length queues ≡ home) (queue_at home queues)
                    (a ∷ []) (placed home) (refl, tt)))
            | inr e ↦ rw e (placed j)
          ])

  queue_at-new : (i n : ℕ) → queue_at i (new_shards {A = A} n) ≡ []
  unfolding new_shards
  queue_at-new i zero = refl
  queue_at-new zero (suc n) = refl
  queue_at-new (suc i) (suc n) = queue_at-new i n

  pub length-new_shards : (n : ℕ) → length (new_shards {A = A} n) ≡ n
  unfolding new_shards
  length-new_shards zero = refl
  length-new_shards (suc n) = ap suc (length-new_shards n)

  pub new_shards-IsPlaced : (n : ℕ) → IsPlaced (new_shards n)
  new_shards-IsPlaced n i = rw (queue_at-new i n) tt

  pub waiting-new_shards : (f n : ℕ) → waiting f (new_shards n) ≡ []
  waiting-new_shards f n = rw (queue_at-new (f % length (new_shards {A = A} n)) n)

  pub queue_at-empty :
      (i : ℕ) (queues : List (List A)) → All (λ q. q ≡ []) queues → queue_at i queues ≡ []
  queue_at-empty i [] h = refl
  queue_at-empty zero (q ∷ queues) h = h.0
  queue_at-empty (suc i) (q ∷ queues) h = queue_at-empty i queues h.1
