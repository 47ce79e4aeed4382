-- ===== src/Common/Search.antt =====
-- `sort.Search` of Go's standard library, which storage/remote/iterator.go and
-- storage/fanin/fanin.go call: the smallest index at which a test turns true.
use promeproxy.Common.{
  ℕ, zero, suc, ◌+◌, ◌-◌, ◌/◌, ◌≤◌, ◌<◌, ◌≡◌, refl, inl, inr, Bool, true, false, not, ◌&&◌, none,
  some, List, [], ◌∷◌, arith, ltb, if◌then◌else◌, Bool-cases, length, get_elem?, take, drop, All,
  filterb,
}

-- for i < j { h := i + (j-i)/2; if !f(h) { i = h + 1 } else { j = h } }
search_loop : (ℕ → Bool) → ℕ → ℕ → ℕ → ℕ
search_loop f zero i j = i
search_loop f (suc fuel) i j = elim (ltb i j) [
  | false ↦ i
  | true ↦ elim (f (i + (j - i) / 2)) [
    | true ↦ search_loop f fuel i (i + (j - i) / 2)
    | false ↦ search_loop f fuel (i + (j - i) / 2 + 1) j
  ]
]

-- The range shrinks in every round, so `n` rounds are enough.
unfoldable pub search : ℕ → (ℕ → Bool) → ℕ
unfolding search_loop
search n f = search_loop f n 0 n

search_loop-finds :
    (f : ℕ → Bool) (c n : ℕ)
    → ((i : ℕ) → i < c → f i ≡ false)
    → ((i : ℕ) → c ≤ i → i < n → f i ≡ true)
    → (fuel i j : ℕ) → i ≤ c
    → c ≤ j
    → j ≤ n
    → j - i ≤ fuel
    → search_loop f fuel i j ≡ c
unfolding search_loop
search_loop-finds f c n below above zero i j p q r s = omega arith
search_loop-finds f c n below above (suc fuel) i j p q r s = ground (
  arith,
  below (i + (j - i) / 2),
  above (i + (j - i) / 2),
  search_loop-finds f c n below above fuel i (i + (j - i) / 2),
  search_loop-finds f c n below above fuel (i + (j - i) / 2 + 1) j,
)

pub search-finds :
    (n : ℕ) (f : ℕ → Bool) (c : ℕ)
    → c ≤ n
    → ((i : ℕ) → i < c → f i ≡ false)
    → ((i : ℕ) → c ≤ i → i < n → f i ≡ true)
    → search n f ≡ c
unfolding search
search-finds n f c h below above =
    search_loop-finds f c n below above n 0 n (omega arith) h (omega arith) (omega arith)

module _ {A : Type 0} where
  -- The test at the element with index `i`. Inside the list this is all that is asked.
  unfoldable pub test_at : (A → Bool) → List A → ℕ → Bool
  test_at p xs i = elim (get_elem? xs i) [ none ↦ false | some x ↦ p x ]

  -- Once the test is true it stays true.
  abbrev pub Turns : (A → Bool) → List A → Type 0
  Turns p [] = Unit
  Turns p (x ∷ xs) = (p x ≡ true → All (λ y. p y ≡ true) xs) × Turns p xs

  -- How many elements stand before the first that passes.
  pub cut : (A → Bool) → List A → ℕ
  cut p [] = 0
  cut p (x ∷ xs) = if p x then 0 else suc (cut p xs)

  pub cut-le : (p : A → Bool) (xs : List A) → cut p xs ≤ length xs
  unfolding cut
  cut-le p [] = omega arith
  cut-le p (x ∷ xs) = ground (arith, cut-le p xs)

  cut-below : (p : A → Bool) (xs : List A) (i : ℕ) → i < cut p xs → test_at p xs i ≡ false
  unfolding cut test_at
  cut-below p [] i h = refl
  cut-below p (x ∷ xs) zero h = ground arith
  cut-below p (x ∷ xs) (suc i) h = ground (arith, cut-below p xs i)

  All-at :
      (p : A → Bool) (xs : List A) (i : ℕ)
      → All (λ y. p y ≡ true) xs
      → i < length xs
      → test_at p xs i ≡ true
  unfolding test_at
  All-at p [] i a h = absurd (omega arith)
  All-at p (x ∷ xs) zero a h = a.0
  All-at p (x ∷ xs) (suc i) a h = All-at p xs i a.1 (omega arith)

  cut-above :
      (p : A → Bool) (xs : List A) (i : ℕ)
      → Turns p xs
      → cut p xs ≤ i
      → i < length xs
      → test_at p xs i ≡ true
  unfolding cut test_at
  cut-above p [] i t h k = absurd (omega arith)
  cut-above p (x ∷ xs) zero t h k = ground arith
  cut-above p (x ∷ xs) (suc i) t h k = elim (Bool-cases (p x)) [
    | inl e ↦ All-at p xs i (t.0 e) (omega arith)
    | inr e ↦ ground (arith, cut-above p xs i t.1)
  ]

  -- On a list where the test turns once, the binary search finds the turn.
  pub search-cut :
      (p : A → Bool) (xs : List A) → Turns p xs → search (length xs) (test_at p xs) ≡ cut p xs
  search-cut p xs t =
      search-finds (length xs) (test_at p xs) (cut p xs) (cut-le p xs) (cut-below p xs)
        (λ i. cut-above p xs i t)

  All-filterb :
      (p : A → Bool) (xs : List A) → All (λ y. p y ≡ true) xs → filterb (λ x. not (p x)) xs ≡ []
  All-filterb p [] a = refl
  All-filterb p (x ∷ xs) a = ground (arith, All-filterb p xs a.1)

  -- What stands before the turn is what fails the test.
  pub take-cut :
      (p : A → Bool) (xs : List A) → Turns p xs → take (cut p xs) xs ≡ filterb (λ x. not (p x)) xs
  unfolding cut
  take-cut p [] t = refl
  take-cut p (x ∷ xs) t = elim (Bool-cases (p x)) [
    | inl e ↦ rw e (ground (arith, All-filterb p xs (t.0 e)))
    | inr e ↦ ground (arith, take-cut p xs t.1)
  ]

  drop_all : (n : ℕ) → drop {A = A} n [] ≡ []
  drop_all zero = refl
  drop_all (suc n) = refl

  All-keeps : (p : A → Bool) (xs : List A) → All (λ y. p y ≡ true) xs → filterb p xs ≡ xs
  All-keeps p [] a = refl
  All-keeps p (x ∷ xs) a = ground (arith, All-keeps p xs a.1)

  -- What stands from the turn on is what passes.
  pub drop-cut : (p : A → Bool) (xs : List A) → Turns p xs → drop (cut p xs) xs ≡ filterb p xs
  unfolding cut
  drop-cut p [] t = refl
  drop-cut p (x ∷ xs) t = elim (Bool-cases (p x)) [
    | inl e ↦ rw e (ground (arith, All-keeps p xs (t.0 e)))
    | inr e ↦ ground (arith, drop-cut p xs t.1)
  ]

  -- A test that turns earlier has the smaller cut.
  pub cut_mono :
      (p q : A → Bool) → ((x : A) → q x ≡ true → p x ≡ true) → (xs : List A) → cut p xs ≤ cut q xs
  unfolding cut
  cut_mono p q h [] = omega arith
  cut_mono p q h (x ∷ xs) = ground (arith, h x, cut_mono p q h xs)

  cut-take : (p : A → Bool) (n : ℕ) (xs : List A) → cut p xs ≤ n → cut p (take n xs) ≡ cut p xs
  unfolding cut
  cut-take p zero [] h = refl
  cut-take p zero (x ∷ xs) h = ground arith
  cut-take p (suc n) [] h = refl
  cut-take p (suc n) (x ∷ xs) h = ground (arith, cut-take p n xs)

  All-take : (P : A → Type 0) (n : ℕ) (xs : List A) → All P xs → All P (take n xs)
  All-take P zero xs a = tt
  All-take P (suc n) [] a = tt
  All-take P (suc n) (x ∷ xs) a = (a.0, All-take P n xs a.1)

  Turns-take : (p : A → Bool) (n : ℕ) (xs : List A) → Turns p xs → Turns p (take n xs)
  Turns-take p zero xs t = tt
  Turns-take p (suc n) [] t = tt
  Turns-take p (suc n) (x ∷ xs) t =
      (λ e. All-take (λ y. p y ≡ true) n xs (t.0 e), Turns-take p n xs t.1)

  filterb-filterb :
      (p q : A → Bool) (xs : List A) → filterb p (filterb q xs) ≡ filterb (λ x. p x && q x) xs
  filterb-filterb p q [] = refl
  filterb-filterb p q (x ∷ xs) = ground (arith, filterb-filterb p q xs)

  -- Between two turns stands what passes the first test and fails the second.
  pub drop-take-cut :
      (p q : A → Bool) (xs : List A)
      → Turns p xs
      → Turns q xs
      → cut p xs ≤ cut q xs
      → drop (cut p xs) (take (cut q xs) xs) ≡ filterb (λ x. p x && not (q x)) xs
  drop-take-cut p q xs tp tq h =
      rw
        (
          ← cut-take p (cut q xs) xs h,
          drop-cut p (take (cut q xs) xs) (Turns-take p (cut q xs) xs tp),
          take-cut q xs tq,
        )
        (filterb-filterb p (λ x. not (q x)) xs)

  -- The last element, or a default.
  abbrev pub last_or : A → List A → A
  last_or d [] = d
  last_or d (x ∷ xs) = last_or x xs

  pub last-take :
      (d : A) (n : ℕ) (xs : List A)
      → suc n ≤ length xs
      → get_elem? xs n ≡ some (last_or d (take (suc n) xs))
  last-take d n [] h = absurd (omega arith)
  last-take d zero (x ∷ xs) h = refl
  last-take d (suc n) (x ∷ xs) h = last-take x n xs (omega arith)
