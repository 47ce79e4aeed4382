-- ===== src/Common/Sorting.antt =====
-- `sort.Sort` of Go's standard library on slices: what it may do to a slice by the slice's Swap and Less, and
-- what it promises.
use mathlib.Core.List.{Mem, Perm, mem-cons_self, mem-cons_of_mem}
use mathlib.Core.List.Perm
use promeproxy.Common.{
  ℕ, zero, suc, ◌<◌, ◌≡◌, refl, ap, subst, inl, inr, Bool, true, false, Option, none, some, List,
  [], ◌∷◌, arith, Bool-cases, get_elem?, set, All,
}

module _ {A : Type 0} where
  -- s[i], s[j] = s[j], s[i] with the values that the two places have; none is the panic of an index out of range
  unfoldable pub swap_found : ℕ → ℕ → Option A → Option A → List A → Option (List A)
  swap_found i j none q xs = none
  swap_found i j (some a) none xs = none
  swap_found i j (some a) (some b) xs = some (set (set xs i b) j a)

  unfoldable pub swap : ℕ → ℕ → List A → Option (List A)
  unfolding swap_found
  swap i j xs = swap_found i j (get_elem? xs i) (get_elem? xs j) xs

  -- less of the values that two places have
  unfoldable pub less_found : (A → A → Bool) → Option A → Option A → Option Bool
  less_found less none q = none
  less_found less (some a) none = none
  less_found less (some a) (some b) = some (less a b)

  -- Less(i, j) of a slice that compares its elements by `less`
  unfoldable pub less_at : (A → A → Bool) → ℕ → ℕ → List A → Option Bool
  unfolding less_found
  less_at less i j xs = less_found less (get_elem? xs i) (get_elem? xs j)

  -- What calls of Swap make of a slice.
  pub data Swapped (xs : List A) : List A → Type 0 where
    untouched : Swapped xs xs
    swapped : {ys zs : List A} (i j : ℕ) → Swapped xs ys → swap i j ys ≡ some zs → Swapped xs zs

  -- What sort.Sort promises: it only swaps, and afterwards no element is less than one before it.
  pub record IsSortOf (less : A → A → Bool) (xs ys : List A) : Type 0 where
    pub by_swaps : Swapped xs ys
    pub in_order : (i j : ℕ) → i < j → ¬ (less_at less j i ys ≡ some true)

  -- an element that is put in the place of another
  Perm-set :
      (xs : List A) (i : ℕ) (a b : A) → get_elem? xs i ≡ some a → Perm (a ∷ set xs i b) (b ∷ xs)
  Perm-set [] i a b h = cc
  Perm-set (x ∷ xs) zero a b h =
      let same : x ≡ a = cc in subst (λ c. Perm (c ∷ b ∷ xs) (b ∷ x ∷ xs)) same (Perm.swap b x xs)
  Perm-set (x ∷ xs) (suc i) a b h =
      Perm.trans (Perm.swap x a (set xs i b))
        (Perm.trans (Perm.cons x (Perm-set xs i a b h)) (Perm.swap b x xs))

  get_elem-set :
      (xs : List A) (i j : ℕ) (a b : A)
      → get_elem? xs i ≡ some a
      → get_elem? xs j ≡ some b
      → get_elem? (set xs i b) j ≡ some b
  get_elem-set [] i j a b h k = cc
  get_elem-set (x ∷ xs) zero zero a b h k = refl
  get_elem-set (x ∷ xs) zero (suc j) a b h k = k
  get_elem-set (x ∷ xs) (suc i) zero a b h k = k
  get_elem-set (x ∷ xs) (suc i) (suc j) a b h k = get_elem-set xs i j a b h k

  swap_found-Perm :
      (i j : ℕ) (p q : Option A) (xs ys : List A)
      → get_elem? xs i ≡ p
      → get_elem? xs j ≡ q
      → swap_found i j p q xs ≡ some ys
      → Perm ys xs
  unfolding swap_found
  swap_found-Perm i j none q xs ys h k e = cc
  swap_found-Perm i j (some a) none xs ys h k e = cc
  swap_found-Perm i j (some a) (some b) xs ys h k e =
      let same : set (set xs i b) j a ≡ ys = cc in
      subst (λ l. Perm l xs) same
        (Perm.cons_inv (
          Perm.trans (Perm-set (set xs i b) j b a (get_elem-set xs i j a b h k))
            (Perm-set xs i a b h)))

  -- Swaps only change the order.
  pub Swapped-Perm : {xs ys : List A} → Swapped xs ys → Perm ys xs
  unfolding swap
  Swapped-Perm untouched = Perm.rfl
  Swapped-Perm (swapped {ys} i j s e) =
      Perm.trans (swap_found-Perm i j _ _ ys _ refl refl e) (Swapped-Perm s)

  pub Mem-get_elem : (xs : List A) (i : ℕ) (a : A) → get_elem? xs i ≡ some a → Mem a xs
  Mem-get_elem [] i a h = cc
  Mem-get_elem (x ∷ xs) zero a h =
      let same : x ≡ a = cc in subst (λ c. Mem c (x ∷ xs)) same mem-cons_self
  Mem-get_elem (x ∷ xs) (suc i) a h = mem-cons_of_mem x (Mem-get_elem xs i a h)

  -- After sorting, an element is not less than one before it.
  pub in_order-get_elem :
      {less : A → A → Bool} {xs ys : List A}
      → IsSortOf less xs ys
      → (i j : ℕ) (a b : A) → i < j
      → get_elem? ys i ≡ some a
      → get_elem? ys j ≡ some b
      → less b a ≡ false
  unfolding less_at less_found
  in_order-get_elem {less} s i j a b h p q = elim (Bool-cases (less b a)) [
    | inl e ↦ absurd (s.in_order i j h (rw (p, q) (ap some e)))
    | inr e ↦ e
  ]

  -- Each element is so related to all that come after it.
  abbrev pub IsPairwise : (A → A → Type 0) → List A → Type 0
  IsPairwise P [] = Unit
  IsPairwise P (x ∷ xs) = All (P x) xs × IsPairwise P xs

  All-get_elem :
      (P : A → Type 0) (xs : List A) → ((i : ℕ) (a : A) → get_elem? xs i ≡ some a → P a) → All P xs
  All-get_elem P [] h = tt
  All-get_elem P (x ∷ xs) h = (h 0 x refl, All-get_elem P xs (λ i a e. h (suc i) a e))

  pub IsPairwise-get_elem :
      (P : A → A → Type 0) (xs : List A)
      → ((i j : ℕ) (a b : A) → i < j → get_elem? xs i ≡ some a → get_elem? xs j ≡ some b → P a b)
      → IsPairwise P xs
  IsPairwise-get_elem P [] h = tt
  IsPairwise-get_elem P (x ∷ xs) h = (
    All-get_elem (P x) xs (λ i a e. h 0 (suc i) x a (omega arith) refl e),
    IsPairwise-get_elem P xs (λ i j a b l p q. h (suc i) (suc j) a b (omega arith) p q),
  )
