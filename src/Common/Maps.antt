-- ===== src/Common/Maps.antt =====
-- Go maps as association lists. The order of the list is the order of one iteration, which Go
-- leaves open; the laws are stated by `lookup`.
use mathlib.Core.Path.{◌≡◌, refl, sym, subst}
use mathlib.Core.Logic.{inl, inr}
use mathlib.Core.Bool.{Bool, true, false}
use mathlib.Core.List.{List, [], ◌∷◌}
use mathlib.Core.Option.{Option, none, some}
use native.Mathlib.Omega.{arith}
use promeproxy.Common.Tests.{if◌then◌else◌, Eq, ◌==◌, Bool-cases}

abbrev pub has {ℓ} : {A : Type ℓ} → Option A → Bool
has none = false
has (some a) = true

abbrev pub get_or {ℓ} : {A : Type ℓ} → Option A → A → A
get_or none d = d
get_or (some a) d = a

module _ {ℓ κ} {K : Type ℓ} {V : Type κ} ⦃e : Eq K⦄ where
  unfoldable pub lookup : K → List (K × V) → Option V
  lookup k [] = none
  lookup k ((i, u) ∷ m) = if i == k then some u else lookup k m

  unfoldable pub insert : K → V → List (K × V) → List (K × V)
  insert k v [] = (k, v) ∷ []
  insert k v ((i, u) ∷ m) = if i == k then (k, v) ∷ m else (i, u) ∷ insert k v m

  unfoldable pub delete : K → List (K × V) → List (K × V)
  delete k [] = []
  delete k ((j, w) ∷ m) = let rest = delete k m in if j == k then rest else (j, w) ∷ rest

  pub lookup-insert :
      (i j : K) (v : V) (m : List (K × V))
      → lookup j (insert i v m) ≡ (if i == j then some v else lookup j m)
  unfolding insert lookup
  lookup-insert i j v [] = refl
  lookup-insert i j v ((k, w) ∷ l) =
      ground (arith, lookup-insert i j v l, e.beq_iff i j, e.beq_iff k i, e.beq_iff k j)

  pub lookup-delete :
      (k j : K) (m : List (K × V)) → lookup j (delete k m) ≡ (if k == j then none else lookup j m)
  unfolding lookup delete
  lookup-delete k j [] = ground arith
  lookup-delete k j ((i, w) ∷ m) =
      ground (arith, e.beq_iff k j, e.beq_iff i k, e.beq_iff i j, lookup-delete k j m)

abbrev pub or_else {ℓ} : {A : Type ℓ} → Option A → Option A → Option A
or_else none o = o
or_else (some a) o = some a

pub or_else_assoc {ℓ} :
    {A : Type ℓ} (o p q : Option A) → or_else (or_else o p) q ≡ or_else o (or_else p q)
or_else_assoc none p q = refl
or_else_assoc (some a) p q = refl

pub or_else-none {ℓ} : {A : Type ℓ} (o : Option A) → or_else o none ≡ o
or_else-none none = refl
or_else-none (some a) = refl

-- A Go map has each key once.
module _ {ℓ κ} {K : Type ℓ} {V : Type κ} ⦃e : Eq K⦄ where
  abbrev pub Unique : List (K × V) → Type κ
  Unique [] = Unit
  Unique ((k, v) ∷ m) = (lookup k m ≡ none) × Unique m

  -- `for k, v := range add { if _, ok := seen[k]; !ok { m[k] = v } }`
  unfoldable pub insert_missing : List (K × V) → List (K × V) → List (K × V) → List (K × V)
  insert_missing seen [] m = m
  insert_missing seen ((k, v) ∷ add) m =
      insert_missing seen add (if has (lookup k seen) then m else insert k v m)

  pub lookup-insert_missing :
      (seen add m : List (K × V)) (j : K)
      → Unique add
      → lookup j (insert_missing seen add m)
        ≡ (if has (lookup j seen) then lookup j m else or_else (lookup j add) (lookup j m))
  unfolding lookup insert_missing
  lookup-insert_missing seen [] m j u = ground arith
  lookup-insert_missing seen ((k, v) ∷ add) m j u = ground (
    arith,
    e.beq_iff k j,
    lookup-insert_missing seen add (if has (lookup k seen) then m else insert k v m) j u.1,
    lookup-insert k j v m,
    u.0,
  )

  -- `for k := range gone { delete(m, k) }`
  unfoldable pub delete_all : List (K × V) → List (K × V) → List (K × V)
  delete_all [] m = m
  delete_all ((k, v) ∷ gone) m = delete_all gone (delete k m)

  pub lookup-delete_all :
      (gone m : List (K × V)) (j : K)
      → lookup j (delete_all gone m) ≡ (if has (lookup j gone) then none else lookup j m)
  unfolding lookup delete_all
  lookup-delete_all [] m j = ground arith
  lookup-delete_all ((k, v) ∷ gone) m j =
      ground (arith, e.beq_iff k j, lookup-delete_all gone (delete k m) j, lookup-delete k j m)

  pub insert-Unique : (k : K) (v : V) (m : List (K × V)) → Unique m → Unique (insert k v m)
  unfolding insert lookup
  insert-Unique k v [] u = (refl, tt)
  insert-Unique k v ((j, w) ∷ m) u = elim (Bool-cases (j == k)) [
    | inl h ↦ rw (h, insert) (subst (λ (i : K). lookup i m ≡ none) ((e.beq_iff j k).0 h) u.0, u.1)
    | inr h ↦ rw (h, insert) (absent h, insert-Unique k v m u.1)
  ]
    where
      absent : (j == k) ≡ false → lookup j (insert k v m) ≡ none
      absent h = ground (arith, e.beq_iff k j, e.beq_iff j k, lookup-insert k j v m, u.0)

  -- `for k, v := range add { if _, ok := m[k]; !ok { m[k] = v } }`
  unfoldable pub fill : List (K × V) → List (K × V) → List (K × V)
  fill [] m = m
  fill ((k, v) ∷ add) m = fill add (if has (lookup k m) then m else insert k v m)

  pub lookup-fill :
      (add m : List (K × V)) (j : K) → lookup j (fill add m) ≡ or_else (lookup j m) (lookup j add)
  unfolding lookup fill
  lookup-fill [] m j = sym (or_else-none _)
  lookup-fill ((k, v) ∷ add) m j = ground (
    arith,
    e.beq_iff k j,
    lookup-fill add (if has (lookup k m) then m else insert k v m) j,
    lookup-insert k j v m,
  )
