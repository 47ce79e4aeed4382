-- ===== src/Web/Api/Duplicates.antt =====
-- removeDuplicate of web/api/v1/api.go, whose loop writes into the array that it reads.
use mathlib.Core.Path.{ap}
use promeproxy.Common.{
  string_eq, ℕ, zero, suc, ◌≤◌, ◌<◌, String, ◌≡◌, refl, sym, ◌∙◌, inl, inr, Bool, true, not, ◌||◌,
  some, List, [], ◌∷◌, ◌++◌, append_assoc, append-nil, arith, ◌==◌, Bool-cases, length, get_elem?,
  set, take, drop, filterb,
}
use promeproxy.Web.Api.{seen_before, dedup_loop, remove_duplicate}

-- the values without the later ones that are equal to an earlier one
abbrev pub firsts : List String → List String
firsts [] = []
firsts (x ∷ xs) = x ∷ filterb (λ y. not (x == y)) (firsts xs)

abbrev fresh : List String → String → Bool
fresh seen y = not (seen_before y seen)

seen_before-append :
    (seen : List String) (x y : String)
    → seen_before y (seen ++ x ∷ []) ≡ (seen_before y seen || y == x)
unfolding seen_before
seen_before-append [] x y = ground arith
seen_before-append (t ∷ seen) x y = ground (arith, seen_before-append seen x y)

filterb-fresh_append :
    (seen : List String) (x : String) (l : List String)
    → filterb (fresh (seen ++ x ∷ [])) l ≡ filterb (fresh seen) (filterb (λ y. not (x == y)) l)
filterb-fresh_append seen x [] = refl
filterb-fresh_append seen x (y ∷ l) = ground (
  arith,
  seen_before-append seen x y,
  string_eq.beq_iff x y,
  string_eq.beq_iff y x,
  filterb-fresh_append seen x l,
)

filterb-fresh_seen :
    (seen : List String) (x : String) (l : List String)
    → seen_before x seen ≡ true
    → filterb (fresh seen) (filterb (λ y. not (x == y)) l) ≡ filterb (fresh seen) l
filterb-fresh_seen seen x [] h = refl
filterb-fresh_seen seen x (y ∷ l) h =
    ground (arith, string_eq.beq_iff x y, filterb-fresh_seen seen x l h)

get_elem?-drop :
    (xs : List String) (i : ℕ) (y : String) (ys : List String)
    → drop i xs ≡ y ∷ ys
    → (get_elem? xs i ≡ some y) × (drop (suc i) xs ≡ ys) × (i < length xs)
get_elem?-drop [] zero y ys e = absurd (ground arith)
get_elem?-drop [] (suc i) y ys e = absurd (ground arith)
get_elem?-drop (x ∷ xs) zero y ys e = ground arith
get_elem?-drop (x ∷ xs) (suc i) y ys e = ground (arith, get_elem?-drop xs i y ys e)

drop-set :
    (xs : List String) (k i : ℕ) (y : String) → k ≤ i → drop (suc i) (set xs k y) ≡ drop (suc i) xs
drop-set [] k i y h = refl
drop-set (x ∷ xs) zero i y h = refl
drop-set (x ∷ xs) (suc k) zero y h = absurd (omega arith)
drop-set (x ∷ xs) (suc k) (suc i) y h = drop-set xs k i y (omega arith)

take-set :
    (xs : List String) (k : ℕ) (y : String)
    → k < length xs
    → take (suc k) (set xs k y) ≡ take k xs ++ y ∷ []
take-set [] k y h = absurd (omega arith)
take-set (x ∷ xs) zero y h = refl
take-set (x ∷ xs) (suc k) y h = ap (◌∷◌ x) (take-set xs k y (omega arith))

dedup_loop-firsts :
    (xs seen data_ : List String) (i kept : ℕ)
    → drop i data_ ≡ xs
    → take kept data_ ≡ seen
    → kept ≤ i
    → dedup_loop (length xs) i kept seen data_ ≡ seen ++ filterb (fresh seen) (firsts xs)
unfolding dedup_loop
dedup_loop-firsts [] seen data_ i kept d t h = t ∙ sym (append-nil seen)
dedup_loop-firsts (x ∷ xs) seen data_ i kept d t h =
    let (g, rest, inside) = get_elem?-drop data_ i x xs d in
    elim (Bool-cases (seen_before x seen)) [
      | inl e ↦
          rw (g, e, dedup_loop)
            (dedup_loop-firsts xs seen data_ (suc i) kept rest t (omega arith)
              ∙ ap (λ (l : List String). seen ++ l) (sym (filterb-fresh_seen seen x (firsts xs) e)))
      | inr e ↦
          rw (g, e, dedup_loop)
            (dedup_loop-firsts xs (seen ++ x ∷ []) (set data_ kept x) (suc i) (suc kept)
                (drop-set data_ kept i x h ∙ rest)
                (take-set data_ kept x (omega arith) ∙ ap (λ (l : List String). l ++ x ∷ []) t)
                (omega arith)
              ∙ rw (filterb-fresh_append seen x (firsts xs)) (append_assoc seen (x ∷ []) _))
    ]

filterb-all : (l : List String) → filterb (fresh []) l ≡ l
unfolding seen_before
filterb-all [] = refl
filterb-all (x ∷ l) = ap (◌∷◌ x) (filterb-all l)

-- removeDuplicate, which writes the kept values to the front of the array that it reads, keeps exactly
-- the first occurrence of each value, in order.
pub remove_duplicate-firsts : (values : List String) → remove_duplicate values ≡ firsts values
unfolding remove_duplicate
remove_duplicate-firsts values =
    dedup_loop-firsts values [] values 0 0 refl refl (omega arith) ∙ filterb-all (firsts values)
