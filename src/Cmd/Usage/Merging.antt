-- ===== src/Cmd/Usage/Merging.antt =====
-- usage of cmd/config.go: the loop that moves small groups of flags.
use Prim.Native.String.{String}
use promeproxy.Common.{
  string_eq, ◌≡◌, refl, sym, ap, ◌∙◌, inl, inr, Bool, true, false, not, ◌&&◌, Option, none, some,
  List, [], ◌∷◌, ◌++◌, append_assoc, append-nil, arith, ltb, if◌then◌else◌, ◌==◌, Bool-cases,
  length, get_or, lookup, insert, lookup-insert, lookup-delete,
}
use promeproxy.Common.{string_eq, nat_eq}
use promeproxy.Cmd.Usage.Buckets.{of_category, of_category-append}
use promeproxy.Cmd.Usage.{Flag, Groups, members, merge_found, merge_group, merge_groups}
use promeproxy.Cmd.Sets.{in_set}

-- the loop moves the group away
abbrev pub is_small : Option (List Flag) → Bool
is_small none = false
is_small (some fls) = ltb (length fls) 2

-- the loop moves the group `cat`
abbrev pub moves : String → Option (List Flag) → Bool
moves cat o = is_small o && not (cat == ".")

lookup-merge_found :
    (c cat : String) (o : Option (List Flag)) (m : Groups)
    → (c == ".") ≡ false
    → lookup c (merge_found cat o m) ≡ (if (cat == c) && is_small o then none else lookup c m)
unfolding merge_found
lookup-merge_found c cat none m n = ground arith
lookup-merge_found c cat (some fls) m n = ground (
  arith,
  lookup-delete cat c (insert "." (members "." m ++ fls) m),
  lookup-insert "." c (members "." m ++ fls) m,
  string_eq.beq_iff cat c,
  string_eq.beq_iff c ".",
  string_eq.beq_iff "." c,
  string_eq.beq_iff cat ".",
)

dot-merge_found :
    (cat : String) (o : Option (List Flag)) (m : Groups)
    → members "." (merge_found cat o m) ≡ members "." m ++ (if moves cat o then get_or o [] else [])
unfolding merge_found members
dot-merge_found cat none m = sym (append-nil _)
dot-merge_found cat (some fls) m = elim (Bool-cases (moves cat (some fls))) [
  | inl e ↦
      let away : (cat == ".") ≡ false = ground arith in
      rw
        (
          e,
          lookup-delete cat "." (insert "." (members "." m ++ fls) m),
          away,
          lookup-insert "." "." (members "." m ++ fls) m,
        )
        refl
  | inr e ↦ rw (e) (sym (append-nil _))
]

-- Each group but "." has only flags of its category.
abbrev pub IsKeyed : Groups → Type 0
IsKeyed m =
    (c k : String)
    → (k == ".") ≡ false
    → of_category c (members k m) ≡ (if k == c then members k m else [])

merge_group-IsKeyed : (cat : String) (m : Groups) → IsKeyed m → IsKeyed (merge_group cat m)
unfolding merge_group members
merge_group-IsKeyed cat m h c k n =
    rw (lookup-merge_found k cat (lookup cat m) m n)
      (elim (Bool-cases ((cat == k) && is_small (lookup cat m))) [
        | inl e ↦ rw (e) (ground arith)
        | inr e ↦ rw (e) (h c k n)
      ])

-- the flags of category `c` that the loop moves
abbrev pub moved : String → List String → Groups → List Flag
moved c order m = if in_set c order && moves c (lookup c m) then members c m else []

-- what one round moves
abbrev moved_now : String → Groups → List Flag
moved_now cat m = if moves cat (lookup cat m) then get_or (lookup cat m) [] else []

of_category-moved_now :
    (c cat : String) (m : Groups)
    → IsKeyed m
    → of_category c (moved_now cat m) ≡ (if cat == c then moved_now cat m else [])
unfolding members
of_category-moved_now c cat m h = elim (Bool-cases (moves cat (lookup cat m))) [
  | inl e ↦ let away : (cat == ".") ≡ false = ground arith in rw (e) (h c cat away)
  | inr e ↦ rw (e) (ground arith)
]

pub moves_nothing :
    (b small : Bool) (xs ys : List Flag) → xs ++ (if b && (small && false) then ys else []) ≡ xs
moves_nothing true true xs ys = append-nil xs
moves_nothing true false xs ys = append-nil xs
moves_nothing false small xs ys = append-nil xs

moved-merge_group :
    (c cat : String) (order : List String) (m : Groups)
    → (if cat == c then moved_now cat m else []) ++ moved c order (merge_group cat m)
      ≡ moved c (cat ∷ order) m
unfolding merge_group members in_set
moved-merge_group c cat order m = elim (Bool-cases (c == ".")) [
  | inl d ↦ ground (arith, string_eq.beq_iff cat c, string_eq.beq_iff c ".")
  | inr d ↦ rw (lookup-merge_found c cat (lookup cat m) m d) (elim (Bool-cases (cat == c)) [
    | inl e ↦
        let same : cat ≡ c = (string_eq.beq_iff cat c).0 e in
        rw (e, same, d)
          (elim (Bool-cases (is_small (lookup c m))) [
            | inl f ↦ rw (f) (moves_nothing (in_set c order) true (members c m) [])
            | inr f ↦ rw (f, f) (ground arith)
          ])
    | inr e ↦ rw (e) refl
  ])
]

pub dot-merge_groups :
    (c : String) (order : List String) (m : Groups)
    → IsKeyed m
    → of_category c (members "." (merge_groups order m))
      ≡ of_category c (members "." m) ++ moved c order m
unfolding merge_groups in_set
dot-merge_groups c [] m h = sym (append-nil _)
dot-merge_groups c (cat ∷ order) m h =
    dot-merge_groups c order (merge_group cat m) (merge_group-IsKeyed cat m h)
    ∙ ap (λ l. l ++ moved c order (merge_group cat m))
        (now ∙ rw (of_category-moved_now c cat m h) refl)
    ∙ append_assoc (of_category c (members "." m)) _ (moved c order (merge_group cat m))
    ∙ ap (λ l. of_category c (members "." m) ++ l) (moved-merge_group c cat order m)
  where
    now :
        of_category c (members "." (merge_group cat m))
        ≡ of_category c (members "." m) ++ of_category c (moved_now cat m)
    now =
        ap (of_category c) (dot-merge_found cat (lookup cat m) m)
        ∙ of_category-append c (members "." m) (moved_now cat m)

-- the loop leaves every other group, or removes it
pub lookup-merge_groups :
    (c : String) (order : List String) (m : Groups)
    → (c == ".") ≡ false
    → lookup c (merge_groups order m)
      ≡ (if in_set c order && is_small (lookup c m) then none else lookup c m)
unfolding merge_groups merge_group in_set
lookup-merge_groups c [] m n = refl
lookup-merge_groups c (cat ∷ order) m n =
    lookup-merge_groups c order (merge_group cat m) n
    ∙ rw (lookup-merge_found c cat (lookup cat m) m n) (elim (Bool-cases (cat == c)) [
      | inl e ↦
          let same : cat ≡ c = (string_eq.beq_iff cat c).0 e in
          rw (e, same)
            (elim (Bool-cases (is_small (lookup c m))) [
              | inl f ↦ rw (f) (ground arith)
              | inr f ↦ rw (f, f) (ground arith)
            ])
      | inr e ↦ rw (e) refl
    ])
