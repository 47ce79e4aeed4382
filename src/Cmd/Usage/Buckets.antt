-- ===== src/Cmd/Usage/Buckets.antt =====
-- usage of cmd/config.go: what its first loop puts under each name.
use Prim.Native.String.{String}
use text.Mathlib.TextPositions.{eq_refl}
use promeproxy.Common.{
  string_eq, ◌≡◌, refl, ap, ◌∙◌, inl, inr, false, Option, none, some, List, [], ◌∷◌, ◌++◌,
  append_assoc, arith, if◌then◌else◌, ◌==◌, Bool-cases, filterb, is_empty, get_or, lookup, insert,
  lookup-insert,
}
use promeproxy.Common.{string_eq, nat_eq}
use promeproxy.Cmd.Usage.{Flag, Groups, category, members, bucket}

-- the flags of a category, in order
abbrev pub of_category : String → List Flag → List Flag
of_category c = filterb (λ fl. category fl == c)

-- a group that has members
abbrev pub group_of : List Flag → Option (List Flag)
group_of [] = none
group_of (fl ∷ fls) = some (fl ∷ fls)

pub of_category-append :
    (c : String) (xs ys : List Flag)
    → of_category c (xs ++ ys) ≡ of_category c xs ++ of_category c ys
of_category-append c [] ys = refl
of_category-append c (x ∷ xs) ys = ground (arith, of_category-append c xs ys)

pub of_category_twice :
    (c k : String) (fls : List Flag)
    → of_category c (of_category k fls) ≡ (if k == c then of_category k fls else [])
of_category_twice c k [] = ground arith
of_category_twice c k (fl ∷ fls) = ground (
  arith,
  of_category_twice c k fls,
  string_eq.beq_iff (category fl) k,
  string_eq.beq_iff (category fl) c,
  string_eq.beq_iff k c,
)

-- a group after one more flag and then others
group_grows :
    (ms ls : List Flag) (fl : Flag)
    → (if is_empty ls then some (ms ++ fl ∷ []) else some ((ms ++ fl ∷ []) ++ ls))
      ≡ some (ms ++ fl ∷ ls)
group_grows ms [] fl = refl
group_grows ms (l ∷ ls) fl = ap some (append_assoc ms (fl ∷ []) (l ∷ ls))

-- the map once a flag is in the group `k`
abbrev with_flag : String → Flag → Groups → Groups
with_flag k fl m = insert k (members k m ++ fl ∷ []) m

group-with_flag :
    (c : String) (fl : Flag) (ls : List Flag) (m : Groups)
    → (if is_empty ls
        then lookup c (with_flag c fl m)
        else some (members c (with_flag c fl m) ++ ls))
      ≡ some (members c m ++ fl ∷ ls)
unfolding members
group-with_flag c fl ls m =
    rw (lookup-insert c c (members c m ++ fl ∷ []) m, eq_refl c) (group_grows (members c m) ls fl)

lookup-with_flag :
    (k c : String) (fl : Flag) (m : Groups)
    → (k == c) ≡ false
    → lookup c (with_flag k fl m) ≡ lookup c m
lookup-with_flag k c fl m e = rw (lookup-insert k c (members k m ++ fl ∷ []) m, e)

lookup-bucket :
    (c : String) (fls : List Flag) (m : Groups)
    → lookup c (bucket fls m) ≡ (
        if is_empty (of_category c fls)
        then lookup c m
        else some (members c m ++ of_category c fls))
unfolding bucket members
lookup-bucket c [] m = refl
lookup-bucket c (fl ∷ fls) m =
    let ih = lookup-bucket c fls (with_flag (category fl) fl m) in
    elim (Bool-cases (category fl == c)) [
      | inl e ↦
          let key : category fl ≡ c = (string_eq.beq_iff (category fl) c).0 e in
          rw (e) (ih ∙ rw (key) (group-with_flag c fl (of_category c fls) m))
      | inr e ↦ rw (e) (ih ∙ rw (lookup-with_flag (category fl) c fl m e) refl)
    ]

group_of-empty :
    (fls : List Flag) → (if is_empty fls then none else some ([] ++ fls)) ≡ group_of fls
group_of-empty [] = refl
group_of-empty (fl ∷ fls) = refl

get_or-group_of : (fls : List Flag) → get_or (group_of fls) [] ≡ fls
get_or-group_of [] = refl
get_or-group_of (fl ∷ fls) = refl

pub lookup-all :
    (c : String) (flags : List Flag) → lookup c (bucket flags []) ≡ group_of (of_category c flags)
unfolding lookup members
lookup-all c flags = lookup-bucket c flags [] ∙ group_of-empty (of_category c flags)

pub members-all :
    (c : String) (flags : List Flag) → members c (bucket flags []) ≡ of_category c flags
unfolding members
members-all c flags = rw (lookup-all c flags) (get_or-group_of (of_category c flags))
