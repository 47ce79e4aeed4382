-- ===== src/Cmd/Usage/Laws.antt =====
-- usage of cmd/config.go: the groups of the flags in the help text.
use Prim.Native.String.{String}
use promeproxy.Common.{
  string_eq, ◌≡◌, refl, ◌∙◌, inl, inr, Bool, true, false, ◌&&◌, ◌||◌, none, some, List, [], ◌∷◌,
  arith, ltb, if◌then◌else◌, ◌==◌, Bool-cases, length, has, lookup,
}
use promeproxy.Common.{string_eq, nat_eq}
use promeproxy.Cmd.Usage.Buckets.{of_category, group_of, of_category_twice, lookup-all, members-all}
use promeproxy.Cmd.Usage.{Flag, Groups, members, bucket, usage_groups}
use promeproxy.Cmd.Sets.{in_set}
use promeproxy.Cmd.Usage.Merging.{
  is_small, IsKeyed, moves_nothing, dot-merge_groups, lookup-merge_groups,
}

own_group :
    (b : Bool) (fls : List Flag)
    → (has (group_of fls) ≡ true → b ≡ true)
    → (if b && is_small (group_of fls) then none else group_of fls)
      ≡ (if ltb (length fls) 2 then none else some fls)
own_group b [] h = ground arith
own_group b (fl ∷ fls) h = rw (h refl) refl

moved_group :
    (b : Bool) (fls : List Flag)
    → (has (group_of fls) ≡ true → b ≡ true)
    → (if b && (is_small (group_of fls) && true) then fls else [])
      ≡ (if ltb (length fls) 2 then fls else [])
moved_group b [] h = ground arith
moved_group b (fl ∷ fls) h = rw (h refl) (ground arith)

-- The groups of the help text: under "." stand, category by category and in their order, the flags whose
-- category is "." or has fewer than two flags; every other category's flags stand in its own group.
abbrev pub IsGrouped : List Flag → Groups → Type 0
IsGrouped flags out =
    (c : String)
    → (of_category c (members "." out)
        ≡ (if c == "." || ltb (length (of_category c flags)) 2 then of_category c flags else []))
      × ((if c == "." then none else lookup c out) ≡ (
          if c == "." || ltb (length (of_category c flags)) 2
          then none
          else some (of_category c flags)))

-- Every flag stands in the help text exactly once: in its category's group, or, where the category is "."
-- or has fewer than two flags, in the group "."; and no other group is there. So it is for every order of the
-- loop over the groups that comes to all of them.
pub usage_groups-IsGrouped :
    (order : List String) (flags : List Flag)
    → ((c : String) → has (lookup c (bucket flags [])) ≡ true → in_set c order ≡ true)
    → IsGrouped flags (usage_groups order flags)
unfolding usage_groups
usage_groups-IsGrouped order flags h c = (
  dot-merge_groups c order (bucket flags []) keyed
      ∙ rw
          (
            members-all "." flags,
            members-all c flags,
            lookup-all c flags,
            of_category_twice c "." flags,
          )
          (elim (Bool-cases (c == ".")) [
            | inl e ↦
                let same : c ≡ "." = (string_eq.beq_iff c ".").0 e in
                rw (e, same)
                  (moves_nothing (in_set "." order) (is_small (group_of (of_category "." flags))) _
                    _)
            | inr e ↦ rw (e, other e) (moved_group (in_set c order) (of_category c flags) reached)
          ]),
  elim (Bool-cases (c == ".")) [
    | inl e ↦ rw (e) refl
    | inr e ↦ rw (e) (
        lookup-merge_groups c order (bucket flags []) e
        ∙ rw (lookup-all c flags) (own_group (in_set c order) (of_category c flags) reached))
  ],
)
  where
    keyed : IsKeyed (bucket flags [])
    keyed d k n = rw (members-all k flags) (of_category_twice d k flags)

    reached : has (group_of (of_category c flags)) ≡ true → in_set c order ≡ true
    reached p = h c (rw (lookup-all c flags) p)

    other : (c == ".") ≡ false → ("." == c) ≡ false
    other e = ground (arith, string_eq.beq_iff "." c, string_eq.beq_iff c ".")
