-- ===== src/Cmd/Sets/Laws.antt =====
-- The type stringset of cmd/config.go: String, and what Set reads of it.
use Prim.Native.String.{String}
use Prim.Native.String.append
use promeproxy.Common.{
  string_eq, nat_eq, ◌≡◌, refl, sym, ap, ◌∙◌, subst, inl, inr, Bool, true, false, ◌||◌, List, [],
  ◌∷◌, arith, ◌==◌, Bool-cases, str_append,
}
use promeproxy.Cmd.Sets.{
  join_comma, is_comma, cons_first, split, in_set, add_member, set_parts, set_strings,
  strings_string,
}

abbrev pub has_comma : String → Bool
has_comma String.[] = false
has_comma (String.◌∷◌ c s) = is_comma c || has_comma s

-- a member that can be written: without a comma, not empty, and without spaces at its ends
abbrev pub IsWord : (String → String) → String → Type 0
IsWord trim_space v = (has_comma v ≡ false) × (trim_space v ≡ v) × ((v == "") ≡ false)

split-word : (w : String) → has_comma w ≡ false → split w ≡ w ∷ []
unfolding split cons_first
split-word String.[] h = refl
split-word (String.◌∷◌ c w) h =
    let parts : (is_comma c ≡ false) × (has_comma w ≡ false) = ground arith in
    rw (parts.0, split-word w parts.1) refl

split-comma :
    (w t : String) → has_comma w ≡ false → split (str_append w (str_append "," t)) ≡ w ∷ split t
unfolding split cons_first
split-comma String.[] t h = ap split (
    append.nil (str_append "," t)
    ∙ append.cons "," "" t
    ∙ ap (λ u. String.◌∷◌ "," u) (append.nil t))
split-comma (String.◌∷◌ c w) t h =
    let parts : (is_comma c ≡ false) × (has_comma w ≡ false) = ground arith in
    ap split (append.cons c w (str_append "," t)) ∙ rw (parts.0, split-comma w t parts.1) refl

-- all members can be written
abbrev pub AreWords : (String → String) → List String → Type 0
AreWords trim_space ss = (v : String) → in_set v ss ≡ true → IsWord trim_space v

AreWords-head :
    (trim_space : String → String) (w : String) (ws : List String)
    → AreWords trim_space (w ∷ ws)
    → IsWord trim_space w
unfolding in_set
AreWords-head trim_space w ws h = h w (ground (arith, string_eq.beq_iff w w))

AreWords-tail :
    (trim_space : String → String) (w : String) (ws : List String)
    → AreWords trim_space (w ∷ ws)
    → AreWords trim_space ws
unfolding in_set
AreWords-tail trim_space w ws h v m = h v (ground arith)

split-join_comma :
    (trim_space : String → String) (w : String) (ws : List String)
    → AreWords trim_space (w ∷ ws)
    → split (join_comma (w ∷ ws)) ≡ w ∷ ws
unfolding join_comma
split-join_comma trim_space w [] h = split-word w (AreWords-head trim_space w [] h).0
split-join_comma trim_space w (x ∷ ws) h =
    split-comma w (join_comma (x ∷ ws)) (AreWords-head trim_space w (x ∷ ws) h).0
    ∙ ap (λ l. w ∷ l) (split-join_comma trim_space x ws (AreWords-tail trim_space w (x ∷ ws) h))

in_set-add_member :
    (v k : String) (ss : List String) → in_set k (add_member v ss) ≡ (v == k || in_set k ss)
unfolding add_member in_set
in_set-add_member v k ss = elim (Bool-cases (in_set v ss)) [
  | inr e ↦ rw (e) refl
  | inl e ↦ elim (Bool-cases (v == k)) [
    | inl q ↦ rw (e, q) (subst (λ u. in_set u ss ≡ true) ((string_eq.beq_iff v k).0 q) e)
    | inr q ↦ rw (e, q) refl
  ]
]

or_swap : (a b c : Bool) → (a || (b || c)) ≡ ((b || a) || c)
or_swap true true c = refl
or_swap true false c = refl
or_swap false true c = refl
or_swap false false c = refl

or_false : (a : Bool) → (a || false) ≡ a
or_false true = refl
or_false false = refl

in_set-set_parts :
    (trim_space : String → String) (k : String) (vs ss : List String)
    → AreWords trim_space vs
    → in_set k (set_parts trim_space vs ss) ≡ (in_set k vs || in_set k ss)
unfolding set_parts
in_set-set_parts trim_space k [] ss h = refl
in_set-set_parts trim_space k (v ∷ vs) ss h =
    let (c, t, n) = AreWords-head trim_space v vs h in
    rw (t, n)
      (in_set-set_parts trim_space k vs (add_member v ss) (AreWords-tail trim_space v vs h)
        ∙ ap (λ b. in_set k vs || b) (in_set-add_member v k ss)
        ∙ or_swap (in_set k vs) (v == k) (in_set k ss))

-- What String writes for a set is read by Set as a set with the same members, if sorting keeps the members,
-- trimming leaves the members and the empty text as they are, and each member is not empty and has no
-- comma.
pub set_strings-strings_string :
    (trim_space : String → String) (sort : List String → List String) (ss : List String)
    → ((v : String) → in_set v (sort ss) ≡ in_set v ss)
    → trim_space "" ≡ ""
    → AreWords trim_space ss
    → (k : String) → in_set k (set_strings trim_space (strings_string sort ss) []) ≡ in_set k ss
unfolding set_strings strings_string
set_strings-strings_string trim_space sort ss p e h k =
    written (sort ss) (λ v m. h v (sym (p v) ∙ m)) ∙ p k
  where
    written :
        (ws : List String)
        → AreWords trim_space ws
        → in_set k (set_parts trim_space (split (join_comma ws)) []) ≡ in_set k ws
    written [] a = rw (e) refl
    written (w ∷ ws) a =
        rw (split-join_comma trim_space w ws a)
          (in_set-set_parts trim_space k (w ∷ ws) [] a ∙ or_false (in_set k (w ∷ ws)))
