-- ===== src/Cmd/Sets.antt =====
-- The type stringset of cmd/config.go, a set of strings as the value of a flag. A set is a list of its
-- members, in the order of one iteration.
pub mod Laws
use Prim.Native.Char.{Char, code}
use Prim.Native.String.{String}
use promeproxy.Common.{
  string_eq, nat_eq, Bool, false, ◌||◌, List, [], ◌∷◌, if◌then◌else◌, ◌==◌, str_append,
}

unfoldable pub is_comma : Char → Bool
is_comma c = code c == b','

-- a character before the first part
unfoldable pub cons_first : Char → List String → List String
cons_first c [] = String.◌∷◌ c "" ∷ []
cons_first c (w ∷ ws) = String.◌∷◌ c w ∷ ws

-- strings.Split at the commas, by what it documents
unfoldable pub split : String → List String
unfolding is_comma cons_first
split String.[] = "" ∷ []
split (String.◌∷◌ c s) = let rest = split s in if is_comma c then "" ∷ rest else cons_first c rest

-- a string is in the set
unfoldable pub in_set : String → List String → Bool
in_set v [] = false
in_set v (w ∷ ss) = w == v || in_set v ss

-- ss[v] = struct{}{}
unfoldable pub add_member : String → List String → List String
unfolding in_set
add_member v ss = if in_set v ss then ss else v ∷ ss

-- the loop of Set; `trim_space` is strings.TrimSpace
unfoldable pub set_parts : (String → String) → List String → List String → List String
unfolding add_member
set_parts trim_space [] ss = ss
set_parts trim_space (v ∷ vs) ss =
    set_parts trim_space vs (if trim_space v == "" then ss else add_member (trim_space v) ss)

-- stringset.Set
unfoldable pub set_strings : (String → String) → String → List String → List String
unfolding split set_parts
set_strings trim_space s ss = set_parts trim_space (split s) ss

-- strings.Join with a comma, by what it documents
unfoldable pub join_comma : List String → String
join_comma [] = ""
join_comma (s ∷ ss) =
    let rest = join_comma ss in elim ss [ [] ↦ s | t ∷ ts ↦ str_append s (str_append "," rest) ]

-- stringset.String, with slice; `sort` is sort.Strings
unfoldable pub strings_string : (List String → List String) → List String → String
unfolding join_comma
strings_string sort ss = join_comma (sort ss)
