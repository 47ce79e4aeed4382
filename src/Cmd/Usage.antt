-- ===== src/Cmd/Usage.antt =====
-- usage of cmd/config.go: how the help text groups the flags and wraps their descriptions.
pub mod Buckets
pub mod Laws
pub mod Merging
pub mod Width
use Prim.Native.Char.{Char, code}
use Prim.Native.String.{String}
use promeproxy.Common.{
  ℕ, zero, suc, ◌+◌, ◌-◌, Bool, not, ◌&&◌, ◌||◌, Option, none, some, List, [], ◌∷◌, ◌++◌, ltb,
  if◌then◌else◌, ◌==◌, str_append, str_len, length, get_or, lookup, insert, delete,
}
use mathlib.Core.Option
use promeproxy.Common.{string_eq, nat_eq}

-- A flag of cfg.fs, as the help text tells of it.
pub record Flag : Type 0 where
  pub name : String
  pub def_value : String
  pub description : String

abbrev pub Groups : Type 0
Groups = List (String × List Flag)

unfoldable pub is_dot : Char → Bool
is_dot c = code c == b'.'

-- strings.SplitN(name, ".", 2): the part before the first dot, or none where there is no dot
unfoldable pub before_dot : String → Option String
unfolding is_dot
before_dot String.[] = none
before_dot (String.◌∷◌ c s) =
    let rest = before_dot s in
    if is_dot c then some "" else Option.map (λ part. String.◌∷◌ c part) rest

-- the group of a flag
unfoldable pub category : Flag → String
unfolding before_dot
category fl = get_or (before_dot fl.name) "."

-- groups[name]: nil where the map has no such group
unfoldable pub members : String → Groups → List Flag
members cat groups = get_or (lookup cat groups) []

-- the loop of VisitAll
unfoldable pub bucket : List Flag → Groups → Groups
unfolding category members
bucket [] groups = groups
bucket (fl ∷ fls) groups =
    bucket fls (insert (category fl) (members (category fl) groups ++ fl ∷ []) groups)

-- the body of the loop over the groups, at the group `cat`, if the map still has it
unfoldable pub merge_found : String → Option (List Flag) → Groups → Groups
unfolding members
merge_found cat none groups = groups
merge_found cat (some fl) groups =
    if ltb (length fl) 2 && not (cat == ".")
    then delete cat (insert "." (members "." groups ++ fl) groups)
    else groups

unfoldable pub merge_group : String → Groups → Groups
unfolding merge_found
merge_group cat groups = merge_found cat (lookup cat groups) groups

-- the loop over the groups, in the order of the iteration over the map, which may or may not come to a
-- group "." that the loop itself makes
unfoldable pub merge_groups : List String → Groups → Groups
unfolding merge_group
merge_groups [] groups = groups
merge_groups (cat ∷ order) groups = merge_groups order (merge_group cat groups)

-- what usage hands to the template; `flags` is in the order of VisitAll, and `order` is that of the second
-- loop
unfoldable pub usage_groups : List String → List Flag → Groups
unfolding bucket merge_groups
usage_groups order flags = merge_groups order (bucket flags [])

unfoldable pub is_space : Char → Bool
is_space c = code c == b' '

-- a character before the first part
unfoldable pub before_first : Char → List String → List String
before_first c [] = String.◌∷◌ c "" ∷ []
before_first c (w ∷ ws) = String.◌∷◌ c w ∷ ws

-- strings.SplitAfter(s, " "), by what it documents
unfoldable pub split_after : String → List String
unfolding is_space before_first
split_after String.[] = "" ∷ []
split_after (String.◌∷◌ c s) =
    let rest = split_after s in if is_space c then String.◌∷◌ c "" ∷ rest else before_first c rest

-- strings.Repeat(" ", n)
unfoldable pub spaces : ℕ → String
spaces zero = ""
spaces (suc n) = str_append " " (spaces n)

-- the loop of wrap; the width is the one that it has after the subtraction
unfoldable pub wrap_loop : ℕ → ℕ → ℕ → String → List String → String
unfolding spaces
wrap_loop width indent len ns [] = ns
wrap_loop width indent len ns (w ∷ ws) =
    if ltb width (len + str_len w)
    then wrap_loop width indent (str_len w)
        (str_append (str_append ns (str_append "\n" (spaces indent))) w) ws
    else wrap_loop width indent (len + str_len w) (str_append ns w) ws

-- the template's function wrap; `trim_space` is strings.TrimSpace. The width of its only call is larger than
-- the indentation.
unfoldable pub wrap : (String → String) → ℕ → ℕ → String → String
unfolding split_after wrap_loop
wrap trim_space width indent s =
    trim_space (wrap_loop (width - indent) indent indent "" (split_after s))

-- the template's function quote; `quoted` is the verb %q, and `digit_first` says whether unicode.IsDigit holds of
-- the first byte
unfoldable pub quote_default : (String → String) → (String → Bool) → String → String
quote_default quoted digit_first s =
    if str_len s == 0 || s == "false" || s == "true" || digit_first s then s else quoted s
