-- ===== src/Cmd/Unused.antt =====
-- Flags of cmd/config.go that are kept without use: unusedFlag and registerUnusedFlags.
use promeproxy.Common.{
  String, ◌≡◌, refl, inl, inr, List, [], ◌∷◌, map, if◌then◌else◌, ◌==◌, Bool-cases,
}
use promeproxy.Common.{string_eq}

-- unusedFlag
pub record UnusedFlag : Type 0 where
  pub name : String
  pub value : String
  pub help : String

-- unusedFlag.Set, whose error is always nil; the warning goes to the log
unfoldable pub set_flag : String → UnusedFlag → UnusedFlag
set_flag v f = record f { value = v }

-- unusedFlag.String
unfoldable pub flag_string : UnusedFlag → String
flag_string f = f.value

-- registerUnusedFlags: the flags that it adds to the set of flags, in order
unfoldable pub register_unused_flags : String → List String → List UnusedFlag
register_unused_flags help [] = []
register_unused_flags help (name ∷ names) =
    record { name = name; value = ""; help = help } ∷ register_unused_flags help names

-- the settings of the flags with a name, in order
unfoldable pub set_named : String → String → List UnusedFlag → List UnusedFlag
unfolding set_flag
set_named name v [] = []
set_named name v (f ∷ fs) =
    let rest = set_named name v fs in if f.name == name then set_flag v f ∷ rest else f ∷ rest

-- the texts of the flags
abbrev pub texts : List UnusedFlag → List String
texts [] = []
texts (f ∷ fs) = flag_string f ∷ texts fs

-- Of the flags that are registered, those with a name tell the value that was set, and the others the empty text.
pub texts-set_named :
    (help name v : String) (names : List String)
    → texts (set_named name v (register_unused_flags help names))
      ≡ map (λ n. if n == name then v else "") names
unfolding flag_string set_named set_flag register_unused_flags
texts-set_named help name v [] = refl
texts-set_named help name v (n ∷ names) = elim (Bool-cases (n == name)) [
  | inl e ↦ rw (e, texts-set_named help name v names) refl
  | inr e ↦ rw (e, texts-set_named help name v names) refl
]
