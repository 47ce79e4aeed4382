-- ===== src/Cmd/Config/Laws.antt =====
-- parse of cmd/config.go: the prefix of the routes and the external path, and how parse fails.
use Prim.Native.Char.{Char}
use Prim.Native.String.{String}
use Prim.Native.String.append
use mathlib.Core.Bool.{false≢true}
use promeproxy.Common.{
  string_eq, nat_eq, ◌≡◌, refl, sym, ap, ◌∙◌, ◌≢◌, ◌⊎◌, inl, inr, Bool, true, false, Option, none,
  some, List, [], ◌∷◌, if◌then◌else◌, ◌==◌, Bool-cases, Option-cases, str_append,
}
use promeproxy.Cmd.Config.{
  Flags, default_flags, Config, Outside, ParseError, is_slash, trim_left, cons_unless_last,
  trim_right, trim, starts_with_slash, external_path_of, derived_url, check_url,
  parse_prometheus_url, normal_prefix, with_prefix, parse_rest, parse,
}

-- the last character is a slash
abbrev pub ends_with_slash : String → Bool
ends_with_slash String.[] = false
ends_with_slash (String.◌∷◌ c String.[]) = is_slash c
ends_with_slash (String.◌∷◌ c (String.◌∷◌ d s)) = ends_with_slash (String.◌∷◌ d s)

-- no slash at either end
abbrev pub IsTrimmed : String → Type 0
IsTrimmed s = (starts_with_slash s ≡ false) × (ends_with_slash s ≡ false)

-- a path to put before others: nothing, or a path that starts with a slash and does not end with one
abbrev pub IsPathPrefix : String → Type 0
IsPathPrefix s = (s ≡ "") ⊎ ((starts_with_slash s ≡ true) × (ends_with_slash s ≡ false))

-- what parsePrometheusURL leaves
abbrev pub Checked : Outside → Config → Type 0
Checked o c = (o.is_url c.flags.prometheus_url ≡ true) × IsPathPrefix c.external_path

-- cfg as the web handler relies on it
abbrev pub IsNormal : Outside → Config → Type 0
IsNormal o c =
    (o.is_url c.flags.prometheus_url ≡ true)
    × ((p : String) × (c.flags.route_prefix ≡ str_append "/" p) × IsTrimmed p)
    × IsPathPrefix c.external_path

-- a predicate of the result, if there is one
abbrev pub IfParsed : (Config → Type 0) → ParseError ⊎ Config → Type 0
IfParsed p (inl e) = Unit
IfParsed p (inr c) = p c

cons_unless_last-ends :
    (c : Char) (s : String)
    → ends_with_slash s ≡ false
    → ends_with_slash (cons_unless_last c s) ≡ false
unfolding cons_unless_last
cons_unless_last-ends c String.[] h = elim (Bool-cases (is_slash c)) [
  | inl e ↦ rw (e) refl
  | inr e ↦ rw (e) e
]
cons_unless_last-ends c (String.◌∷◌ d s) h = h

trim_right-ends : (s : String) → ends_with_slash (trim_right s) ≡ false
unfolding trim_right
trim_right-ends String.[] = refl
trim_right-ends (String.◌∷◌ c s) = cons_unless_last-ends c (trim_right s) (trim_right-ends s)

cons_unless_last-starts :
    (c : Char) (s : String) → is_slash c ≡ false → starts_with_slash (cons_unless_last c s) ≡ false
unfolding cons_unless_last starts_with_slash
cons_unless_last-starts c String.[] h = rw (h) h
cons_unless_last-starts c (String.◌∷◌ d s) h = h

trim_right-starts :
    (s : String) → starts_with_slash s ≡ false → starts_with_slash (trim_right s) ≡ false
unfolding trim_right starts_with_slash
trim_right-starts String.[] h = refl
trim_right-starts (String.◌∷◌ c s) h = cons_unless_last-starts c (trim_right s) h

trim_left-starts : (s : String) → starts_with_slash (trim_left s) ≡ false
unfolding trim_left starts_with_slash
trim_left-starts String.[] = refl
trim_left-starts (String.◌∷◌ c s) = elim (Bool-cases (is_slash c)) [
  | inl e ↦ rw (e) (trim_left-starts s)
  | inr e ↦ rw (e) e
]

pub trim-IsTrimmed : (s : String) → IsTrimmed (trim s)
unfolding trim
trim-IsTrimmed s =
    (trim_right-starts (trim_left s) (trim_left-starts s), trim_right-ends (trim_left s))

trim_left-id : (s : String) → starts_with_slash s ≡ false → trim_left s ≡ s
unfolding trim_left starts_with_slash
trim_left-id String.[] h = refl
trim_left-id (String.◌∷◌ c s) h = rw (h) refl

cons_unless_last-id :
    (c : Char) (s : String)
    → ends_with_slash (String.◌∷◌ c s) ≡ false
    → cons_unless_last c s ≡ String.◌∷◌ c s
unfolding cons_unless_last
cons_unless_last-id c String.[] h = rw (h) refl
cons_unless_last-id c (String.◌∷◌ d s) h = refl

ends_with_slash-tail :
    (c : Char) (s : String) → ends_with_slash (String.◌∷◌ c s) ≡ false → ends_with_slash s ≡ false
ends_with_slash-tail c String.[] h = refl
ends_with_slash-tail c (String.◌∷◌ d s) h = h

trim_right-id : (s : String) → ends_with_slash s ≡ false → trim_right s ≡ s
unfolding trim_right
trim_right-id String.[] h = refl
trim_right-id (String.◌∷◌ c s) h =
    rw (trim_right-id s (ends_with_slash-tail c s h)) (cons_unless_last-id c s h)

pub slash-append : (p : String) → str_append "/" p ≡ String.◌∷◌ "/" p
slash-append p = append.cons "/" "" p ∙ ap (λ t. String.◌∷◌ "/" t) (append.nil p)

trim-slash : (p : String) → IsTrimmed p → trim (str_append "/" p) ≡ p
unfolding trim trim_left is_slash
trim-slash p (hs, he) =
    ap trim (slash-append p) ∙ ap trim_right (trim_left-id p hs) ∙ trim_right-id p he

-- a text that starts with a slash is not empty
slash_is_some : (p : String) → (str_append "/" p == "") ≡ false
unfolding starts_with_slash is_slash
slash_is_some p = rw (slash-append p) (elim (Bool-cases (String.◌∷◌ "/" p == "")) [
  | inl e ↦
      absurd
        (false≢true (ap starts_with_slash (sym ((string_eq.beq_iff (String.◌∷◌ "/" p) "").0 e))))
  | inr e ↦ e
])

-- Normalising a prefix a second time, with whatever external path, changes nothing.
pub normal_prefix_idem :
    (flag path path' : String)
    → normal_prefix (normal_prefix flag path) path' ≡ normal_prefix flag path
unfolding normal_prefix
normal_prefix_idem flag path path' =
    let s = if flag == "" then path else flag in
    rw (slash_is_some (trim s)) (ap (str_append "/") (trim-slash (trim s) (trim-IsTrimmed s)))

slashed-IsPathPrefix :
    (s : String) → s ≢ "" → ends_with_slash s ≡ false → IsPathPrefix (str_append "/" s)
unfolding starts_with_slash is_slash
slashed-IsPathPrefix String.[] h e = absurd (h refl)
slashed-IsPathPrefix (String.◌∷◌ c s) h e = rw (slash-append (String.◌∷◌ c s)) (inr (refl, e))

external_path_of-IsPathPrefix : (path : String) → IsPathPrefix (external_path_of path)
unfolding external_path_of
external_path_of-IsPathPrefix path =
    let s = trim_right path in
    elim (Bool-cases (s == "")) [
      | inl e ↦ rw (e) (inl ((string_eq.beq_iff s "").0 e))
      | inr e ↦ elim (Bool-cases (starts_with_slash s)) [
        | inl h ↦ rw (e, h) (inr (h, trim_right-ends path))
        | inr h ↦
            rw (e, h)
              (slashed-IsPathPrefix s (λ z. false≢true (sym e ∙ (string_eq.beq_iff s "").1 z))
                (trim_right-ends path))
      ]
    ]

check_url-IsNormal : (o : Outside) (flags : Flags) → IfParsed (Checked o) (check_url o flags)
unfolding check_url
check_url-IsNormal o flags = elim (Bool-cases (o.is_url flags.prometheus_url)) [
  | inr e ↦ rw (e) tt
  | inl e ↦ elim (Option-cases (o.url_path flags.prometheus_url)) [
    | inl u ↦ rw (e, u) tt
    | inr (path, u) ↦ rw (e, u) (e, external_path_of-IsPathPrefix path)
  ]
]

parse_prometheus_url-Checked :
    (o : Outside) (flags : Flags) → IfParsed (Checked o) (parse_prometheus_url o flags)
unfolding parse_prometheus_url
parse_prometheus_url-Checked o flags = elim (Bool-cases (flags.prometheus_url == "")) [
  | inr e ↦ rw (e) (check_url-IsNormal o flags)
  | inl e ↦ elim (Option-cases o.hostname) [
    | inl h ↦ rw (e, h) tt
    | inr (host, h) ↦ elim (Option-cases (o.split_port flags.listen_address)) [
      | inl q ↦ rw (e, h, q) tt
      | inr (port, q) ↦
          rw (e, h, q)
            (check_url-IsNormal o (record flags { prometheus_url = derived_url host port }))
    ]
  ]
]

with_prefix-IsNormal :
    (o : Outside) (r : ParseError ⊎ Config)
    → IfParsed (Checked o) r
    → IfParsed (IsNormal o) (with_prefix r)
unfolding with_prefix
with_prefix-IsNormal o (inl e) h = tt
with_prefix-IsNormal o (inr c) (valid, path) =
    let s = if c.flags.route_prefix == "" then c.external_path else c.flags.route_prefix in
    (valid, (trim s, refl, trim-IsTrimmed s), path)

parse_rest-IsNormal :
    (o : Outside) (r : Option (Flags × List String)) → IfParsed (IsNormal o) (parse_rest o r)
unfolding parse_rest
parse_rest-IsNormal o none = tt
parse_rest-IsNormal o (some (flags, arg ∷ rest)) = tt
parse_rest-IsNormal o (some (flags, [])) =
    with_prefix-IsNormal o (parse_prometheus_url o flags) (parse_prometheus_url-Checked o flags)

-- Whatever the flags are, if parse succeeds the URL is valid, the prefix of the routes is a slash and a text
-- without a slash at either end, and the external path is empty or starts with a slash and does not end
-- with one.
pub parse-IsNormal : (o : Outside) (args : List String) → IfParsed (IsNormal o) (parse o args)
unfolding parse
parse-IsNormal o args = parse_rest-IsNormal o (o.parse_flags args (default_flags o.staleness_delta))
