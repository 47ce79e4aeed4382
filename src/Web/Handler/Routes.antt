-- ===== src/Web/Handler/Routes.antt =====
-- The routes that New of web/web.go registers, side by side.
use Prim.Native.String.{String}
use Prim.Native.String.append
use Prim.Native.String.compare
use text.Mathlib.Text.{is_eq}
use text.Mathlib.TextLemmas.{append_cancel_left}
use promeproxy.Common.{
  string_eq, ◌≡◌, refl, ap, ◌∙◌, inl, inr, Bool, true, false, not, ◌&&◌, ◌||◌, List, [], ◌∷◌, arith,
  ◌==◌, Bool-cases, str_append,
}
use promeproxy.Common.{string_eq, nat_eq}
use promeproxy.Web.Handlers.{method_of, path_of}
use promeproxy.Web.Handler.{
  Options, Route, under, endpoint_routes, api_routes, local_routes, routes,
}
use promeproxy.Cmd.Config.{Config}
use promeproxy.Cmd.Config.Laws.{slash-append}

-- a route has the method and the path
abbrev pub is_registered : String → String → List Route → Bool
is_registered method path [] = false
is_registered method path (r ∷ rs) =
    (r.method == method && r.path == path) || is_registered method path rs

-- No method has the same path twice, as the paths are written.
abbrev pub are_distinct : List Route → Bool
are_distinct [] = true
are_distinct (r ∷ rs) = not (is_registered r.method r.path rs) && are_distinct rs

pub beq-append : (p s t : String) → (str_append p s == str_append p t) ≡ (s == t)
beq-append p s t = elim (Bool-cases (s == t)) [
  | inl e ↦ rw (e) (
      (string_eq.beq_iff (str_append p s) (str_append p t)).1
        (ap (str_append p) ((string_eq.beq_iff s t).0 e)))
  | inr e ↦ ground (
    arith,
    append_cancel_left p s t,
    string_eq.beq_iff s t,
    string_eq.beq_iff (str_append p s) (str_append p t),
  )
]

is_registered-under :
    (method path p : String) (rs : List Route)
    → is_registered method (str_append p path) (under p rs) ≡ is_registered method path rs
unfolding under
is_registered-under method path p [] = refl
is_registered-under method path p (r ∷ rs) =
    rw (beq-append p r.path path, is_registered-under method path p rs) refl

are_distinct-under : (p : String) (rs : List Route) → are_distinct (under p rs) ≡ are_distinct rs
unfolding under
are_distinct-under p [] = refl
are_distinct-under p (r ∷ rs) =
    rw (is_registered-under r.method r.path p rs, are_distinct-under p rs) refl

local_routes-distinct :
    (join : String → String → String) (o : Options) → are_distinct (local_routes join o) ≡ true
unfolding local_routes under api_routes endpoint_routes method_of path_of
local_routes-distinct join o = go o.enable_quit
  where
    go : (b : Bool) → are_distinct (local_routes join (record o { enable_quit = b })) ≡ true
    go true = refl
    go false = refl

-- no path is empty
abbrev have_paths : List Route → Bool
have_paths [] = true
have_paths (r ∷ rs) = not (r.path == "") && have_paths rs

local_routes-have_paths :
    (join : String → String → String) (o : Options) → have_paths (local_routes join o) ≡ true
unfolding local_routes under api_routes endpoint_routes path_of
local_routes-have_paths join o = go o.enable_quit
  where
    go : (b : Bool) → have_paths (local_routes join (record o { enable_quit = b })) ≡ true
    go true = refl
    go false = refl

append_is_some : (s t : String) → (t == "") ≡ false → (str_append s t == "") ≡ false
append_is_some String.[] t n = ap (λ u. u == "") (append.nil t) ∙ n
append_is_some (String.◌∷◌ c s) t n =
    ap (λ u. u == "") (append.cons c s t) ∙ ap is_eq (λ i. compare.cons-nil c (str_append s t) i)

-- a text after a slash and then others is longer than a slash
pub longer_than_slash :
    (s t : String) → (t == "") ≡ false → (str_append (str_append "/" s) t == "/") ≡ false
longer_than_slash s t n =
    ap (λ u. u == "/") (ap (λ u. str_append u t) (slash-append s) ∙ append.cons "/" s t)
    ∙ ap is_eq (λ i. compare.cons-cons "/" "/" (str_append s t) "" i)
    ∙ append_is_some s t n

root-under :
    (method p : String) (rs : List Route)
    → have_paths rs ≡ true
    → is_registered method "/" (under (str_append "/" p) rs) ≡ false
unfolding under
root-under method p [] h = refl
root-under method p (r ∷ rs) h =
    let (path, rest) : ((r.path == "") ≡ false) × (have_paths rs ≡ true) = ground arith in
    rw (longer_than_slash p r.path path, root-under method p rs rest) (ground arith)

-- Whatever the options are, if the prefix starts with a slash, New registers no path, as it is written, twice for
-- a method.
pub routes-distinct :
    (join : String → String → String) (o : Options) (p : String)
    → o.route_prefix ≡ str_append "/" p
    → are_distinct (routes join o) ≡ true
unfolding routes
routes-distinct join o p e = elim (Bool-cases (o.route_prefix == "/")) [
  | inl q ↦ rw (q) (local_routes-distinct join o)
  | inr q ↦
      rw (q, are_distinct-under o.route_prefix (local_routes join o), local_routes-distinct join o)
        (ap (λ b. not b && true) root)
]
  where
    root : is_registered "GET" "/" (under o.route_prefix (local_routes join o)) ≡ false
    root =
        ap (λ prefix. is_registered "GET" "/" (under prefix (local_routes join o))) e
        ∙ root-under "GET" p (local_routes join o) (local_routes-have_paths join o)

-- the options of the web handler that the flags decide
abbrev pub web_options : Bool → Config → Options
web_options enable_quit c = record {
  route_prefix = c.flags.route_prefix;
  external_path = c.external_path;
  enable_quit = enable_quit;
}
