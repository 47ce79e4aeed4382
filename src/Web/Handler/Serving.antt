-- ===== src/Web/Handler/Serving.antt =====
-- Which routes New of web/web.go registers, with the prefix that cmd/config.go leaves.
use Prim.Native.String.{String}
use promeproxy.Common.{
  string_eq, ◌≡◌, refl, ap, ◌∙◌, ◌⊎◌, inl, inr, Bool, true, false, ◌&&◌, Option, none, some, List,
  [], ◌∷◌, arith, if◌then◌else◌, ◌==◌, Bool-cases, str_append,
}
use promeproxy.Common.{string_eq, nat_eq}
use promeproxy.Web.Handlers.{
  Endpoint, options_of, query_of, query_range_of, label_values_of, series_of, drop_series_of,
  targets_of, alertmanagers_of, method_of, path_of,
}
use promeproxy.Web.Handler.{
  Options, Action, redirect, api, Route, under, endpoint_routes, api_routes, local_routes, routes,
}
use promeproxy.Web.Handler.Routes.{
  are_distinct, beq-append, longer_than_slash, routes-distinct, web_options,
}
use promeproxy.Cmd.Config.{Config, Outside, ParseError, parse}
use promeproxy.Cmd.Config.Laws.{IsNormal, IfParsed, parse-IsNormal}

-- what the first route with the path and the method does
abbrev pub found : String → String → List Route → Option Action
found method path [] = none
found method path (r ∷ rs) =
    if r.path == path && r.method == method then some r.action else found method path rs

-- a path below the prefix of the routes
abbrev pub mounted : String → String → String
mounted prefix path = if prefix == "/" then path else str_append prefix path

found-under :
    (method path p : String) (rs : List Route)
    → found method (str_append p path) (under p rs) ≡ found method path rs
unfolding under
found-under method path p [] = refl
found-under method path p (r ∷ rs) =
    rw (beq-append p r.path path, found-under method path p rs) refl

-- the path under which an endpoint of the API is registered, below the prefix
abbrev pub api_path : Endpoint → String
api_path e = str_append "/api/v1" (path_of e)

found-api :
    (join : String → String → String) (o : Options) (e : Endpoint)
    → found (method_of e) (api_path e) (local_routes join o) ≡ some (api e)
unfolding local_routes under api_routes endpoint_routes method_of path_of
found-api join o options_of = refl
found-api join o query_of = refl
found-api join o query_range_of = refl
found-api join o label_values_of = refl
found-api join o series_of = refl
found-api join o drop_series_of = refl
found-api join o targets_of = refl
found-api join o alertmanagers_of = refl

found-graph :
    (join : String → String → String) (o : Options) (method : String)
    → found method "/graph" (local_routes join o) ≡ none
unfolding local_routes under api_routes endpoint_routes method_of path_of
found-graph join o method = go o.enable_quit
  where
    go :
        (b : Bool) → found method "/graph" (local_routes join (record o { enable_quit = b })) ≡ none
    go true = refl
    go false = refl

slash-ne :
    (p path : String) → (path == "") ≡ false → ("/" == str_append (str_append "/" p) path) ≡ false
slash-ne p path n = ground (
  arith,
  longer_than_slash p path n,
  string_eq.beq_iff "/" (str_append (str_append "/" p) path),
  string_eq.beq_iff (str_append (str_append "/" p) path) "/",
)

-- what is found below the prefix is what is found among the routes without it
found-mounted :
    (join : String → String → String) (o : Options) (p method path : String)
    → o.route_prefix ≡ str_append "/" p
    → (path == "") ≡ false
    → found method (mounted o.route_prefix path) (routes join o)
      ≡ found method path (local_routes join o)
unfolding routes
found-mounted join o p method path e n = elim (Bool-cases (o.route_prefix == "/")) [
  | inl q ↦ rw (q) refl
  | inr q ↦ rw (q, other) (found-under method path o.route_prefix (local_routes join o))
]
  where
    other : ("/" == str_append o.route_prefix path) ≡ false
    other = ap (λ prefix. "/" == str_append prefix path) e ∙ slash-ne p path n

-- What New registers, by the paths as they are written: no path twice for a method; every endpoint of the API, at
-- its method and its path below the prefix; at the root below the prefix, the redirection to /graph under the
-- external path; and nothing at /graph below the prefix.
pub record Serves (join : String → String → String) (o : Options) : Type 0 where
  pub distinct : are_distinct (routes join o) ≡ true
  pub serves_api :
      (e : Endpoint)
      → found (method_of e) (mounted o.route_prefix (api_path e)) (routes join o) ≡ some (api e)
  pub redirects_root :
      found "GET" (mounted o.route_prefix "/") (routes join o)
      ≡ some (redirect (join o.external_path "/graph"))
  pub misses_graph :
      (method : String) → found method (mounted o.route_prefix "/graph") (routes join o) ≡ none

routes-Serves :
    (join : String → String → String) (o : Options) (p : String)
    → o.route_prefix ≡ str_append "/" p
    → Serves join o
unfolding local_routes path_of
routes-Serves join o p e = record {
  distinct = routes-distinct join o p e;
  serves_api = λ a.
      found-mounted join o p (method_of a) (api_path a) e (path_is_some a) ∙ found-api join o a;
  redirects_root = found-mounted join o p "GET" "/" e refl;
  misses_graph = λ m. found-mounted join o p m "/graph" e refl ∙ found-graph join o m;
}
  where
    path_is_some : (a : Endpoint) → (api_path a == "") ≡ false
    path_is_some options_of = refl
    path_is_some query_of = refl
    path_is_some query_range_of = refl
    path_is_some label_values_of = refl
    path_is_some series_of = refl
    path_is_some drop_series_of = refl
    path_is_some targets_of = refl
    path_is_some alertmanagers_of = refl

-- If parse succeeds, then New registers, below the prefix that parse leaves, no path twice for a method, as the
-- paths are written; every endpoint of the API at its method and its path below the prefix; at the root
-- below the prefix a redirection to /graph; and nothing at /graph. What the router makes of a path with wildcards
-- is not part of this.
pub parse-Serves :
    (out : Outside) (args : List String) (join : String → String → String) (enable_quit : Bool)
    → IfParsed (λ c. Serves join (web_options enable_quit c)) (parse out args)
parse-Serves out args join enable_quit = go (parse out args) (parse-IsNormal out args)
  where
    go :
        (r : ParseError ⊎ Config)
        → IfParsed (IsNormal out) r
        → IfParsed (λ c. Serves join (web_options enable_quit c)) r
    go (inl e) h = tt
    go (inr c) (valid, (p, e, trimmed), path) = routes-Serves join (web_options enable_quit c) p e
