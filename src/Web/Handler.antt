-- ===== src/Web/Handler.antt =====
-- The Handler of web/web.go: its ApplyConfig, the routes that New registers, and quit.
pub mod Routes
pub mod Serving
use promeproxy.Common.{
  string_eq, ℕ, String, ◌⊎◌, inl, inr, Bool, true, Option, none, some, List, [], ◌∷◌, ◌++◌,
  if◌then◌else◌, ◌==◌, str_append,
}
use promeproxy.Model.{LabelSet}
use promeproxy.Web.Handlers.{
  Endpoint, options_of, query_of, query_range_of, label_values_of, series_of, drop_series_of,
  targets_of, alertmanagers_of, method_of, path_of,
}
use promeproxy.Web.Reply.{serve}

-- Handler, as far as it changes: the channel quitCh is open until it is closed
pub record Handler : Type 0 where
  pub external_labels : LabelSet
  pub config_string : String
  pub quit_closed : Bool

-- Handler.ApplyConfig, whose error is always nil, with the global external labels and the configuration's text
unfoldable pub apply_config : LabelSet → String → Handler → Handler
apply_config labels text h = record h { external_labels = labels; config_string = text }

-- Handler.quit; none for the panic of closing a channel that is closed
unfoldable pub quit : Handler → Option Handler
quit h = if h.quit_closed then none else some (record h { quit_closed = true })

-- Handler.Run: the error that it sends on listenErrCh. `listen` is net.Listen for TCP, `limit` is
-- netutil.LimitListener, and `serve` is Serve of the server, which always returns an error.
unfoldable pub run_server :
    {L E : Type 0} → (String → L ⊎ E) → (L → ℕ → L) → (L → E) → String → ℕ → E
run_server listen limit serve address max_connections = elim (listen address) [
  | inr err ↦ err
  | inl listener ↦ serve (limit listener max_connections)
]

-- the end of Handler.reload, once the reload that it asked for has answered: the status and the message that
-- http.Error gets, or nothing
unfoldable pub reload_reply : Option String → Option (ℕ × String)
reload_reply none = none
reload_reply (some err) = some (500, str_append "failed to reload config: " err)

-- Options, as far as New reads them for its routes
pub record Options : Type 0 where
  pub route_prefix : String
  pub external_path : String
  pub enable_quit : Bool

-- What a route does.
pub data Action : Type 0 where
  redirect : String → Action
  api : Endpoint → Action
  quits reloads not_allowed : Action

-- A route: its method, its path and what it does.
pub record Route : Type 0 where
  pub method : String
  pub path : String
  pub action : Action

-- what router.WithPrefix does to the routes that are registered with it
unfoldable pub under : String → List Route → List Route
under prefix [] = []
under prefix (r ∷ rs) = record r { path = str_append prefix r.path } ∷ under prefix rs

unfoldable pub endpoint_routes : List Endpoint → List Route
unfolding method_of path_of
endpoint_routes [] = []
endpoint_routes (e ∷ es) =
    record { method = method_of e; path = path_of e; action = api e } ∷ endpoint_routes es

-- the routes of API.Register, in order
unfoldable pub api_routes : List Route
unfolding endpoint_routes
api_routes = endpoint_routes (
    options_of ∷ query_of ∷ query_range_of ∷ label_values_of ∷ series_of ∷ drop_series_of
    ∷ targets_of ∷ alertmanagers_of ∷ [])

-- the routes that New registers below the prefix; `join` is path.Join
unfoldable pub local_routes : (String → String → String) → Options → List Route
unfolding under api_routes
local_routes join o =
    record { method = "GET"; path = "/"; action = redirect (join o.external_path "/graph") }
      ∷ under "/api/v1" api_routes
    ++ (if o.enable_quit
        then record { method = "POST"; path = "/-/quit"; action = quits } ∷ []
        else [])
    ++ record { method = "POST"; path = "/-/reload"; action = reloads }
      ∷ record { method = "GET"; path = "/-/reload"; action = not_allowed }
      ∷ []

-- the routes of New, in order
unfoldable pub routes : (String → String → String) → Options → List Route
unfolding local_routes under
routes join o =
    if o.route_prefix == "/"
    then local_routes join o
    else record { method = "GET"; path = "/"; action = redirect o.route_prefix }
      ∷ under o.route_prefix (local_routes join o)
