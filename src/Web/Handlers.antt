-- ===== src/Web/Handlers.antt =====
-- The handlers of web/api/v1/api.go: the routes of Register, series, dropSeries, targets and alertmanagers, with
-- the types of web/api/v1/types.go. Web.Reply has what is written to the client.
pub mod Laws
pub mod Proxied
pub mod Replies
use mathlib.Core.Option
use promeproxy.Common.{
  string_eq, nat_eq, ℕ, String, Bool, true, false, Option, none, some, List, [], ◌∷◌, ◌++◌, map,
  if◌then◌else◌, ◌==◌, length, ℤ, has,
}
use promeproxy.Model.{LabelSet}
use promeproxy.Web.Api.{
  error_bad_data, Response, api_error, success, RangeRequest, query_range, InstantRequest,
  instant_query, drop_series, label_values, get_prom_targets,
}
use promeproxy.Web.Proxy.{Request, proxy_req}
use promeproxy.Retrieval.Target.{TargetHealth}

-- Target of types.go, as a Prometheus server tells about it.
pub record TargetInfo : Type 0 where
  pub discovered_labels : LabelSet
  pub labels : LabelSet
  pub scrape_url : String
  pub last_error : String
  pub last_scrape : ℤ
  pub health : TargetHealth

-- AlertmanagerTarget
pub record AlertmanagerTarget : Type 0 where
  pub url : String

-- What a handler returns without an error; `R` stands for the results of queries.
pub data Payload (R : Type 0) : Type 0 where
  query_data : R → Payload R
  values_data : List String → Payload R
  metrics_data : List LabelSet → Payload R
  deleted_data : ℕ → Payload R
  targets_data : List TargetInfo → Payload R
  alertmanagers_data : List AlertmanagerTarget → Payload R

-- API, with what it uses of other code: the public labels of the target manager's targets, the order in
-- which the goroutines for the servers come to append their answers, a permutation, the turns that they take
-- then, by their numbers in that order, the HTTP client,
-- the tests of names and selectors, parseTime, sort.Sort, and json.Unmarshal of a body `B` into each type.
-- Where a body is no JSON, the value that it leaves: nil for the pointer of labelValues, else empty.
pub record Api (B : Type 0) : Type 0 where
  pub known_targets : List LabelSet
  pub order : List String → List String
  pub schedule : List ℕ
  pub send : Request → Option B
  pub valid_name : String → Bool
  pub valid_selector : String → Bool
  pub parse_time : String → Option ℤ
  pub sort : List String → List String
  pub decode_values : B → Option (List String)
  pub decode_series : B → List LabelSet
  pub decode_deleted : B → ℕ
  pub decode_targets : B → List TargetInfo
  pub decode_alertmanagers : B → List AlertmanagerTarget

-- The routes that Register adds.
pub data Endpoint : Type 0 where
  options_of query_of query_range_of label_values_of series_of drop_series_of targets_of : Endpoint
  alertmanagers_of : Endpoint

-- the method under which a route is registered
unfoldable pub method_of : Endpoint → String
method_of options_of = "OPTIONS"
method_of query_of = "GET"
method_of query_range_of = "GET"
method_of label_values_of = "GET"
method_of series_of = "GET"
method_of drop_series_of = "DELETE"
method_of targets_of = "GET"
method_of alertmanagers_of = "GET"

-- the path under which a route is registered, below the API's prefix
unfoldable pub path_of : Endpoint → String
path_of options_of = "/*path"
path_of query_of = "/query"
path_of query_range_of = "/query_range"
path_of label_values_of = "/label/:name/values"
path_of series_of = "/series"
path_of drop_series_of = "/series"
path_of targets_of = "/targets"
path_of alertmanagers_of = "/alertmanagers"

-- A request: its route, its RequestURI, the name in its path, and its form.
pub record ApiRequest (R : Type 0) : Type 0 where
  pub endpoint : Endpoint
  pub uri : String
  pub name : String
  pub selectors : List String
  pub start : String
  pub end : String
  pub instant : InstantRequest R
  pub range : RangeRequest R

-- a time of the form, which may be missing
unfoldable pub time_accepted : (String → Option ℤ) → String → Bool
time_accepted parse_time t = if t == "" then true else has (parse_time t)

-- the loop over the selectors
unfoldable pub selectors_accepted : (String → Bool) → List String → Bool
selectors_accepted valid [] = true
selectors_accepted valid (s ∷ ss) =
    let rest = selectors_accepted valid ss in if valid s then rest else false

-- the loops that append what each body holds
unfoldable pub gather : {B X : Type 0} → (B → List X) → List B → List X
gather decode [] = []
gather decode (body ∷ bodys) = decode body ++ gather decode bodys

-- a response with its data as the API's
unfoldable pub payload :
    {R X : Type 0} → (X → Payload R) → Response X → Response (Option (Payload R))
payload as_data (api_error e) = api_error e
payload as_data (success x) = success (some (as_data x))

-- a handler that only joins the answers
unfoldable pub joined :
    {B R X : Type 0}
    → (B → List X)
    → (List X → Payload R)
    → Option (List B)
    → Option (Response (Option (Payload R)))
unfolding gather
joined decode as_data bodys = Option.map (λ bs. success (some (as_data (gather decode bs)))) bodys

-- the servers in the order of their answers
abbrev pub answering : {B : Type 0} → Api B → List String
answering api = api.order (get_prom_targets api.known_targets)

module _ {B R : Type 0} where
  -- the bodies of the servers, or none where a request fails and the process panics
  unfoldable pub proxied : Api B → ApiRequest R → Option (List B)
  unfolding proxy_req get_prom_targets
  proxied api r = proxy_req api.send api.schedule r.uri (answering api)

  -- the checks of series, in order
  unfoldable pub series_accepted : Api B → ApiRequest R → Bool
  unfolding time_accepted selectors_accepted
  series_accepted api r =
      if length r.selectors == 0
      then false
      else if time_accepted api.parse_time r.start
      then if time_accepted api.parse_time r.end
        then selectors_accepted api.valid_selector r.selectors
        else false
      else false

  -- series after its checks
  unfoldable pub series_joined : Api B → Option (List B) → Option (Response (Option (Payload R)))
  unfolding gather
  series_joined api bodys =
      Option.map (λ bs. success (some (metrics_data (gather api.decode_series bs)))) bodys

  -- series
  unfoldable pub series : Api B → ApiRequest R → Option (Response (Option (Payload R)))
  unfolding series_accepted proxied series_joined
  series api r =
      if series_accepted api r
      then series_joined api (proxied api r)
      else some (api_error error_bad_data)

  -- labelValues after its check, with the bodys of the answers
  unfoldable pub values_joined :
      Api B → String → Option (List B) → Option (Response (Option (Payload R)))
  unfolding label_values payload
  values_joined api name none = none
  values_joined api name (some bodys) =
      Option.map (payload (λ vs. values_data vs))
        (label_values api.valid_name api.sort name (map api.decode_values bodys))

  -- labelValues
  unfoldable pub values_handler : Api B → ApiRequest R → Option (Response (Option (Payload R)))
  unfolding proxied values_joined
  values_handler api r =
      if api.valid_name r.name
      then values_joined api r.name (proxied api r)
      else some (api_error error_bad_data)

  -- dropSeries after its check
  unfoldable pub deleted_joined :
      Api B → List String → Option (List B) → Option (Response (Option (Payload R)))
  unfolding drop_series payload
  deleted_joined api selectors bodys =
      Option.map
        (λ bs. payload (λ n. deleted_data n) (drop_series selectors (map api.decode_deleted bs)))
        bodys

  -- dropSeries
  unfoldable pub drop_handler : Api B → ApiRequest R → Option (Response (Option (Payload R)))
  unfolding proxied deleted_joined
  drop_handler api r =
      if length r.selectors == 0
      then some (api_error error_bad_data)
      else deleted_joined api r.selectors (proxied api r)

  -- The handler of each route; none for a panic.
  unfoldable pub handle : Api B → ApiRequest R → Option (Response (Option (Payload R)))
  unfolding instant_query query_range payload values_handler series drop_handler joined proxied
  handle api r = elim r.endpoint [
    | options_of ↦ some (success none)
    | query_of ↦ some (payload (λ x. query_data x) (instant_query r.instant))
    | query_range_of ↦ some (payload (λ x. query_data x) (query_range r.range))
    | label_values_of ↦ values_handler api r
    | series_of ↦ series api r
    | drop_series_of ↦ drop_handler api r
    | targets_of ↦ joined api.decode_targets (λ ts. targets_data ts) (proxied api r)
    | alertmanagers_of ↦
        joined api.decode_alertmanagers (λ ams. alertmanagers_data ams) (proxied api r)
  ]
