-- ===== src/Web/Handlers/Proxied.antt =====
-- web/api/v1/api.go: how an API request depends on the Prometheus servers that it is sent on to.
use mathlib.Core.Option
use promeproxy.Common.{
  string_eq, nat_eq, ◌≡◌, refl, ap, ◌⊎◌, inl, inr, Option, none, some, if◌then◌else◌, ◌==◌,
  Bool-cases, length,
}
use promeproxy.Web.Api.{error_bad_data, api_error}
use promeproxy.Web.Proxy.{Request}
use promeproxy.Web.Handlers.{
  targets_data, alertmanagers_data, Api, Endpoint, options_of, query_of, query_range_of,
  label_values_of, series_of, drop_series_of, targets_of, alertmanagers_of, ApiRequest, joined,
  answering, proxied, series_accepted, series_joined, values_joined, deleted_joined, handle,
}
use promeproxy.Web.Reply.{cors_headers, respond_error, instr, serve}
use promeproxy.Web.Proxy.Laws.{AnyFails, proxy_req-none, proxy_req-gets}

-- the API with another network
abbrev pub with_send : {B : Type 0} → Api B → (Request → Option B) → Api B
with_send api send = record api { send = send }

-- the routes whose handler asks the servers
abbrev pub AsksServers : Endpoint → Type 0
AsksServers options_of = ⊥
AsksServers query_of = ⊥
AsksServers query_range_of = ⊥
AsksServers label_values_of = Unit
AsksServers series_of = Unit
AsksServers drop_series_of = Unit
AsksServers targets_of = Unit
AsksServers alertmanagers_of = Unit

module _ {B R : Type 0} where
  handle-gets :
      (api : Api B) (send send' : Request → Option B) (r : ApiRequest R) (e : Endpoint)
      → proxied (with_send api send) r ≡ proxied (with_send api send') r
      → handle (with_send api send) (record r { endpoint = e })
        ≡ handle (with_send api send') (record r { endpoint = e })
  unfolding handle
  handle-gets api send send' r options_of p = refl
  handle-gets api send send' r query_of p = refl
  handle-gets api send send' r query_range_of p = refl
  handle-gets api send send' r label_values_of p =
      ap
        (λ b.
          if api.valid_name r.name
          then values_joined api r.name b
          else some (api_error error_bad_data))
        p
  handle-gets api send send' r series_of p =
      ap
        (λ b.
          if series_accepted api r then series_joined api b else some (api_error error_bad_data))
        p
  handle-gets api send send' r drop_series_of p =
      ap
        (λ b.
          if length r.selectors == 0
          then some (api_error error_bad_data)
          else deleted_joined api r.selectors b)
        p
  handle-gets api send send' r targets_of p =
      ap (joined api.decode_targets (λ ts. targets_data ts)) p
  handle-gets api send send' r alertmanagers_of p =
      ap (joined api.decode_alertmanagers (λ ams. alertmanagers_data ams)) p

  -- Every request to the servers is a GET, on each route: networks that answer alike to GET give the
  -- same reply.
  pub serve-gets :
      (api : Api B) (send send' : Request → Option B)
      → ((q : Request) → q.method ≡ "GET" → send q ≡ send' q)
      → (r : ApiRequest R) → serve (with_send api send) r ≡ serve (with_send api send') r
  unfolding serve proxied
  serve-gets api send send' h r = ap (Option.map instr) (
      handle-gets api send send' r r.endpoint
        (proxy_req-gets send send' h api.schedule r.uri (answering api)))

  -- no answers are collected if a server cannot be reached
  proxied-none :
      (api : Api B) (r : ApiRequest R)
      → AnyFails api.send r.uri (answering api)
      → proxied api r ≡ none
  unfolding proxied
  proxied-none api r h = proxy_req-none api.send api.schedule r.uri (answering api) h

  handle-none :
      (api : Api B) (r : ApiRequest R) (e : Endpoint)
      → AsksServers e
      → proxied api r ≡ none
      → (handle api (record r { endpoint = e }) ≡ none)
        ⊎ (handle api (record r { endpoint = e }) ≡ some (api_error error_bad_data))
  unfolding handle
  handle-none api r options_of a p = elim a [ ]
  handle-none api r query_of a p = elim a [ ]
  handle-none api r query_range_of a p = elim a [ ]
  handle-none api r label_values_of a p = elim (Bool-cases (api.valid_name r.name)) [
    | inl e ↦ inl (rw (e, p) refl)
    | inr e ↦ inr (rw (e) refl)
  ]
  handle-none api r series_of a p = elim (Bool-cases (series_accepted api r)) [
    | inl e ↦ inl (rw (e, p) refl)
    | inr e ↦ inr (rw (e) refl)
  ]
  handle-none api r drop_series_of a p = elim (Bool-cases (length r.selectors == 0)) [
    | inl e ↦ inr (rw (e) refl)
    | inr e ↦ inl (rw (e, p) refl)
  ]
  handle-none api r targets_of a p = inl (ap (joined api.decode_targets (λ ts. targets_data ts)) p)
  handle-none api r alertmanagers_of a p =
      inl (ap (joined api.decode_alertmanagers (λ ams. alertmanagers_data ams)) p)

  -- If one of the servers cannot be reached, a request that asks them, on any route, ends the process by a panic
  -- or is refused before for its form with status 400; none is answered with the others' data.
  pub serve-panics :
      (api : Api B) (r : ApiRequest R)
      → AsksServers r.endpoint
      → AnyFails api.send r.uri (answering api)
      → (serve api r ≡ none) ⊎ (serve api r ≡ some (respond_error cors_headers error_bad_data))
  unfolding serve
  serve-panics api r a h = elim (handle-none api r r.endpoint a (proxied-none api r h)) [
    | inl e ↦ inl (ap (Option.map instr) e)
    | inr e ↦ inr (ap (Option.map instr) e)
  ]
