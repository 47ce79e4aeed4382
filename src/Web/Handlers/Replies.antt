-- ===== src/Web/Handlers/Replies.antt =====
-- The shape of the replies of web/api/v1/api.go.
use mathlib.Core.Option
use promeproxy.Common.{
  string_eq, nat_eq, ◌≤◌, String, ◌≡◌, refl, ◌⊎◌, inl, inr, Bool, true, false, Option, none, some,
  List, [], ◌∷◌, ◌++◌, map, arith, if◌then◌else◌, ◌==◌, length, has,
}
use promeproxy.Web.Api.{
  ErrorType, error_timeout, error_canceled, error_exec, error_bad_data, error_internal, status_code,
  Response, api_error, success, query_range, instant_query, drop_series, label_values,
}
use promeproxy.Web.Handlers.{
  Payload, query_data, values_data, metrics_data, deleted_data, targets_data, alertmanagers_data,
  Api, Endpoint, options_of, query_of, query_range_of, label_values_of, series_of, drop_series_of,
  targets_of, alertmanagers_of, ApiRequest, gather, payload, proxied, series_accepted,
  values_joined, handle,
}
use promeproxy.Web.Reply.{Envelope, Reply, cors_headers, instr, serve}

module _ {R : Type 0} where
  -- a response that is an error or has data
  abbrev HasData : Response (Option (Payload R)) → Type 0
  HasData (api_error e) = Unit
  HasData (success none) = ⊥
  HasData (success (some d)) = Unit

  -- the same of a handler's end, which may be a panic
  abbrev EndsWithData : Option (Response (Option (Payload R))) → Type 0
  EndsWithData none = Unit
  EndsWithData (some resp) = HasData resp

  -- A reply with a body is a success with status 200 and data, or an error with a status from 400 on and without
  -- data; one without a body has status 204, and answers OPTIONS. Every reply has the CORS headers.
  pub record IsReply (e : Endpoint) (reply : Reply R) : Type 0 where
    pub rest : List (String × String)
    pub cors : reply.headers ≡ cors_headers ++ rest
    pub shape :
        ((reply.body ≡ none) × (reply.code ≡ 204) × (e ≡ options_of))
        ⊎ ((env : Envelope R) × (reply.body ≡ some env)
            × (((reply.code ≡ 200) × (env.status ≡ "success") × (has env.payload_data ≡ true))
                ⊎ ((400 ≤ reply.code) × (env.status ≡ "error") × (env.payload_data ≡ none))))

  -- the end of a request: a panic or such a reply
  abbrev pub IsServed : Endpoint → Option (Reply R) → Type 0
  IsServed e none = Unit
  IsServed e (some reply) = IsReply e reply

payload-HasData : {R X : Type 0} (f : X → Payload R) (resp : Response X) → HasData (payload f resp)
unfolding payload
payload-HasData f (api_error e) = tt
payload-HasData f (success x) = tt

map-EndsWithData :
    {A R : Type 0} (f : A → Response (Option (Payload R))) (o : Option A)
    → ((a : A) → HasData (f a))
    → EndsWithData (Option.map f o)
map-EndsWithData f none h = tt
map-EndsWithData f (some a) h = h a

status_code-high : (e : ErrorType) → 400 ≤ status_code e
unfolding status_code
status_code-high error_timeout = omega arith
status_code-high error_canceled = omega arith
status_code-high error_exec = omega arith
status_code-high error_bad_data = omega arith
status_code-high error_internal = omega arith

if-EndsWithData :
    {R : Type 0} (b : Bool) (x y : Option (Response (Option (Payload R))))
    → EndsWithData x
    → EndsWithData y
    → EndsWithData (if b then x else y)
if-EndsWithData true x y h k = h
if-EndsWithData false x y h k = k

values_joined-EndsWithData :
    {B : Type 0} (R : Type 0) (api : Api B) (name : String) (bodys : Option (List B))
    → EndsWithData {R = R} (values_joined api name bodys)
unfolding values_joined
values_joined-EndsWithData R api name none = tt
values_joined-EndsWithData R api name (some bodys) =
    map-EndsWithData (payload (λ vs. values_data vs))
      (label_values api.valid_name api.sort name (map api.decode_values bodys))
      (payload-HasData (λ vs. values_data vs))

instr-IsReply :
    {R : Type 0} (e : Endpoint) (resp : Response (Option (Payload R)))
    → (e ≡ options_of) ⊎ HasData resp
    → IsReply e (instr resp)
unfolding instr
instr-IsReply e (api_error err) h = record {
  rest = ("Content-Type", "application/json") ∷ [];
  cors = refl;
  shape = inr (_, refl, inr (status_code-high err, refl, refl));
}
instr-IsReply e (success (some d)) h = record {
  rest = ("Content-Type", "application/json") ∷ [];
  cors = refl;
  shape = inr (_, refl, inl (refl, refl, refl));
}
instr-IsReply e (success none) (inl h) = record {
  rest = [];
  cors = refl;
  shape = inl (refl, refl, h);
}
instr-IsReply e (success none) (inr h) = elim h [ ]

module _ {B R : Type 0} where
  handle-EndsWithData :
      (api : Api B) (r : ApiRequest R) (e : Endpoint)
      → (e ≡ options_of) ⊎ EndsWithData (handle api (record r { endpoint = e }))
  unfolding handle
  handle-EndsWithData api r options_of = inl refl
  handle-EndsWithData api r query_of =
      inr (payload-HasData (λ x. query_data x) (instant_query r.instant))
  handle-EndsWithData api r query_range_of =
      inr (payload-HasData (λ x. query_data x) (query_range r.range))
  handle-EndsWithData api r label_values_of = inr (
      if-EndsWithData (api.valid_name r.name) _ _
        (values_joined-EndsWithData R api r.name (proxied api r)) tt)
  handle-EndsWithData api r series_of = inr (
      if-EndsWithData (series_accepted api r) _ _
        (map-EndsWithData (λ bs. success (some (metrics_data (gather api.decode_series bs))))
          (proxied api r) (λ bs. tt))
        tt)
  handle-EndsWithData api r drop_series_of = inr (
      if-EndsWithData (length r.selectors == 0) _ _ tt (
        map-EndsWithData
          (λ bs.
            payload (λ n. deleted_data n) (drop_series r.selectors (map api.decode_deleted bs)))
          (proxied api r)
          (λ bs.
            payload-HasData (λ n. deleted_data n)
              (drop_series r.selectors (map api.decode_deleted bs)))))
  handle-EndsWithData api r targets_of = inr (
      map-EndsWithData (λ bs. success (some (targets_data (gather api.decode_targets bs))))
        (proxied api r) (λ bs. tt))
  handle-EndsWithData api r alertmanagers_of = inr (
      map-EndsWithData
        (λ bs. success (some (alertmanagers_data (gather api.decode_alertmanagers bs))))
        (proxied api r) (λ bs. tt))

  -- On every route the request panics or is answered in one of three ways: with status 200, success and data; with a
  -- status from 400 on, an error and no data; or, for OPTIONS only, with status 204 and no body. The
  -- CORS headers are always there.
  pub serve-IsServed : (api : Api B) (r : ApiRequest R) → IsServed r.endpoint (serve api r)
  unfolding serve
  serve-IsServed api r = served r.endpoint (handle api r) (handle-EndsWithData api r r.endpoint)
    where
      served :
          (e : Endpoint) (o : Option (Response (Option (Payload R))))
          → (e ≡ options_of) ⊎ EndsWithData o
          → IsServed e (Option.map instr o)
      served e none h = tt
      served e (some resp) h = instr-IsReply e resp h
