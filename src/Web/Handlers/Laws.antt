-- ===== src/Web/Handlers/Laws.antt =====
-- series of web/api/v1/api.go, in all its branches.
use mathlib.Core.Bool.{false≢true}
use promeproxy.Common.{
  string_eq, nat_eq, ◌<◌, String, ◌≡◌, refl, sym, ◌∙◌, ◌↔◌, ◌⊎◌, inl, inr, Bool, true, Option, none,
  some, List, [], ◌∷◌, arith, Bool-cases, length, All, ℤ, has,
}
use promeproxy.Web.Api.{error_bad_data, Response, api_error, success}
use promeproxy.Web.Proxy.{in_turn}
use promeproxy.Web.Proxy.Laws.{AnyFails, AreAnswers, Collects, proxy_req-Collects}
use promeproxy.Web.Handlers.{
  Payload, metrics_data, Api, ApiRequest, time_accepted, selectors_accepted, gather, answering,
  proxied, series_accepted, series_joined, series,
}

-- a time of the form is missing or can be read
abbrev pub TimeGiven : (String → Option ℤ) → String → Type 0
TimeGiven parse_time t = (t ≡ "") ⊎ (has (parse_time t) ≡ true)

module _ {B R : Type 0} where
  -- a request of series that is in order
  abbrev pub IsInOrder : Api B → ApiRequest R → Type 0
  IsInOrder api r =
      (0 < length r.selectors)
      × TimeGiven api.parse_time r.start
      × TimeGiven api.parse_time r.end
      × All (λ s. api.valid_selector s ≡ true) r.selectors

  -- the answers of all servers for the request
  abbrev pub AreBodys : Api B → ApiRequest R → List B → Type 0
  AreBodys api r bodys = AreAnswers api.send r.uri (answering api) bodys

  -- how series ends
  abbrev pub ListsSeries : Api B → ApiRequest R → Option (Response (Option (Payload R))) → Type 0
  ListsSeries api r none = IsInOrder api r × AnyFails api.send r.uri (answering api)
  ListsSeries api r (some (api_error e)) = (e ≡ error_bad_data) × ¬ IsInOrder api r
  ListsSeries api r (some (success d)) =
      IsInOrder api r
      × (bodys : List B) × AreBodys api r bodys
      × (d ≡ some (metrics_data (gather api.decode_series bodys)))

time_accepted_iff :
    (parse_time : String → Option ℤ) (t : String)
    → (time_accepted parse_time t ≡ true) ↔ TimeGiven parse_time t
unfolding time_accepted
time_accepted_iff parse_time t = ground (arith, string_eq.beq_iff t "")

selectors_accepted_iff :
    (valid : String → Bool) (ss : List String)
    → (selectors_accepted valid ss ≡ true) ↔ All (λ s. valid s ≡ true) ss
unfolding selectors_accepted
selectors_accepted_iff valid [] = ground arith
selectors_accepted_iff valid (s ∷ ss) = ground (arith, selectors_accepted_iff valid ss)

module _ {B R : Type 0} where
  series_accepted_iff :
      (api : Api B) (r : ApiRequest R) → (series_accepted api r ≡ true) ↔ IsInOrder api r
  unfolding series_accepted
  series_accepted_iff api r = ground (
    arith,
    time_accepted_iff api.parse_time r.start,
    time_accepted_iff api.parse_time r.end,
    selectors_accepted_iff api.valid_selector r.selectors,
  )

  listed :
      (api : Api B) (r : ApiRequest R)
      → IsInOrder api r
      → (bodys : Option (List B)) → Collects api.send r.uri (answering api) bodys
      → ListsSeries api r (series_joined api bodys)
  unfolding series_joined
  listed api r h none c = (h, c)
  listed api r h (some bodys) c = (h, bodys, c, refl)

  -- If the unlocked appends of the goroutines for the servers do not overlap, series answers bad_data exactly to a
  -- request without selectors, with a time or a selector that cannot be read. To any other it answers then with
  -- what all servers list, joined in the order of the appends, unless a server cannot be reached: then it
  -- panics.
  pub series-ListsSeries :
      (api : Api B) (r : ApiRequest R)
      → api.schedule ≡ in_turn 0 (length (answering api))
      → ListsSeries api r (series api r)
  unfolding series proxied
  series-ListsSeries api r separate = elim (Bool-cases (series_accepted api r)) [
    | inr e ↦ rw (e) (refl, λ h. false≢true (sym e ∙ (series_accepted_iff api r).1 h))
    | inl e ↦ rw (e) (
        listed api r ((series_accepted_iff api r).0 e) (proxied api r)
          (proxy_req-Collects api.send api.schedule r.uri (answering api) separate))
  ]
