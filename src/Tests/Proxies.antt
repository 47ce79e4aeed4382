-- ===== src/Tests/Proxies.antt =====
-- Runs of the theorems on the HTTP API's requests to the Prometheus servers.
use promeproxy.Common.{
  string_eq, nat_eq, ℕ, ◌-◌, ◌*◌, ◌^◌, String, ◌≡◌, refl, ◌⊎◌, inl, inr, true, not, Option, none,
  some, List, [], ◌∷◌, map, arith, if◌then◌else◌, ◌==◌, length, ℤ, pos, negsuc, pos_part, neg_part,
  sub_ℕ, ◌+ℤ◌, ltb_ℤ, quot, lookup,
}
use promeproxy.Web.Api.{error_bad_data, exec_value, points, get_prom_targets}
use promeproxy.Web.Proxy.{Request, request_for, in_turn}
use promeproxy.Web.Handlers.{
  Api, Endpoint, series_of, drop_series_of, targets_of, ApiRequest, series,
}
use promeproxy.Web.Reply.{cors_headers, respond_error, serve}
use promeproxy.Web.Handlers.Laws.{ListsSeries, series-ListsSeries}
use promeproxy.Web.Handlers.Replies.{IsServed, serve-IsServed}
use promeproxy.Web.Times.{Clock, time_from_unix_nano, float_nanos, time_of, parse_time}
use promeproxy.Web.Times.Laws.{IsInt64}
use promeproxy.Utils.{Net, new_client_for_timeout}
use promeproxy.Utils.Laws.{IsCareful, new_client_for_timeout-IsCareful}
use promeproxy.Web.Times.Points.{Steps, parse_time-Steps}
use promeproxy.Web.Handlers.Proxied.{with_send, serve-gets, serve-panics}

-- Every server answers a GET with 1, and any other method with 2; the server "down" does not answer.
abbrev answer : Request → Option ℕ
answer q =
    if q.url == "http://down/api/v1/series"
    then none
    else if q.method == "GET"
    then some 1
    else some 2

abbrev answer_all : Request → Option ℕ
answer_all q = if q.url == "http://down/api/v1/series" then none else some 1

abbrev api_of : List String → Api ℕ
api_of servers = record {
  known_targets = map (λ s. ("job", "allprometheus") ∷ ("instance", s) ∷ []) servers;
  order = λ servers. servers;
  schedule = in_turn 0 (length servers);
  send = answer;
  valid_name = λ s. true;
  valid_selector = λ s. not (s == "{");
  parse_time = λ s. if s == "now" then some (pos 5) else none;
  sort = λ vs. vs;
  decode_values = λ b. some ("a" ∷ []);
  decode_series = λ b. (("job", "a") ∷ []) ∷ [];
  decode_deleted = λ b. b;
  decode_targets = λ b. [];
  decode_alertmanagers = λ b. [];
}

abbrev request_of : Endpoint → List String → ApiRequest ℕ
request_of endpoint selectors = record {
  endpoint = endpoint;
  uri = "/api/v1/series";
  name = "job";
  selectors = selectors;
  start = "now";
  end = "";
  instant = record {
    time = "";
    timeout = "";
    now = pos 1;
    parse_time = λ s. none;
    parse_duration = λ s. none;
    accepts = true;
    exec = λ t d. exec_value 3;
  };
  range = record {
    start = "";
    end = "";
    step = "";
    timeout = "";
    parse_time = λ s. none;
    parse_duration = λ s. none;
    accepts = true;
    exec = λ start end step timeout. exec_value 3;
  };
}

series-ListsSeries_example :
    ListsSeries
      (api_of ("one" ∷ "two" ∷ []))
      (request_of series_of ("up" ∷ []))
      (series (api_of ("one" ∷ "two" ∷ [])) (request_of series_of ("up" ∷ [])))
unfolding get_prom_targets lookup
series-ListsSeries_example =
    series-ListsSeries (api_of ("one" ∷ "two" ∷ [])) (request_of series_of ("up" ∷ [])) refl

serve-gets_example :
    serve (with_send (api_of ("one" ∷ [])) answer) (request_of drop_series_of ("up" ∷ []))
    ≡ serve (with_send (api_of ("one" ∷ [])) answer_all) (request_of drop_series_of ("up" ∷ []))
serve-gets_example =
    serve-gets (api_of ("one" ∷ [])) answer answer_all (λ q e. alike q e)
      (request_of drop_series_of ("up" ∷ []))
  where
    alike : (q : Request) → q.method ≡ "GET" → answer q ≡ answer_all q
    alike q e = rw (e) refl

serve-panics_example :
    (serve (api_of ("one" ∷ "down" ∷ [])) (request_of targets_of []) ≡ none)
    ⊎ (serve (api_of ("one" ∷ "down" ∷ [])) (request_of targets_of [])
        ≡ some (respond_error cors_headers error_bad_data))
unfolding get_prom_targets lookup request_for
serve-panics_example =
    serve-panics (api_of ("one" ∷ "down" ∷ [])) (request_of targets_of []) tt (inr (inl refl))

serve-IsServed_example :
    IsServed targets_of (serve (api_of ("one" ∷ "two" ∷ [])) (request_of targets_of []))
serve-IsServed_example = serve-IsServed (api_of ("one" ∷ "two" ∷ [])) (request_of targets_of [])

-- Floats are whole numbers, and two of them can be read, 16 thousand million seconds apart.
abbrev far_off : String → Option ℤ
far_off s =
    if s == "-8e9"
    then some (negsuc 7_999_999_999)
    else if s == "8e9"
    then some (pos 8_000_000_000)
    else none

abbrev largest : ℤ
largest = pos (2 ^ 63 - 1)

abbrev smallest : ℤ
smallest = negsuc (2 ^ 63 - 1)

abbrev clock : Clock ℤ
clock = record {
  parse_float = far_off;
  times_second = λ x. sub_ℕ (pos_part x * 1_000_000_000) (neg_part x * 1_000_000_000);
  above_max = λ x. ltb_ℤ (pos (2 ^ 63)) x;
  below_min = λ x. ltb_ℤ x smallest;
  to_int64 = λ x. if ltb_ℤ largest x then largest else if ltb_ℤ x smallest then smallest else x;
  parse_rfc3339 = λ s. none;
  parse_model_duration = λ s. none;
}

clock-IsInt64 : (x : ℤ) → IsInt64 (clock.to_int64 x)
clock-IsInt64 x = ground arith

parse_time-Steps_example :
    Steps 16_000_000_000_000_000_000 1_000_000_000
      (points (negsuc 7_999_999_999_999) (pos 8_000_000_000_000) (pos 1_000_000_000))
unfolding parse_time time_of float_nanos time_from_unix_nano quot
parse_time-Steps_example =
    parse_time-Steps clock "-8e9" "8e9" (negsuc 7_999_999_999_999) (pos 8_000_000_000_000)
      (pos 1_000_000_000) clock-IsInt64 (λ u. tt) refl refl (omega arith)

-- Connections are numbers, and the deadline of number 2 cannot be set.
abbrev net : Net ℕ String
net = record {
  dial_timeout = λ netw addr timeout. if addr == "two" then inl 2 else inl 1;
  set_deadline = λ c t. if c == 2 then some "no deadline" else none;
}

new_client_for_timeout-IsCareful_example :
    IsCareful net
      (pos 5 +ℤ pos 3_000_000_000)
      ((new_client_for_timeout net).dial (pos 5) "tcp" "two")
new_client_for_timeout-IsCareful_example = new_client_for_timeout-IsCareful net (pos 5) "tcp" "two"
