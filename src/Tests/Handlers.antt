-- ===== src/Tests/Handlers.antt =====
-- Runs of the theorems on web/api/v1.
use promeproxy.Common.{
  nat_eq, string_eq, ℕ, ◌*◌, String, ◌≡◌, refl, true, Option, none, some, [], ◌∷◌, if◌then◌else◌,
  ◌==◌, ℤ, pos, negsuc, ◌-ℤ◌, ltb_ℤ, quot,
}
use promeproxy.Web.Api.{
  exec_value, success, exec_response, RangeRequest, wrap_64, time_between, points, run_range,
  check_timeout, check_step, query_range, drop_series, remove_duplicate,
}
use promeproxy.Web.Api.Laws.{IsRunnable, query_range-IsRunnable, drop_series-doubled}
use promeproxy.Web.Api.Duplicates.{remove_duplicate-firsts}

-- "1" and "2" can be read, as numbers of seconds; the engine answers the step.
abbrev seconds : String → ℕ → Option ℤ
seconds s unit =
    if s == "1" then some (pos unit) else if s == "2" then some (pos (2 * unit)) else none

abbrev range_request : RangeRequest ℤ
range_request = record {
  start = "1";
  end = "2";
  step = "1";
  timeout = "";
  parse_time = λ s. seconds s 1000;
  parse_duration = λ s. seconds s 1_000_000_000;
  accepts = true;
  exec = λ start end step timeout. exec_value step;
}

query_range-IsRunnable_example : IsRunnable range_request (pos 1_000_000_000)
unfolding query_range check_step check_timeout run_range exec_response points time_between wrap_64
    quot ◌-ℤ◌
query_range-IsRunnable_example = query_range-IsRunnable range_request (pos 1_000_000_000) refl

drop_series-doubled_example : drop_series ("up" ∷ []) (1 ∷ 2 ∷ 3 ∷ []) ≡ success 11
drop_series-doubled_example = drop_series-doubled "up" [] (1 ∷ 2 ∷ 3 ∷ [])

remove_duplicate-firsts_example :
    remove_duplicate ("b" ∷ "a" ∷ "b" ∷ "c" ∷ "a" ∷ []) ≡ "b" ∷ "a" ∷ "c" ∷ []
remove_duplicate-firsts_example = remove_duplicate-firsts ("b" ∷ "a" ∷ "b" ∷ "c" ∷ "a" ∷ [])

-- From 7 billion seconds before 1970 to as long after, the time between overflows.
overflowed :
    ltb_ℤ (points (negsuc 6_999_999_999_999) (pos 7_000_000_000_000) (pos 1_000_000_000)) (pos 0)
    ≡ true
unfolding points time_between wrap_64 quot ◌-ℤ◌
overflowed = refl
