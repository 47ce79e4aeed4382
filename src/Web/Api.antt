-- ===== src/Web/Api.antt =====
-- web/api/v1/api.go: the checks of a range query, and the handlers that join the answers of the
-- Prometheus servers.
pub mod Laws
pub mod Duplicates
pub mod Servers
use mathlib.Core.Option
use promeproxy.Common.{
  string_eq, nat_eq, ℕ, zero, suc, ◌+◌, ◌-◌, ◌*◌, ◌%◌, ◌^◌, String, Bool, true, false, Option, none,
  some, List, [], ◌∷◌, ◌++◌, ltb, if◌then◌else◌, ◌==◌, length, get_elem?, set, take, ℤ, pos, negsuc,
  pos_part, neg_part, sub_ℕ, ◌-ℤ◌, ltb_ℤ, quot, get_or, lookup,
}
use promeproxy.Model.{LabelSet, before}

-- errorType
pub data ErrorType : Type 0 where
  error_timeout error_canceled error_exec error_bad_data error_internal : ErrorType

-- the status that respondError writes
unfoldable pub status_code : ErrorType → ℕ
status_code error_bad_data = 400
status_code error_exec = 422
status_code error_canceled = 503
status_code error_timeout = 503
status_code error_internal = 500

-- The errors of promql.Query.Exec.
pub data ExecError : Type 0 where
  query_canceled query_timeout storage_error other_error : ExecError

-- What an execution answers.
pub data Exec (R : Type 0) : Type 0 where
  exec_failed : ExecError → Exec R
  exec_value : R → Exec R

-- the switch of queryRange
unfoldable pub exec_error : ExecError → ErrorType
exec_error query_canceled = error_canceled
exec_error query_timeout = error_timeout
exec_error storage_error = error_exec
exec_error other_error = error_exec

-- the switch of query
unfoldable pub instant_error : ExecError → ErrorType
instant_error query_canceled = error_canceled
instant_error query_timeout = error_timeout
instant_error storage_error = error_internal
instant_error other_error = error_exec

-- What a handler returns.
pub data Response (R : Type 0) : Type 0 where
  api_error : ErrorType → Response R
  success : R → Response R

unfoldable pub exec_response : {R : Type 0} → Exec R → Response R
unfolding exec_error
exec_response (exec_failed e) = api_error (exec_error e)
exec_response (exec_value r) = success r

-- The form's values of a range query, and the outside functions: parseTime in milliseconds,
-- parseDuration in nanoseconds, whether the engine takes the expression, and the execution with the
-- start, end, step and timeout.
pub record RangeRequest (R : Type 0) : Type 0 where
  pub start : String
  pub end : String
  pub step : String
  pub timeout : String
  pub parse_time : String → Option ℤ
  pub parse_duration : String → Option ℤ
  pub accepts : Bool
  pub exec : ℤ → ℤ → ℤ → Option ℤ → Exec R

-- the int64 with these 64 bits
abbrev pub of_bits : ℕ → ℤ
of_bits m = if ltb m (2 ^ 63) then pos m else negsuc (2 ^ 64 - 1 - m)

-- an integer brought into int64 by dropping its higher bits
unfoldable pub wrap_64 : ℤ → ℤ
wrap_64 (pos n) = of_bits (n % 2 ^ 64)
wrap_64 (negsuc n) = of_bits (2 ^ 64 - 1 - n % 2 ^ 64)

-- end.Sub(start): a number of nanoseconds, which can overflow
unfoldable pub time_between : ℤ → ℤ → ℤ
unfolding wrap_64 ◌-ℤ◌
time_between start end =
    let d = end -ℤ start in wrap_64 (sub_ℕ (pos_part d * 1_000_000) (neg_part d * 1_000_000))

-- end.Sub(start)/step for a positive step
unfoldable pub points : ℤ → ℤ → ℤ → ℤ
unfolding quot time_between
points start end step = quot (time_between start end) (pos_part step)

module _ {R : Type 0} where
  -- queryRange after its checks of the times
  unfoldable pub run_range : RangeRequest R → ℤ → ℤ → ℤ → Option ℤ → Response R
  unfolding exec_response
  run_range r start end step timeout =
      if r.accepts then exec_response (r.exec start end step timeout) else api_error error_bad_data

  unfoldable pub check_timeout : RangeRequest R → ℤ → ℤ → ℤ → Response R
  unfolding run_range
  check_timeout r start end step =
      if r.timeout == ""
      then run_range r start end step none
      else (elim (r.parse_duration r.timeout) [
        | none ↦ api_error error_bad_data
        | some timeout ↦ run_range r start end step (some timeout)
      ])

  unfoldable pub check_step : RangeRequest R → ℤ → ℤ → ℤ → Response R
  unfolding check_timeout points
  check_step r start end step =
      if ltb_ℤ (pos 0) step
      then if ltb_ℤ (pos 11000) (points start end step)
        then api_error error_bad_data
        else check_timeout r start end step
      else api_error error_bad_data

  -- queryRange
  unfoldable pub query_range : RangeRequest R → Response R
  unfolding check_step
  query_range r = elim (r.parse_time r.start) [
    | none ↦ api_error error_bad_data
    | some start ↦ elim (r.parse_time r.end) [
      | none ↦ api_error error_bad_data
      | some end ↦
          if before end start then api_error error_bad_data else (elim (r.parse_duration r.step) [
            | none ↦ api_error error_bad_data
            | some step ↦ check_step r start end step
          ])
    ]
  ]

-- The form's values of an instant query, with the outside functions as for a range query; `now` is the
-- handler's clock.
pub record InstantRequest (R : Type 0) : Type 0 where
  pub time : String
  pub timeout : String
  pub now : ℤ
  pub parse_time : String → Option ℤ
  pub parse_duration : String → Option ℤ
  pub accepts : Bool
  pub exec : ℤ → Option ℤ → Exec R

-- The time that is queried, and the timeout: none where the form's value cannot be read.
unfoldable pub instant_time : {R : Type 0} → InstantRequest R → Option ℤ
instant_time r = if r.time == "" then some r.now else r.parse_time r.time

unfoldable pub instant_timeout : {R : Type 0} → InstantRequest R → Option (Option ℤ)
instant_timeout r =
    if r.timeout == "" then some none else Option.map (λ t. some t) (r.parse_duration r.timeout)

unfoldable pub run_instant : {R : Type 0} → InstantRequest R → ℤ → Option ℤ → Response R
unfolding instant_error
run_instant r ts timeout =
    if r.accepts
    then (elim (r.exec ts timeout) [
      | exec_failed e ↦ api_error (instant_error e)
      | exec_value v ↦ success v
    ])
    else api_error error_bad_data

-- query
unfoldable pub instant_query : {R : Type 0} → InstantRequest R → Response R
unfolding instant_time instant_timeout run_instant
instant_query r = elim (instant_time r) [
  | none ↦ api_error error_bad_data
  | some ts ↦ elim (instant_timeout r) [
    | none ↦ api_error error_bad_data
    | some timeout ↦ run_instant r ts timeout
  ]
]

-- the loop of dropSeries; each answer is the number of series that one server
-- deleted, which is 0 where the answer is no JSON
unfoldable pub drop_loop : ℕ → List ℕ → ℕ
drop_loop num_deleted [] = num_deleted
drop_loop num_deleted (n ∷ ns) = drop_loop (num_deleted + (n + num_deleted)) ns

-- dropSeries with the form's selectors and the answers
unfoldable pub drop_series : List String → List ℕ → Response ℕ
unfolding drop_loop
drop_series [] answers = api_error error_bad_data
drop_series (m ∷ ms) answers = success (drop_loop 0 answers)

-- the inner loop of removeDuplicate
unfoldable pub seen_before : String → List String → Bool
seen_before n [] = false
seen_before n (t ∷ seen) = if n == t then true else seen_before n seen

-- removeDuplicate's loop. `data` is the array, of which the loop's range reads index i, and of which
-- `kept` values are kept so far; a value that is not seen is written at index `kept`.
unfoldable pub dedup_loop : ℕ → ℕ → ℕ → List String → List String → List String
unfolding seen_before
dedup_loop zero i kept seen data_ = take kept data_
dedup_loop (suc left) i kept seen data_ = elim (get_elem? data_ i) [
  | none ↦ take kept data_
  | some n ↦ elim (seen_before n seen) [
    | true ↦ dedup_loop left (suc i) kept seen data_
    | false ↦ dedup_loop left (suc i) (suc kept) (seen ++ n ∷ []) (set data_ kept n)
  ]
]

-- removeDuplicate; the loop runs once for each value
unfoldable pub remove_duplicate : List String → List String
unfolding dedup_loop
remove_duplicate data_ = dedup_loop (length data_) 0 0 [] data_

-- the loop of labelValues over the answers; an answer that is no JSON leaves a nil pointer, whose use
-- panics: none
unfoldable pub joined_values : List (Option (List String)) → Option (List String)
joined_values [] = some []
joined_values (none ∷ answers) = none
joined_values (some values ∷ answers) = Option.map (λ vs. values ++ vs) (joined_values answers)

-- labelValues, or none for a panic. `valid` is LabelNameRE.MatchString, and `sort` is sort.Sort.
unfoldable pub label_values :
    (String → Bool)
    → (List String → List String)
    → String
    → List (Option (List String))
    → Option (Response (List String))
unfolding remove_duplicate joined_values
label_values valid sort name answers =
    if valid name
    then Option.map (λ vs. success (sort (remove_duplicate vs))) (joined_values answers)
    else some (api_error error_bad_data)

-- getPromTargets: the instances of the targets, given by their public labels, of the job
unfoldable pub get_prom_targets : List LabelSet → List String
get_prom_targets [] = []
get_prom_targets (labels ∷ ts) =
    let rest = get_prom_targets ts in
    if get_or (lookup "job" labels) "" == "allprometheus"
    then get_or (lookup "instance" labels) "" ∷ rest
    else rest
