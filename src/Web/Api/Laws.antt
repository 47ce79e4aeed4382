-- ===== src/Web/Api/Laws.antt =====
-- web/api/v1/api.go: what a range query checks, and what the handlers make of the servers' answers.
use mathlib.Core.Path.{ap}
use promeproxy.Common.{
  string_eq, nat_eq, ℕ, zero, suc, ◌+◌, String, ◌≡◌, refl, ◌∙◌, subst, inl, inr, Option, none, some,
  List, [], ◌∷◌, arith, ◌==◌, Bool-cases, Option-cases, length, ℤ, pos, ◌≤ℤ◌, ◌<ℤ◌, ltb_ℤ,
}
use promeproxy.Model.{before}
use promeproxy.Web.Api.{
  Exec, exec_failed, exec_value, Response, api_error, success, exec_response, RangeRequest, points,
  run_range, check_timeout, check_step, query_range, drop_loop, drop_series,
}

module _ {R : Type 0} where
  -- a request that may be run, and what running it gives
  abbrev pub IsRunnable : RangeRequest R → R → Type 0
  IsRunnable r v =
      (start : ℤ) × (end : ℤ) × (step : ℤ) × (timeout : Option ℤ) × (r.parse_time r.start
        ≡ some start)
      × (r.parse_time r.end ≡ some end)
      × (r.parse_duration r.step ≡ some step)
      × (start ≤ℤ end)
      × (pos 0 <ℤ step)
      × (points start end step ≤ℤ pos 11000)
      × (r.exec start end step timeout ≡ exec_value v)

  -- a response that is an error, or else a value as the predicate says
  abbrev Yields : (R → Type 0) → Response R → Type 0
  Yields P (api_error err) = Unit
  Yields P (success v) = P v

  Yields-map : (P Q : R → Type 0) (a : Response R) → ((v : R) → P v → Q v) → Yields P a → Yields Q a
  Yields-map P Q (api_error err) f y = tt
  Yields-map P Q (success v) f y = f v y

  -- the value of an execution with some timeout
  abbrev IsExecuted : RangeRequest R → ℤ → ℤ → ℤ → R → Type 0
  IsExecuted r start end step v =
      (timeout : Option ℤ) × (r.exec start end step timeout ≡ exec_value v)

  exec_response-Yields : (e : Exec R) → Yields (λ v. e ≡ exec_value v) (exec_response e)
  unfolding exec_response
  exec_response-Yields (exec_failed e) = tt
  exec_response-Yields (exec_value v) = refl

  run_range-Yields :
      (r : RangeRequest R) (start end step : ℤ) (timeout : Option ℤ)
      → Yields (IsExecuted r start end step) (run_range r start end step timeout)
  unfolding run_range
  run_range-Yields r start end step timeout = elim (Bool-cases r.accepts) [
    | inl a ↦
        rw (a, run_range)
          (Yields-map (λ v. r.exec start end step timeout ≡ exec_value v)
            (IsExecuted r start end step) (exec_response (r.exec start end step timeout))
            (λ v e. (timeout, e)) (exec_response-Yields (r.exec start end step timeout)))
    | inr a ↦ rw (a, run_range) tt
  ]

  check_timeout-Yields :
      (r : RangeRequest R) (start end step : ℤ)
      → Yields (IsExecuted r start end step) (check_timeout r start end step)
  unfolding check_timeout
  check_timeout-Yields r start end step = elim (Bool-cases (r.timeout == "")) [
    | inl a ↦ rw (a, check_timeout) (run_range-Yields r start end step none)
    | inr a ↦ elim (Option-cases (r.parse_duration r.timeout)) [
      | inl b ↦ rw (a, b, check_timeout) tt
      | inr (t, b) ↦ rw (a, b, check_timeout) (run_range-Yields r start end step (some t))
    ]
  ]

  -- the same, with the checks of the step
  abbrev IsStepped : RangeRequest R → ℤ → ℤ → ℤ → R → Type 0
  IsStepped r start end step v =
      (pos 0 <ℤ step) × (points start end step ≤ℤ pos 11000) × IsExecuted r start end step v

  check_step-Yields :
      (r : RangeRequest R) (start end step : ℤ)
      → Yields (IsStepped r start end step) (check_step r start end step)
  unfolding check_step
  check_step-Yields r start end step = elim (Bool-cases (ltb_ℤ (pos 0) step)) [
    | inr a ↦ rw (a, check_step) tt
    | inl a ↦ elim (Bool-cases (ltb_ℤ (pos 11000) (points start end step))) [
      | inl b ↦ rw (a, b, check_step) tt
      | inr b ↦
          rw (a, b, check_step)
            (Yields-map (IsExecuted r start end step) (IsStepped r start end step)
              (check_timeout r start end step) (λ v e. (ground arith, ground arith, e))
              (check_timeout-Yields r start end step))
    ]
  ]

  query_range-Yields : (r : RangeRequest R) → Yields (IsRunnable r) (query_range r)
  unfolding query_range
  query_range-Yields r = elim (Option-cases (r.parse_time r.start)) [
    | inl a ↦ rw (a, query_range) tt
    | inr (start, a) ↦ elim (Option-cases (r.parse_time r.end)) [
      | inl b ↦ rw (a, b, query_range) tt
      | inr (end, b) ↦ elim (Bool-cases (before end start)) [
        | inl c ↦ rw (a, b, c, query_range) tt
        | inr c ↦ elim (Option-cases (r.parse_duration r.step)) [
          | inl d ↦ rw (a, b, c, d, query_range) tt
          | inr (step, d) ↦
              rw (a, b, c, d, query_range)
                (Yields-map (IsStepped r start end step) (IsRunnable r)
                  (check_step r start end step)
                  (λ v s. (start, end, step, s.2.0, a, b, d, ground arith, s.0, s.1, s.2.1))
                  (check_step-Yields r start end step))
        ]
      ]
    ]
  ]

  -- A range query succeeds only if its times and its step can be read, its end is not before its start,
  -- its step is positive, and end.Sub(start)/step, in the wrapping arithmetic of int64, is at most 11000;
  -- and then with what the engine gives for these.
  pub query_range-IsRunnable :
      (r : RangeRequest R) (v : R) → query_range r ≡ success v → IsRunnable r v
  query_range-IsRunnable r v e = subst (Yields (IsRunnable r)) e (query_range-Yields r)

-- a number doubled so many times
abbrev pub twice : ℕ → ℕ → ℕ
twice zero n = n
twice (suc k) n = twice k (n + n)

regroup : (m n : ℕ) → (m + n) + (m + n) ≡ (m + m) + (n + n)
regroup m n = omega arith

twice_add : (k m n : ℕ) → twice k (m + n) ≡ twice k m + twice k n
twice_add zero m n = refl
twice_add (suc k) m n = ap (twice k) (regroup m n) ∙ twice_add k (m + m) (n + n)

-- The sum in which each count is doubled for each count after it.
abbrev pub doubled : List ℕ → ℕ
doubled [] = 0
doubled (n ∷ ns) = twice (length ns) n + doubled ns

regather : (m n : ℕ) → m + (n + m) ≡ (m + m) + n
regather m n = omega arith

drop_loop-doubled :
    (total : ℕ) (ns : List ℕ) → drop_loop total ns ≡ twice (length ns) total + doubled ns
unfolding drop_loop
drop_loop-doubled total [] = omega arith
drop_loop-doubled total (n ∷ ns) = omega (
  arith,
  drop_loop-doubled (total + (n + total)) ns,
  twice_add (length ns) (total + total) n,
  ap (twice (length ns)) (regather total n),
)

twice_zero : (k : ℕ) → twice k 0 ≡ 0
twice_zero zero = refl
twice_zero (suc k) = twice_zero k

-- Of a request with selectors, dropSeries answers the sum of the servers' counts in which each count
-- is doubled once for each answer that comes after it.
pub drop_series-doubled :
    (m : String) (ms : List String) (answers : List ℕ)
    → drop_series (m ∷ ms) answers ≡ success (doubled answers)
unfolding drop_series
drop_series-doubled m ms answers =
    ap success (drop_loop-doubled 0 answers ∙ omega (arith, twice_zero (length answers)))
