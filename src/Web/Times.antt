-- ===== src/Web/Times.antt =====
-- parseTime and parseDuration of web/api/v1/api.go.
pub mod Laws
pub mod Points
use mathlib.Core.Option
use promeproxy.Common.{String, Bool, ◌||◌, Option, none, some, if◌then◌else◌, ℤ, quot}

-- What they use of other code, with `F` for float64: strconv.ParseFloat, the product with the nanoseconds of a
-- second, the comparisons with the ends of int64 as floats, the conversion to int64; time.Parse for RFC 3339 as
-- UnixNano, and ParseDuration of prometheus/common/model in nanoseconds. No value means an error.
pub record Clock (F : Type 0) : Type 0 where
  pub parse_float : String → Option F
  pub times_second : F → F
  pub above_max : F → Bool
  pub below_min : F → Bool
  pub to_int64 : F → ℤ
  pub parse_rfc3339 : String → Option ℤ
  pub parse_model_duration : String → Option ℤ

-- model.TimeFromUnixNano: milliseconds
unfoldable pub time_from_unix_nano : ℤ → ℤ
unfolding quot
time_from_unix_nano t = quot t 1_000_000

module _ {F : Type 0} (c : Clock F) where
  -- the nanoseconds of a number of seconds, or an error where they are out of the range of int64
  unfoldable pub float_nanos : F → Option ℤ
  float_nanos t =
      let ts = c.times_second t in
      if c.above_max ts || c.below_min ts then none else some (c.to_int64 ts)

  -- parseTime, with what strconv.ParseFloat gives
  unfoldable pub time_of : String → Option F → Option ℤ
  unfolding float_nanos time_from_unix_nano
  time_of s (some t) = Option.map time_from_unix_nano (float_nanos t)
  time_of s none = Option.map time_from_unix_nano (c.parse_rfc3339 s)

  -- parseTime
  unfoldable pub parse_time : String → Option ℤ
  unfolding time_of
  parse_time s = time_of s (c.parse_float s)

  -- parseDuration
  unfoldable pub parse_duration : String → Option ℤ
  unfolding float_nanos
  parse_duration s = elim (c.parse_float s) [
    | some d ↦ float_nanos d
    | none ↦ c.parse_model_duration s
  ]
