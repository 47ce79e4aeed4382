-- ===== src/Web/Times/Laws.antt =====
-- parseTime of web/api/v1/api.go: the range of the times that it reads.
use mathlib.Core.Option
use promeproxy.Common.{
  ◌-◌, ◌^◌, String, inl, inr, ◌||◌, Option, none, some, arith, Bool-cases, ℤ, pos, negsuc, ◌≤ℤ◌,
  quot,
}
use promeproxy.Web.Times.{Clock, time_from_unix_nano, float_nanos, time_of, parse_time}

-- an int64
abbrev pub IsInt64 : ℤ → Type 0
IsInt64 i = (negsuc (2 ^ 63 - 1) ≤ℤ i) × (i ≤ℤ pos (2 ^ 63 - 1))

-- a time in milliseconds whose nanoseconds are an int64
abbrev pub IsMillis : ℤ → Type 0
IsMillis t = (negsuc 9_223_372_036_853 ≤ℤ t) × (t ≤ℤ pos 9_223_372_036_854)

abbrev pub Each : (ℤ → Type 0) → Option ℤ → Type 0
Each p none = Unit
Each p (some i) = p i

time_from_unix_nano-IsMillis : (i : ℤ) → IsInt64 i → IsMillis (time_from_unix_nano i)
unfolding time_from_unix_nano quot
time_from_unix_nano-IsMillis (pos n) h = (omega arith, omega arith)
time_from_unix_nano-IsMillis (negsuc n) h = ground arith

map-IsMillis : (o : Option ℤ) → Each IsInt64 o → Each IsMillis (Option.map time_from_unix_nano o)
map-IsMillis none h = tt
map-IsMillis (some i) h = time_from_unix_nano-IsMillis i h

module _ {F : Type 0} (c : Clock F) where
  float_nanos-IsInt64 :
      ((x : F) → IsInt64 (c.to_int64 x)) → (t : F) → Each IsInt64 (float_nanos c t)
  unfolding float_nanos
  float_nanos-IsInt64 h t =
      elim (Bool-cases (c.above_max (c.times_second t) || c.below_min (c.times_second t))) [
        | inl e ↦ rw (e) tt
        | inr e ↦ rw (e) (h (c.times_second t))
      ]

  time_of-IsMillis :
      ((x : F) → IsInt64 (c.to_int64 x))
      → ((s : String) → Each IsInt64 (c.parse_rfc3339 s))
      → (s : String) (o : Option F) → Each IsMillis (time_of c s o)
  unfolding time_of
  time_of-IsMillis h k s none = map-IsMillis (c.parse_rfc3339 s) (k s)
  time_of-IsMillis h k s (some t) = map-IsMillis (float_nanos c t) (float_nanos-IsInt64 h t)

  -- If the conversion of floats and the reading of RFC 3339 give an int64 each, a time that parseTime reads is a
  -- number of milliseconds whose nanoseconds are an int64.
  pub parse_time-IsMillis :
      ((x : F) → IsInt64 (c.to_int64 x))
      → ((s : String) → Each IsInt64 (c.parse_rfc3339 s))
      → (s : String) → Each IsMillis (parse_time c s)
  unfolding parse_time
  parse_time-IsMillis h k s = time_of-IsMillis h k s (c.parse_float s)
