-- ===== src/Web/Times/Points.antt =====
-- The number of points that queryRange of web/api/v1/api.go computes, for the times that parseTime reads.
use native.Mathlib.Nat.{mod-eq_of_lt}
use promeproxy.Common.{
  ℕ, suc, ◌+◌, ◌-◌, ◌*◌, ◌/◌, ◌^◌, ◌≤◌, ◌<◌, String, ◌≡◌, refl, ap, ◌∙◌, subst, ◌⊎◌, inl, inr, some,
  arith, ltb, Bool-cases, ℤ, pos, negsuc, pos_part, neg_part, sub_ℕ, ◌-ℤ◌, ◌≤ℤ◌, quot,
}
use promeproxy.Web.Api.{of_bits, wrap_64, time_between, points}
use promeproxy.Web.Times.Laws.{IsInt64, IsMillis, Each, parse_time-IsMillis}
use promeproxy.Web.Times.{Clock, parse_time}

-- the milliseconds from one time to a later one, and the nanoseconds
abbrev pub millis : ℤ → ℤ → ℕ
millis start end = pos_part end + neg_part start - (pos_part start + neg_part end)

abbrev pub nanos : ℤ → ℤ → ℕ
nanos start end = millis start end * 1_000_000

sub-millis : (start end : ℤ) → start ≤ℤ end → end -ℤ start ≡ pos (millis start end)
unfolding ◌-ℤ◌
sub-millis start end h = ground arith

sub_ℕ-zero : (n : ℕ) → sub_ℕ n 0 ≡ pos n
sub_ℕ-zero n = ground arith

wrap_64-of_bits : (n : ℕ) → n < 2 ^ 64 → wrap_64 (pos n) ≡ of_bits n
unfolding wrap_64
wrap_64-of_bits n h = ap of_bits (mod-eq_of_lt h)

time_between-nanos :
    (start end : ℤ)
    → start ≤ℤ end
    → nanos start end < 2 ^ 64
    → time_between start end ≡ of_bits (nanos start end)
unfolding time_between
time_between-nanos start end h n =
    ap (λ d. wrap_64 (sub_ℕ (pos_part d * 1_000_000) (neg_part d * 1_000_000)))
      (sub-millis start end h)
    ∙ ap wrap_64 (sub_ℕ-zero (nanos start end))
    ∙ wrap_64-of_bits (nanos start end) n

nanos-lt : (start end : ℤ) → IsMillis start → IsMillis end → nanos start end < 2 ^ 64
nanos-lt (pos m) (pos n) s e = omega arith
nanos-lt (pos m) (negsuc n) s e = omega arith
nanos-lt (negsuc m) (pos n) s e = omega arith
nanos-lt (negsuc m) (negsuc n) s e = omega arith

not_positive : (m : ℕ) → sub_ℕ 0 m ≤ℤ pos 0
not_positive m = ground arith

-- What becomes of `n` nanoseconds in steps of `k`: the whole steps, or nothing positive where the nanoseconds
-- are no int64.
abbrev pub Steps : ℕ → ℕ → ℤ → Type 0
Steps n k points = ((n < 2 ^ 63) × (points ≡ pos (n / k))) ⊎ ((2 ^ 63 ≤ n) × (points ≤ℤ pos 0))

quot-Steps : (n k : ℕ) → Steps n k (quot (of_bits n) k)
unfolding quot
quot-Steps n k = elim (Bool-cases (ltb n (2 ^ 63))) [
  | inl e ↦ inl (ground arith, rw (e) refl)
  | inr e ↦ inr (ground arith, rw (e) (not_positive (suc (2 ^ 64 - 1 - n) / k)))
]

module _ {F : Type 0} (c : Clock F) where
  -- Of two times that parseTime reads, of which the end is not before the start, the number of points that
  -- queryRange computes is the number of whole steps from the start to the end as long as there are less than
  -- 2^63 nanoseconds between them; else it is at most zero, so that the bound of 11000 points refuses
  -- nothing. The conversion of floats and the reading of RFC 3339 are to give an int64 each.
  pub parse_time-Steps :
      (s t : String) (start end step : ℤ)
      → ((x : F) → IsInt64 (c.to_int64 x))
      → ((u : String) → Each IsInt64 (c.parse_rfc3339 u))
      → parse_time c s ≡ some start
      → parse_time c t ≡ some end
      → start ≤ℤ end
      → Steps (nanos start end) (pos_part step) (points start end step)
  unfolding points
  parse_time-Steps s t start end step h k ps pt le =
      rw (time_between-nanos start end le small) (quot-Steps (nanos start end) (pos_part step))
    where
      small : nanos start end < 2 ^ 64
      small =
          nanos-lt start end (subst (Each IsMillis) ps (parse_time-IsMillis c h k s))
            (subst (Each IsMillis) pt (parse_time-IsMillis c h k t))
