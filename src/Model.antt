-- ===== src/Model.antt =====
-- The types of prometheus/common/model that the sources pass about, and the samples' order.
use promeproxy.Common.{
  ◌-◌, ◌^◌, String, Bool, List, [], ◌∷◌, arith, All, ℤ, pos, negsuc, ◌≤ℤ◌, ◌<ℤ◌, ltb_ℤ,
}

-- model.Earliest and model.Latest: the ends of int64.
abbrev pub earliest : ℤ
earliest = negsuc (2 ^ 63 - 1)

abbrev pub latest : ℤ
latest = pos (2 ^ 63 - 1)

-- A label set, and a metric: label names with their values.
abbrev pub LabelSet : Type 0
LabelSet = List (String × String)

-- `V` stands for the float64 of a sample's value.
pub record SamplePair (V : Type 0) : Type 0 where
  pub timestamp : ℤ
  pub value : V

pub record SampleStream (V : Type 0) : Type 0 where
  pub metric : LabelSet
  pub values : List (SamplePair V)

-- The code's Before and After.
abbrev pub before : ℤ → ℤ → Bool
before t u = ltb_ℤ t u

abbrev pub after : ℤ → ℤ → Bool
after t u = ltb_ℤ u t

module _ {V : Type 0} where
  -- All samples are later than `t`.
  abbrev pub Later : ℤ → List (SamplePair V) → Type 0
  Later t = All (λ s. t <ℤ s.timestamp)

  -- Timestamps rise strictly.
  abbrev pub Ascending : List (SamplePair V) → Type 0
  Ascending [] = Unit
  Ascending (s ∷ ss) = Later s.timestamp ss × Ascending ss

  pub Later-trans : (t u : ℤ) (ss : List (SamplePair V)) → t ≤ℤ u → Later u ss → Later t ss
  Later-trans t u [] h l = tt
  Later-trans t u (s ∷ ss) h l = (omega arith, Later-trans t u ss h l.1)

pub record Sample (V : Type 0) : Type 0 where
  pub metric : LabelSet
  pub value : V
  pub timestamp : ℤ
