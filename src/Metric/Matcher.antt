-- ===== src/Metric/Matcher.antt =====
-- LabelMatcher of the package storage/metric of Prometheus, which the sources import, by its fields. `R`
-- stands for a compiled regular expression, and `F` for a score.
use promeproxy.Common.{String, Option}

pub data MatchType : Type 0 where
  equal not_equal regex_match regex_no_match : MatchType

pub record LabelMatcher (R F : Type 0) : Type 0 where
  pub type : MatchType
  pub name : String
  pub value : String
  pub re : Option R
  pub score : F
