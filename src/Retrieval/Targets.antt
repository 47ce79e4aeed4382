-- ===== src/Retrieval/Targets.antt =====
-- The type Targets of retrieval/target.go and what a target tells about itself: its text, its hash and the
-- results of its last scrape.
pub mod Laws
use promeproxy.Common.{ℕ, String, Bool, Option, List, [], ◌∷◌, length, ℤ}
use promeproxy.Common.Sorting.{swap, less_at}
use promeproxy.Retrieval.Target.{TargetHealth, Target, report, Url, url}
use promeproxy.Model.{LabelSet}

module _ {E : Type 0} where
  -- Target.String; `url_string` is URL.String of the url
  unfoldable pub target_string : (Url → String) → Target E → String
  unfolding url
  target_string url_string t = url_string (url t)

  -- Target.hash; `fingerprint` is LabelSet.Fingerprint as a text, and `sum` is what fnv.New64a sums up after
  -- the texts were written to it, in order
  unfoldable pub target_hash :
      (LabelSet → String) → (Url → String) → (List String → ℕ) → Target E → ℕ
  unfolding url
  target_hash fingerprint url_string sum t = sum (fingerprint t.labels ∷ url_string (url t) ∷ [])

  -- Target.LastError, Target.LastScrape and Target.Health
  unfoldable pub last_error : Target E → Option E
  last_error t = t.last_error

  unfoldable pub last_scrape : Target E → ℤ
  last_scrape t = t.last_scrape

  unfoldable pub health : Target E → TargetHealth
  health t = t.health

  -- Targets.Len
  unfoldable pub targets_len : List (Target E) → ℕ
  targets_len ts = length ts

  -- the comparison of Targets.Less; `less` is `<` of strings
  unfoldable pub urls_less : (String → String → Bool) → (Url → String) → Target E → Target E → Bool
  unfolding target_string
  urls_less less url_string a b = less (target_string url_string a) (target_string url_string b)

  -- Targets.Less
  unfoldable pub targets_less :
      (String → String → Bool) → (Url → String) → ℕ → ℕ → List (Target E) → Option Bool
  unfolding less_at urls_less
  targets_less less url_string i j ts = less_at (urls_less less url_string) i j ts

  -- Targets.Swap
  unfoldable pub targets_swap : ℕ → ℕ → List (Target E) → Option (List (Target E))
  unfolding swap
  targets_swap i j ts = swap i j ts

  -- the calls of report that the scrapes of a target make, in order, each with its start and its error
  unfoldable pub reported : List (ℤ × Option E) → Target E → Target E
  unfolding report
  reported [] t = t
  reported ((start, err) ∷ rs) t = reported rs (report start err t)
