-- ===== src/Fanin/Merge.antt =====
-- mergeSamples of storage/fanin/fanin.go.
pub mod Laws
use promeproxy.Common.{true, false, List, [], ◌∷◌}
use promeproxy.Model.{SamplePair, before, after}

module _ {V : Type 0} where
  -- The loop over `a[i:]` and `b[j:]`; what is left of either is appended at the end.
  unfoldable pub merge_samples : List (SamplePair V) → List (SamplePair V) → List (SamplePair V)
  merge_samples [] b = b
  merge_samples (x ∷ a) [] = x ∷ a
  merge_samples (x ∷ a) (y ∷ b) = elim (before x.timestamp y.timestamp) [
    | true ↦ x ∷ merge_samples a (y ∷ b)
    | false ↦ elim (after x.timestamp y.timestamp) [
      | true ↦ y ∷ merge_samples (x ∷ a) b
      | false ↦ x ∷ merge_samples a b
    ]
  ]
