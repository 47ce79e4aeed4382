-- ===== src/Retrieval/Appenders.antt =====
-- The sample appenders of retrieval/target.go, which change a sample and hand it on.
pub mod Laws
use promeproxy.Common.{
  string_eq, ℕ, ◌+◌, String, Option, none, some, List, [], ◌∷◌, ◌++◌, if◌then◌else◌, ◌==◌,
  str_append, lookup, insert, fill,
}
use promeproxy.Model.{LabelSet, Sample}
use promeproxy.Storage.{SampleAppender}

abbrev pub exported : String → String
exported ln = str_append "exported_" ln

-- one round of the loop of ruleLabelsAppender.Append
unfoldable pub rule_label : String → String → LabelSet → LabelSet
rule_label ln lv m = elim (lookup ln m) [
  | none ↦ insert ln lv m
  | some v ↦ insert ln lv (if v == "" then m else insert (exported ln) v m)
]

unfoldable pub rule_labels : LabelSet → LabelSet → LabelSet
rule_labels [] m = m
rule_labels ((ln, lv) ∷ labels) m = rule_labels labels (rule_label ln lv m)

module _ {V W E : Type 0} (next : SampleAppender V W E) where
  -- ruleLabelsAppender.Append
  unfoldable pub rule_labels_append : LabelSet → Sample V → W → W × Option E
  unfolding rule_labels
  rule_labels_append labels s w = next.append (record s { metric = rule_labels labels s.metric }) w

  -- honorLabelsAppender.Append
  unfoldable pub honor_labels_append : LabelSet → Sample V → W → W × Option E
  honor_labels_append labels s w = next.append (record s { metric = fill labels s.metric }) w

  -- relabelAppender.Append; `process` is relabel.Process with the appender's configurations
  unfoldable pub relabel_append : (LabelSet → Option LabelSet) → Sample V → W → W × Option E
  relabel_append process s w = elim (process s.metric) [
    | none ↦ (w, none)
    | some labels ↦ next.append (record s { metric = labels }) w
  ]

  -- countingAppender.Append, with its count beside the state
  unfoldable pub counting_append : Sample V → ℕ × W → (ℕ × W) × Option E
  counting_append s (count, w) = let (w', err) = next.append s w in ((count + 1, w'), err)

-- bufferAppender.Append
unfoldable pub buffer_append :
    {V E : Type 0} → Sample V → List (Sample V) → List (Sample V) × Option E
buffer_append s buffer = (buffer ++ s ∷ [], none)
