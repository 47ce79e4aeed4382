-- ===== src/Labels.antt =====
-- Label sets and metrics as the maps that they are, without the order of an iteration: the abstract view of
-- what retrieval/target.go, storage/remote/queue_manager.go and storage/remote/read.go do to labels.
use mathlib.Core.Quot
use mathlib.Core.Quot.{Quot, Quot-set}
use promeproxy.Common.{
  String, ◌≡◌, refl, sym, ap, ◌∙◌, true, Option, none, some, List, [], ◌∷◌, if◌then◌else◌, All, has,
  lookup, or_else, or_else_assoc, or_else-none, Unique, delete_all, lookup-delete_all, fill,
  lookup-fill,
}
use promeproxy.Common.{string_eq}
use promeproxy.Model.{LabelSet, SamplePair, SampleStream, Sample}
use promeproxy.Storage.{SampleAppender}
use promeproxy.Retrieval.Appenders.{honor_labels_append}
use promeproxy.Remote.Queue.Manager.{with_external_labels}
use promeproxy.Remote.Queue.Manager.Laws.{lookup-with_external_labels}
use promeproxy.Remote.Read.{remove_labels}

-- Two lists are one map.
abbrev pub SameLabels : LabelSet → LabelSet → Type 0
SameLabels m n = (ln : String) → lookup ln m ≡ lookup ln n

abbrev pub LabelMap : Type 0
LabelMap = Quot SameLabels

abbrev pub label_map : LabelSet → LabelMap
label_map m = Quot.mk m

pub fill-SameLabels : (add m n : LabelSet) → SameLabels m n → SameLabels (fill add m) (fill add n)
fill-SameLabels add m n h ln =
    lookup-fill add m ln ∙ ap (λ o. or_else o (lookup ln add)) (h ln) ∙ sym (lookup-fill add n ln)

-- The map with the labels that it has not: `fill` on maps.
abbrev pub with_missing : LabelSet → LabelMap → LabelMap
with_missing add =
    Quot.lift Quot-set (λ m. label_map (fill add m))
      (λ m n h. Quot.sound (fill-SameLabels add m n h))

-- The order of the labels that are added plays no part.
with_missing-order :
    (add add' : LabelSet)
    → SameLabels add add'
    → (b : LabelMap) → with_missing add b ≡ with_missing add' b
with_missing-order add add' h =
    Quot.ind (λ b. Quot-set _ _)
      (λ m. Quot.sound (λ ln.
        lookup-fill add m ln ∙ ap (or_else (lookup ln m)) (h ln) ∙ sym (lookup-fill add' m ln)))

-- Adding missing labels twice is adding those of both, of which the first count.
with_missing-twice :
    (add add' : LabelSet) (b : LabelMap)
    → with_missing add' (with_missing add b) ≡ with_missing (fill add' add) b
with_missing-twice add add' =
    Quot.ind (λ b. Quot-set _ _)
      (λ m. Quot.sound (λ ln.
        lookup-fill add' (fill add m) ln
        ∙ ap (λ o. or_else o (lookup ln add')) (lookup-fill add m ln)
        ∙ or_else_assoc (lookup ln m) (lookup ln add) (lookup ln add')
        ∙ ap (or_else (lookup ln m)) (sym (lookup-fill add' add ln))
        ∙ sym (lookup-fill (fill add' add) m ln)))

module _ {V W E : Type 0} (next : SampleAppender V W E) where
  -- Two honorLabelsAppenders in a row, of which the one with `labels` comes last, hand on what one of them
  -- hands on with the labels of both, where those of the first count before the last's; as maps, with
  -- the same value and timestamp.
  pub honor_labels_append-twice :
      (first labels : LabelSet) (s : Sample V) (w : W)
      → (t u : Sample V) × (honor_labels_append
            (record {
              append = honor_labels_append next labels;
              needs_throttling = next.needs_throttling;
            })
            first
            s
            w
          ≡ next.append t w)
        × (honor_labels_append next (fill labels first) s w ≡ next.append u w)
        × (label_map t.metric ≡ label_map u.metric)
        × (t.value ≡ u.value)
        × (t.timestamp ≡ u.timestamp)
  unfolding honor_labels_append
  honor_labels_append-twice first labels s w = (
    record s { metric = fill labels (fill first s.metric) },
    record s { metric = fill (fill labels first) s.metric },
    refl,
    refl,
    with_missing-twice first labels (label_map s.metric),
    refl,
    refl,
  )

-- none of the labels is in the metric
abbrev pub IsApart : LabelSet → LabelSet → Type 0
IsApart labels metric = (ln : String) → has (lookup ln labels) ≡ true → lookup ln metric ≡ none

gone : (o p : Option String) → (has o ≡ true → p ≡ none) → (if has o then none else or_else p o) ≡ p
gone none p h = or_else-none p
gone (some v) p h = sym (h refl)

delete_all-with_external_labels :
    (labels metric : LabelSet)
    → Unique labels
    → IsApart labels metric
    → SameLabels (delete_all labels (with_external_labels labels metric)) metric
delete_all-with_external_labels labels metric u a ln =
    lookup-delete_all labels (with_external_labels labels metric) ln
    ∙ rw (lookup-with_external_labels labels metric ln u)
        (gone (lookup ln labels) (lookup ln metric) (a ln))

module _ {V : Type 0} where
  -- the streams as a remote storage has them, written with the external labels
  abbrev pub as_written : LabelSet → List (SampleStream V) → List (SampleStream V)
  as_written labels [] = []
  as_written labels (ss ∷ sss) =
      record ss { metric = with_external_labels labels ss.metric } ∷ as_written labels sss

  -- the streams by their maps
  abbrev pub as_maps : List (SampleStream V) → List (LabelMap × List (SamplePair V))
  as_maps [] = []
  as_maps (ss ∷ sss) = (label_map ss.metric, ss.values) ∷ as_maps sss

  -- Streams that were written with external labels, which their metrics had not, come back from removeLabels
  -- with their own labels and samples, as maps, if the external labels name none twice.
  pub remove_labels-as_written :
      (labels : LabelSet) (sss : List (SampleStream V))
      → Unique labels
      → All (λ ss. IsApart labels ss.metric) sss
      → as_maps (remove_labels (as_written labels sss) labels) ≡ as_maps sss
  unfolding remove_labels
  remove_labels-as_written labels [] u a = refl
  remove_labels-as_written labels (ss ∷ sss) u (a, as_) = λ i.
      (Quot.sound (delete_all-with_external_labels labels ss.metric u a) i, ss.values)
      ∷ remove_labels-as_written labels sss u as_ i
