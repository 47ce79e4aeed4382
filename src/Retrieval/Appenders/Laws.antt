-- ===== src/Retrieval/Appenders/Laws.antt =====
-- The appenders of retrieval/target.go: which labels they give to a sample.
use text.Mathlib.TextPositions.{len-append, eq_refl}
use promeproxy.Common.{
  string_eq, String, ◌≡◌, refl, sym, ap, ◌∙◌, subst, ◌≢◌, inl, inr, false, some, [], ◌∷◌, arith,
  if◌then◌else◌, ◌==◌, Bool-cases, Option-cases, str_len, All, get_or, lookup, insert,
  lookup-insert, or_else, fill, lookup-fill,
}
use promeproxy.Model.{LabelSet, Sample}
use promeproxy.Storage.{SampleAppender}
use promeproxy.Retrieval.Appenders.{exported, rule_label, rule_labels, honor_labels_append}

module _ {V W E : Type 0} (next : SampleAppender V W E) where
  -- A sample goes on with its own labels and, for names that it has not, those of the appender.
  pub honor_labels_append-labels :
      (labels : LabelSet) (s : Sample V) (w : W)
      → (s' : Sample V) × (honor_labels_append next labels s w ≡ next.append s' w)
        × (s'.value ≡ s.value)
        × (s'.timestamp ≡ s.timestamp)
        × ((ln : String) → lookup ln s'.metric ≡ or_else (lookup ln s.metric) (lookup ln labels))
  unfolding honor_labels_append
  honor_labels_append-labels labels s w = (
    record s { metric = fill labels s.metric },
    refl,
    refl,
    refl,
    λ ln. lookup-fill labels s.metric ln,
  )

ne-beq : (s t : String) → s ≢ t → (s == t) ≡ false
ne-beq s t n = ground (arith, string_eq.beq_iff s t)

exported-ne' : (ln : String) → exported ln ≢ ln
exported-ne' ln e = omega (arith, ap str_len e, len-append "exported_" ln)

exported-ne : (ln : String) → (exported ln == ln) ≡ false
exported-ne ln = ne-beq (exported ln) ln (exported-ne' ln)

exported_twice-ne : (ln : String) → exported (exported ln) ≢ ln
exported_twice-ne ln e =
    omega (arith, ap str_len e, len-append "exported_" (exported ln), len-append "exported_" ln)

lookup-rule_label :
    (ln lv j : String) (m : LabelSet)
    → lookup j (rule_label ln lv m) ≡ (
        if ln == j
        then some lv
        else if exported ln == j
        then (if get_or (lookup ln m) "" == "" then lookup j m else lookup ln m)
        else lookup j m)
unfolding rule_label
lookup-rule_label ln lv j m = elim (Option-cases (lookup ln m)) [
  | inl e ↦ rw (e, rule_label, lookup-insert ln j lv m) (ground arith)
  | inr (v, e) ↦
      rw (e, rule_label, lookup-insert ln j lv (if v == "" then m else insert (exported ln) v m))
        (ground (arith, lookup-insert (exported ln) j v m))
]

-- The label is none of the names, nor the exported form of one of them.
abbrev pub IsUntouched : String → LabelSet → Type 0
IsUntouched j = All (λ e. ((e.0 == j) ≡ false) × ((exported e.0 == j) ≡ false))

-- What the appender leaves as it was.
lookup-rule_labels_untouched :
    (labels m : LabelSet) (j : String)
    → IsUntouched j labels
    → lookup j (rule_labels labels m) ≡ lookup j m
unfolding rule_labels
lookup-rule_labels_untouched [] m j u = refl
lookup-rule_labels_untouched ((ln, lv) ∷ labels) m j u =
    lookup-rule_labels_untouched labels (rule_label ln lv m) j u.1
    ∙ lookup-rule_label ln lv j m
    ∙ rw (u.0.0, u.0.1)

-- No name comes twice, and none is the exported form of another.
abbrev pub AreApart : LabelSet → Type 0
AreApart [] = Unit
AreApart ((ln, lv) ∷ labels) =
    IsUntouched ln labels
    × IsUntouched (exported ln) labels
    × All (λ e. (exported ln == e.0) ≡ false) labels
    × AreApart labels

not-exported :
    (k ln lv : String) (labels : LabelSet)
    → All (λ e. (exported k == e.0) ≡ false) labels
    → lookup ln labels ≡ some lv
    → (exported k == ln) ≡ false
unfolding lookup
not-exported k ln lv [] a h = cc
not-exported k ln lv ((j, w) ∷ labels) a h = elim (Bool-cases (j == ln)) [
  | inl e ↦ subst (λ (x : String). (exported k == x) ≡ false) ((string_eq.beq_iff j ln).0 e) a.0
  | inr e ↦ not-exported k ln lv labels a.1 (rw e at h)
]

-- If no name of the rule's labels comes twice or is the exported form of another, then a sample that
-- carries one of these names with a non-empty value gets the rule's value under it, and its own value
-- under the exported name.
pub rule_labels-exports :
    (labels m : LabelSet) (ln lv v : String)
    → AreApart labels
    → lookup ln labels ≡ some lv
    → lookup ln m ≡ some v
    → v ≢ ""
    → (lookup ln (rule_labels labels m) ≡ some lv)
      × (lookup (exported ln) (rule_labels labels m) ≡ some v)
unfolding lookup rule_labels
rule_labels-exports [] m ln lv v a l h n = cc
rule_labels-exports ((k, w) ∷ labels) m ln lv v (u, t, x, a) l h n = elim (Bool-cases (k == ln)) [
  | inl e ↦
      let same : k ≡ ln = (string_eq.beq_iff k ln).0 e in
      let chosen : some w ≡ some lv = rw e at l in
      let value : w ≡ lv = cc in
      (
        lookup-rule_labels_untouched labels (rule_label k w m) ln
              (subst (λ (j : String). IsUntouched j labels) same u)
            ∙ lookup-rule_label k w ln m
            ∙ rw (e, value),
        lookup-rule_labels_untouched labels (rule_label k w m) (exported ln)
              (subst (λ (j : String). IsUntouched (exported j) labels) same t)
            ∙ lookup-rule_label k w (exported ln) m
            ∙ rw (
              same,
              ne-beq ln (exported ln) (λ q. exported-ne' ln (sym q)),
              eq_refl (exported ln),
              h,
              ne-beq v "" n,
            ),
      )
  | inr e ↦
      rule_labels-exports labels (rule_label k w m) ln lv v a (rw e at l)
        (lookup-rule_label k w ln m ∙ rw (e, not-exported k ln lv labels x (rw e at l)) h) n
]

-- Without that condition the order of the iteration over the labels decides: with a name and its
-- exported form both among the rule's labels, the exported name ends with the rule's value in one order
-- and with the sample's in the other.
pub rule_labels-order :
    (ln lv ev v : String) (m : LabelSet)
    → lookup ln m ≡ some v
    → v ≢ ""
    → (lookup (exported ln) (rule_labels ((ln, lv) ∷ (exported ln, ev) ∷ []) m) ≡ some ev)
      × (lookup (exported ln) (rule_labels ((exported ln, ev) ∷ (ln, lv) ∷ []) m) ≡ some v)
unfolding rule_labels
rule_labels-order ln lv ev v m h n = (
  lookup-rule_label (exported ln) ev (exported ln) (rule_label ln lv m)
      ∙ rw (eq_refl (exported ln)),
  lookup-rule_label ln lv (exported ln) (rule_label (exported ln) ev m)
      ∙ rw (
        ne-beq ln (exported ln) (λ q. exported-ne' ln (sym q)),
        eq_refl (exported ln),
        lookup-rule_label (exported ln) ev ln m,
        exported-ne ln,
        ne-beq (exported (exported ln)) ln (exported_twice-ne ln),
        h,
        ne-beq v "" n,
      ),
)
