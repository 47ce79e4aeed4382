-- ===== src/Retrieval/Target/Laws.antt =====
-- retrieval/target.go: a target's labels, and when populateLabels makes a target.
use mathlib.Core.Bool.{true≢false}
use native.Mathlib.Nat.{mod-lt}
use text.Mathlib.Text.{starts_with}
use promeproxy.Common.{
  string_eq, nat_eq, ℕ, ◌≤◌, ◌<◌, String, ◌≡◌, refl, sym, ap, ◌∙◌, subst, ◌⊎◌, inl, inr, Bool, true,
  false, Option, none, some, [], ◌∷◌, arith, if◌then◌else◌, ◌==◌, Bool-cases, Option-cases, All,
  has, get_or, lookup, lookup-insert,
}
use promeproxy.Model.{LabelSet}
use promeproxy.Retrieval.Target.{
  Target, public_labels, labels_of, offset, TargetConfig, Populated, dropped, failed, populated,
  scrape_labels, Outside, with_port, is_meta, strip_meta, default_instance, finish_labels,
  check_labels, populate_labels,
}

same_none : (b : Bool) → ◌≡◌ {A = Option String} none (if b then none else none)
same_none true = refl
same_none false = refl

lookup-public_labels :
    (m : LabelSet) (ln : String)
    → lookup ln (public_labels m) ≡ (if starts_with ln "__" then none else lookup ln m)
unfolding lookup public_labels
lookup-public_labels [] ln = same_none (starts_with ln "__")
lookup-public_labels ((k, v) ∷ m) ln =
    ground (arith, string_eq.beq_iff k ln, lookup-public_labels m ln)

-- Target.Labels holds the labels whose names do not begin with `__`, with their values, and no others.
pub lookup-labels_of :
    {E : Type 0} (t : Target E) (ln : String)
    → lookup ln (labels_of t) ≡ (if starts_with ln "__" then none else lookup ln t.labels)
unfolding labels_of
lookup-labels_of t ln = lookup-public_labels t.labels ln

-- The time to the next scrape is at most the interval, if that is positive.
pub offset-le : (now hash interval : ℕ) → 0 < interval → offset now hash interval ≤ interval
unfolding offset
offset-le now hash interval h = ground (arith, mod-lt now h, mod-lt hash h)

Sum-cases {ℓ κ} :
    {A : Type ℓ} {B : Type κ} (s : A ⊎ B) → ((a : A) × (s ≡ inl a)) ⊎ ((b : B) × (s ≡ inr b))
Sum-cases (inl a) = inl (a, refl)
Sum-cases (inr b) = inr (b, refl)

module _ (o : Outside) where
  -- What populateLabels promises of a target's labels: no meta label, an address that passes the
  -- check, and an instance.
  pub record IsTarget (lset : LabelSet) : Type 0 where
    pub no_meta : (ln : String) → is_meta o ln ≡ true → lookup ln lset ≡ none
    pub address : o.address_ok (get_or (lookup "__address__" lset) "") ≡ true
    pub instance_label : has (lookup "instance" lset) ≡ true

  -- What the loop over the labels leaves.
  abbrev Strips : LabelSet → Option LabelSet → Type 0
  Strips m none = Unit
  Strips m (some m') =
      ((ln : String) → lookup ln m' ≡ (if is_meta o ln then none else lookup ln m))
      × All (λ e. o.valid e.1 ≡ true) m'

  Strips-skip :
      (k v : String) (m : LabelSet) (r : Option LabelSet)
      → is_meta o k ≡ true
      → Strips m r
      → Strips ((k, v) ∷ m) r
  unfolding lookup
  Strips-skip k v m none e s = tt
  Strips-skip k v m (some m') e s = (λ ln. ground (arith, string_eq.beq_iff k ln, s.0 ln), s.1)

  Strips-keep :
      (k v : String) (m : LabelSet) (r : Option LabelSet)
      → is_meta o k ≡ false
      → o.valid v ≡ true
      → Strips m r
      → Strips ((k, v) ∷ m) (elim r [ none ↦ none | some m' ↦ some ((k, v) ∷ m') ])
  unfolding lookup
  Strips-keep k v m none e g s = tt
  Strips-keep k v m (some m') e g s =
      (λ ln. ground (arith, string_eq.beq_iff k ln, s.0 ln), (g, s.1))

  strip_meta-Strips : (m : LabelSet) → Strips m (strip_meta o m)
  unfolding lookup strip_meta
  strip_meta-Strips [] = (λ ln. same_none (is_meta o ln), tt)
  strip_meta-Strips ((k, v) ∷ m) = elim (Bool-cases (is_meta o k)) [
    | inl e ↦ rw (e, strip_meta) (Strips-skip k v m (strip_meta o m) e (strip_meta-Strips m))
    | inr e ↦ elim (Bool-cases (o.valid v)) [
      | inl g ↦ rw (e, g, strip_meta) (Strips-keep k v m (strip_meta o m) e g (strip_meta-Strips m))
      | inr g ↦ rw (e, g, strip_meta) tt
    ]
  ]

  lookup-default_instance :
      (m : LabelSet) (ln : String)
      → lookup ln (default_instance o m) ≡ (
          if "instance" == ln
          then some (get_or (lookup "instance" m) (get_or (lookup "__address__" m) ""))
          else lookup ln m)
  unfolding default_instance
  lookup-default_instance m ln = elim (Option-cases (lookup "instance" m)) [
    | inl e ↦ rw (e, default_instance) (lookup-insert "instance" ln _ m)
    | inr (v, e) ↦ rw (e, default_instance) (ground (arith, string_eq.beq_iff "instance" ln, e))
  ]

  stripped-IsTarget :
      (lset m : LabelSet)
      → Strips lset (some m)
      → o.address_ok (get_or (lookup "__address__" lset) "") ≡ true
      → IsTarget (default_instance o m)
  stripped-IsTarget lset m s h = record {
    no_meta = λ ln e. elim (Bool-cases ("instance" == ln)) [
      | inl i ↦
          absurd (true≢false (sym e ∙ ap (is_meta o) (sym ((string_eq.beq_iff "instance" ln).0 i))))
      | inr i ↦ rw (lookup-default_instance m ln, i, s.0 ln, e) refl
    ];
    address = rw (lookup-default_instance m "__address__", s.0 "__address__") h;
    instance_label = rw (lookup-default_instance m "instance") refl;
  }

  -- finish_labels makes no target, or one as IsTarget says.
  abbrev Finishes : LabelSet → Populated → Type 0
  Finishes pre dropped = Unit
  Finishes pre (failed err) = Unit
  Finishes pre (populated labels orig) = IsTarget labels × (orig ≡ pre)

  finish_labels-Finishes : (pre lset : LabelSet) → Finishes pre (finish_labels o pre lset)
  unfolding finish_labels
  finish_labels-Finishes pre lset =
      elim (Bool-cases (o.address_ok (get_or (lookup "__address__" lset) ""))) [
        | inr h ↦ rw (h, finish_labels) tt
        | inl h ↦ elim (Option-cases (strip_meta o lset)) [
          | inl e ↦ rw (h, e, finish_labels) tt
          | inr (m, e) ↦
              rw (h, e, finish_labels)
                (stripped-IsTarget lset m (subst (Strips lset) e (strip_meta-Strips lset)) h, refl)
        ]
      ]

  check_labels-Finishes : (pre lset : LabelSet) → Finishes pre (check_labels o pre lset)
  unfolding check_labels
  check_labels-Finishes pre lset = elim (Option-cases (lookup "__address__" lset)) [
    | inl e ↦ rw (e, check_labels) tt
    | inr (addr, e) ↦ elim (Sum-cases (with_port o lset addr)) [
      | inl (lset', g) ↦ rw (e, g, check_labels) (finish_labels-Finishes pre lset')
      | inr (err, g) ↦ rw (e, g, check_labels) tt
    ]
  ]

  populate_labels-Finishes :
      (lset : LabelSet) (cfg : TargetConfig)
      → Finishes (scrape_labels cfg lset) (populate_labels o lset cfg)
  unfolding populate_labels
  populate_labels-Finishes lset cfg = elim (Option-cases (o.process (scrape_labels cfg lset))) [
    | inl e ↦ rw (e, populate_labels) tt
    | inr (m, e) ↦ rw (e, populate_labels) (check_labels-Finishes (scrape_labels cfg lset) m)
  ]

  -- When populateLabels returns labels, they have no meta label, an address that passes the check and
  -- an instance, and the original labels are those before relabelling.
  pub populate_labels-IsTarget :
      (lset : LabelSet) (cfg : TargetConfig) (labels orig : LabelSet)
      → populate_labels o lset cfg ≡ populated labels orig
      → IsTarget labels × (orig ≡ scrape_labels cfg lset)
  populate_labels-IsTarget lset cfg labels orig e =
      subst (Finishes (scrape_labels cfg lset)) e (populate_labels-Finishes lset cfg)
