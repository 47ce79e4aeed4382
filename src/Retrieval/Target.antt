-- ===== src/Retrieval/Target.antt =====
-- retrieval/target.go: targets, and how they come from a target group.
pub mod Laws
use text.Mathlib.Text.{starts_with}
use promeproxy.Common.{
  string_eq, nat_eq, ℕ, ◌+◌, ◌-◌, ◌%◌, String, ◌⊎◌, inl, inr, Bool, false, ◌||◌, Option, none, some,
  List, [], ◌∷◌, ltb, if◌then◌else◌, ◌==◌, str_append, str_len, str_slice, ℤ, has, get_or, lookup,
  insert, fill,
}
use promeproxy.Model.{LabelSet}

pub data TargetHealth : Type 0 where
  unknown good bad : TargetHealth

-- Target. `E` stands for errors.
pub record Target (E : Type 0) : Type 0 where
  pub discovered_labels : LabelSet
  pub labels : LabelSet
  pub params : List (String × List String)
  pub last_error : Option E
  pub last_scrape : ℤ
  pub health : TargetHealth

-- the loop of Target.Labels
unfoldable pub public_labels : LabelSet → LabelSet
public_labels [] = []
public_labels ((ln, lv) ∷ m) =
    let rest = public_labels m in if starts_with ln "__" then rest else (ln, lv) ∷ rest

module _ {E : Type 0} where
  -- NewTarget; lastScrape is the zero time
  unfoldable pub new_target : LabelSet → LabelSet → List (String × List String) → ℤ → Target E
  new_target labels discovered_labels params zero_time = record {
    discovered_labels = discovered_labels;
    labels = labels;
    params = params;
    last_error = none;
    last_scrape = zero_time;
    health = unknown;
  }

  -- Target.report
  unfoldable pub report : ℤ → Option E → Target E → Target E
  report start err t = record t {
    health = if has err then bad else good;
    last_error = err;
    last_scrape = start;
  }

  -- Target.Labels
  unfoldable pub labels_of : Target E → LabelSet
  unfolding public_labels
  labels_of t = public_labels t.labels

-- the first value of a parameter is replaced, or the parameter gets the value alone
abbrev pub replace_first : Option (List String) → String → List String
replace_first none v = v ∷ []
replace_first (some []) v = v ∷ []
replace_first (some (x ∷ xs)) v = v ∷ xs

-- the loop of Target.URL over the labels; the parameter's name follows the prefix `__param_`
unfoldable pub url_params : LabelSet → List (String × List String) → List (String × List String)
url_params [] params = params
url_params ((k, v) ∷ labels) params = url_params labels (
    if starts_with k "__param_"
    then insert (str_slice k 8 (str_len k))
        (replace_first (lookup (str_slice k 8 (str_len k)) params) v) params
    else params)

-- url.URL, with its query before it is encoded
pub record Url : Type 0 where
  pub scheme : String
  pub host : String
  pub path : String
  pub query : List (String × List String)

unfoldable pub url : {E : Type 0} → Target E → Url
unfolding url_params
url t = record {
  scheme = get_or (lookup "__scheme__" t.labels) "";
  host = get_or (lookup "__address__" t.labels) "";
  path = get_or (lookup "__metrics_path__" t.labels) "";
  query = url_params t.labels t.params;
}

-- Target.offset; `now` is the clock's time in nanoseconds, and `hash` the target's hash
unfoldable pub offset : ℕ → ℕ → ℕ → ℕ
offset now hash interval =
    let next = now % interval + hash % interval in
    if ltb interval next then next - interval else next

-- What populateLabels reads of config.ScrapeConfig.
pub record TargetConfig : Type 0 where
  pub scheme : String
  pub metrics_path : String
  pub job_name : String
  pub params : List (String × List String)

pub data TargetError : Type 0 where
  no_address invalid_scheme invalid_address invalid_value : TargetError

-- What populateLabels returns: nothing, an error, or the labels after and before relabelling.
pub data Populated : Type 0 where
  dropped : Populated
  failed : TargetError → Populated
  populated : LabelSet → LabelSet → Populated

-- the loop over cfg.Params
unfoldable pub param_labels : List (String × List String) → LabelSet → LabelSet
param_labels [] m = m
param_labels ((k, []) ∷ ps) m = param_labels ps m
param_labels ((k, v ∷ vs) ∷ ps) m = param_labels ps (insert (str_append "__param_" k) v m)

-- the labels before relabelling
unfoldable pub scrape_labels : TargetConfig → LabelSet → LabelSet
unfolding param_labels
scrape_labels cfg lset = param_labels cfg.params (
    fill
      (("__scheme__", cfg.scheme)
        ∷ ("__metrics_path__", cfg.metrics_path)
        ∷ ("job", cfg.job_name)
        ∷ [])
      lset)

-- The outside functions: relabel.Process with the configuration's rules, net.SplitHostPort's success,
-- config.CheckTargetAddress's success, and LabelValue.IsValid.
pub record Outside : Type 0 where
  pub process : LabelSet → Option LabelSet
  pub splits : String → Bool
  pub address_ok : String → Bool
  pub valid : String → Bool

module _ (o : Outside) where
  -- addPort
  abbrev pub add_port : String → Bool
  add_port s = if o.splits s then false else o.splits (str_append s ":1234")

  -- the switch on the scheme: the port that is appended, or none
  abbrev pub default_port : String → Option String
  default_port scheme =
      if scheme == "http" || scheme == ""
      then some ":80"
      else if scheme == "https"
      then some ":443"
      else none

  -- the address with its port, or the error
  unfoldable pub with_port : LabelSet → String → LabelSet ⊎ TargetError
  with_port lset addr =
      if add_port addr
      then (elim (default_port (get_or (lookup "__scheme__" lset) "")) [
        | none ↦ inr invalid_scheme
        | some port ↦ inl (insert "__address__" (str_append addr port) lset)
      ])
      else inl lset

  abbrev pub is_meta : String → Bool
  is_meta ln = starts_with ln "__meta_"

  -- the loop that deletes the meta labels and checks the others' values; none is an invalid value
  unfoldable pub strip_meta : LabelSet → Option LabelSet
  strip_meta [] = some []
  strip_meta ((ln, lv) ∷ m) =
      let rest = strip_meta m in
      if is_meta ln
      then rest
      else if o.valid lv
      then (elim rest [ none ↦ none | some m' ↦ some ((ln, lv) ∷ m') ])
      else none

  unfoldable pub default_instance : LabelSet → LabelSet
  default_instance lset = elim (lookup "instance" lset) [
    | some v ↦ lset
    | none ↦ insert "instance" (get_or (lookup "__address__" lset) "") lset
  ]

  -- populateLabels from the check of the address on
  unfoldable pub finish_labels : LabelSet → LabelSet → Populated
  unfolding strip_meta default_instance
  finish_labels pre lset =
      if o.address_ok (get_or (lookup "__address__" lset) "")
      then (elim (strip_meta lset) [
        | none ↦ failed invalid_value
        | some m ↦ populated (default_instance m) pre
      ])
      else failed invalid_address

  -- populateLabels from the relabelled labels on
  unfoldable pub check_labels : LabelSet → LabelSet → Populated
  unfolding with_port finish_labels
  check_labels pre lset = elim (lookup "__address__" lset) [
    | none ↦ failed no_address
    | some addr ↦ elim (with_port lset addr) [
      | inr err ↦ failed err
      | inl lset' ↦ finish_labels pre lset'
    ]
  ]

  -- populateLabels
  unfoldable pub populate_labels : LabelSet → TargetConfig → Populated
  unfolding scrape_labels check_labels
  populate_labels lset cfg = elim (o.process (scrape_labels cfg lset)) [
    | none ↦ dropped
    | some relabelled ↦ check_labels (scrape_labels cfg lset) relabelled
  ]

  -- targetsFromGroup: the targets, or the index of the first that fails, with its error
  unfoldable pub targets_from_group :
      {E : Type 0}
      → ℕ
      → ℤ
      → LabelSet
      → TargetConfig
      → List LabelSet
      → List (Target E) ⊎ (ℕ × TargetError)
  unfolding populate_labels new_target
  targets_from_group i zero_time group_labels cfg [] = inl []
  targets_from_group i zero_time group_labels cfg (lset ∷ lsets) =
      let rest = targets_from_group (i + 1) zero_time group_labels cfg lsets in
      elim (populate_labels (fill group_labels lset) cfg) [
        | failed err ↦ inr (i, err)
        | dropped ↦ rest
        | populated labels orig ↦ elim rest [
          | inr err ↦ inr err
          | inl ts ↦ inl (new_target labels orig cfg.params zero_time ∷ ts)
        ]
      ]
