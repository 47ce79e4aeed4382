-- ===== src/Remote/Read.antt =====
-- storage/remote/read.go: the readers of the remote storages, and external labels in their queries.
pub mod Laws
use promeproxy.Common.{
  string_eq, ℕ, ◌+◌, ◌/◌, String, ◌⊎◌, inl, inr, Option, none, some, List, [], ◌∷◌, ◌++◌, map, ℤ,
  pos, ◌-ℤ◌, delete, delete_all,
}
use promeproxy.Model.{LabelSet, SampleStream}
use promeproxy.Metric.Matcher.{LabelMatcher}
use promeproxy.Remote.Client.{Client, ClientConfig, new_client}

-- Reader
pub record Reader (H : Type 0) : Type 0 where
  pub clients : List (Client H)
  pub external_labels : LabelSet

-- What the code uses of config.Config for reading.
pub record ReadConfig (G : Type 0) : Type 0 where
  pub remote_read_configs : List (ClientConfig G)
  pub external_labels : LabelSet

module _ {H G E : Type 0} (new_http_client : G → H ⊎ E) where
  -- the loop that makes the clients, from an index on; it stops at the first error
  unfoldable pub new_clients : ℕ → List (ClientConfig G) → List (Client H) ⊎ E
  unfolding new_client
  new_clients i [] = inl []
  new_clients i (conf ∷ confs) =
      let rest = new_clients (i + 1) confs in
      elim (new_client new_http_client i conf) [
        | inr err ↦ inr err
        | inl c ↦ elim rest [ inr err ↦ inr err | inl cs ↦ inl (c ∷ cs) ]
      ]

  -- Reader.ApplyConfig
  unfoldable pub apply_config : ReadConfig G → Reader H → Reader H × Option E
  unfolding new_clients
  apply_config conf r = elim (new_clients 0 conf.remote_read_configs) [
    | inr err ↦ (r, some err)
    | inl clients ↦ (record { clients = clients; external_labels = conf.external_labels }, none)
  ]

-- querier
pub record RemoteQuerier (H : Type 0) : Type 0 where
  pub client : Client H
  pub external_labels : LabelSet

-- Reader.Queriers
unfoldable pub queriers : {H : Type 0} → Reader H → List (RemoteQuerier H)
queriers r = map (λ c. record { client = c; external_labels = r.external_labels }) r.clients

module _ {R F : Type 0} where
  -- the loop that leaves out the external labels that a matcher names
  unfoldable pub without_matched : List (LabelMatcher R F) → LabelSet → LabelSet
  without_matched [] el = el
  without_matched (m ∷ ms) el = without_matched ms (delete m.name el)

  -- the loop that makes a matcher for each label left, for a constructor of Equal matchers
  abbrev pub equal_matchers :
      (String → String → LabelMatcher R F) → LabelSet → List (LabelMatcher R F)
  equal_matchers new_equal [] = []
  equal_matchers new_equal ((k, v) ∷ el) = new_equal k v ∷ equal_matchers new_equal el

  -- addExternalLabels: the new matchers, and the labels for which matchers were added
  unfoldable pub add_external_labels :
      (String → String → LabelMatcher R F)
      → LabelSet
      → List (LabelMatcher R F)
      → List (LabelMatcher R F) × LabelSet
  unfolding without_matched
  add_external_labels new_equal external_labels matchers =
      let el = without_matched matchers external_labels in
      (matchers ++ equal_matchers new_equal el, el)

module _ {V : Type 0} where
  -- removeLabels
  unfoldable pub remove_labels : List (SampleStream V) → LabelSet → List (SampleStream V)
  remove_labels [] labels = []
  remove_labels (ss ∷ sss) labels =
      record ss { metric = delete_all labels ss.metric } ∷ remove_labels sss labels

  -- querier.read, with the client's Read as an argument
  unfoldable pub read_querier :
      {R F X : Type 0}
      → (String → String → LabelMatcher R F)
      → (ℤ → ℤ → List (LabelMatcher R F) → List (SampleStream V) ⊎ X)
      → LabelSet
      → ℤ
      → ℤ
      → List (LabelMatcher R F)
      → List (SampleStream V) ⊎ X
  unfolding add_external_labels remove_labels
  read_querier new_equal client_read external_labels from through matchers =
      let (m, added) = add_external_labels new_equal external_labels matchers in
      elim (client_read from through m) [
        | inr err ↦ inr err
        | inl res ↦ inl (remove_labels res added)
      ]

  -- querier.QueryInstant: the interval from ts.Add(-stalenessDelta), whose delta is in nanoseconds
  unfoldable pub read_instant :
      {R F X : Type 0}
      → (String → String → LabelMatcher R F)
      → (ℤ → ℤ → List (LabelMatcher R F) → List (SampleStream V) ⊎ X)
      → LabelSet
      → ℤ
      → ℕ
      → List (LabelMatcher R F)
      → List (SampleStream V) ⊎ X
  unfolding read_querier
  read_instant new_equal client_read external_labels ts staleness_delta matchers =
      read_querier new_equal client_read external_labels (ts -ℤ pos (staleness_delta / 1_000_000))
        ts matchers
