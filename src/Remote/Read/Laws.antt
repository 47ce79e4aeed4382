-- ===== src/Remote/Read/Laws.antt =====
-- storage/remote/read.go: external labels in a remote query and in its answer.
use promeproxy.Common.{
  string_eq, ℕ, ◌+◌, String, ◌≡◌, refl, ◌⊎◌, inl, inr, Bool, true, false, not, ◌&&◌, ◌||◌, Option,
  none, List, [], ◌∷◌, ◌++◌, arith, if◌then◌else◌, ◌==◌, ℤ, has, lookup, delete, lookup-delete,
  lookup-delete_all,
}
use promeproxy.Model.{LabelSet, SampleStream}
use promeproxy.Metric.Matcher.{LabelMatcher}
use promeproxy.Remote.Client.{Client, ClientConfig, new_client}
use promeproxy.Remote.Read.{
  Reader, ReadConfig, new_clients, apply_config, without_matched, equal_matchers,
  add_external_labels, remove_labels, read_querier,
}

module _ {R F : Type 0} where
  -- a matcher has the name
  abbrev pub named : String → List (LabelMatcher R F) → Bool
  named ln [] = false
  named ln (m ∷ ms) = m.name == ln || named ln ms

  -- the external labels that no matcher of the query names
  abbrev pub added_label : LabelSet → List (LabelMatcher R F) → String → Bool
  added_label external_labels matchers ln =
      not (named ln matchers) && has (lookup ln external_labels)

  lookup-without_matched :
      (ms : List (LabelMatcher R F)) (el : LabelSet) (ln : String)
      → lookup ln (without_matched ms el) ≡ (if named ln ms then none else lookup ln el)
  unfolding without_matched
  lookup-without_matched [] el ln = refl
  lookup-without_matched (m ∷ ms) el ln =
      ground (arith, lookup-without_matched ms (delete m.name el) ln, lookup-delete m.name ln el)

  -- The labels for which matchers are added are the external labels that no matcher of the query names,
  -- and the query's own matchers come first, unchanged, before one matcher for each of these.
  pub add_external_labels-adds :
      (new_equal : String → String → LabelMatcher R F) (external_labels : LabelSet)
      (matchers : List (LabelMatcher R F)) (ln : String)
      → let (m, added) = add_external_labels new_equal external_labels matchers in
        (lookup ln added ≡ (if named ln matchers then none else lookup ln external_labels))
        × (m ≡ matchers ++ equal_matchers new_equal added)
  unfolding add_external_labels
  add_external_labels-adds new_equal external_labels matchers ln =
      (lookup-without_matched matchers external_labels ln, refl)

module _ {V : Type 0} where
  -- A stream without the external labels that were added: its values, and its other labels.
  abbrev pub Strips : (String → Bool) → SampleStream V → SampleStream V → Type 0
  Strips gone ss ss' =
      ((ln : String) → lookup ln ss'.metric ≡ (if gone ln then none else lookup ln ss.metric))
      × (ss'.values ≡ ss.values)

  abbrev pub StripsAll : (String → Bool) → List (SampleStream V) → List (SampleStream V) → Type 0
  StripsAll gone [] [] = Unit
  StripsAll gone [] (s ∷ ss) = ⊥
  StripsAll gone (s ∷ ss) [] = ⊥
  StripsAll gone (s ∷ ss) (t ∷ ts) = Strips gone s t × StripsAll gone ss ts

  remove_labels-StripsAll :
      (labels : LabelSet) (gone : String → Bool)
      → ((ln : String) → has (lookup ln labels) ≡ gone ln)
      → (sss : List (SampleStream V)) → StripsAll gone sss (remove_labels sss labels)
  unfolding remove_labels
  remove_labels-StripsAll labels gone h [] = tt
  remove_labels-StripsAll labels gone h (ss ∷ sss) = (
    (λ ln. rw (← h ln) (lookup-delete_all labels ss.metric ln), refl),
    remove_labels-StripsAll labels gone h sss,
  )

  -- If the client's Read answers, the querier answers with the same series in order, with the same
  -- values, each without the external labels that no matcher of the query names and with its other
  -- labels.
  pub read_querier-StripsAll :
      {R F X : Type 0} (new_equal : String → String → LabelMatcher R F)
      (client_read : ℤ → ℤ → List (LabelMatcher R F) → List (SampleStream V) ⊎ X)
      (external_labels : LabelSet) (from through : ℤ) (matchers : List (LabelMatcher R F))
      (res : List (SampleStream V))
      → client_read from through (add_external_labels new_equal external_labels matchers).0
        ≡ inl res
      → (out : List (SampleStream V)) × (read_querier new_equal client_read external_labels from
            through matchers
          ≡ inl out)
        × StripsAll (added_label external_labels matchers) res out
  unfolding read_querier
  read_querier-StripsAll new_equal client_read external_labels from through matchers res e = (
    remove_labels res (add_external_labels new_equal external_labels matchers).1,
    rw (e, read_querier),
    remove_labels-StripsAll (add_external_labels new_equal external_labels matchers).1
        (added_label external_labels matchers)
        (λ ln. kept ln (add_external_labels-adds new_equal external_labels matchers ln).0) res,
  )
    where
      kept :
          (ln : String) {o : Option String}
          → o ≡ (if named ln matchers then none else lookup ln external_labels)
          → has o ≡ added_label external_labels matchers ln
      kept ln e = ground arith

module _ {H G E : Type 0} (new_http_client : G → H ⊎ E) where
  -- the reader has a client for each configuration, in their order
  abbrev pub AreClients : ℕ → List (ClientConfig G) → List (Client H) → Type 0
  AreClients i [] [] = Unit
  AreClients i [] (c ∷ cs) = ⊥
  AreClients i (conf ∷ confs) [] = ⊥
  AreClients i (conf ∷ confs) (c ∷ cs) =
      ((c.index ≡ i)
        × (c.url ≡ conf.url)
        × (c.timeout ≡ conf.timeout)
        × (new_http_client conf.http_client_config ≡ inl c.client))
      × AreClients (i + 1) confs cs

  new_clients-AreClients :
      (i : ℕ) (confs : List (ClientConfig G)) (cs : List (Client H))
      → new_clients new_http_client i confs ≡ inl cs
      → AreClients i confs cs
  unfolding new_clients new_client
  new_clients-AreClients i [] [] e = tt
  new_clients-AreClients i [] (c ∷ cs) e = cc
  new_clients-AreClients i (conf ∷ confs) [] e = ground arith
  new_clients-AreClients i (conf ∷ confs) (c ∷ cs) e =
      ground (arith, new_clients-AreClients (i + 1) confs cs)

  -- Reader.ApplyConfig either reports an error and leaves the reader as it was, or sets up one client for
  -- each configuration, in order and numbered from 0, and takes over the external labels.
  pub apply_config-AreClients :
      (conf : ReadConfig G) (r : Reader H)
      → let (r', err) = apply_config new_http_client conf r in
        ((has err ≡ true) × (r' ≡ r))
        ⊎ ((err ≡ none)
            × AreClients 0 conf.remote_read_configs r'.clients
            × (r'.external_labels ≡ conf.external_labels))
  unfolding apply_config
  apply_config-AreClients conf r = go (new_clients new_http_client 0 conf.remote_read_configs) refl
    where
      go :
          (x : List (Client H) ⊎ E)
          → new_clients new_http_client 0 conf.remote_read_configs ≡ x
          → let (r', err) = apply_config new_http_client conf r in
            ((has err ≡ true) × (r' ≡ r))
            ⊎ ((err ≡ none)
                × AreClients 0 conf.remote_read_configs r'.clients
                × (r'.external_labels ≡ conf.external_labels))
      go (inr err) e = inl (rw (e, apply_config), rw (e, apply_config))
      go (inl clients) e = inr (
        rw (e, apply_config),
        rw (e, apply_config) (new_clients-AreClients 0 conf.remote_read_configs clients e),
        rw (e, apply_config),
      )
