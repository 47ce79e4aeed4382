-- ===== src/Remote/Write/Laws.antt =====
-- storage/remote/write.go: the life of the writer's queue managers.
use promeproxy.Common.{
  nat_eq, ℕ, suc, ◌+◌, ◌≡◌, refl, ◌⊎◌, inl, inr, Bool, Option, none, some, List, [], ◌∷◌, ◌++◌, map,
  arith, if◌then◌else◌,
}
use promeproxy.Model.{LabelSet}
use promeproxy.Remote.Client.{Client, ClientConfig, new_client}
use promeproxy.Remote.Write.{
  Action, stop, start, append, Writer, WriteConfig, new_queues, apply_config,
}

module _ {Q : Type 0} where
  -- how many of some queue managers the test picks
  abbrev pub picked : (Q → Bool) → List Q → ℕ
  picked p [] = 0
  picked p (q ∷ qs) = if p q then suc (picked p qs) else picked p qs

module _ {Q V : Type 0} where
  -- How often a log starts the queue managers that a test picks, and how often it stops them.
  abbrev pub starts : (Q → Bool) → List (Action Q V) → ℕ
  starts p [] = 0
  starts p (start q ∷ log) = if p q then suc (starts p log) else starts p log
  starts p (stop q ∷ log) = starts p log
  starts p (append q s ∷ log) = starts p log

  abbrev pub stops : (Q → Bool) → List (Action Q V) → ℕ
  stops p [] = 0
  stops p (stop q ∷ log) = if p q then suc (stops p log) else stops p log
  stops p (start q ∷ log) = stops p log
  stops p (append q s ∷ log) = stops p log

  -- Each queue manager was started once more than it was stopped if the writer holds it, and as often
  -- otherwise.
  abbrev pub IsBalanced : Writer Q V → Type 0
  IsBalanced w = (p : Q → Bool) → starts p w.log ≡ stops p w.log + picked p w.queues

  starts-append :
      (p : Q → Bool) (l k : List (Action Q V)) → starts p (l ++ k) ≡ starts p l + starts p k
  starts-append p [] k = omega arith
  starts-append p (start q ∷ l) k = ground (arith, starts-append p l k)
  starts-append p (stop q ∷ l) k = starts-append p l k
  starts-append p (append q s ∷ l) k = starts-append p l k

  stops-append : (p : Q → Bool) (l k : List (Action Q V)) → stops p (l ++ k) ≡ stops p l + stops p k
  stops-append p [] k = omega arith
  stops-append p (stop q ∷ l) k = ground (arith, stops-append p l k)
  stops-append p (start q ∷ l) k = stops-append p l k
  stops-append p (append q s ∷ l) k = stops-append p l k

module _ {Q : Type 0} (V : Type 0) where
  starts-stop : (p : Q → Bool) (qs : List Q) → starts {V = V} p (map stop qs) ≡ 0
  starts-stop p [] = refl
  starts-stop p (q ∷ qs) = starts-stop p qs

  stops-stop : (p : Q → Bool) (qs : List Q) → stops {V = V} p (map stop qs) ≡ picked p qs
  stops-stop p [] = refl
  stops-stop p (q ∷ qs) = ground (arith, stops-stop p qs)

  starts-start : (p : Q → Bool) (qs : List Q) → starts {V = V} p (map start qs) ≡ picked p qs
  starts-start p [] = refl
  starts-start p (q ∷ qs) = ground (arith, starts-start p qs)

  stops-start : (p : Q → Bool) (qs : List Q) → stops {V = V} p (map start qs) ≡ 0
  stops-start p [] = refl
  stops-start p (q ∷ qs) = stops-start p qs

module _ {Q V : Type 0} where
  balanced :
      (w : Writer Q V) (qs : List Q)
      → IsBalanced w
      → IsBalanced (record { queues = qs; log = w.log ++ (map stop w.queues ++ map start qs) })
  balanced w qs v p = omega (
    arith,
    v p,
    starts-append p w.log (map stop w.queues ++ map start qs),
    starts-append p (map stop w.queues) (map start qs),
    stops-append p w.log (map stop w.queues ++ map start qs),
    stops-append p (map stop w.queues) (map start qs),
    starts-stop V p w.queues,
    stops-stop V p w.queues,
    starts-start V p qs,
    stops-start V p qs,
  )

module _ {Q H G L E : Type 0} (new_http_client : G → H ⊎ E)
    (new_queue_manager : LabelSet → L → Client H → Q) where
  -- there is a queue manager for each configuration, in order, made with its client and the labels
  abbrev pub AreMade : LabelSet → ℕ → List (ClientConfig G × L) → List Q → Type 0
  AreMade labels i [] [] = Unit
  AreMade labels i [] (q ∷ qs) = ⊥
  AreMade labels i (c ∷ confs) [] = ⊥
  AreMade labels i ((conf, relabel) ∷ confs) (q ∷ qs) =
      ((c : Client H) × (new_client new_http_client i conf ≡ inl c)
        × (q ≡ new_queue_manager labels relabel c))
      × AreMade labels (i + 1) confs qs

  -- the client of some configuration, the first of those that are refused, is refused with the error
  abbrev pub IsRefused : ℕ → List (ClientConfig G × L) → E → Type 0
  IsRefused i [] err = ⊥
  IsRefused i ((conf, relabel) ∷ confs) err =
      (new_client new_http_client i conf ≡ inr err)
      ⊎ (((c : Client H) × (new_client new_http_client i conf ≡ inl c))
          × IsRefused (i + 1) confs err)

  abbrev Makes : LabelSet → ℕ → List (ClientConfig G × L) → List Q ⊎ E → Type 0
  Makes labels i confs (inl qs) = AreMade labels i confs qs
  Makes labels i confs (inr err) = IsRefused i confs err

  new_queues-Makes :
      (labels : LabelSet) (i : ℕ) (confs : List (ClientConfig G × L))
      → Makes labels i confs (new_queues new_http_client new_queue_manager labels i confs)
  unfolding new_queues
  new_queues-Makes labels i [] = tt
  new_queues-Makes labels i ((conf, relabel) ∷ confs) =
      go (new_client new_http_client i conf) refl
        (new_queues new_http_client new_queue_manager labels (i + 1) confs)
        (new_queues-Makes labels (i + 1) confs)
    where
      go :
          (x : Client H ⊎ E)
          → new_client new_http_client i conf ≡ x
          → (rest : List Q ⊎ E) → Makes labels (i + 1) confs rest
          → Makes labels i ((conf, relabel) ∷ confs) (elim x [
            | inr err ↦ inr err
            | inl c ↦ elim rest [
              | inr err ↦ inr err
              | inl qs ↦ inl (new_queue_manager labels relabel c ∷ qs)
            ]
          ])
      go (inr err) e rest m = inl e
      go (inl c) e (inr err) m = inr ((c, e), m)
      go (inl c) e (inl qs) m = ((c, e, refl), m)

module _ {Q V H G L E : Type 0} (new_http_client : G → H ⊎ E)
    (new_queue_manager : LabelSet → L → Client H → Q) where
  -- What ApplyConfig does to a writer: on an error, which a refused client gives, nothing; else the writer has the
  -- queue managers of the configuration, after all old ones were stopped and then all these were started.
  abbrev pub Applies : WriteConfig G L → Writer Q V → Writer Q V × Option E → Type 0
  Applies conf w (w', some err) =
      (w' ≡ w) × IsRefused new_http_client new_queue_manager 0 conf.remote_write_configs err
  Applies conf w (w', none) =
      AreMade new_http_client new_queue_manager conf.external_labels 0 conf.remote_write_configs
        w'.queues
      × (w'.log ≡ w.log ++ (map stop w.queues ++ map start w'.queues))

  pub Applies-cases :
      (conf : WriteConfig G L) (w : Writer Q V) (p : Writer Q V × Option E)
      → Applies conf w p
      → (p.1 ≡ none) ⊎ (p.0 ≡ w)
  Applies-cases conf w (w', some err) a = inr a.0
  Applies-cases conf w (w', none) a = inl refl

  -- ApplyConfig fails exactly if a client of the configuration is refused, and then it changes nothing. Else the
  -- writer has one queue manager for each remote_write configuration, in order, made with its client, its
  -- relabelling and the external labels; every old one is stopped, once, before every new one is started, once.
  -- And in either case, if before each queue manager had been started once more than stopped where the writer
  -- holds it, and as often where not, this is so again.
  pub apply_config-Applies :
      (conf : WriteConfig G L) (w : Writer Q V)
      → IsBalanced w
      → Applies conf w (apply_config new_http_client new_queue_manager conf w)
        × IsBalanced (apply_config new_http_client new_queue_manager conf w).0
  unfolding apply_config
  apply_config-Applies conf w v =
      go
        (new_queues new_http_client new_queue_manager conf.external_labels 0
          conf.remote_write_configs)
        (new_queues-Makes new_http_client new_queue_manager conf.external_labels 0
          conf.remote_write_configs)
    where
      go :
          (x : List Q ⊎ E)
          → Makes new_http_client new_queue_manager conf.external_labels 0 conf.remote_write_configs
              x
          → let p : Writer Q V × Option E = elim x [
            | inr err ↦ (w, some err)
            | inl qs ↦
                (record { queues = qs; log = w.log ++ (map stop w.queues ++ map start qs) }, none)
          ] in
            Applies conf w p × IsBalanced p.0
      go (inr err) m = ((refl, m), v)
      go (inl qs) m = ((m, refl), balanced w qs v)
