-- ===== src/Remote/Client/Laws.antt =====
-- storage/remote/client.go: what the client reports of an exchange, and what the wire format keeps.
use promeproxy.Common.{
  string_eq, ◌≤◌, ◌<◌, String, ◌≡◌, refl, ◌∙◌, ◌↔◌, ◌⊎◌, inl, none, some, List, [], ◌∷◌, arith, All,
  lookup, insert, lookup-insert, or_else, or_else-none, Unique,
}
use promeproxy.Model.{LabelSet, SampleStream, Sample}
use promeproxy.Remote.Queue.Backoff.{recoverable}
use promeproxy.Remote.Client.{
  TimeSeries, label_pairs, insert_pairs, write_request, matrix_from_proto, Answer, unreachable,
  status, store_answer, store,
}

lookup-insert_pairs :
    (m acc : LabelSet) (j : String)
    → Unique m
    → lookup j (insert_pairs (label_pairs m) acc) ≡ or_else (lookup j m) (lookup j acc)
unfolding lookup insert_pairs
lookup-insert_pairs [] acc j u = refl
lookup-insert_pairs ((k, v) ∷ m) acc j u = ground (
  arith,
  string_eq.beq_iff k j,
  lookup-insert_pairs m (insert k v acc) j u.1,
  lookup-insert k j v acc,
  u.0,
)

module _ {B : Type 0} where
  -- a status 2xx
  abbrev pub IsSuccess : Answer B → Type 0
  IsSuccess unreachable = ⊥
  IsSuccess (status code body) = (200 ≤ code) × (code < 300)

  -- no response, or a status 5xx
  abbrev pub IsRetryable : Answer B → Type 0
  IsRetryable unreachable = Unit
  IsRetryable (status code body) = (500 ≤ code) × (code < 600)

  store_answer-classifies :
      (a : Answer B)
      → ((store_answer a ≡ none) ↔ IsSuccess a)
        × ((store_answer a ≡ some recoverable) ↔ IsRetryable a)
  unfolding store_answer
  store_answer-classifies unreachable = ground arith
  store_answer-classifies (status code body) = ground arith

module _ {V : Type 0} where
  -- A stream that stands for a sample: the same labels, and the one value.
  abbrev pub Carries : Sample V → SampleStream V → Type 0
  Carries s ss =
      ((j : String) → lookup j ss.metric ≡ lookup j s.metric)
      × (ss.values ≡ record { timestamp = s.timestamp; value = s.value } ∷ [])

  abbrev pub CarriesAll : List (Sample V) → List (SampleStream V) → Type 0
  CarriesAll [] [] = Unit
  CarriesAll [] (ss ∷ sss) = ⊥
  CarriesAll (s ∷ samples) [] = ⊥
  CarriesAll (s ∷ samples) (ss ∷ sss) = Carries s ss × CarriesAll samples sss

  -- Reading a write request back gives, for each of its samples in order, one stream with the sample's
  -- labels and its one value, if the samples' metrics have each label once.
  pub matrix_from_proto-write_request :
      (samples : List (Sample V))
      → All (λ s. Unique s.metric) samples
      → CarriesAll samples (matrix_from_proto (write_request samples))
  unfolding matrix_from_proto write_request lookup
  matrix_from_proto-write_request [] u = tt
  matrix_from_proto-write_request (s ∷ samples) u = (
    (λ j. lookup-insert_pairs s.metric [] j u.0 ∙ or_else-none _, refl),
    matrix_from_proto-write_request samples u.1,
  )

module _ {V P Q B E : Type 0} (marshal : List (TimeSeries V) → P ⊎ E) (compress : P → P)
    (new_request : P → Q ⊎ E) (send : Q → Answer B) where
  -- how the exchange of a request ends
  abbrev pub Exchanged : List (Sample V) → Answer B → Type 0
  Exchanged samples answer =
      (bytes : P) × (req : Q) × (marshal (write_request samples) ≡ inl bytes)
      × (new_request (compress bytes) ≡ inl req)
      × (send req ≡ answer)

  -- If the request could be built and sent, Store reports success exactly for a status 2xx, and an error
  -- that may be tried again exactly for a failed exchange or a status 5xx.
  pub store-answers :
      (samples : List (Sample V)) (answer : Answer B)
      → Exchanged samples answer
      → ((store marshal compress new_request send samples ≡ none) ↔ IsSuccess answer)
        × ((store marshal compress new_request send samples ≡ some recoverable)
            ↔ IsRetryable answer)
  unfolding store
  store-answers samples answer (bytes, req, p, q, r) =
      rw (p, store, q, r) (store_answer-classifies answer)
