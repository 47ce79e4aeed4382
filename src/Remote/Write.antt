-- ===== src/Remote/Write.antt =====
-- storage/remote/write.go: the writer, which owns a queue manager for each remote storage. `Q` stands
-- for a queue manager; what the writer does with it goes to a log.
pub mod Laws
use promeproxy.Common.{ℕ, ◌+◌, ◌⊎◌, inl, inr, Option, none, some, List, [], ◌∷◌, ◌++◌, map}
use promeproxy.Model.{LabelSet, Sample}
use promeproxy.Remote.Client.{Client, ClientConfig, new_client}

pub data Action (Q V : Type 0) : Type 0 where
  stop start : Q → Action Q V
  append : Q → Sample V → Action Q V

-- Writer, with the log of its calls on queue managers, oldest first
pub record Writer (Q V : Type 0) : Type 0 where
  pub queues : List Q
  pub log : List (Action Q V)

-- What the code uses of config.Config for writing: a configuration for each remote storage.
pub record WriteConfig (G L : Type 0) : Type 0 where
  pub remote_write_configs : List (ClientConfig G × L)
  pub external_labels : LabelSet

module _ {Q H G L E : Type 0} (new_http_client : G → H ⊎ E)
    (new_queue_manager : LabelSet → L → Client H → Q) where
  -- the loop of ApplyConfig that makes the new queue managers, from an index on; `L` stands for the
  -- relabel configurations
  unfoldable pub new_queues : LabelSet → ℕ → List (ClientConfig G × L) → List Q ⊎ E
  unfolding new_client
  new_queues labels i [] = inl []
  new_queues labels i ((conf, relabel) ∷ confs) =
      let rest = new_queues labels (i + 1) confs in
      elim (new_client new_http_client i conf) [
        | inr err ↦ inr err
        | inl c ↦ elim rest [
          | inr err ↦ inr err
          | inl qs ↦ inl (new_queue_manager labels relabel c ∷ qs)
        ]
      ]

module _ {Q V H G L E : Type 0} (new_http_client : G → H ⊎ E)
    (new_queue_manager : LabelSet → L → Client H → Q) where
  -- Writer.ApplyConfig
  unfoldable pub apply_config : WriteConfig G L → Writer Q V → Writer Q V × Option E
  unfolding new_queues
  apply_config conf w =
      elim (new_queues new_http_client new_queue_manager conf.external_labels 0
        conf.remote_write_configs) [
          | inr err ↦ (w, some err)
          | inl qs ↦
              (record { queues = qs; log = w.log ++ (map stop w.queues ++ map start qs) }, none)
        ]

module _ {Q V : Type 0} where
  -- Writer.Stop
  unfoldable pub stop_writer : Writer Q V → Writer Q V
  stop_writer w = record w { log = w.log ++ map stop w.queues }

  -- Writer.Append, whose error is always nil
  unfoldable pub append_sample : Sample V → Writer Q V → Writer Q V
  append_sample s w = record w { log = w.log ++ map (λ q. append q s) w.queues }
