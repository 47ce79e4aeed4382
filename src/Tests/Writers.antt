-- ===== src/Tests/Writers.antt =====
-- Runs of the theorem on the remote writer.
use promeproxy.Common.{nat_eq, ℕ, ◌+◌, String, refl, ◌⊎◌, inl, [], ◌∷◌}
use promeproxy.Model.{LabelSet}
use promeproxy.Remote.Client.{Client}
use promeproxy.Remote.Write.{Writer, WriteConfig, apply_config}
use promeproxy.Remote.Write.Laws.{IsBalanced, Applies, apply_config-Applies}

abbrev external : LabelSet
external = ("region", "eu") ∷ ("job", "x") ∷ []

abbrev http_client : ℕ → ℕ ⊎ String
http_client n = inl n

-- A queue manager is known by its client's index and configuration.
abbrev new_queue : LabelSet → ℕ → Client ℕ → ℕ
new_queue labels relabel c = c.index + c.client

abbrev write_config : WriteConfig ℕ ℕ
write_config = record {
  remote_write_configs =
      (record { url = "http://one"; timeout = 5; http_client_config = 1 }, 0) ∷ [];
  external_labels = external;
}

abbrev idle_writer : Writer ℕ ℕ
idle_writer = record { queues = []; log = [] }

apply_config-Applies_example :
    Applies http_client new_queue write_config idle_writer
      (apply_config http_client new_queue write_config idle_writer)
    × IsBalanced (apply_config http_client new_queue write_config idle_writer).0
apply_config-Applies_example =
    apply_config-Applies http_client new_queue write_config idle_writer (λ p. refl)
