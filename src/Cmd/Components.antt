-- ===== src/Cmd/Components.antt =====
-- The components that Main of cmd/main.go makes and reloads, in its order: the remote writer, the remote
-- reader, the target manager and the web handler.
pub mod Laws
use promeproxy.Common.{String, ◌⊎◌, Option, none, List, [], ◌∷◌}
use promeproxy.Model.{LabelSet}
use promeproxy.Remote.Client.{Client, ClientConfig}
use promeproxy.Remote.Write.{apply_config as apply_writer, Writer, WriteConfig}
use promeproxy.Remote.Read.{apply_config as apply_reader, Reader, ReadConfig}
use promeproxy.Retrieval.Manager.{
  apply_config as apply_targets, ScrapeConfig, TargetManager, run_manager,
}
use promeproxy.Web.Handler.{apply_config as apply_web, Handler}
use mathlib.Core.Option
use promeproxy.Cmd.Main.{Targets}
use promeproxy.Retrieval.Manager.Stop.{stop_manager}
use promeproxy.Cmd.Reload.{Reloadable}

-- What the components read of config.Config; `text` is its String.
pub record FullConfig (G L S : Type 0) : Type 0 where
  pub remote_write_configs : List (ClientConfig G × L)
  pub remote_read_configs : List (ClientConfig G)
  pub scrape_configs : List (ScrapeConfig S)
  pub external_labels : LabelSet
  pub text : String

-- The components, with the types of Writer, Reader and TargetManager.
pub record Components (Q V H S P T : Type 0) : Type 0 where
  pub writer : Writer Q V
  pub reader : Reader H
  pub targets : TargetManager S P T
  pub web : Handler

-- The outside of the components: the HTTP client of the remote storages, the queue managers that NewQueueManager
-- makes, and the HTTP client of the scrapes.
pub record Makers (Q H G L S P E : Type 0) : Type 0 where
  pub remote_client : G → H ⊎ E
  pub queue_manager : LabelSet → L → Client H → Q
  pub scrape_client : S → P ⊎ E

abbrev pub write_config : {G L S : Type 0} → FullConfig G L S → WriteConfig G L
write_config conf = record {
  remote_write_configs = conf.remote_write_configs;
  external_labels = conf.external_labels;
}

abbrev pub read_config : {G L S : Type 0} → FullConfig G L S → ReadConfig G
read_config conf = record {
  remote_read_configs = conf.remote_read_configs;
  external_labels = conf.external_labels;
}

module _ {Q V H G L S P T E : Type 0} (o : Makers Q H G L S P E) where
  -- Each component's ApplyConfig on the components.
  unfoldable pub reload_writer : Reloadable (FullConfig G L S) (Components Q V H S P T) E
  unfolding apply_writer
  reload_writer conf w =
      let (writer, err) =
        apply_writer o.remote_client o.queue_manager (write_config conf) w.writer in
      (record w { writer = writer }, err)

  unfoldable pub reload_reader : Reloadable (FullConfig G L S) (Components Q V H S P T) E
  unfolding apply_reader
  reload_reader conf w =
      let (reader, err) = apply_reader o.remote_client (read_config conf) w.reader in
      (record w { reader = reader }, err)

  unfoldable pub reload_targets : Reloadable (FullConfig G L S) (Components Q V H S P T) E
  unfolding apply_targets
  reload_targets conf w =
      (record w { targets = apply_targets o.scrape_client conf.scrape_configs w.targets }, none)

  unfoldable pub reload_web : Reloadable (FullConfig G L S) (Components Q V H S P T) E
  unfolding apply_web
  reload_web conf w = (record w { web = apply_web conf.external_labels conf.text w.web }, none)

  -- the reloadables of Main, in order
  unfoldable pub reloadables : List (Reloadable (FullConfig G L S) (Components Q V H S P T) E)
  unfolding reload_writer reload_reader reload_targets reload_web
  reloadables = reload_writer ∷ reload_reader ∷ reload_targets ∷ reload_web ∷ []

  -- Run, up to its wait, and Stop of the target manager among the components
  unfoldable pub target_manager : Targets (Components Q V H S P T)
  unfolding run_manager stop_manager
  target_manager = record {
    run_targets = λ w. record w { targets = run_manager o.scrape_client w.targets };
    stop_targets = λ w. Option.map (λ tm. record w { targets = tm }) (stop_manager w.targets);
  }
