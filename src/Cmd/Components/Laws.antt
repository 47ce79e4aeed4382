-- ===== src/Cmd/Components/Laws.antt =====
-- reloadConfig of cmd/main.go: what a reload leaves in the components.
use mathlib.Core.Bool.{false≢true}
use promeproxy.Common.{
  ◌≡◌, refl, sym, ap, ◌⊎◌, inl, inr, true, false, Option, none, some, List, if◌then◌else◌,
  Bool-cases, has,
}
use promeproxy.Remote.Write.Laws.{IsBalanced, Applies, Applies-cases, apply_config-Applies}
use promeproxy.Retrieval.Manager.{apply_config as apply_targets, ScrapeConfig, TargetManager}
use promeproxy.Cmd.Reload.{ReloadError, not_applied, flag_error, reload_config}
use promeproxy.Cmd.Components.{
  FullConfig, Components, Makers, write_config, read_config, reloadables,
}
use promeproxy.Remote.Read.Laws.{apply_config-AreClients}

module _ {S P T E : Type 0} (scrape_client : S → P ⊎ E) where
  apply_targets-configs :
      (scfgs : List (ScrapeConfig S)) (tm : TargetManager S P T)
      → (apply_targets scrape_client scfgs tm).scrape_configs ≡ scfgs
  unfolding apply_targets
  apply_targets-configs scfgs tm = elim (Bool-cases tm.started) [
    | inl e ↦ rw (e) refl
    | inr e ↦ rw (e) refl
  ]

-- the error of a reload from those of the writer and the reader; `A`, `B` and `C` say that the writer is as before,
-- that the reader is as before, and that the reader has the labels
reload_error-cases :
    {E A B C D : Type 0} (writer reader : Option E)
    → (writer ≡ none) ⊎ A
    → ((has reader ≡ true) × B) ⊎ ((reader ≡ none) × D × C)
    → let failed = if has reader then true else if has writer then true else false in
      ((flag_error failed ≡ none) × C) ⊎ ((flag_error failed ≡ some not_applied) × (A ⊎ B))
reload_error-cases none none a (inl (h, b)) = absurd (false≢true h)
reload_error-cases none none a (inr (e, d, c)) = inl (refl, c)
reload_error-cases (some err) none (inl e) r = absurd (false≢true (sym (ap has e)))
reload_error-cases (some err) none (inr a) r = inr (refl, inl a)
reload_error-cases writer (some err) a (inl (h, b)) = inr (refl, inr b)
reload_error-cases writer (some err) a (inr (e, d, c)) = absurd (false≢true (sym (ap has e)))

module _ {Q V H G L S P T E : Type 0} (o : Makers Q H G L S P E) where
  -- the components after a reload, and its error
  pub record Applied (conf : FullConfig G L S) (w : Components Q V H S P T)
      (w' : Components Q V H S P T) (err : Option ReloadError) : Type 0 where
    pub balanced : IsBalanced w'.writer
    pub written :
        (writer_err : Option E) × Applies o.remote_client o.queue_manager
          (write_config conf)
          w.writer
          (w'.writer, writer_err)
    pub configs : w'.targets.scrape_configs ≡ conf.scrape_configs
    pub labels : w'.web.external_labels ≡ conf.external_labels
    pub text : w'.web.config_string ≡ conf.text
    pub outcome :
        ((err ≡ none) × (w'.reader.external_labels ≡ conf.external_labels))
        ⊎ ((err ≡ some not_applied) × ((w'.writer ≡ w.writer) ⊎ (w'.reader ≡ w.reader)))

  -- A reload of a configuration leaves a balanced writer balanced, with the queue managers of the configuration, the
  -- old ones stopped, or as it was if a client is refused; and it gives the scrape configurations to the
  -- target manager and the external labels and the text to the web handler, in every case. Either it
  -- reports no error, and the reader has the external labels too, or it reports one, and the writer or
  -- the reader is as it was before.
  pub reload_config-Applied :
      (conf : FullConfig G L S) (w : Components Q V H S P T)
      → IsBalanced w.writer
      → Applied conf w
          (reload_config (inl conf) (reloadables o) w).0
          (reload_config (inl conf) (reloadables o) w).1
  unfolding reload_config reloadables
  reload_config-Applied conf w b =
      let (applies, balanced) =
        apply_config-Applies o.remote_client o.queue_manager (write_config conf) w.writer b in
      let writer =
        Applies-cases o.remote_client o.queue_manager (write_config conf) w.writer _ applies in
      record {
        balanced = balanced;
        written = (_, applies);
        configs = apply_targets-configs o.scrape_client conf.scrape_configs w.targets;
        labels = refl;
        text = refl;
        outcome =
            reload_error-cases _ _ writer
              (apply_config-AreClients o.remote_client (read_config conf) w.reader);
      }
