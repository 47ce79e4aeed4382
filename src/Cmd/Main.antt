-- ===== src/Cmd/Main.antt =====
-- Main of cmd/main.go: its exit codes, the first loading of the configuration, the signals, and what it does
-- about requests to the web handler (web/web.go, reload and quit).
pub mod Laws
pub mod Events
use promeproxy.Common.{
  ℕ, suc, String, ◌⊎◌, inl, inr, Bool, false, Option, none, some, List, [], ◌∷◌, ◌++◌,
  if◌then◌else◌,
}
use promeproxy.Cmd.Config.{Config, ParseError}
use promeproxy.Cmd.Reload.{Reloadable, ReloadError, reload_config}

-- What happens while the command runs: a hangup, SIGTERM or an interrupt, POST /-/quit and POST /-/reload,
-- the end of the HTTP server with its error, and the start of targetManager.Run in its goroutine.
pub data Event : Type 0 where
  hangup terminated quit_posted reload_posted serve_ended targets_run : Event

-- The command while it runs: the components, the requests whose handler waits for an answer to its
-- reload, the errors of reloads that were logged, and EnableQuit of the web handler's options, without which
-- New registers no route for /-/quit.
pub record Running (W : Type 0) : Type 0 where
  pub components : W
  pub waiting_reloads : ℕ
  pub reload_errors : List ReloadError
  pub quit_enabled : Bool

-- What Main does with the target manager among the components: Run, up to its wait, and Stop, with none for a panic.
pub record Targets (W : Type 0) : Type 0 where
  pub run_targets : W → W
  pub stop_targets : W → Option W

-- Where the command is: ended with an exit code or by a panic, or running.
pub data Process (W : Type 0) : Type 0 where
  panicked : Process W
  exited : ℕ → Process W
  running : Running W → Process W

-- the file that a hangup loads
abbrev pub hangup_file : String
hangup_file = "./prometheus.yml"

-- Main after the first loading of the configuration; nothing sets EnableQuit
unfoldable pub started_with : {W : Type 0} → W × Option ReloadError → Process W
started_with (w, some e) = exited 1
started_with (w, none) =
    running
      (record { components = w; waiting_reloads = 0; reload_errors = []; quit_enabled = false })

module _ {C W E : Type 0} (load : String → C ⊎ E) (rls : List (Reloadable C W E)) where
  -- the start of Main once parse is done, from the components as they are made; `load` is config.LoadFile
  unfoldable pub start_parsed : W → Config → Process W
  unfolding reload_config started_with
  start_parsed w c =
      if c.flags.print_version
      then exited 0
      else started_with (reload_config (load c.flags.config_file) rls w)

  -- Main up to its wait
  unfoldable pub start_command : W → ParseError ⊎ Config → Process W
  unfolding start_parsed
  start_command w (inl e) = exited 2
  start_command w (inr c) = start_parsed w c

  -- the goroutine for hangups
  unfoldable pub hang_up : Running W → Running W
  unfolding reload_config
  hang_up r =
      let (w, err) = reload_config (load hangup_file) rls r.components in
      record r {
        components = w;
        reload_errors = elim err [ none ↦ r.reload_errors | some e ↦ r.reload_errors ++ e ∷ [] ];
      }

-- the end of Main, once targetManager.Stop, which is deferred, has returned or panicked
unfoldable pub leave : {W : Type 0} → Option W → Process W
leave none = panicked
leave (some w) = exited 0

module _ {C W E : Type 0} (load : String → C ⊎ E) (rls : List (Reloadable C W E))
    (targets : Targets W) where
  -- An event. The handler of a reload sends its channel to reloadCh and waits; Main has no case for it.
  unfoldable pub on_event : Event → Running W → Process W
  unfolding hang_up leave
  on_event hangup r = running (hang_up load rls r)
  on_event terminated r = leave (targets.stop_targets r.components)
  on_event quit_posted r =
      if r.quit_enabled then leave (targets.stop_targets r.components) else running r
  on_event reload_posted r = running (record r { waiting_reloads = suc r.waiting_reloads })
  on_event serve_ended r = leave (targets.stop_targets r.components)
  on_event targets_run r = running (record r { components = targets.run_targets r.components })

  -- The events, in order, as long as the command runs.
  unfoldable pub run : List Event → Process W → Process W
  unfolding on_event
  run events panicked = panicked
  run events (exited code) = exited code
  run [] (running r) = running r
  run (e ∷ events) (running r) = run events (on_event e r)
