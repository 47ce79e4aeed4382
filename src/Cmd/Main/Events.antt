-- ===== src/Cmd/Main/Events.antt =====
-- cmd/main.go: what a running command does about events, and how it ends.
use promeproxy.Common.{
  ℕ, suc, ◌+◌, String, ◌≡◌, ◌⊎◌, Bool, true, false, Option, none, some, List, [], ◌∷◌,
}
use promeproxy.Cmd.Reload.{Reloadable, reload_config}
use promeproxy.Cmd.Main.{
  Event, hangup, terminated, quit_posted, reload_posted, serve_ended, targets_run, Targets, Process,
  panicked, exited, running, hangup_file,
}

-- an event ends the command; a request to quit does where this is enabled
abbrev pub ends : Bool → Event → Bool
ends quit hangup = false
ends quit terminated = true
ends quit quit_posted = quit
ends quit reload_posted = false
ends quit serve_ended = true
ends quit targets_run = false

abbrev pub AnyEnd : Bool → List Event → Type 0
AnyEnd quit [] = ⊥
AnyEnd quit (e ∷ es) = (ends quit e ≡ true) ⊎ AnyEnd quit es

abbrev pub count_reloads : List Event → ℕ
count_reloads [] = 0
count_reloads (reload_posted ∷ es) = suc (count_reloads es)
count_reloads (hangup ∷ es) = count_reloads es
count_reloads (terminated ∷ es) = count_reloads es
count_reloads (quit_posted ∷ es) = count_reloads es
count_reloads (serve_ended ∷ es) = count_reloads es
count_reloads (targets_run ∷ es) = count_reloads es

module _ {C W E : Type 0} (load : String → C ⊎ E) (rls : List (Reloadable C W E))
    (targets : Targets W) where
  -- what an event does to the components: a hangup reloads them from ./prometheus.yml
  abbrev pub changed : Event → W → W
  changed hangup w = (reload_config (load hangup_file) rls w).0
  changed terminated w = w
  changed quit_posted w = w
  changed reload_posted w = w
  changed serve_ended w = w
  changed targets_run w = targets.run_targets w

  abbrev pub changed_by : List Event → W → W
  changed_by [] w = w
  changed_by (e ∷ es) w = changed_by es (changed e w)

  -- The first of the events that ends the command comes when Stop of the target manager, on the components as the
  -- events before it have changed them, does what is given.
  abbrev pub StopsWith : Bool → List Event → W → Option W → Type 0
  StopsWith quit [] w o = ⊥
  StopsWith quit (e ∷ es) w o =
      ((ends quit e ≡ true) × (targets.stop_targets w ≡ o))
      ⊎ ((ends quit e ≡ false) × StopsWith quit es (changed e w) o)

  -- where a command is after events, with its EnableQuit, its waiting requests, and its components before them
  abbrev pub RunsTo : List Event → Bool → ℕ → W → Process W → Type 0
  RunsTo events quit n w panicked = StopsWith quit events w none
  RunsTo events quit n w (exited code) = (code ≡ 0) × (w' : W) × StopsWith quit events w (some w')
  RunsTo events quit n w (running r) =
      (¬ AnyEnd quit events)
      × (r.waiting_reloads ≡ n + count_reloads events)
      × (r.components ≡ changed_by events w)
