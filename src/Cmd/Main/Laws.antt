-- ===== src/Cmd/Main/Laws.antt =====
-- cmd/main.go: how the command starts.
use promeproxy.Common.{String, ◌≡◌, ◌⊎◌, inl, inr, Bool, true, false, Option, none, some, List}
use promeproxy.Cmd.Config.{Config, Outside, ParseError}
use promeproxy.Cmd.Config.Laws.{IsNormal}
use promeproxy.Cmd.Reload.{Reloadable, ReloadError, applied, AnyFails}
use promeproxy.Cmd.Main.{Process, panicked, exited, running}

module _ {C W E : Type 0} (load : String → C ⊎ E) (rls : List (Reloadable C W E)) where
  -- the first loading fails, or a component refuses the configuration
  abbrev pub Refused : C ⊎ E → W → Type 0
  Refused (inl conf) w = AnyFails rls conf w
  Refused (inr e) w = Unit

  -- the components after the first loading, which none refused
  abbrev pub Loaded : C ⊎ E → W → W → Type 0
  Loaded (inl conf) w w' = (w' ≡ applied rls conf w) × ¬ AnyFails rls conf w
  Loaded (inr e) w w' = ⊥

  -- how a start ends
  abbrev pub Starts : Outside → W → ParseError ⊎ Config → Process W → Type 0
  Starts o w (inl e) p = p ≡ exited 2
  Starts o w (inr c) panicked = ⊥
  Starts o w (inr c) (exited code) =
      ((code ≡ 0) × (c.flags.print_version ≡ true))
      ⊎ ((code ≡ 1) × (c.flags.print_version ≡ false) × Refused (load c.flags.config_file) w)
  Starts o w (inr c) (running r) =
      (c.flags.print_version ≡ false)
      × IsNormal o c
      × Loaded (load c.flags.config_file) w r.components
      × (r.waiting_reloads ≡ 0)
      × (r.quit_enabled ≡ false)

  -- how the first loading ends
  abbrev Ends : C ⊎ E → W → W × Option ReloadError → Type 0
  Ends l w (w', some e) = Refused l w
  Ends l w (w', none) = Loaded l w w'
