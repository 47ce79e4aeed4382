-- ===== src/Cmd/Reload.antt =====
-- reloadConfig of cmd/main.go: a configuration that is loaded is applied to every component.
use promeproxy.Common.{
  ◌≡◌, refl, ◌↔◌, ◌⊎◌, inl, inr, Bool, true, false, Option, none, some, List, [], ◌∷◌, arith,
  if◌then◌else◌, has,
}

-- Reloadable: ApplyConfig on a state `W`, with the error if there is one.
abbrev pub Reloadable : Type 0 → Type 0 → Type 0 → Type 0
Reloadable C W E = C → W → W × Option E

-- How reloadConfig fails.
pub data ReloadError : Type 0 where
  not_loaded not_applied : ReloadError

-- the error that the flag stands for
abbrev pub flag_error : Bool → Option ReloadError
flag_error true = some not_applied
flag_error false = none

flag_error_iff : (failed : Bool) → (flag_error failed ≡ some not_applied) ↔ (failed ≡ true)
flag_error_iff true = ground arith
flag_error_iff false = ground arith

flag_error-cases :
    (failed : Bool) → (flag_error failed ≡ some not_applied) ⊎ (flag_error failed ≡ none)
flag_error-cases true = inl refl
flag_error-cases false = inr refl

module _ {C W E : Type 0} where
  -- the loop over the components, with the flag `failed` so far
  unfoldable pub apply_all : List (Reloadable C W E) → C → W → Bool → W × Bool
  apply_all [] conf w failed = (w, failed)
  apply_all (rl ∷ rls) conf w failed =
      let (w', err) = rl conf w in apply_all rls conf w' (if has err then true else failed)

  -- reloadConfig; `loaded` is what config.LoadFile gives for the file
  unfoldable pub reload_config : C ⊎ E → List (Reloadable C W E) → W → W × Option ReloadError
  unfolding apply_all
  reload_config (inr err) rls w = (w, some not_loaded)
  reload_config (inl conf) rls w =
      let (w', failed) = apply_all rls conf w false in (w', flag_error failed)

  -- the state after all components got the configuration, each in its turn
  abbrev pub applied : List (Reloadable C W E) → C → W → W
  applied [] conf w = w
  applied (rl ∷ rls) conf w = applied rls conf (rl conf w).0

  -- a component refuses the configuration
  abbrev pub AnyFails : List (Reloadable C W E) → C → W → Type 0
  AnyFails [] conf w = ⊥
  AnyFails (rl ∷ rls) conf w = (has (rl conf w).1 ≡ true) ⊎ AnyFails rls conf (rl conf w).0

  -- How a reload of a configuration ends.
  abbrev pub Reloads : List (Reloadable C W E) → C → W → W × Option ReloadError → Type 0
  Reloads rls conf w (w', err) =
      (w' ≡ applied rls conf w)
      × ((err ≡ some not_applied) ⊎ (err ≡ none))
      × ((err ≡ some not_applied) ↔ AnyFails rls conf w)

  apply_all-applied :
      (rls : List (Reloadable C W E)) (conf : C) (w : W) (failed : Bool)
      → ((apply_all rls conf w failed).0 ≡ applied rls conf w)
        × (((apply_all rls conf w failed).1 ≡ true) ↔ ((failed ≡ true) ⊎ AnyFails rls conf w))
  unfolding apply_all
  apply_all-applied [] conf w failed = (refl, ground arith)
  apply_all-applied (rl ∷ rls) conf w failed =
      let (p, q) =
        apply_all-applied rls conf (rl conf w).0 (if has (rl conf w).1 then true else failed) in
      (p, ground arith)

  -- A configuration that was loaded is applied to every component in order, also after one has refused
  -- it, and the reload reports an error exactly if some component refused.
  pub reload_config-Reloads :
      (rls : List (Reloadable C W E)) (conf : C) (w : W)
      → Reloads rls conf w (reload_config (inl conf) rls w)
  unfolding reload_config
  reload_config-Reloads rls conf w =
      let (p, q) = apply_all-applied rls conf w false in
      let failed = (apply_all rls conf w false).1 in
      (p, flag_error-cases failed, ground (arith, flag_error_iff failed, q))
