-- ===== src/Tests/Lifecycle.antt =====
-- Runs of the theorems on reloading and closing.
use promeproxy.Common.{
  ℕ, String, ◌≡◌, refl, inl, Option, none, some, List, [], ◌∷◌, ◌++◌, nat_eqb, if◌then◌else◌,
}
use promeproxy.Fanin.Close.{close_remotes, close_querier}
use promeproxy.Cmd.Reload.{Reloadable, not_applied, apply_all, reload_config}

-- Queriers are numbers that go to a log when they are closed; 2 fails.
abbrev close_number : ℕ → List ℕ → List ℕ × Option String
close_number n w = (w ++ n ∷ [], if nat_eqb n 2 then some "broken" else none)

closed_two : close_querier close_number (some 1) (2 ∷ 3 ∷ []) [] ≡ (1 ∷ 2 ∷ [], some "broken")
unfolding close_querier close_remotes
closed_two = refl

-- Components that log the configuration; the first one refuses it.
abbrev components : List (Reloadable ℕ (List ℕ) String)
components = (λ conf w. (w, some "refused")) ∷ (λ conf w. (w ++ conf ∷ [], none)) ∷ []

reloaded : reload_config {E = String} (inl 5) components [] ≡ (5 ∷ [], some not_applied)
unfolding reload_config apply_all
reloaded = refl
