-- ===== src/Fanin/Close.antt =====
-- querier.Close of storage/fanin/fanin.go. The queriers are of the storage libraries: closing one changes
-- a state `W` and may fail.
use promeproxy.Common.{◌≡◌, refl, ◌⊎◌, inl, inr, Option, none, some, List, [], ◌∷◌, Option-cases}

module _ {Q W E : Type 0} (close : Q → W → W × Option E) where
  -- the loop over q.remotes
  unfoldable pub close_remotes : List Q → W → W × Option E
  close_remotes [] w = (w, none)
  close_remotes (q ∷ qs) w = elim (close q w).1 [
    | some err ↦ ((close q w).0, some err)
    | none ↦ close_remotes qs (close q w).0
  ]

  -- querier.Close; `local` is none where the local querier is nil
  unfoldable pub close_querier : Option Q → List Q → W → W × Option E
  unfolding close_remotes
  close_querier none remotes w = close_remotes remotes w
  close_querier (some l) remotes w = elim (close l w).1 [
    | some err ↦ ((close l w).0, some err)
    | none ↦ close_remotes remotes (close l w).0
  ]

  -- the local querier, if there is one, and the remote ones
  abbrev pub all_queriers : Option Q → List Q → List Q
  all_queriers none remotes = remotes
  all_queriers (some l) remotes = l ∷ remotes

  -- The state and the error are those of closing the queriers in order up to the first that fails: each
  -- before it was closed without an error, and none after it was closed.
  abbrev pub ClosesUpTo : List Q → W → W × Option E → Type 0
  ClosesUpTo [] w (w', err) = (w' ≡ w) × (err ≡ none)
  ClosesUpTo (q ∷ qs) w (w', err) =
      (((close q w).1 ≡ none) × ClosesUpTo qs (close q w).0 (w', err))
      ⊎ ((e : E) × ((close q w).1 ≡ some e) × (w' ≡ (close q w).0) × (err ≡ some e))

  close_remotes-ClosesUpTo :
      (remotes : List Q) (w : W) → ClosesUpTo remotes w (close_remotes remotes w)
  unfolding close_remotes
  close_remotes-ClosesUpTo [] w = (refl, refl)
  close_remotes-ClosesUpTo (q ∷ qs) w = elim (Option-cases (close q w).1) [
    | inl e ↦ rw (e, close_remotes) (inl (refl, close_remotes-ClosesUpTo qs (close q w).0))
    | inr (err, e) ↦ rw (e, close_remotes) (inr (err, refl, refl, refl))
  ]

  -- Close closes the local querier first, if there is one, and then the remote ones in order, and stops
  -- at the first that fails, with its error; it reports none only if all were closed.
  pub close_querier-ClosesUpTo :
      (local : Option Q) (remotes : List Q) (w : W)
      → ClosesUpTo (all_queriers local remotes) w (close_querier local remotes w)
  unfolding close_querier
  close_querier-ClosesUpTo none remotes w = close_remotes-ClosesUpTo remotes w
  close_querier-ClosesUpTo (some l) remotes w = close_remotes-ClosesUpTo (l ∷ remotes) w
