-- ===== src/Utils/Laws.antt =====
-- utils/httputil.go: the connections of the client with a deadline.
use promeproxy.Common.{
  String, ◌≡◌, refl, sym, ◌⊎◌, inl, inr, Option, none, some, List, [], ◌∷◌, ℤ, pos, ◌+ℤ◌,
}
use promeproxy.Utils.{
  Net, ConnAction, opened, closed, limited, with_deadline, after_dial, new_deadline_round_tripper,
  new_client_for_timeout,
}

module _ {C E : Type 0} (net : Net C E) where
  -- the connection is among those that were opened, closed, or limited to a time
  abbrev pub IsOpened : C → List (ConnAction C) → Type 0
  IsOpened c [] = ⊥
  IsOpened c (opened d ∷ log) = (d ≡ c) ⊎ IsOpened c log
  IsOpened c (closed d ∷ log) = IsOpened c log
  IsOpened c (limited d t ∷ log) = IsOpened c log

  abbrev pub IsClosed : C → List (ConnAction C) → Type 0
  IsClosed c [] = ⊥
  IsClosed c (opened d ∷ log) = IsClosed c log
  IsClosed c (closed d ∷ log) = (d ≡ c) ⊎ IsClosed c log
  IsClosed c (limited d t ∷ log) = IsClosed c log

  abbrev pub IsLimited : C → ℤ → List (ConnAction C) → Type 0
  IsLimited c t [] = ⊥
  IsLimited c t (opened d ∷ log) = IsLimited c t log
  IsLimited c t (closed d ∷ log) = IsLimited c t log
  IsLimited c t (limited d u ∷ log) = ((d ≡ c) × (u ≡ t)) ⊎ IsLimited c t log

  -- No connection is leaked, and none is without a deadline: what was opened is closed, or it is given out,
  -- open and with the deadline set; and with an error nothing stays open.
  abbrev pub IsCareful : ℤ → List (ConnAction C) × (C ⊎ E) → Type 0
  IsCareful deadline (log, inl c) =
      IsOpened c log
      × IsLimited c deadline log
      × ¬ IsClosed c log
      × ((d : C) → IsOpened d log → d ≡ c)
  IsCareful deadline (log, inr err) = (d : C) → IsOpened d log → IsClosed d log

  with_deadline-IsCareful :
      (c : C) (deadline : ℤ) (answer : Option E)
      → IsCareful deadline (with_deadline c deadline answer)
  unfolding with_deadline
  with_deadline-IsCareful c deadline none =
      (inl refl, inl (refl, refl), (λ h. h), λ d h. sym (only h))
    where
      only : {d : C} → (c ≡ d) ⊎ ⊥ → c ≡ d
      only (inl e) = e
      only (inr h) = elim h [ ]
  with_deadline-IsCareful c deadline (some err) = λ d h. h

  after_dial-IsCareful : (deadline : ℤ) (r : C ⊎ E) → IsCareful deadline (after_dial net deadline r)
  unfolding after_dial
  after_dial-IsCareful deadline (inr err) = λ d h. h
  after_dial-IsCareful deadline (inl c) =
      with_deadline-IsCareful c deadline (net.set_deadline c deadline)

  -- A connection that the client with the timeout dials has its deadline 3 seconds after the dialling began and is
  -- open, and no other one was opened; if the dialling fails, no connection stays open.
  pub new_client_for_timeout-IsCareful :
      (start : ℤ) (netw addr : String)
      → IsCareful (start +ℤ pos 3_000_000_000) ((new_client_for_timeout net).dial start netw addr)
  unfolding new_client_for_timeout new_deadline_round_tripper
  new_client_for_timeout-IsCareful start netw addr =
      after_dial-IsCareful (start +ℤ pos 3_000_000_000) (net.dial_timeout netw addr 3_000_000_000)
