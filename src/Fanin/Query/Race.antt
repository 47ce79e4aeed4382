-- ===== src/Fanin/Query/Race.antt =====
-- The goroutines of querier.query (storage/fanin/fanin.go) share the map `fpToIt` and its groups with no
-- lock. Two of them as interleaved steps: a goroutine looks the group of its next iterator up, makes the new
-- slice of the group that it has found, and stores it.
use promeproxy.Common.{
  nat_eq, ℕ, zero, suc, ◌<◌, ◌≡◌, refl, sym, ap, ◌∙◌, inl, inr, Bool, true, false, Option, none,
  some, List, [], ◌∷◌, ◌++◌, append_assoc, arith, if◌then◌else◌, Option-cases, length, has, lookup,
  insert, lookup-insert,
}
use promeproxy.Model.{LabelSet}
use promeproxy.Fanin.Iterator.{SeriesIterator, MergeIterator}

-- The groups by their addresses, and fpToIt with the address of each fingerprint's group.
pub record Groups (V W : Type 0) : Type 0 where
  pub cells : List (MergeIterator V W)
  pub index : List (ℕ × ℕ)

-- Where a goroutine is in the round for an iterator: before the lookup, after it with the address that it found,
-- and with the slice that append has made of the group's iterators at that address.
pub data Phase (V W : Type 0) : Type 0 where
  waiting : Phase V W
  looked_up : Option ℕ → Phase V W
  appended : List (SeriesIterator V W) → Phase V W

-- A goroutine in mergeIterators: the iterators that are left, and where it is with the first of them.
pub record Goroutine (V W : Type 0) : Type 0 where
  pub todo : List (SeriesIterator V W)
  pub phase : Phase V W

module _ {V W : Type 0} where
  -- the remote iterators of the group at an address
  abbrev pub remotes_at : List (MergeIterator V W) → ℕ → List (SeriesIterator V W)
  remotes_at [] a = []
  remotes_at (g ∷ cells) zero = g.remote
  remotes_at (g ∷ cells) (suc a) = remotes_at cells a

  -- the groups with the remote iterators of the one at an address set
  abbrev pub set_remotes :
      List (MergeIterator V W) → ℕ → List (SeriesIterator V W) → List (MergeIterator V W)
  set_remotes [] a rs = []
  set_remotes (g ∷ cells) zero rs = record g { remote = rs } ∷ cells
  set_remotes (g ∷ cells) (suc a) rs = g ∷ set_remotes cells a rs

  -- the groups with the remote iterators set at an address that was found, or not
  abbrev pub store_at :
      Option ℕ → List (SeriesIterator V W) → List (MergeIterator V W) → List (MergeIterator V W)
  store_at none rs cells = cells
  store_at (some a) rs cells = set_remotes cells a rs

  -- fpToIt[fp].remote = rs; no fingerprint is ever taken out of the map, so that there is a group
  abbrev pub store : ℕ → List (SeriesIterator V W) → Groups V W → Groups V W
  store fp rs m = record m { cells = store_at (lookup fp m.index) rs m.cells }

  -- the remote iterators at an address that was found
  abbrev pub found_remotes : Option ℕ → List (MergeIterator V W) → List (SeriesIterator V W)
  found_remotes none cells = []
  found_remotes (some a) cells = remotes_at cells a

  -- the remote iterators of a fingerprint's group
  abbrev pub remotes_of : ℕ → Groups V W → List (SeriesIterator V W)
  remotes_of fp m = found_remotes (lookup fp m.index) m.cells

lookup-insert_self : (k a : ℕ) (m : List (ℕ × ℕ)) → lookup k (insert k a m) ≡ some a
lookup-insert_self k a m = rw (lookup-insert k k a m) (ground arith)

module _ {V W : Type 0} (fingerprint : LabelSet → ℕ) where
  -- one step of a goroutine: a lookup, an append to the slice that it reads, or a store
  unfoldable pub turn :
      Groups V W → List (SeriesIterator V W) → Phase V W → Groups V W × Goroutine V W
  turn m [] phase = (m, record { todo = []; phase = phase })
  turn m (it ∷ its) waiting =
      (m, record { todo = it ∷ its; phase = looked_up (lookup (fingerprint it.metric) m.index) })
  turn m (it ∷ its) (looked_up none) = (
    record {
      cells = m.cells ++ record { local = none; remote = it ∷ [] } ∷ [];
      index = insert (fingerprint it.metric) (length m.cells) m.index;
    },
    record { todo = its; phase = waiting },
  )
  turn m (it ∷ its) (looked_up (some a)) =
      (m, record { todo = it ∷ its; phase = appended (remotes_at m.cells a ++ it ∷ []) })
  turn m (it ∷ its) (appended rs) =
      (store (fingerprint it.metric) rs m, record { todo = its; phase = waiting })

  -- A schedule names the goroutine that takes the next step: the first (`true`) or the second.
  unfoldable pub interleave : List Bool → Groups V W → Goroutine V W → Goroutine V W → Groups V W
  unfolding turn
  interleave [] m g h = m
  interleave (true ∷ schedule) m g h =
      interleave schedule (turn m g.todo g.phase).0 (turn m g.todo g.phase).1 h
  interleave (false ∷ schedule) m g h =
      interleave schedule (turn m h.todo h.phase).0 g (turn m h.todo h.phase).1

  abbrev pub starting : SeriesIterator V W → Goroutine V W
  starting it = record { todo = it ∷ []; phase = waiting }

  remotes_at-last :
      (cells : List (MergeIterator V W)) (g : MergeIterator V W)
      → remotes_at (cells ++ g ∷ []) (length cells) ≡ g.remote
  remotes_at-last [] g = refl
  remotes_at-last (c ∷ cells) g = remotes_at-last cells g

  remotes_at-set :
      (cells : List (MergeIterator V W)) (a : ℕ) (rs : List (SeriesIterator V W))
      → a < length cells
      → remotes_at (set_remotes cells a rs) a ≡ rs
  remotes_at-set [] a rs h = absurd (omega arith)
  remotes_at-set (c ∷ cells) zero rs h = refl
  remotes_at-set (c ∷ cells) (suc a) rs h = remotes_at-set cells a rs (omega arith)

  length-set_remotes :
      (cells : List (MergeIterator V W)) (a : ℕ) (rs : List (SeriesIterator V W))
      → length (set_remotes cells a rs) ≡ length cells
  length-set_remotes [] a rs = refl
  length-set_remotes (c ∷ cells) zero rs = refl
  length-set_remotes (c ∷ cells) (suc a) rs = ap suc (length-set_remotes cells a rs)

  length-snoc :
      (cells : List (MergeIterator V W)) (g : MergeIterator V W)
      → length cells < length (cells ++ g ∷ [])
  length-snoc [] g = omega arith
  length-snoc (c ∷ cells) g = omega (arith, length-snoc cells g)

  -- a goroutine with its only iterator, in a phase
  abbrev at_phase : SeriesIterator V W → Phase V W → Goroutine V W
  at_phase it phase = record { todo = it ∷ []; phase = phase }

  abbrev finished : Goroutine V W
  finished = record { todo = []; phase = waiting }

  abbrev lone : SeriesIterator V W → MergeIterator V W
  lone it = record { local = none; remote = it ∷ [] }

  -- the groups with a new one, or with new remote iterators of one
  abbrev with_new : SeriesIterator V W → Groups V W → Groups V W
  with_new it m = record {
    cells = m.cells ++ lone it ∷ [];
    index = insert (fingerprint it.metric) (length m.cells) m.index;
  }

  abbrev with_set : ℕ → List (SeriesIterator V W) → Groups V W → Groups V W
  with_set a rs m = record m { cells = set_remotes m.cells a rs }

  module _ (schedule : List Bool) (m : Groups V W) (x : SeriesIterator V W)
      (g : Goroutine V W) where
    first_looks :
        (o : Option ℕ)
        → lookup (fingerprint x.metric) m.index ≡ o
        → interleave (true ∷ schedule) m (starting x) g
          ≡ interleave schedule m (at_phase x (looked_up o)) g
    unfolding interleave turn
    first_looks o e = ap (λ p. interleave schedule m (at_phase x (looked_up p)) g) e

    second_looks :
        (o : Option ℕ)
        → lookup (fingerprint x.metric) m.index ≡ o
        → interleave (false ∷ schedule) m g (starting x)
          ≡ interleave schedule m g (at_phase x (looked_up o))
    unfolding interleave turn
    second_looks o e = ap (λ p. interleave schedule m g (at_phase x (looked_up p))) e

    first_stores :
        (a : ℕ) (rs : List (SeriesIterator V W))
        → lookup (fingerprint x.metric) m.index ≡ some a
        → interleave (true ∷ schedule) m (at_phase x (appended rs)) g
          ≡ interleave schedule (with_set a rs m) finished g
    unfolding interleave turn
    first_stores a rs e =
        ap (λ o. interleave schedule (record m { cells = store_at o rs m.cells }) finished g) e

    second_stores :
        (a : ℕ) (rs : List (SeriesIterator V W))
        → lookup (fingerprint x.metric) m.index ≡ some a
        → interleave (false ∷ schedule) m g (at_phase x (appended rs))
          ≡ interleave schedule (with_set a rs m) g finished
    unfolding interleave turn
    second_stores a rs e =
        ap (λ o. interleave schedule (record m { cells = store_at o rs m.cells }) g finished) e

  remotes_of-found :
      (fp a : ℕ) (m : Groups V W)
      → lookup fp m.index ≡ some a
      → remotes_of fp m ≡ remotes_at m.cells a
  remotes_of-found fp a m e = ap (λ o. found_remotes o m.cells) e

  remotes_of-set :
      (fp a : ℕ) (rs : List (SeriesIterator V W)) (m : Groups V W)
      → lookup fp m.index ≡ some a
      → a < length m.cells
      → remotes_of fp (with_set a rs m) ≡ rs
  remotes_of-set fp a rs m e h =
      remotes_of-found fp a (with_set a rs m) e ∙ remotes_at-set m.cells a rs h

  -- what the three schedules leave in the group
  abbrev after :
      List Bool → Groups V W → SeriesIterator V W → SeriesIterator V W → List (SeriesIterator V W)
  after schedule m x y =
      remotes_of (fingerprint y.metric) (interleave schedule m (starting x) (starting y))

  new_group :
      (m : Groups V W) (x y : SeriesIterator V W)
      → fingerprint x.metric ≡ fingerprint y.metric
      → lookup (fingerprint y.metric) m.index ≡ none
      → (after (true ∷ true ∷ true ∷ false ∷ false ∷ false ∷ []) m x y ≡ x ∷ y ∷ [])
        × (after (true ∷ false ∷ true ∷ false ∷ true ∷ false ∷ []) m x y ≡ y ∷ [])
        × (after (true ∷ false ∷ true ∷ true ∷ false ∷ false ∷ []) m x y ≡ y ∷ [])
  unfolding interleave turn
  new_group m x y e n = (
    ap of_y (
          first_looks (true ∷ true ∷ false ∷ false ∷ false ∷ []) m x (starting y) none nx
          ∙ second_looks (false ∷ false ∷ []) (with_new x m) y finished (some l) made
          ∙ second_stores [] (with_new x m) y finished l _ made)
        ∙ remotes_of-set fp l _ (with_new x m) made (length-snoc m.cells (lone x))
        ∙ ap (λ rs. rs ++ y ∷ []) (remotes_at-last m.cells (lone x)),
    ap of_y (
          first_looks (false ∷ true ∷ false ∷ true ∷ false ∷ []) m x (starting y) none nx
          ∙ second_looks (true ∷ false ∷ true ∷ false ∷ []) m y (at_phase x (looked_up none)) none
              n)
        ∙ newest,
    ap of_y (
          first_looks (false ∷ true ∷ true ∷ false ∷ false ∷ []) m x (starting y) none nx
          ∙ second_looks (true ∷ true ∷ false ∷ false ∷ []) m y (at_phase x (looked_up none)) none
              n)
        ∙ newest,
  )
    where
      fp : ℕ
      fp = fingerprint y.metric

      l : ℕ
      l = length m.cells

      of_y : Groups V W → List (SeriesIterator V W)
      of_y = remotes_of fp

      nx : lookup (fingerprint x.metric) m.index ≡ none
      nx = ap (λ k. lookup k m.index) e ∙ n

      made : lookup fp (with_new x m).index ≡ some l
      made =
          ap (λ k. lookup k (with_new x m).index) (sym e)
          ∙ lookup-insert_self (fingerprint x.metric) l m.index

      newest : of_y (with_new y (with_new x m)) ≡ y ∷ []
      newest =
          remotes_of-found fp _ (with_new y (with_new x m))
            (lookup-insert_self fp _ (with_new x m).index)
          ∙ remotes_at-last (with_new x m).cells (lone y)

  old_group :
      (m : Groups V W) (x y : SeriesIterator V W) (a : ℕ)
      → fingerprint x.metric ≡ fingerprint y.metric
      → lookup (fingerprint y.metric) m.index ≡ some a
      → a < length m.cells
      → (after (true ∷ true ∷ true ∷ false ∷ false ∷ false ∷ []) m x y
          ≡ remotes_at m.cells a ++ x ∷ y ∷ [])
        × (after (true ∷ false ∷ true ∷ false ∷ true ∷ false ∷ []) m x y
            ≡ remotes_at m.cells a ++ y ∷ [])
        × (after (true ∷ false ∷ true ∷ true ∷ false ∷ false ∷ []) m x y
            ≡ remotes_at m.cells a ++ x ∷ y ∷ [])
  unfolding interleave turn
  old_group m x y a e s h = (
    ap of_y (
          first_looks (true ∷ true ∷ false ∷ false ∷ false ∷ []) m x (starting y) (some a) sx
          ∙ first_stores (false ∷ false ∷ false ∷ []) m x (starting y) a with_x sx
          ∙ second_looks (false ∷ false ∷ []) m' y finished (some a) s
          ∙ second_stores [] m' y finished a _ s)
        ∙ both,
    ap of_y (
          first_looks (false ∷ true ∷ false ∷ true ∷ false ∷ []) m x (starting y) (some a) sx
          ∙ second_looks (true ∷ false ∷ true ∷ false ∷ []) m y (at_phase x (looked_up (some a)))
              (some a) s
          ∙ first_stores (false ∷ []) m x (at_phase y (appended with_y)) a with_x sx
          ∙ second_stores [] m' y finished a with_y s)
        ∙ remotes_of-set fp a with_y m' s in_range,
    ap of_y (
          first_looks (false ∷ true ∷ true ∷ false ∷ false ∷ []) m x (starting y) (some a) sx
          ∙ second_looks (true ∷ true ∷ false ∷ false ∷ []) m y (at_phase x (looked_up (some a)))
              (some a) s
          ∙ first_stores (false ∷ false ∷ []) m x (at_phase y (looked_up (some a))) a with_x sx
          ∙ second_stores [] m' y finished a _ s)
        ∙ both,
  )
    where
      fp : ℕ
      fp = fingerprint y.metric

      of_y : Groups V W → List (SeriesIterator V W)
      of_y = remotes_of fp

      sx : lookup (fingerprint x.metric) m.index ≡ some a
      sx = ap (λ k. lookup k m.index) e ∙ s

      with_x : List (SeriesIterator V W)
      with_x = remotes_at m.cells a ++ x ∷ []

      with_y : List (SeriesIterator V W)
      with_y = remotes_at m.cells a ++ y ∷ []

      m' : Groups V W
      m' = with_set a with_x m

      in_range : a < length m'.cells
      in_range = omega (arith, h, length-set_remotes m.cells a with_x)

      both :
          of_y (with_set a (remotes_at m'.cells a ++ y ∷ []) m')
          ≡ remotes_at m.cells a ++ x ∷ y ∷ []
      both =
          remotes_of-set fp a _ m' s in_range
          ∙ ap (λ rs. rs ++ y ∷ []) (remotes_at-set m.cells a with_x h)
          ∙ append_assoc (remotes_at m.cells a) (x ∷ []) (y ∷ [])

  -- Two goroutines each merge one iterator of the same series. One after the other, they leave both in the
  -- group. If they take their steps by turns, the first's is lost. And if the second only looks the group up
  -- before the first goes on, both are there where the group was there before, and the first's is lost where not.
  pub interleave-loses :
      (m : Groups V W) (x y : SeriesIterator V W)
      → fingerprint x.metric ≡ fingerprint y.metric
      → ((a : ℕ) → lookup (fingerprint y.metric) m.index ≡ some a → a < length m.cells)
      → (remotes_of (fingerprint y.metric) (
            interleave
              (true ∷ true ∷ true ∷ false ∷ false ∷ false ∷ [])
              m
              (starting x)
              (starting y))
          ≡ remotes_of (fingerprint y.metric) m ++ x ∷ y ∷ [])
        × (remotes_of (fingerprint y.metric) (
              interleave
                (true ∷ false ∷ true ∷ false ∷ true ∷ false ∷ [])
                m
                (starting x)
                (starting y))
            ≡ remotes_of (fingerprint y.metric) m ++ y ∷ [])
        × (remotes_of (fingerprint y.metric) (
              interleave
                (true ∷ false ∷ true ∷ true ∷ false ∷ false ∷ [])
                m
                (starting x)
                (starting y))
            ≡ (if has (lookup (fingerprint y.metric) m.index)
                then remotes_of (fingerprint y.metric) m ++ x ∷ y ∷ []
                else y ∷ []))
  interleave-loses m x y e valid = elim (Option-cases (lookup (fingerprint y.metric) m.index)) [
    | inl n ↦ rw (n) (new_group m x y e n)
    | inr (a, s) ↦ rw (s) (old_group m x y a e s (valid a s))
  ]
