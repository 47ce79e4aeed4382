-- ===== src/Fanin/Query/Laws.antt =====
-- querier.query of storage/fanin/fanin.go, for goroutines whose merges do not overlap.
use promeproxy.Common.{
  nat_eq, ℕ, ◌≡◌, refl, ap, ◌↔◌, inl, inr, Bool, Option, none, some, List, [], ◌∷◌, ◌++◌, map,
  append_assoc, append-nil, arith, nat_eqb, if◌then◌else◌, nat_eqb_iff, Option-cases, filterb,
  lookup, insert, lookup-insert, or_else,
}
use promeproxy.Model.{LabelSet}
use promeproxy.Fanin.Iterator.{SeriesIterator, MergeIterator}
use promeproxy.Fanin.Query.{
  Querier, failed, index_local, merge_iterator, merge_iterators, merge_answers, query_groups, query,
}

module _ {A : Type 0} where
  filterb-cons :
      (p : A → Bool) (x : A) (xs : List A) → filterb p (x ∷ []) ++ filterb p xs ≡ filterb p (x ∷ xs)
  filterb-cons p x xs = ground arith

module _ {V W : Type 0} where
  abbrev grow : Option (MergeIterator V W) → List (SeriesIterator V W) → Option (MergeIterator V W)
  grow none [] = none
  grow none (it ∷ its) = some (record { local = none; remote = it ∷ its })
  grow (some g) its = some (record g { remote = g.remote ++ its })

  grow-nil : (o : Option (MergeIterator V W)) → o ≡ grow o []
  grow-nil none = refl
  grow-nil (some g) = rw append-nil

  -- a group as it comes from a local iterator and remote ones; no group if there is neither
  abbrev pub group :
      Option (SeriesIterator V W) → List (SeriesIterator V W) → Option (MergeIterator V W)
  group none [] = none
  group none (it ∷ its) = some (record { local = none; remote = it ∷ its })
  group (some l) its = some (record { local = some l; remote = its })

  abbrev wrap : Option (SeriesIterator V W) → Option (MergeIterator V W)
  wrap none = none
  wrap (some it) = some (record { local = some it; remote = [] })

  grow-wrap :
      (o : Option (SeriesIterator V W)) (its : List (SeriesIterator V W))
      → grow (or_else (wrap o) none) its ≡ group o its
  grow-wrap none [] = refl
  grow-wrap none (it ∷ its) = refl
  grow-wrap (some l) its = refl

  -- the iterators of all answers, errors dropped
  abbrev pub answered :
      {E : Type 0} → List (List (SeriesIterator V W) × Option E) → List (SeriesIterator V W)
  answered [] = []
  answered ((its, err) ∷ answers) = its ++ answered answers

module _ {V W : Type 0} (fingerprint : LabelSet → ℕ) where
  abbrev pub has_print : ℕ → SeriesIterator V W → Bool
  has_print f it = nat_eqb (fingerprint it.metric) f

  -- the last local iterator with a fingerprint
  abbrev pub last_local : ℕ → List (SeriesIterator V W) → Option (SeriesIterator V W)
  last_local f [] = none
  last_local f (it ∷ its) = or_else (last_local f its) (if has_print f it then some it else none)

  lookup-index_local :
      (f : ℕ) (m : List (ℕ × MergeIterator V W)) (its : List (SeriesIterator V W))
      → lookup f (index_local fingerprint m its) ≡ or_else (wrap (last_local f its)) (lookup f m)
  unfolding index_local
  lookup-index_local f m [] = refl
  lookup-index_local f m (it ∷ its) =
      rw
        (
          lookup-index_local f
              (insert (fingerprint it.metric) (record { local = some it; remote = [] }) m) its,
          lookup-insert (fingerprint it.metric) f (record { local = some it; remote = [] }) m,
        )
        (ground arith)

  lookup-merge_iterator :
      (f : ℕ) (m : List (ℕ × MergeIterator V W)) (it : SeriesIterator V W)
      → lookup f (merge_iterator fingerprint m it)
        ≡ grow (lookup f m) (filterb (has_print f) (it ∷ []))
  unfolding merge_iterator
  lookup-merge_iterator f m it = elim (Option-cases (lookup (fingerprint it.metric) m)) [
    | inl e ↦
        rw (e, merge_iterator)
          (ground (
            arith,
            nat_eqb_iff (fingerprint it.metric) f,
            lookup-insert (fingerprint it.metric) f (record { local = none; remote = it ∷ [] }) m,
            grow-nil (lookup f m),
          ))
    | inr (g, e) ↦
        rw (e, merge_iterator)
          (ground (
            arith,
            nat_eqb_iff (fingerprint it.metric) f,
            lookup-insert (fingerprint it.metric) f (record g { remote = g.remote ++ it ∷ [] }) m,
            grow-nil (lookup f m),
          ))
  ]

  grow-grow :
      (o : Option (MergeIterator V W)) (a b : List (SeriesIterator V W))
      → grow (grow o a) b ≡ grow o (a ++ b)
  grow-grow none [] b = refl
  grow-grow none (x ∷ a) [] = rw append-nil
  grow-grow none (x ∷ a) (y ∷ b) = refl
  grow-grow (some g) a b = rw append_assoc

  lookup-merge_iterators :
      (f : ℕ) (m : List (ℕ × MergeIterator V W)) (its : List (SeriesIterator V W))
      → lookup f (merge_iterators fingerprint m its) ≡ grow (lookup f m) (filterb (has_print f) its)
  unfolding merge_iterators
  lookup-merge_iterators f m [] = grow-nil (lookup f m)
  lookup-merge_iterators f m (it ∷ its) =
      rw
        (
          lookup-merge_iterators f (merge_iterator fingerprint m it) its,
          lookup-merge_iterator f m it,
          grow-grow (lookup f m) (filterb (has_print f) (it ∷ [])) (filterb (has_print f) its),
        )
        (ap (grow (lookup f m)) (filterb-cons (has_print f) it its))

  filterb-append :
      (p : SeriesIterator V W → Bool) (a b : List (SeriesIterator V W))
      → filterb p (a ++ b) ≡ filterb p a ++ filterb p b
  filterb-append p [] b = refl
  filterb-append p (x ∷ a) b = ground (arith, filterb-append p a b)

  lookup-merge_answers :
      {E : Type 0} (f : ℕ) (m : List (ℕ × MergeIterator V W))
      (answers : List (List (SeriesIterator V W) × Option E))
      → lookup f (merge_answers fingerprint m answers)
        ≡ grow (lookup f m) (filterb (has_print f) (answered answers))
  unfolding merge_answers
  lookup-merge_answers f m [] = grow-nil (lookup f m)
  lookup-merge_answers f m ((its, err) ∷ answers) = rw (
    lookup-merge_answers f (merge_iterators fingerprint m its) answers,
    lookup-merge_iterators f m its,
    grow-grow (lookup f m) (filterb (has_print f) its) (filterb (has_print f) (answered answers)),
    filterb-append (has_print f) its (answered answers),
  )

  -- After the merges the map holds for each fingerprint the last local iterator with it and all remote
  -- iterators with it, in the order of merging, whether or not their querier also gave an error; and it
  -- holds nothing under a fingerprint that no iterator has.
  pub lookup-query_groups :
      {Q E : Type 0} (f : ℕ) (ask : Q → List (SeriesIterator V W) × Option E)
      (local_its : List (SeriesIterator V W)) (finish : List Q)
      → lookup f (query_groups fingerprint ask local_its finish)
        ≡ group (last_local f local_its) (filterb (has_print f) (answered (map ask finish)))
  unfolding query_groups lookup
  lookup-query_groups f ask local_its finish =
      rw
        (
          lookup-merge_answers f (index_local fingerprint [] local_its) (map ask finish),
          lookup-index_local f [] local_its,
        )
        (grow-wrap (last_local f local_its) (filterb (has_print f) (answered (map ask finish))))

  -- A query fails exactly when the local storage does: no error of a remote one is passed on.
  pub query-failed_iff :
      {Q E : Type 0} (local_only : Bool) (ask : Q → List (SeriesIterator V W) × Option E)
      (q : Querier Q) (finish : List Q) (err : E)
      → (query fingerprint local_only ask q finish ≡ failed err) ↔ ((ask q.local).1 ≡ some err)
  unfolding query
  query-failed_iff local_only ask q finish err = ground arith
