-- ===== src/Retrieval/Scrape/Laws.antt =====
-- retrieval/scrape.go: what sync leaves in the pool.
use promeproxy.Common.{
  nat_eq, ℕ, ◌≡◌, sym, ◌∙◌, ◌||◌, Option, none, some, List, [], ◌∷◌, arith, nat_eqb, if◌then◌else◌,
  nat_eqb_iff, has, lookup, insert, lookup-insert, or_else, or_else-none,
}
use promeproxy.Retrieval.Scrape.{ScrapePool, mem, add_targets, keep_seen, sync}

module _ {T : Type 0} (hash : T → ℕ) where
  -- the first of the given targets with a hash
  abbrev pub first_with : ℕ → List T → Option T
  first_with h [] = none
  first_with h (t ∷ ts) = if nat_eqb (hash t) h then some t else first_with h ts

  lookup-add_targets :
      (ts : List T) (seen : List ℕ) (m : List (ℕ × T)) (h : ℕ)
      → lookup h (add_targets hash ts seen m).1 ≡ or_else (lookup h m) (first_with h ts)
  unfolding add_targets
  lookup-add_targets [] seen m h = sym (or_else-none _)
  lookup-add_targets (t ∷ ts) seen m h = ground (
    arith,
    nat_eqb_iff (hash t) h,
    lookup-add_targets ts (hash t ∷ seen)
        (if has (lookup (hash t) m) then m else insert (hash t) t m) h,
    lookup-insert (hash t) h t m,
  )

  mem-add_targets :
      (ts : List T) (seen : List ℕ) (m : List (ℕ × T)) (h : ℕ)
      → mem h (add_targets hash ts seen m).0 ≡ (mem h seen || has (first_with h ts))
  unfolding add_targets
  mem-add_targets [] seen m h = ground arith
  mem-add_targets (t ∷ ts) seen m h = ground (
    arith,
    mem-add_targets ts (hash t ∷ seen) (if has (lookup (hash t) m) then m else insert (hash t) t m)
        h,
  )

lookup-keep_seen :
    {T : Type 0} (seen : List ℕ) (m : List (ℕ × T)) (h : ℕ)
    → lookup h (keep_seen seen m) ≡ (if mem h seen then lookup h m else none)
unfolding keep_seen lookup
lookup-keep_seen seen [] h = ground arith
lookup-keep_seen seen ((k, t) ∷ m) h = ground (arith, nat_eqb_iff k h, lookup-keep_seen seen m h)

-- After sync the pool has exactly the hashes of the given targets. A hash that the pool had keeps its old
-- target, and a new hash has the first given target with it.
pub lookup-sync :
    {S H T : Type 0} (hash : T → ℕ) (targets : List T) (sp : ScrapePool S H T) (h : ℕ)
    → lookup h (sync hash targets sp).targets ≡ (
        if has (first_with hash h targets)
        then or_else (lookup h sp.targets) (first_with hash h targets)
        else none)
unfolding sync
lookup-sync hash targets sp h =
    lookup-keep_seen (add_targets hash targets [] sp.targets).0
      (add_targets hash targets [] sp.targets).1 h
    ∙ rw (
      mem-add_targets hash targets [] sp.targets h,
      lookup-add_targets hash targets [] sp.targets h,
    )
