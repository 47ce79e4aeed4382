-- ===== src/Retrieval/Scrape.antt =====
-- retrieval/scrape.go: the pool of targets of one scrape configuration.
pub mod Laws
use promeproxy.Common.{
  nat_eq, ℕ, ◌⊎◌, inl, inr, Bool, false, ◌||◌, Option, none, some, List, [], ◌∷◌, ◌++◌, nat_eqb,
  if◌then◌else◌, has, lookup, insert,
}

-- scrapePool: the targets by their hash. `S` is the scrape configuration, `H` the HTTP client.
pub record ScrapePool (S H T : Type 0) : Type 0 where
  pub config : S
  pub client : Option H
  pub targets : List (ℕ × T)

-- newScrapePool
unfoldable pub new_scrape_pool : {S H T : Type 0} → S → ScrapePool S H T
new_scrape_pool cfg = record { config = cfg; client = none; targets = [] }

-- a hash is in the set uniqueTargets
abbrev pub mem : ℕ → List ℕ → Bool
mem h [] = false
mem h (k ∷ ks) = nat_eqb k h || mem h ks

module _ {T : Type 0} where
  -- The loop of sync over the targets: the hashes seen so far and the pool's targets.
  unfoldable pub add_targets : (T → ℕ) → List T → List ℕ → List (ℕ × T) → List ℕ × List (ℕ × T)
  add_targets hash [] seen m = (seen, m)
  add_targets hash (t ∷ ts) seen m =
      add_targets hash ts (hash t ∷ seen)
        (if has (lookup (hash t) m) then m else insert (hash t) t m)

  -- the loop of sync that removes the targets that were not seen
  unfoldable pub keep_seen : List ℕ → List (ℕ × T) → List (ℕ × T)
  keep_seen seen [] = []
  keep_seen seen ((h, t) ∷ m) =
      let rest = keep_seen seen m in if mem h seen then (h, t) ∷ rest else rest

module _ {T : Type 0} where
  -- the loop of Sync: a group whose targets cannot be built is left out
  unfoldable pub all_targets : {G E : Type 0} → (G → List T ⊎ E) → List G → List T
  all_targets targets_from_group [] = []
  all_targets targets_from_group (tg ∷ tgs) =
      let rest = all_targets targets_from_group tgs in
      elim (targets_from_group tg) [ inl ts ↦ ts ++ rest | inr err ↦ rest ]

module _ {S H T : Type 0} where
  -- scrapePool.sync
  unfoldable pub sync : (T → ℕ) → List T → ScrapePool S H T → ScrapePool S H T
  unfolding add_targets keep_seen
  sync hash targets sp =
      let (seen, m) = add_targets hash targets [] sp.targets in
      record sp { targets = keep_seen seen m }

  -- scrapePool.Sync
  unfoldable pub sync_groups :
      {G E : Type 0} → (T → ℕ) → (S → G → List T ⊎ E) → List G → ScrapePool S H T → ScrapePool S H T
  unfolding sync all_targets
  sync_groups hash targets_from_group tgs sp =
      sync hash (all_targets (targets_from_group sp.config) tgs) sp

  -- scrapePool.reload: an error in making the client is only logged, and leaves no client
  unfoldable pub reload : {E : Type 0} → (S → H ⊎ E) → S → ScrapePool S H T → ScrapePool S H T
  reload new_client cfg sp = record sp {
    config = cfg;
    client = elim (new_client cfg) [ inl h ↦ some h | inr err ↦ none ];
  }
