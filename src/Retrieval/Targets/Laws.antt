-- ===== src/Retrieval/Targets/Laws.antt =====
-- retrieval/target.go: what targets tell about themselves while they are scraped, and their order.
use mathlib.Core.List.{Perm}
use promeproxy.Common.{
  ℕ, String, ◌≡◌, refl, ap, Bool, false, Option, List, [], ◌∷◌, if◌then◌else◌, ℤ, has,
}
use promeproxy.Common.Sorting.{
  IsSortOf, Swapped-Perm, in_order-get_elem, IsPairwise, IsPairwise-get_elem,
}
use promeproxy.Model.{LabelSet}
use promeproxy.Retrieval.Target.{unknown, good, bad, Target, new_target, report, Url, url}
use promeproxy.Retrieval.Targets.{
  target_string, target_hash, last_error, last_scrape, health, urls_less, reported,
}

module _ {E : Type 0} where
  -- what the last scrape was
  abbrev pub last_report : ℤ × Option E → List (ℤ × Option E) → ℤ × Option E
  last_report r [] = r
  last_report r (s ∷ rs) = last_report s rs

  -- What a target tells after scrapes, of which the last had this start and this error.
  pub record Tells (start : ℤ) (err : Option E) (t : Target E) : Type 0 where
    pub tells_start : last_scrape t ≡ start
    pub tells_error : last_error t ≡ err
    pub tells_health : health t ≡ (if has err then bad else good)

  reported-Tells :
      (r : ℤ × Option E) (rs : List (ℤ × Option E)) (t : Target E)
      → Tells (last_report r rs).0 (last_report r rs).1 (reported (r ∷ rs) t)
  unfolding reported report last_scrape last_error health
  reported-Tells r [] t = record { tells_start = refl; tells_error = refl; tells_health = refl }
  reported-Tells r (s ∷ rs) t = reported-Tells s rs (report r.0 r.1 t)

  -- what the key of a target in its pool depends on
  reported-url : (rs : List (ℤ × Option E)) (t : Target E) → url (reported rs t) ≡ url t
  unfolding reported report url
  reported-url [] t = refl
  reported-url (r ∷ rs) t = reported-url rs (report r.0 r.1 t)

  reported-labels : (rs : List (ℤ × Option E)) (t : Target E) → (reported rs t).labels ≡ t.labels
  unfolding reported report
  reported-labels [] t = refl
  reported-labels (r ∷ rs) t = reported-labels rs (report r.0 r.1 t)

  -- A new target has not been scraped, and after its first scrape and any more it tells the start, the error
  -- and the health of the last one, while its text and its hash, by which its pool knows it, stay.
  pub new_target-reported :
      (fingerprint : LabelSet → String) (url_string : Url → String) (sum : List String → ℕ)
      (labels discovered : LabelSet) (params : List (String × List String)) (zero_time : ℤ)
      (r : ℤ × Option E) (rs : List (ℤ × Option E))
      → (health (new_target {E = E} labels discovered params zero_time) ≡ unknown)
        × Tells
            (last_report r rs).0
            (last_report r rs).1
            (reported (r ∷ rs) (new_target labels discovered params zero_time))
        × (target_string url_string
              (reported (r ∷ rs) (new_target labels discovered params zero_time))
            ≡ target_string url_string (new_target {E = E} labels discovered params zero_time))
        × (target_hash fingerprint url_string sum
              (reported (r ∷ rs) (new_target labels discovered params zero_time))
            ≡ target_hash fingerprint url_string sum
                (new_target {E = E} labels discovered params zero_time))
  unfolding health new_target target_string target_hash
  new_target-reported fingerprint url_string sum labels discovered params zero_time r rs =
      let t : Target E = new_target labels discovered params zero_time in
      (
        refl,
        reported-Tells r rs t,
        ap url_string (reported-url (r ∷ rs) t),
        λ i. sum (
            fingerprint (reported-labels (r ∷ rs) t i)
            ∷ url_string (reported-url (r ∷ rs) t i)
            ∷ []),
      )

  -- If sort.Sort does what it promises, by Swap and Less, to a slice of targets, then the slice has the same
  -- targets as before, and no target's text is smaller than one before it.
  pub sort_targets-IsPairwise :
      (less : String → String → Bool) (url_string : Url → String) (ts sorted : List (Target E))
      → IsSortOf (urls_less less url_string) ts sorted
      → Perm sorted ts
        × IsPairwise
            (λ a b. less (target_string url_string b) (target_string url_string a) ≡ false)
            sorted
  unfolding urls_less
  sort_targets-IsPairwise less url_string ts sorted s = (
    Swapped-Perm s.by_swaps,
    IsPairwise-get_elem
        (λ a b. less (target_string url_string b) (target_string url_string a) ≡ false) sorted
        (in_order-get_elem s),
  )
