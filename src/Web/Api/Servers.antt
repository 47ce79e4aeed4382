-- ===== src/Web/Api/Servers.antt =====
-- The servers that proxyReq of web/api/v1/api.go asks, in terms of the target manager's targets
-- (retrieval/targetmanager.go, retrieval/target.go).
use promeproxy.Common.{
  String, ◌≡◌, refl, ap, ◌∙◌, inl, inr, Bool, List, [], ◌∷◌, ◌++◌, map, map-append, arith, ◌==◌,
  Bool-cases, filterb, get_or, lookup,
}
use promeproxy.Common.{string_eq}
use promeproxy.Retrieval.Target.{Target, labels_of}
use promeproxy.Retrieval.Target.Laws.{lookup-labels_of}
use promeproxy.Model.{LabelSet}
use promeproxy.Retrieval.Scrape.{ScrapePool}
use promeproxy.Retrieval.Manager.{targets}
use promeproxy.Web.Api.{get_prom_targets}

module _ {E : Type 0} where
  -- the target is a Prometheus server
  abbrev pub is_server : Target E → Bool
  is_server t = get_or (lookup "job" t.labels) "" == "allprometheus"

  abbrev pub instance_of : Target E → String
  instance_of t = get_or (lookup "instance" t.labels) ""

  get_prom_targets-labels_of :
      (ts : List (Target E))
      → get_prom_targets (map labels_of ts) ≡ map instance_of (filterb is_server ts)
  unfolding get_prom_targets
  get_prom_targets-labels_of [] = refl
  get_prom_targets-labels_of (t ∷ ts) =
      rw (lookup-labels_of t "job", lookup-labels_of t "instance", get_prom_targets-labels_of ts)
        (elim (Bool-cases (is_server t)) [ inl e ↦ rw (e) refl | inr e ↦ rw (e) refl ])

-- a pool's targets, in the order of an iteration
abbrev pub pool_targets : {S H T : Type 0} → List (String × ScrapePool S H T) → List (List T)
pool_targets [] = []
pool_targets ((name, sp) ∷ sets) = map (λ e. e.1) sp.targets ∷ pool_targets sets

-- the instances of the servers in each pool, one pool after another
abbrev pub servers_of : {E : Type 0} → List (List (Target E)) → List String
servers_of [] = []
servers_of (ts ∷ pools) = map instance_of (filterb is_server ts) ++ servers_of pools

get_prom_targets-append :
    (xs ys : List LabelSet)
    → get_prom_targets (xs ++ ys) ≡ get_prom_targets xs ++ get_prom_targets ys
unfolding get_prom_targets
get_prom_targets-append [] ys = refl
get_prom_targets-append (x ∷ xs) ys = ground (arith, get_prom_targets-append xs ys)

module _ {S H E : Type 0} where
  -- The servers that a request is sent on to are, pool by pool, the instance labels of those targets of the
  -- target manager's pools whose job label is allprometheus; that Labels leaves out reserved labels changes
  -- nothing.
  pub get_prom_targets-servers_of :
      (sets : List (String × ScrapePool S H (Target E)))
      → get_prom_targets (map labels_of (targets sets)) ≡ servers_of (pool_targets sets)
  unfolding targets
  get_prom_targets-servers_of [] = get_prom_targets-labels_of {E = E} []
  get_prom_targets-servers_of ((name, sp) ∷ sets) =
      ap get_prom_targets (map-append labels_of (map (λ e. e.1) sp.targets) (targets sets))
      ∙ get_prom_targets-append (map labels_of (map (λ e. e.1) sp.targets))
          (map labels_of (targets sets))
      ∙ λ i.
          get_prom_targets-labels_of (map (λ e. e.1) sp.targets) i
          ++ get_prom_targets-servers_of sets i
