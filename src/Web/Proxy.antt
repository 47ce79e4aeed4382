-- ===== src/Web/Proxy.antt =====
-- proxyReq of web/api/v1/api.go: a request that is sent on to every Prometheus server, and the goroutines
-- that collect the answers.
pub mod Laws
use mathlib.Core.Option
use promeproxy.Common.{
  ℕ, zero, suc, String, Bool, true, false, Option, none, some, List, [], ◌∷◌, ◌++◌, map,
  if◌then◌else◌, str_append, get_elem?, set,
}

-- What the proxy sends.
pub record Request : Type 0 where
  pub method : String
  pub url : String

-- the request for a server, with the RequestURI of the one that came in
unfoldable pub request_for : String → String → Request
request_for uri server = record {
  method = "GET";
  url = str_append "http://" (str_append server uri);
}

-- A goroutine at its append: its body, and the slice that it has read, if it has.
pub record Appending (B : Type 0) : Type 0 where
  pub body : B
  pub slice_read : Option (List B)
  pub finished : Bool

module _ {B : Type 0} where
  -- the slice with the body of a response, if there is one
  unfoldable pub collect : Option B → Option (List B) → Option (List B)
  collect none bodys = none
  collect (some body) bodys = Option.map (λ bs. body ∷ bs) bodys

  -- The bodies that the goroutines append, in the order of the servers. `send` is client.Do and the reading of
  -- the body; where it fails there is no response, and the use of resp.Body panics: none.
  unfoldable pub answers : (Request → Option B) → String → List String → Option (List B)
  unfolding request_for collect
  answers send uri [] = some []
  answers send uri (server ∷ servers) =
      collect (send (request_for uri server)) (answers send uri servers)

  -- One turn of a goroutine: it reads the variable bodys, or it writes it with its body appended.
  unfoldable pub append_turn : List B → Appending B → List B × Appending B
  append_turn bodys g = if g.finished then (bodys, g) else (elim g.slice_read [
    | none ↦ (bodys, record g { slice_read = some bodys })
    | some slice ↦ (slice ++ g.body ∷ [], record g { finished = true })
  ])

  -- The turns of the goroutines, by their numbers.
  unfoldable pub append_turns : List ℕ → List B → List (Appending B) → List B × List (Appending B)
  unfolding append_turn
  append_turns [] bodys gs = (bodys, gs)
  append_turns (i ∷ schedule) bodys gs = elim (get_elem? gs i) [
    | none ↦ append_turns schedule bodys gs
    | some g ↦ append_turns schedule (append_turn bodys g).0 (set gs i (append_turn bodys g).1)
  ]

  -- a goroutine with its body, before its append
  abbrev pub ready : B → Appending B
  ready body = record { body = body; slice_read = none; finished = false }

  -- bodys, once the goroutines have appended their bodies in the turns of a schedule
  unfoldable pub appended : List ℕ → List B → List B
  unfolding append_turns
  appended schedule bs = (append_turns schedule [] (map ready bs)).0

  -- proxyReq, with the turns that the goroutines' unlocked appends take; wg.Wait waits until all are through
  unfoldable pub proxy_req : (Request → Option B) → List ℕ → String → List String → Option (List B)
  unfolding answers appended
  proxy_req send schedule uri servers = Option.map (appended schedule) (answers send uri servers)

-- the schedule of `n` goroutines, from number `k` on, whose appends do not overlap: each in turn
abbrev pub in_turn : ℕ → ℕ → List ℕ
in_turn k zero = []
in_turn k (suc n) = k ∷ k ∷ in_turn (suc k) n
