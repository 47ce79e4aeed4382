-- ===== src/Web/Proxy/Laws.antt =====
-- proxyReq of web/api/v1/api.go: what it collects, when it panics, and its unlocked appends.
use promeproxy.Common.{
  nat_eq, ℕ, suc, String, ◌≡◌, refl, sym, ap, ◌∙◌, subst, ◌⊎◌, inl, inr, true, false, Option, none,
  some, List, [], ◌∷◌, ◌++◌, map, append_assoc, append-nil, arith, Option-cases, length, get_elem?,
  set, length-append,
}
use mathlib.Core.Option
use promeproxy.Web.Proxy.{
  Request, request_for, Appending, collect, answers, append_turn, append_turns, ready, appended,
  proxy_req, in_turn,
}

module _ {B : Type 0} where
  -- a server whose request fails
  abbrev pub AnyFails : (Request → Option B) → String → List String → Type 0
  AnyFails send uri [] = ⊥
  AnyFails send uri (server ∷ servers) =
      (send (request_for uri server) ≡ none) ⊎ AnyFails send uri servers

  -- the answers are those of the servers, one for each, in order
  abbrev pub AreAnswers : (Request → Option B) → String → List String → List B → Type 0
  AreAnswers send uri [] [] = Unit
  AreAnswers send uri [] (b ∷ bodys) = ⊥
  AreAnswers send uri (server ∷ servers) [] = ⊥
  AreAnswers send uri (server ∷ servers) (b ∷ bodys) =
      (send (request_for uri server) ≡ some b) × AreAnswers send uri servers bodys

  -- how collecting ends: with a panic for a server that fails, or with every server's answer
  abbrev pub Collects : (Request → Option B) → String → List String → Option (List B) → Type 0
  Collects send uri servers none = AnyFails send uri servers
  Collects send uri servers (some bodys) = AreAnswers send uri servers bodys

  -- The goroutines have one answer for each server; and they panic, with the whole process, if any server cannot be
  -- reached.
  pub answers-Collects :
      (send : Request → Option B) (uri : String) (servers : List String)
      → Collects send uri servers (answers send uri servers)
  unfolding answers collect
  answers-Collects send uri [] = tt
  answers-Collects send uri (server ∷ servers) =
      elim (Option-cases (send (request_for uri server))) [
        | inl e ↦ rw (e, answers) (inl e)
        | inr (body, e) ↦ elim (Option-cases (answers send uri servers)) [
          | inl g ↦
              rw (e, g, answers)
                (inr (subst (Collects send uri servers) g (answers-Collects send uri servers)))
          | inr (bodys, g) ↦
              rw (e, g, answers)
                (e, subst (Collects send uri servers) g (answers-Collects send uri servers))
        ]
      ]

  collect-none : (o : Option B) → collect o none ≡ none
  unfolding collect
  collect-none none = refl
  collect-none (some b) = refl

  answers-none :
      (send : Request → Option B) (uri : String) (servers : List String)
      → AnyFails send uri servers
      → answers send uri servers ≡ none
  unfolding answers collect
  answers-none send uri [] h = elim h [ ]
  answers-none send uri (server ∷ servers) (inl e) =
      ap (λ o. collect o (answers send uri servers)) e
  answers-none send uri (server ∷ servers) (inr h) =
      ap (collect (send (request_for uri server))) (answers-none send uri servers h)
      ∙ collect-none (send (request_for uri server))

  -- requests of another method are not sent: what the servers would answer to them does not matter
  answers-gets :
      (send send' : Request → Option B)
      → ((r : Request) → r.method ≡ "GET" → send r ≡ send' r)
      → (uri : String) (servers : List String)
      → answers send uri servers ≡ answers send' uri servers
  unfolding answers
  answers-gets send send' h uri [] = refl
  answers-gets send send' h uri (server ∷ servers) =
      λ i. collect (h (request_for uri server) refl i) (answers-gets send send' h uri servers i)

  pub proxy_req-none :
      (send : Request → Option B) (schedule : List ℕ) (uri : String) (servers : List String)
      → AnyFails send uri servers
      → proxy_req send schedule uri servers ≡ none
  unfolding proxy_req
  proxy_req-none send schedule uri servers h =
      ap (Option.map (appended schedule)) (answers-none send uri servers h)

  pub proxy_req-gets :
      (send send' : Request → Option B)
      → ((r : Request) → r.method ≡ "GET" → send r ≡ send' r)
      → (schedule : List ℕ) (uri : String) (servers : List String)
      → proxy_req send schedule uri servers ≡ proxy_req send' schedule uri servers
  unfolding proxy_req
  proxy_req-gets send send' h schedule uri servers =
      ap (Option.map (appended schedule)) (answers-gets send send' h uri servers)

  get_elem?-after :
      (done gs : List (Appending B)) (g : Appending B)
      → get_elem? (done ++ g ∷ gs) (length done) ≡ some g
  get_elem?-after [] gs g = refl
  get_elem?-after (d ∷ done) gs g = get_elem?-after done gs g

  set-after :
      (done gs : List (Appending B)) (g g' : Appending B)
      → set (done ++ g ∷ gs) (length done) g' ≡ done ++ g' ∷ gs
  set-after [] gs g g' = refl
  set-after (d ∷ done) gs g g' = ap (λ l. d ∷ l) (set-after done gs g g')

  -- a turn of the goroutine after some others
  append_turns-after :
      (schedule : List ℕ) (out : List B) (done gs : List (Appending B)) (g : Appending B)
      → append_turns (length done ∷ schedule) out (done ++ g ∷ gs)
        ≡ append_turns schedule (append_turn out g).0 (done ++ (append_turn out g).1 ∷ gs)
  unfolding append_turns
  append_turns-after schedule out done gs g =
      rw (get_elem?-after done gs g, append_turns)
        (ap (append_turns schedule (append_turn out g).0)
          (set-after done gs g (append_turn out g).1))

  append_turns-in_turn :
      (bs out : List B) (done : List (Appending B)) (k : ℕ)
      → length done ≡ k
      → (append_turns (in_turn k (length bs)) out (done ++ map ready bs)).0 ≡ out ++ bs
  unfolding append_turns append_turn
  append_turns-in_turn [] out done k e = sym (append-nil out)
  append_turns-in_turn (b ∷ bs) out done k e =
      let reading : Appending B = record { body = b; slice_read = some out; finished = false } in
      let through : Appending B = record { body = b; slice_read = some out; finished = true } in
      let later = in_turn (suc k) (length bs) in
      ap (λ j. (append_turns (j ∷ j ∷ later) out (done ++ ready b ∷ map ready bs)).0) (sym e)
      ∙ ap (λ p. p.0) (append_turns-after (length done ∷ later) out done (map ready bs) (ready b))
      ∙ ap (λ p. p.0) (append_turns-after later out done (map ready bs) reading)
      ∙ ap (λ gs. (append_turns later (out ++ b ∷ []) gs).0)
          (sym (append_assoc done (through ∷ []) (map ready bs)))
      ∙ append_turns-in_turn bs (out ++ b ∷ []) (done ++ through ∷ []) (suc k)
          (omega (arith, e, length-append done (through ∷ [])))
      ∙ append_assoc out (b ∷ []) bs

  length-AreAnswers :
      (send : Request → Option B) (uri : String) (servers : List String) (bs : List B)
      → AreAnswers send uri servers bs
      → length servers ≡ length bs
  length-AreAnswers send uri [] [] a = refl
  length-AreAnswers send uri [] (b ∷ bs) a = elim a [ ]
  length-AreAnswers send uri (server ∷ servers) [] a = elim a [ ]
  length-AreAnswers send uri (server ∷ servers) (b ∷ bs) a =
      omega (arith, length-AreAnswers send uri servers bs a.1)

  -- If the appends of the goroutines do not overlap, proxyReq collects one answer for each server, in the order of the
  -- appends; and it panics, with the whole process, if any server cannot be reached.
  pub proxy_req-Collects :
      (send : Request → Option B) (schedule : List ℕ) (uri : String) (servers : List String)
      → schedule ≡ in_turn 0 (length servers)
      → Collects send uri servers (proxy_req send schedule uri servers)
  unfolding proxy_req appended
  proxy_req-Collects send schedule uri servers e =
      go (answers send uri servers) (answers-Collects send uri servers)
    where
      go :
          (o : Option (List B))
          → Collects send uri servers o
          → Collects send uri servers (Option.map (appended schedule) o)
      go none c = c
      go (some bs) c =
          subst (AreAnswers send uri servers)
            (sym (
              ap (λ l. (append_turns l [] (map ready bs)).0)
                (e ∙ ap (in_turn 0) (length-AreAnswers send uri servers bs c))
              ∙ append_turns-in_turn bs [] [] 0 refl))
            c

  -- Of two goroutines whose appends overlap, each reading the slice before the other has written it, one
  -- answer is lost; without the overlap both are there.
  pub append_turns-loses :
      (bodys : List B) (x y : B)
      → ((append_turns (0 ∷ 0 ∷ 1 ∷ 1 ∷ []) bodys (ready x ∷ ready y ∷ [])).0 ≡ bodys ++ x ∷ y ∷ [])
        × ((append_turns (0 ∷ 1 ∷ 0 ∷ 1 ∷ []) bodys (ready x ∷ ready y ∷ [])).0 ≡ bodys ++ y ∷ [])
  unfolding append_turns
  append_turns-loses bodys x y = (append_assoc bodys (x ∷ []) (y ∷ []), refl)
