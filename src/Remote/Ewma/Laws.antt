-- ===== src/Remote/Ewma/Laws.antt =====
-- The counter of storage/remote/ewma.go under events that come during a tick.
use promeproxy.Common.{ℕ, ◌+◌, ◌≡◌, List, [], ◌∷◌, arith}
use promeproxy.Floats.{Floats}
use promeproxy.Remote.Ewma.{EwmaRate, incr, tick}

-- A call of incr, or a tick with the events that arrive while it runs.
pub data Call : Type 0 where
  incrs : ℕ → Call
  ticks : ℕ → Call

abbrev pub events : List Call → ℕ
events [] = 0
events (incrs n ∷ calls) = n + events calls
events (ticks n ∷ calls) = n + events calls

module _ {F : Type 0} (fl : Floats F) where
  abbrev pub call : Call → EwmaRate F → EwmaRate F
  call (incrs n) r = incr fl n r
  call (ticks n) r = tick fl n r

  abbrev pub run : List Call → EwmaRate F → EwmaRate F
  run [] r = r
  run (c ∷ calls) r = run calls (call c r)

  call-events :
      (c : Call) (r : EwmaRate F)
      → (call c r).ticked + (call c r).new_events ≡ r.ticked + r.new_events + events (c ∷ [])
  unfolding incr tick
  call-events (incrs n) r = omega arith
  call-events (ticks n) r = omega arith

  -- After any calls, the events that ticks have used, with those still to be used, are the events that
  -- there were at the start and those that came in.
  pub run-events :
      (calls : List Call) (r : EwmaRate F)
      → (run calls r).ticked + (run calls r).new_events ≡ r.ticked + r.new_events + events calls
  run-events [] r = omega arith
  run-events (incrs n ∷ calls) r =
      omega (arith, run-events calls (incr fl n r), call-events (incrs n) r)
  run-events (ticks n ∷ calls) r =
      omega (arith, run-events calls (tick fl n r), call-events (ticks n) r)
