-- ===== src/Remote/Ewma.antt =====
-- storage/remote/ewma.go: the moving average of a rate. The counter is an int64 that is read and
-- decreased atomically, in two steps; event counts are taken not to overflow it.
pub mod Laws
use promeproxy.Common.{ℕ, ◌+◌, ◌-◌, Bool, true, false, pos}
use promeproxy.Floats.{Floats}

-- ewmaRate. `ticked` is a log: the events that ticks have put into the average so far.
pub record EwmaRate (F : Type 0) : Type 0 where
  pub new_events : ℕ
  pub alpha : F
  pub interval : F
  pub last_rate : F
  pub init : Bool
  pub ticked : ℕ

module _ {F : Type 0} (fl : Floats F) where
  open fl use {constant, of_int, add, sub, mul, div}

  -- newEWMARate; the interval is in seconds
  unfoldable pub new_ewma_rate : F → F → EwmaRate F
  new_ewma_rate alpha interval = record {
    new_events = 0;
    alpha = alpha;
    interval = interval;
    last_rate = constant 0 1;
    init = false;
    ticked = 0;
  }

  abbrev pub rate : EwmaRate F → F
  rate r = r.last_rate

  -- incr
  unfoldable pub incr : ℕ → EwmaRate F → EwmaRate F
  incr n r = record r { new_events = r.new_events + n }

  abbrev average : Bool → F → F → F → F
  average true alpha last instant = add last (mul alpha (sub instant last))
  average false alpha last instant = instant

  -- tick; `arriving` counts the events of other goroutines between its load and its decrease
  unfoldable pub tick : ℕ → EwmaRate F → EwmaRate F
  tick arriving r =
      let loaded = r.new_events in
      let instant = div (of_int (pos loaded)) r.interval in
      record r {
        new_events = r.new_events + arriving - loaded;
        last_rate = average r.init r.alpha r.last_rate instant;
        init = true;
        ticked = r.ticked + loaded;
      }
