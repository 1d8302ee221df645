-- ===== src/Client/Telemetry.antt =====
-- client/src/features/dashboard/TelemetryPage.tsx: which answer the page shows when the range is changed,
-- and the rates that it makes of the machine's counters.
pub mod Current
pub mod Rates
use server_hub.Prelude.{
  ℕ, zero, suc, String, Bool, true, false, List, [], ◌∷◌, ◌++◌, Option, none, some, map, length,
  leb, ltb, ◌==◌, ◌-◌, if◌then◌else◌,
}
use server_hub.Text.{Text, codes, eqb}
use server_hub.Types.{TelemetryPoint}

pub data Range : Type 0 where
  quarter hour six_hours day : Range

abbrev pub range_word : Range → String
range_word quarter = "15m"
range_word hour = "1h"
range_word six_hours = "6h"
range_word day = "24h"

abbrev pub same_range : Range → Range → Bool
same_range quarter quarter = true
same_range hour hour = true
same_range six_hours six_hours = true
same_range day day = true
same_range _ _ = false

-- The states `range`, `points` and `loading`; the requests so far, by their ranges, and the one whose
-- `alive` is still true.
pub record Telemetry : Type 0 where
  pub range : Range
  pub points : List TelemetryPoint
  pub loading : Bool
  pub requests : List Range
  pub alive : Option ℕ

-- The effect of `range`: the last request is no longer alive, and a new one is made.
unfoldable pub ask : Telemetry → Telemetry
ask s = record s {
  loading = true;
  requests = s.requests ++ s.range ∷ [];
  alive = some (length s.requests);
}

unfoldable pub opened : Telemetry
unfolding ask
opened = ask (record { range = hour; points = []; loading = true; requests = []; alive = none })

-- A button of a range; the answer to a request by its number; the page is left.
pub data TelemetryEvent : Type 0 where
  picked : Range → TelemetryEvent
  answered : ℕ → TelemetryEvent
  left : TelemetryEvent

unfoldable pub or_nil : Option (List TelemetryPoint) → List TelemetryPoint
or_nil none = []
or_nil (some ps) = ps

is_alive : ℕ → Option ℕ → Bool
is_alive i none = false
is_alive i (some j) = i == j

-- What the server answers to the i-th request, none where the call throws.
module _ (answer : ℕ → Option (List TelemetryPoint)) where
  -- The effect runs only when the range is another one, and never after the page was left.
  unfoldable pub step : TelemetryEvent → Telemetry → Telemetry
  unfolding ask or_nil is_alive
  step (picked r) s = elim s.alive [
    | none ↦ s
    | some i ↦ if same_range r s.range then s else ask (record s { range = r })
  ]
  step (answered i) s =
      if is_alive i s.alive then record s { points = or_nil (answer i); loading = false } else s
  step left s = record s { alive = none }

  unfoldable pub run : List TelemetryEvent → Telemetry → Telemetry
  unfolding step
  run [] s = s
  run (e ∷ es) s = run es (step e s)

pub data Counter : Type 0 where
  net_rx net_tx disk_read disk_write : Counter

abbrev pub counter_of : Counter → TelemetryPoint → ℕ
counter_of net_rx p = p.net_rx
counter_of net_tx p = p.net_tx
counter_of disk_read p = p.disk_read
counter_of disk_write p = p.disk_write

-- `dv / dt / 1024`, kept as its two numbers.
pub record Rate : Type 0 where
  pub bytes : ℕ
  pub seconds : ℕ

-- `Math.max(0, v - before)`, and `Math.max(1, ts - before)`.
unfoldable pub rate_since : Counter → TelemetryPoint → TelemetryPoint → Rate
rate_since k before p = record {
  bytes = counter_of k p - counter_of k before;
  seconds = if ltb 1 (p.ts - before.ts) then p.ts - before.ts else 1;
}

unfoldable pub rates_after : Counter → TelemetryPoint → List TelemetryPoint → List Rate
unfolding rate_since
rates_after k before [] = []
rates_after k before (p ∷ ps) = rate_since k before p ∷ rates_after k p ps

-- The rate 0 for the first point.
unfoldable pub rates : Counter → List TelemetryPoint → List Rate
unfolding rates_after
rates k [] = []
rates k (p ∷ ps) = record { bytes = 0; seconds = 1 } ∷ rates_after k p ps

-- `pressureDot`
unfoldable pub pressure_dot : Text → String
pressure_dot level =
    if eqb level (codes "High")
    then "bg-brick"
    else if eqb level (codes "Elevated")
    then "bg-status-amber"
    else "bg-moss"
