-- ===== src/Client/Chart.antt =====
-- The charts of client/src/features/dashboard: `PromChart` and `MetricChart` (ServerDetailPage.tsx), `Chart`
-- (TelemetryPage.tsx) and `SvgChart` (MonitoringPage.tsx). Values are hundredths, and below zero only in `PromChart`;
-- a coordinate is the rounding of the exact quotient.
pub mod Drawn
pub mod Merged
pub mod Framed
use server_hub.Prelude.{
  ℕ, zero, suc, Bool, true, false, List, [], ◌∷◌, ◌++◌, Option, none, some, map, length, leb, ltb,
  ◌==◌, ◌+◌, ◌-◌, ◌*◌, ◌/◌, if◌then◌else◌,
}

abbrev pub max : ℕ → ℕ → ℕ
max a b = if leb a b then b else a

abbrev pub min_of : ℕ → ℕ → ℕ
min_of a b = if leb a b then a else b

-- `Math.max(...vals, least)`
unfoldable pub max_of : List ℕ → ℕ → ℕ
max_of [] least = least
max_of (v ∷ vs) least = max v (max_of vs least)

abbrev pub width : ℕ
width = 560

-- The number 1 as a value.
abbrev pub unit : ℕ
unit = 100

-- Where a chart puts the value 0, and how far above that its highest value.
pub record Frame : Type 0 where
  pub base : ℕ
  pub height : ℕ

-- `H - 10` and `H - 20` for H = 120; `H - 12` and `H - 28` for H = 140; `H - 8` and `H - 16` for H = 112.
abbrev pub server_frame : Frame
server_frame = record { base = 110; height = 100 }

abbrev pub telemetry_frame : Frame
telemetry_frame = record { base = 128; height = 112 }

abbrev pub monitoring_frame : Frame
monitoring_frame = record { base = 104; height = 96 }

-- `Math.round(base - (Math.min(v, hi) / hi) * height)`
unfoldable pub y_of : Frame → ℕ → ℕ → ℕ
y_of f hi v = ((2 * f.base + 1) * hi - 2 * f.height * min_of v hi) / (2 * hi)

-- `Math.round(i * (W / last))`, for `last` steps.
unfoldable pub x_at : ℕ → ℕ → ℕ
x_at last i = if last == 0 then 0 else (2 * width * i + last) / (2 * last)

abbrev pub Point : Type 0
Point = ℕ × ℕ

-- The points of the values from the i-th on.
unfoldable pub points_from : Frame → ℕ → ℕ → ℕ → List ℕ → List Point
unfolding x_at y_of
points_from f hi last i [] = []
points_from f hi last i (v ∷ vs) = (x_at last i, y_of f hi v) ∷ points_from f hi last (suc i) vs

-- The line of `MetricChart` and `SvgChart`, and of `Chart` with the highest value that it is given.
unfoldable pub line_to : Frame → ℕ → List ℕ → List Point
unfolding points_from
line_to f hi vs = points_from f hi (length vs - 1) 0 vs

unfoldable pub line : Frame → List ℕ → List Point
unfolding line_to max_of
line f vs = line_to f (max_of vs unit) vs

-- `Chart` of TelemetryPage.tsx draws one or two lines with one scale; `top` is what `max` makes of the
-- first values.
unfoldable pub two_lines :
    (List ℕ → ℕ) → List ℕ → Option (List ℕ) → List Point × Option (List Point)
unfolding line_to max_of
two_lines top vs none = (line_to telemetry_frame (max (top vs) (max_of vs unit)) vs, none)
two_lines top vs (some ws) =
    let hi = max (top vs) (max_of vs (max_of ws unit)) in
    (line_to telemetry_frame hi vs, some (line_to telemetry_frame hi ws))

-- Values of `PromChart` may be below zero: `negsuc n` is -(n + 1).
pub data ℤ : Type 0 where
  pos negsuc : ℕ → ℤ

-- `y(v)`: a value below zero comes below the base.
unfoldable pub y_value : Frame → ℕ → ℤ → ℕ
unfolding y_of
y_value f hi (pos v) = y_of f hi v
y_value f hi (negsuc n) = ((2 * f.base + 1) * hi + 2 * f.height * (n + 1)) / (2 * hi)

-- A point of a series; none is a gap.
pub record Reading : Type 0 where
  pub timestamp : ℕ
  pub value : Option ℤ

abbrev pub Readings : Type 0
Readings = List (ℕ × Option ℤ)

-- `if (!byTime.has(t) || v != null) byTime.set(t, v)`; the map's keys kept in order, as they are
-- sorted before use.
unfoldable pub record_at : ℕ → Option ℤ → Readings → Readings
record_at t v [] = (t, v) ∷ []
record_at t v ((u, w) ∷ m) =
    let later = record_at t v m in
    let here : Readings = elim v [ none ↦ (u, w) ∷ m | some a ↦ (u, some a) ∷ m ] in
    if t == u then here else if ltb t u then (t, v) ∷ (u, w) ∷ m else (u, w) ∷ later

unfoldable pub merge_series : List Reading → Readings → Readings
unfolding record_at
merge_series [] m = m
merge_series (p ∷ ps) m = merge_series ps (record_at p.timestamp p.value m)

unfoldable pub by_time : List (List Reading) → Readings → Readings
unfolding merge_series
by_time [] m = m
by_time (s ∷ ss) m = by_time ss (merge_series s m)

-- The values that are there.
unfoldable pub valid : Readings → List ℤ
valid [] = []
valid ((t, none) ∷ m) = valid m
valid ((t, some v) ∷ m) = v ∷ valid m

-- `flush`: what is added to the segments, a lone point twice.
unfoldable pub flush : List Point → List (List Point)
flush [] = []
flush (p ∷ []) = (p ∷ p ∷ []) ∷ []
flush ps = ps ∷ []

-- The loop over the times with its two variables; a gap is a reading of none.
unfoldable pub runs :
    (ℕ → ℤ → Point) → Readings → List Point → List (List Point) → List (List Point)
unfolding flush
runs place [] current segments = segments ++ flush current
runs place ((t, none) ∷ m) current segments = runs place m [] (segments ++ flush current)
runs place ((t, some v) ∷ m) current segments = runs place m (current ++ place t v ∷ []) segments

first_time : Readings → ℕ
first_time [] = 0
first_time ((t, v) ∷ m) = t

last_time : ℕ → Readings → ℕ
last_time t [] = t
last_time t ((u, v) ∷ m) = last_time u m

-- `t1 > t0 ? Math.round(((t - t0) / (t1 - t0)) * W) : 0`
unfoldable pub x_time : ℕ → ℕ → ℕ → ℕ
x_time t0 t1 t = if ltb t0 t1 then (2 * width * (t - t0) + (t1 - t0)) / (2 * (t1 - t0)) else 0

-- `Math.max(...valid, 1)`: values below zero do not count beside the 1.
unfoldable pub max_value : List ℤ → ℕ
max_value [] = unit
max_value (pos v ∷ vs) = max v (max_value vs)
max_value (negsuc n ∷ vs) = max_value vs

default_max : Option ℕ → List ℤ → ℕ
unfolding max_value
default_max none vs = max_value vs
default_max (some m) vs = m

is_nil : List ℤ → Bool
is_nil [] = true
is_nil (v ∷ vs) = false

-- The polylines of `PromChart`; none is "No monitoring data available for this range."
unfoldable pub prom_chart : Option ℕ → List (List Reading) → Option (List (List Point))
unfolding by_time valid runs x_time y_value first_time last_time default_max is_nil
prom_chart fixed_max series =
    let m = by_time series [] in
    let hi = default_max fixed_max (valid m) in
    let t0 = first_time m in
    let t1 = last_time t0 m in
    if is_nil (valid m)
    then none
    else some (runs (λ t v. (x_time t0 t1 t, y_value server_frame hi v)) m [] [])
