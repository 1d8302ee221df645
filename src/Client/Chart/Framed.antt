-- ===== src/Client/Chart/Framed.antt =====
-- What `PromChart` draws stays in its frame.
use server_hub.Prelude.{
  ◌==◌, if-elim, ℕ, zero, suc, Bool, true, false, List, [], ◌∷◌, ◌++◌, Option, none, some, ltb, ◌+◌,
  ◌-◌, ◌*◌, ◌≤◌, ◌<◌, if◌then◌else◌, ◌≡◌, ◌≢◌, refl, arith, All, All-append, subst, Bool-cases, inl,
  inr,
}
use server_hub.Client.Chart.{
  ℤ, pos, negsuc, max_value, y_value, record_at, merge_series, Frame, server_frame, x_time, Point,
  Reading, Readings, by_time, valid, flush, runs, first_time, last_time, default_max, is_nil,
  prom_chart,
}
use server_hub.Client.Chart.Drawn.{IsInside, y_of_bounds, div_bounds}
use server_hub.Client.Chart.Merged.{IsAfter, IsSorted, by_time-IsSorted}

IsAfter-last : (t : ℕ) (m : Readings) → IsAfter t m → t ≤ last_time t m
unfolding last_time
IsAfter-last t [] h = omega arith
IsAfter-last t ((u, v) ∷ m) h = omega (arith, h.0, IsAfter-last u m h.1)

All-le_last : (t : ℕ) (m : Readings) → IsAfter t m → All (λ e. e.0 ≤ last_time t m) m
unfolding last_time
All-le_last t [] h = tt
All-le_last t ((u, v) ∷ m) h = (IsAfter-last u m h.1, All-le_last u m h.1)

flush-All : (f : Frame) (ps : List Point) → All (IsInside f) ps → All (All (IsInside f)) (flush ps)
unfolding flush
flush-All f [] h = tt
flush-All f (p ∷ []) h = ((h.0, (h.0, tt)), tt)
flush-All f (p ∷ q ∷ ps) h = (h, tt)

-- A gap, or a reading that is placed in the frame.
abbrev IsPlaced : Frame → (ℕ → ℤ → Point) → ℕ → Option ℤ → Type 0
IsPlaced f place t none = Unit
IsPlaced f place t (some v) = IsInside f (place t v)

runs-All :
    (f : Frame) (place : ℕ → ℤ → Point) (m : Readings) (cur : List Point) (segs : List (List Point))
    → All (λ e. IsPlaced f place e.0 e.1) m
    → All (IsInside f) cur
    → All (All (IsInside f)) segs
    → All (All (IsInside f)) (runs place m cur segs)
unfolding runs
runs-All f place [] cur segs h c s = All-append _ segs (flush cur) s (flush-All f cur c)
runs-All f place ((t, none) ∷ m) cur segs h c s =
    runs-All f place m [] (segs ++ flush cur) h.1 tt
      (All-append _ segs (flush cur) s (flush-All f cur c))
runs-All f place ((t, some v) ∷ m) cur segs h c s =
    runs-All f place m (cur ++ place t v ∷ []) segs h.1
      (All-append _ cur (place t v ∷ []) c (h.0, tt)) s

x_time-le : (t0 t1 t : ℕ) → t ≤ t1 → x_time t0 t1 t ≤ 560
unfolding x_time
x_time-le t0 t1 t h = elim (Bool-cases (ltb t0 t1)) [
  | inl e ↦
      let rising : t0 < t1 = ground (arith, e) in
      rw e (
        (div_bounds (1120 * (t - t0) + (t1 - t0)) (2 * (t1 - t0)) 0 560 (omega arith) (omega arith)
          (omega arith)).1)
  | inr e ↦ rw e (omega arith)
]

-- No value below zero.
abbrev pub IsMeasured : Option ℤ → Type 0
IsMeasured none = Unit
IsMeasured (some (pos v)) = Unit
IsMeasured (some (negsuc n)) = ⊥

record_at-IsMeasured :
    (t : ℕ) (v : Option ℤ) (m : Readings)
    → IsMeasured v
    → All (λ e. IsMeasured e.1) m
    → All (λ e. IsMeasured e.1) (record_at t v m)
unfolding record_at
record_at-IsMeasured t v [] k h = (k, tt)
record_at-IsMeasured t v ((u, w) ∷ m) k h =
    if-elim (All (λ (e : ℕ × Option ℤ). IsMeasured e.1)) (t == u) (λ _. same v k)
      (λ _.
        if-elim (All (λ (e : ℕ × Option ℤ). IsMeasured e.1)) (ltb t u) (λ _. (k, h))
          (λ _. (h.0, record_at-IsMeasured t v m k h.1)))
  where
    same :
        (x : Option ℤ)
        → IsMeasured x
        → All
            (λ (e : ℕ × Option ℤ). IsMeasured e.1)
            (elim x [ none ↦ (u, w) ∷ m | some a ↦ (u, some a) ∷ m ])
    same none q = h
    same (some a) q = (q, h.1)

merge_series-IsMeasured :
    (ps : List Reading) (m : Readings)
    → All (λ p. IsMeasured (Reading.value p)) ps
    → All (λ e. IsMeasured e.1) m
    → All (λ e. IsMeasured e.1) (merge_series ps m)
unfolding merge_series
merge_series-IsMeasured [] m k h = h
merge_series-IsMeasured (p ∷ ps) m k h =
    merge_series-IsMeasured ps (record_at p.timestamp p.value m) k.1
      (record_at-IsMeasured p.timestamp p.value m k.0 h)

by_time-IsMeasured :
    (ss : List (List Reading)) (m : Readings)
    → All (All (λ p. IsMeasured (Reading.value p))) ss
    → All (λ e. IsMeasured e.1) m
    → All (λ e. IsMeasured e.1) (by_time ss m)
unfolding by_time
by_time-IsMeasured [] m k h = h
by_time-IsMeasured (s ∷ ss) m k h =
    by_time-IsMeasured ss (merge_series s m) k.1 (merge_series-IsMeasured s m k.0 h)

place-IsInside :
    (t0 t1 hi : ℕ) (m : Readings)
    → 0 < hi
    → All (λ e. e.0 ≤ t1) m
    → All (λ e. IsMeasured e.1) m
    → All
        (λ e. IsPlaced server_frame (λ u v. (x_time t0 t1 u, y_value server_frame hi v)) e.0 e.1)
        m
unfolding y_value
place-IsInside t0 t1 hi [] p h k = tt
place-IsInside t0 t1 hi ((t, none) ∷ m) p h k = (tt, place-IsInside t0 t1 hi m p h.1 k.1)
place-IsInside t0 t1 hi ((t, some (pos w)) ∷ m) p h k =
    let bounds = y_of_bounds server_frame hi w p (omega arith) in
    ((x_time-le t0 t1 t h.0, bounds.0, bounds.1), place-IsInside t0 t1 hi m p h.1 k.1)
place-IsInside t0 t1 hi ((t, some (negsuc n)) ∷ m) p h k = absurd k.0

drawn : Readings → ℕ → List (List Point)
unfolding runs x_time y_value first_time last_time
drawn m hi =
    runs (λ t v. (x_time (first_time m) (last_time (first_time m) m) t, y_value server_frame hi v))
      m [] []

drawn-IsInside :
    (m : Readings) (hi : ℕ)
    → IsSorted m
    → 0 < hi
    → All (λ e. IsMeasured e.1) m
    → All (All (IsInside server_frame)) (drawn m hi)
unfolding drawn
drawn-IsInside [] hi h p k = tt
drawn-IsInside ((t, v) ∷ m) hi h p k =
    let t1 = last_time t m in
    runs-All server_frame (λ u w. (x_time t t1 u, y_value server_frame hi w)) ((t, v) ∷ m) [] []
      (place-IsInside t t1 hi ((t, v) ∷ m) p (IsAfter-last t m h, All-le_last t m h) k) tt tt

max_value_pos : (vs : List ℤ) → 0 < max_value vs
unfolding max_value
max_value_pos [] = omega arith
max_value_pos (pos v ∷ vs) = ground (arith, max_value_pos vs)
max_value_pos (negsuc n ∷ vs) = max_value_pos vs

default_max_pos : (fixed : Option ℕ) (vs : List ℤ) → fixed ≢ some 0 → 0 < default_max fixed vs
unfolding default_max
default_max_pos none vs n = max_value_pos vs
default_max_pos (some zero) vs n = absurd (n refl)
default_max_pos (some (suc k)) vs n = omega arith

-- Every point of every line that `PromChart` draws is in its frame, where no reading of its series is below
-- zero and the fixed highest value, if there is one, is not zero.
pub prom_chart-IsInside :
    (fixed : Option ℕ) (series : List (List Reading)) {lines : List (List Point)}
    → fixed ≢ some 0
    → All (All (λ p. IsMeasured (Reading.value p))) series
    → prom_chart fixed series ≡ some lines
    → All (All (IsInside server_frame)) lines
unfolding prom_chart drawn
prom_chart-IsInside fixed series {lines} n k e =
    let m = by_time series [] in
    let hi = default_max fixed (valid m) in
    shown (is_nil (valid m)) (drawn m hi) e (
      drawn-IsInside m hi (by_time-IsSorted series [] tt) (default_max_pos fixed (valid m) n)
        (by_time-IsMeasured series [] k tt))
  where
    shown :
        (b : Bool) (ls : List (List Point))
        → (if b then none else some ls) ≡ some lines
        → All (All (IsInside server_frame)) ls
        → All (All (IsInside server_frame)) lines
    shown true ls f h = cc
    shown false ls f h = subst (All (All (IsInside server_frame))) (ground (arith, f)) h
