-- ===== src/Client/Chart/Merged.antt =====
-- `PromChart` merges its series by time: no value is lost to a gap of another series.
use server_hub.Prelude.{
  ℕ, true, List, [], ◌∷◌, Option, none, some, ltb, ◌==◌, ◌≤◌, ◌<◌, if◌then◌else◌, if-elim, ◌≡◌,
  refl, arith, Has, subst, sym, ◌∙◌, Bool-cases, inl, inr,
}
use server_hub.Client.Chart.{ℤ, Reading, Readings, record_at, merge_series, by_time}

-- The times rise, from `t` on.
abbrev pub IsAfter : ℕ → Readings → Type 0
IsAfter t [] = Unit
IsAfter t ((u, v) ∷ m) = (t < u) × IsAfter u m

abbrev pub IsSorted : Readings → Type 0
IsSorted [] = Unit
IsSorted ((t, v) ∷ m) = IsAfter t m

record_at-IsAfter :
    (s t : ℕ) (v : Option ℤ) (m : Readings) → s < t → IsAfter s m → IsAfter s (record_at t v m)
unfolding record_at
record_at-IsAfter s t v [] e h = (e, tt)
record_at-IsAfter s t v ((u, w) ∷ m) e h =
    if-elim (IsAfter s) (t == u) (λ q. same v)
      (λ q.
        if-elim (IsAfter s) (ltb t u) (λ r. (e, (ground (arith, r), h.1)))
          (λ r. (h.0, record_at-IsAfter u t v m (ground (arith, q, r)) h.1)))
  where
    same : (x : Option ℤ) → IsAfter s (elim x [ none ↦ (u, w) ∷ m | some a ↦ (u, some a) ∷ m ])
    same none = h
    same (some a) = h

record_at-IsSorted : (t : ℕ) (v : Option ℤ) (m : Readings) → IsSorted m → IsSorted (record_at t v m)
unfolding record_at
record_at-IsSorted t v [] h = tt
record_at-IsSorted t v ((u, w) ∷ m) h =
    if-elim IsSorted (t == u) (λ q. same v)
      (λ q.
        if-elim IsSorted (ltb t u) (λ r. (ground (arith, r), h))
          (λ r. record_at-IsAfter u t v m (ground (arith, q, r)) h))
  where
    same : (x : Option ℤ) → IsSorted (elim x [ none ↦ (u, w) ∷ m | some a ↦ (u, some a) ∷ m ])
    same none = h
    same (some a) = h

below : (t : ℕ) (m : Readings) → IsAfter t m → IsSorted m
below t [] h = tt
below t ((u, v) ∷ m) h = h.1

-- What the map has at a time: nothing, a gap or a value.
abbrev pub value_at : ℕ → Readings → Option (Option ℤ)
value_at t [] = none
value_at t ((u, v) ∷ m) = if u == t then some v else value_at t m

-- A value replaces what was there, a gap does not.
keep : Option ℤ → Option (Option ℤ) → Option ℤ
keep (some a) old = some a
keep none none = none
keep none (some w) = w

value_at-none : (s t : ℕ) (m : Readings) → IsAfter s m → t ≤ s → value_at t m ≡ none
value_at-none s t [] h e = refl
value_at-none s t ((u, w) ∷ m) h e = ground (arith, value_at-none u t m h.1)

value_at-record_at :
    (t u : ℕ) (v : Option ℤ) (m : Readings)
    → IsSorted m
    → value_at u (record_at t v m) ≡ (if t == u then some (keep v (value_at t m)) else value_at u m)
unfolding record_at keep
value_at-record_at t u none [] h = refl
value_at-record_at t u (some a) [] h = refl
value_at-record_at t u none ((i, w) ∷ m) h =
    ground (arith, value_at-none i t m h, value_at-record_at t u none m (below i m h))
value_at-record_at t u (some a) ((i, w) ∷ m) h =
    ground (arith, value_at-record_at t u (some a) m (below i m h))

-- The map has a value at the time.
abbrev pub IsKnown : ℕ → Readings → Type 0
IsKnown t m = (a : ℤ) × (value_at t m ≡ some (some a))

record_at-IsKnown :
    (t u : ℕ) (v : Option ℤ) (m : Readings) → IsSorted m → IsKnown t m → IsKnown t (record_at u v m)
unfolding keep
record_at-IsKnown t u (some b) m h (a, e) = elim (Bool-cases (u == t)) [
  | inl q ↦ (b, value_at-record_at u t (some b) m h ∙ rw q refl)
  | inr q ↦ (a, value_at-record_at u t (some b) m h ∙ rw q e)
]
record_at-IsKnown t u none m h (a, e) = elim (Bool-cases (u == t)) [
  | inl q ↦
      let same : u ≡ t = ground (arith, q) in
      (a, value_at-record_at u t none m h ∙ rw (q, same, e) refl)
  | inr q ↦ (a, value_at-record_at u t none m h ∙ rw q e)
]

record_at-IsKnown_new :
    (t : ℕ) (a : ℤ) (m : Readings) → IsSorted m → IsKnown t (record_at t (some a) m)
unfolding keep
record_at-IsKnown_new t a m h =
    let same : (t == t) ≡ true = ground arith in
    (a, value_at-record_at t t (some a) m h ∙ rw same refl)

merge_series-IsSorted : (s : List Reading) (m : Readings) → IsSorted m → IsSorted (merge_series s m)
unfolding merge_series
merge_series-IsSorted [] m h = h
merge_series-IsSorted (p ∷ ps) m h =
    merge_series-IsSorted ps (record_at p.timestamp p.value m)
      (record_at-IsSorted p.timestamp p.value m h)

merge_series-IsKnown :
    (t : ℕ) (s : List Reading) (m : Readings)
    → IsSorted m
    → IsKnown t m
    → IsKnown t (merge_series s m)
unfolding merge_series
merge_series-IsKnown t [] m h k = k
merge_series-IsKnown t (p ∷ ps) m h k =
    merge_series-IsKnown t ps (record_at p.timestamp p.value m)
      (record_at-IsSorted p.timestamp p.value m h) (record_at-IsKnown t p.timestamp p.value m h k)

merge_series-IsKnown_new :
    (p : Reading) (a : ℤ) (s : List Reading) (m : Readings)
    → Has p s
    → p.value ≡ some a
    → IsSorted m
    → IsKnown p.timestamp (merge_series s m)
unfolding merge_series
merge_series-IsKnown_new p a [] m h e o = elim h [ ]
merge_series-IsKnown_new p a (q ∷ qs) m (inl same) e o =
    merge_series-IsKnown p.timestamp qs (record_at q.timestamp q.value m)
      (record_at-IsSorted q.timestamp q.value m o)
      (subst (λ z. IsKnown p.timestamp (record_at z.timestamp z.value m)) same
        (subst (λ v. IsKnown p.timestamp (record_at p.timestamp v m)) (sym e)
          (record_at-IsKnown_new p.timestamp a m o)))
merge_series-IsKnown_new p a (q ∷ qs) m (inr h) e o =
    merge_series-IsKnown_new p a qs (record_at q.timestamp q.value m) h e
      (record_at-IsSorted q.timestamp q.value m o)

pub by_time-IsSorted :
    (ss : List (List Reading)) (m : Readings) → IsSorted m → IsSorted (by_time ss m)
unfolding by_time
by_time-IsSorted [] m h = h
by_time-IsSorted (s ∷ ss) m h = by_time-IsSorted ss (merge_series s m) (merge_series-IsSorted s m h)

by_time-IsKnown_old :
    (t : ℕ) (ss : List (List Reading)) (m : Readings)
    → IsSorted m
    → IsKnown t m
    → IsKnown t (by_time ss m)
unfolding by_time
by_time-IsKnown_old t [] m h k = k
by_time-IsKnown_old t (s ∷ ss) m h k =
    by_time-IsKnown_old t ss (merge_series s m) (merge_series-IsSorted s m h)
      (merge_series-IsKnown t s m h k)

by_time-IsKnown_new :
    (p : Reading) (a : ℤ) (s : List Reading) (ss : List (List Reading)) (m : Readings)
    → Has s ss
    → Has p s
    → p.value ≡ some a
    → IsSorted m
    → IsKnown p.timestamp (by_time ss m)
unfolding by_time
by_time-IsKnown_new p a s [] m k h e o = elim k [ ]
by_time-IsKnown_new p a s (r ∷ rs) m (inl same) h e o =
    by_time-IsKnown_old p.timestamp rs (merge_series r m) (merge_series-IsSorted r m o)
      (merge_series-IsKnown_new p a r m (subst (Has p) same h) e o)
by_time-IsKnown_new p a s (r ∷ rs) m (inr k) h e o =
    by_time-IsKnown_new p a s rs (merge_series r m) k h e (merge_series-IsSorted r m o)

-- The merged readings are in the order of their times, each time once, and no value of any series is
-- hidden by a gap of another: at its time the chart has a value.
pub by_time-IsKnown :
    (ss : List (List Reading)) (s : List Reading) (p : Reading) (a : ℤ)
    → Has s ss
    → Has p s
    → p.value ≡ some a
    → IsSorted (by_time ss []) × IsKnown p.timestamp (by_time ss [])
by_time-IsKnown ss s p a k h e =
    (by_time-IsSorted ss [] tt, by_time-IsKnown_new p a s ss [] k h e tt)
