-- ===== src/Mobile/Monitoring/Strip.antt =====
-- How many bars the strip of the phone has, and how high they are.
use server_hub.Prelude.{
  ℕ, zero, suc, List, [], ◌∷◌, Option, none, some, length, leb, ◌+◌, ◌-◌, ◌*◌, ◌/◌, ◌≤◌, ◌<◌, ◌≡◌,
  arith, All, Bool-cases, inl, inr,
}
use server_hub.Mobile.Monitoring.{
  every, stride_of, downsample, strip_max, bar_height, bars_of, history_strip,
}

mul_le : (a b s : ℕ) → a ≤ b → a * s ≤ b * s
mul_le a b s h = grind arith

-- Every stride-th value stays, and the first one.
length-every_upper :
    {A : Type 0} (s skip : ℕ) (vs : List A)
    → 0 < s
    → length (every s skip vs) * s ≤ length vs + (s - 1) - skip
unfolding every
length-every_upper s skip [] p = omega arith
length-every_upper s zero (v ∷ vs) p = omega (arith, length-every_upper s (s - 1) vs p)
length-every_upper s (suc skip) (v ∷ vs) p = omega (arith, length-every_upper s skip vs p)

length-every_lower :
    {A : Type 0} (s skip : ℕ) (vs : List A)
    → 0 < s
    → length vs ≤ skip + length (every s skip vs) * s
unfolding every
length-every_lower s skip [] p = omega arith
length-every_lower s zero (v ∷ vs) p = omega (arith, length-every_lower s (s - 1) vs p)
length-every_lower s (suc skip) (v ∷ vs) p = omega (arith, length-every_lower s skip vs p)

stride_of_small : (n : ℕ) → n ≤ 95 → stride_of n ≡ 1
unfolding stride_of
stride_of_small n h = ground arith

stride_of_large :
    (n : ℕ) → 96 ≤ n → (2 ≤ stride_of n) × (48 * stride_of n ≤ n) × (n < 48 * stride_of n + 48)
unfolding stride_of
stride_of_large n h = ground arith

at_most : (bars s n : ℕ) → 2 ≤ s → n < 48 * s + 48 → bars * s ≤ n + (s - 1) → bars ≤ 72
at_most bars s n p q r = elim (Bool-cases (leb bars 72)) [
  | inl e ↦ ground (arith, e)
  | inr e ↦
      let many : 73 ≤ bars = ground (arith, e) in absurd (omega (arith, mul_le 73 bars s many))
]

at_least : (bars s n : ℕ) → 2 ≤ s → 48 * s ≤ n → n ≤ bars * s → 48 ≤ bars
at_least bars s n p q r = elim (Bool-cases (leb 48 bars)) [
  | inl e ↦ ground (arith, e)
  | inr e ↦ let few : bars ≤ 47 = ground (arith, e) in absurd (omega (arith, mul_le bars 47 s few))
]

-- The strip has a bar for each of up to 95 values, and 48 to 72 bars for more of them. So there are more
-- than 48 bars for every number of values from 49 to 95.
pub length-downsample :
    {A : Type 0} (vs : List A)
    → (length vs ≤ 95 → length (downsample vs) ≡ length vs)
      × (96 ≤ length vs → (48 ≤ length (downsample vs)) × (length (downsample vs) ≤ 72))
unfolding downsample
length-downsample vs = (
  λ h.
      let one = stride_of_small (length vs) h in
      let up = length-every_upper 1 0 vs (omega arith) in
      let low = length-every_lower 1 0 vs (omega arith) in rw one (omega (arith, up, low)),
  λ h.
      let s = stride_of (length vs) in
      let (two, low, high) = stride_of_large (length vs) h in
      (
        at_least (length (every s 0 vs)) s (length vs) two low
            (omega (arith, length-every_lower s 0 vs (omega (arith, two)))),
        at_most (length (every s 0 vs)) s (length vs) two high
            (omega (arith, length-every_upper s 0 vs (omega (arith, two)))),
      ),
)

-- A value that the maximum counts.
abbrev IsUpTo : ℕ → Option ℕ → Type 0
IsUpTo m none = Unit
IsUpTo m (some v) = v ≤ m

IsUpTo-weaken : (m n : ℕ) (vs : List (Option ℕ)) → m ≤ n → All (IsUpTo m) vs → All (IsUpTo n) vs
IsUpTo-weaken m n [] e h = tt
IsUpTo-weaken m n (none ∷ vs) e h = (tt, IsUpTo-weaken m n vs e h.1)
IsUpTo-weaken m n (some v ∷ vs) e h = (omega (arith, h.0), IsUpTo-weaken m n vs e h.1)

strip_max-IsUpTo : (vs : List (Option ℕ)) → (100 ≤ strip_max vs) × All (IsUpTo (strip_max vs)) vs
unfolding strip_max
strip_max-IsUpTo [] = (omega arith, tt)
strip_max-IsUpTo (none ∷ vs) = let rest = strip_max-IsUpTo vs in (rest.0, (tt, rest.1))
strip_max-IsUpTo (some v ∷ vs) =
    let rest = strip_max-IsUpTo vs in
    (
      ground (arith, rest.0),
      (ground arith, IsUpTo-weaken (strip_max vs) _ vs (ground arith) rest.1),
    )

bar_height_bounds :
    (m : ℕ) (v : Option ℕ) → 0 < m → IsUpTo m v → (2 ≤ bar_height m v) × (bar_height m v ≤ 64)
unfolding bar_height
bar_height_bounds m none p h = (omega arith, omega arith)
bar_height_bounds m (some v) p h = ground (arith, bar_top m v p h)
  where
    bar_top : (m v : ℕ) → 0 < m → v ≤ m → (128 * v + m) / (2 * m) ≤ 64
    bar_top m v p h = grind arith

bars_of-bounds :
    (m : ℕ) (vs : List (Option ℕ))
    → 0 < m
    → All (IsUpTo m) vs
    → All (λ b. (2 ≤ b.0) × (b.0 ≤ 64)) (bars_of m vs)
unfolding bars_of
bars_of-bounds m [] p h = tt
bars_of-bounds m (v ∷ vs) p h = (bar_height_bounds m v p h.0, bars_of-bounds m vs p h.1)

-- Every bar of the strip is 2 to 64 high, whatever the values.
pub history_strip_bounds :
    (vs : List (Option ℕ)) → All (λ b. (2 ≤ b.0) × (b.0 ≤ 64)) (history_strip vs)
unfolding history_strip
history_strip_bounds vs =
    let top = strip_max-IsUpTo vs in bars_of-bounds (strip_max vs) vs (omega (arith, top.0)) top.1
