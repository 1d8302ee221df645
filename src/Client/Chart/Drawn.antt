-- ===== src/Client/Chart/Drawn.antt =====
-- What the charts draw stays in their frames, and the lines are broken at the gaps and nowhere else.
use server_hub.Prelude.{
  ℕ, suc, List, [], ◌∷◌, ◌++◌, none, some, length, ◌==◌, ◌+◌, ◌-◌, ◌*◌, ◌/◌, ◌≤◌, ◌<◌, ◌≡◌, refl,
  arith, subst, sym, ap, ◌∙◌, map, Bool-cases, inl, inr, All, append_assoc, append-nil,
}
use server_hub.Client.Chart.{
  ℤ, max, min_of, max_of, unit, width, Frame, server_frame, telemetry_frame, monitoring_frame, y_of,
  x_at, Point, points_from, line_to, line, Readings, flush, runs, two_lines,
}

-- A point within the chart's frame.
abbrev pub IsInside : Frame → Point → Type 0
IsInside f (x, y) = (x ≤ width) × (f.base - f.height ≤ y) × (y ≤ f.base)

pub div_bounds : (a n lo hi : ℕ) → 0 < n → lo * n ≤ a → a < suc hi * n → (lo ≤ a / n) × (a / n ≤ hi)
div_bounds a n lo hi p q r = grind arith

mul_le : (h m n : ℕ) → m ≤ n → h * m ≤ h * n
mul_le h m n e = grind arith

y_lower : (h c hi m : ℕ) → m ≤ hi → c * (2 * hi) ≤ (2 * (h + c) + 1) * hi - 2 * h * m
y_lower h c hi m e = omega (arith, mul_le h m hi e)

y_upper : (b h hi m : ℕ) → 0 < hi → (2 * b + 1) * hi - 2 * h * m < suc b * (2 * hi)
y_upper b h hi m e = omega arith

pub y_of_bounds :
    (f : Frame) (hi v : ℕ)
    → 0 < hi
    → f.height ≤ f.base
    → (f.base - f.height ≤ y_of f hi v) × (y_of f hi v ≤ f.base)
unfolding y_of
y_of_bounds f hi v p q =
    let m = min_of v hi in
    let small : m ≤ hi = ground arith in
    let split : f.height + (f.base - f.height) ≡ f.base = omega arith in
    div_bounds ((2 * f.base + 1) * hi - 2 * f.height * m) (2 * hi) (f.base - f.height) f.base
      (omega arith)
      (subst (λ b. (f.base - f.height) * (2 * hi) ≤ (2 * b + 1) * hi - 2 * f.height * m) split
        (y_lower f.height (f.base - f.height) hi m small))
      (y_upper f.base f.height hi m p)

x_at-le : (last i : ℕ) → i ≤ last → x_at last i ≤ 560
unfolding x_at
x_at-le last i h = elim (Bool-cases (last == 0)) [
  | inl e ↦ rw e (omega arith)
  | inr e ↦
      let some_steps : 0 < last = ground (arith, e) in
      rw e (
        (div_bounds (1120 * i + last) (2 * last) 0 560 (omega arith) (omega arith) (omega arith)).1)
]

pub max_of-le : (vs : List ℕ) (least : ℕ) → least ≤ max_of vs least
unfolding max_of
max_of-le [] least = omega arith
max_of-le (v ∷ vs) least = ground (arith, max_of-le vs least)

points_from-IsInside :
    (f : Frame) (hi last i : ℕ) (vs : List ℕ)
    → 0 < hi
    → f.height ≤ f.base
    → i + length vs ≤ suc last
    → All (IsInside f) (points_from f hi last i vs)
unfolding points_from
points_from-IsInside f hi last i [] p q e = tt
points_from-IsInside f hi last i (v ∷ vs) p q e =
    let bounds = y_of_bounds f hi v p q in
    (
      (x_at-le last i (omega (arith, e)), bounds.0, bounds.1),
      points_from-IsInside f hi last (suc i) vs p q (omega (arith, e)),
    )

line_to-IsInside :
    (f : Frame) (hi : ℕ) (vs : List ℕ)
    → 0 < hi
    → f.height ≤ f.base
    → All (IsInside f) (line_to f hi vs)
unfolding line_to
line_to-IsInside f hi vs p q = points_from-IsInside f hi (length vs - 1) 0 vs p q (omega arith)

-- The lines of the three charts stay in their frames, whatever the values: with one scale for both lines
-- where there are two, and whatever highest value the chart is given.
pub line-IsInside :
    (vs ws : List ℕ) (top : List ℕ → ℕ)
    → All (IsInside server_frame) (line server_frame vs)
      × All (IsInside monitoring_frame) (line monitoring_frame vs)
      × All (IsInside telemetry_frame) (two_lines top vs none).0
      × All (IsInside telemetry_frame) (two_lines top vs (some ws)).0
      × ((second : List Point) × ((two_lines top vs (some ws)).1 ≡ some second)
          × All (IsInside telemetry_frame) second)
unfolding line two_lines
line-IsInside vs ws top =
    let hi = max_of vs unit in
    let low = max_of-le vs unit in
    let lowest = max_of-le ws unit in
    let lower = max_of-le vs (max_of ws unit) in
    let higher : 0 < max (top vs) hi = ground (arith, low) in
    let both : 0 < max (top vs) (max_of vs (max_of ws unit)) = ground (arith, lowest, lower) in
    (
      line_to-IsInside server_frame hi vs (omega arith) (omega arith),
      line_to-IsInside monitoring_frame hi vs (omega arith) (omega arith),
      line_to-IsInside telemetry_frame (max (top vs) hi) vs higher (omega arith),
      line_to-IsInside telemetry_frame (max (top vs) (max_of vs (max_of ws unit))) vs both
          (omega arith),
      (
        _,
        refl,
        line_to-IsInside telemetry_frame (max (top vs) (max_of vs (max_of ws unit))) ws both
            (omega arith),
      ),
    )

runs_segments :
    (place : ℕ → ℤ → Point) (m : Readings) (cur : List Point) (segs : List (List Point))
    → runs place m cur segs ≡ segs ++ runs place m cur []
unfolding runs
runs_segments place [] cur segs = refl
runs_segments place ((t, none) ∷ m) cur segs =
    runs_segments place m [] (segs ++ flush cur)
    ∙ append_assoc segs (flush cur) (runs place m [] [])
    ∙ ap (λ z. segs ++ z) (sym (runs_segments place m [] (flush cur)))
runs_segments place ((t, some v) ∷ m) cur segs = runs_segments place m (cur ++ place t v ∷ []) segs

runs-append :
    (place : ℕ → ℤ → Point) (a b : Readings) (t : ℕ) (cur : List Point)
    → runs place (a ++ (t, none) ∷ b) cur [] ≡ runs place a cur [] ++ runs place b [] []
unfolding runs
runs-append place [] b t cur = runs_segments place b [] (flush cur)
runs-append place ((u, none) ∷ a) b t cur =
    runs_segments place (a ++ (t, none) ∷ b) [] (flush cur)
    ∙ ap (λ z. flush cur ++ z) (runs-append place a b t [])
    ∙ sym (append_assoc (flush cur) (runs place a [] []) (runs place b [] []))
    ∙ ap (λ z. z ++ runs place b [] []) (sym (runs_segments place a [] (flush cur)))
runs-append place ((u, some v) ∷ a) b t cur = runs-append place a b t (cur ++ place u v ∷ [])

-- Readings without a gap.
abbrev pub known : List (ℕ × ℤ) → Readings
known [] = []
known ((t, v) ∷ r) = (t, some v) ∷ known r

runs-known :
    (place : ℕ → ℤ → Point) (r : List (ℕ × ℤ)) (cur : List Point)
    → runs place (known r) cur [] ≡ flush (cur ++ map (λ e. place e.0 e.1) r)
unfolding runs
runs-known place [] cur = ap flush (sym (append-nil cur))
runs-known place ((t, v) ∷ r) cur =
    runs-known place r (cur ++ place t v ∷ [])
    ∙ ap flush (append_assoc cur (place t v ∷ []) (map (λ e. place e.0 e.1) r))

-- A gap always ends a line, wherever it stands, and nothing else does: readings without one are a single
-- line through all their points, in order, with a lone point drawn twice, and nothing when there is none.
pub runs_lem :
    (place : ℕ → ℤ → Point) (a b : Readings) (t : ℕ) (r : List (ℕ × ℤ))
    → (runs place (a ++ (t, none) ∷ b) [] [] ≡ runs place a [] [] ++ runs place b [] [])
      × (runs place (known r) [] [] ≡ flush (map (λ e. place e.0 e.1) r))
runs_lem place a b t r = (runs-append place a b t [], runs-known place r [])
