-- ===== src/Client/Monitoring/Silenced.antt =====
-- What silencing an alert asks for.
use server_hub.Prelude.{
  ℕ, true, false, [], ◌∷◌, ◌++◌, some, map, ◌≡◌, refl, arith, ap, All, ◌≤◌, ◌+◌, if◌then◌else◌,
}
use server_hub.Text.{Text, is_empty, codes}
use server_hub.Types.Monitoring.{AmAlert, Labels, Matcher, SilenceRequest}
use server_hub.Client.Monitoring.{Silencing, minutes_of, matchers_of, request_for, silence_request}

-- A matcher of exactly one value.
abbrev pub IsExact : Matcher → Type 0
IsExact m = (m.is_regex ≡ false) × (m.is_equal ≡ true)

matchers_of-map : (ls : Labels) → map (λ m. (m.name, m.value)) (matchers_of ls) ≡ ls
unfolding matchers_of
matchers_of-map [] = refl
matchers_of-map ((n, v) ∷ r) = ap (λ z. (n, v) ∷ z) (matchers_of-map r)

matchers_of-IsExact : (ls : Labels) → All IsExact (matchers_of ls)
unfolding matchers_of
matchers_of-IsExact [] = tt
matchers_of-IsExact ((n, v) ∷ r) = ((refl, refl), matchers_of-IsExact r)

minutes_of_bounds : (d : Text) → (30 ≤ minutes_of d) × (minutes_of d ≤ 240)
unfolding minutes_of
minutes_of_bounds d = ground arith

-- A silence matches exactly the labels of its alert, ends half an hour to four hours after it starts, and
-- has a comment even where none was written.
pub silence_request_lem :
    (now : ℕ) (s : Silencing) (a : AmAlert)
    → s.alert ≡ some a
    → (r : SilenceRequest) × (silence_request now s ≡ some r)
      × (map (λ m. (m.name, m.value)) r.matchers ≡ a.labels)
      × All IsExact r.matchers
      × (r.starts_at + 1800000 ≤ r.ends_at)
      × (r.ends_at ≤ r.starts_at + 14400000)
      × (is_empty r.comment ≡ false)
unfolding silence_request request_for
silence_request_lem now s a e = (
  request_for now s a,
  rw e refl,
  matchers_of-map a.labels,
  matchers_of-IsExact a.labels,
  omega (arith, minutes_of_bounds s.duration),
  omega (arith, minutes_of_bounds s.duration),
  written s.comment,
)
  where
    written :
        (c : Text)
        → is_empty (if is_empty c then codes "Silenced via ServerHub for " ++ s.duration else c)
          ≡ false
    written [] = refl
    written (x ∷ c) = refl
