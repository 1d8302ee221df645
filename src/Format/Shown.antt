-- ===== src/Format/Shown.antt =====
-- What the formatters of packages/shared/src/format.ts show, and how far it is from the truth.
use server_hub.Prelude.{
  ℕ, suc, ◌+◌, ◌*◌, ◌/◌, ◌%◌, ◌≤◌, ◌<◌, ◌≡◌, String, [], ◌∷◌, ◌++◌, some, length, arith, ap, ltb,
  length-take, inl, inr, ◌∙◌, append_assoc, Bool-cases,
}
use server_hub.Text.{Text, codes}
use server_hub.Text.Decimal.{show, show_small, show_tens}
use server_hub.Format.{
  short_sha, short_id, format_age, fmt_duration, pad2, tenths, fmt_bytes, short,
}

-- The units that an age is shown in.
pub data AgeUnit : Type 0 where
  second minute hour day : AgeUnit

abbrev pub millis : AgeUnit → ℕ
millis second = 1000
millis minute = 60000
millis hour = 3600000
millis day = 86400000

abbrev pub age_suffix : AgeUnit → String
age_suffix second = "s ago"
age_suffix minute = " min ago"
age_suffix hour = " hr ago"
age_suffix day = " days ago"

-- From ten seconds on an age is shown as the number of whole units that have passed, and at least
-- one has.
pub format_age_lem :
    (ms : ℕ)
    → 10000 ≤ ms
    → (n : ℕ) × (u : AgeUnit) × (format_age (some ms) ≡ show n ++ codes (age_suffix u))
      × (1 ≤ n)
      × (n * millis u ≤ ms)
      × (ms < suc n * millis u)
unfolding format_age
format_age_lem ms h = elim (Bool-cases (ltb (ms / 1000) 60)) [
  | inl a ↦ (ms / 1000, second, ground arith, ground arith, omega arith, omega arith)
  | inr a ↦ elim (Bool-cases (ltb (ms / 1000 / 60) 60)) [
    | inl b ↦ (ms / 1000 / 60, minute, ground arith, ground arith, omega arith, omega arith)
    | inr b ↦ elim (Bool-cases (ltb (ms / 1000 / 60 / 60) 24)) [
      | inl c ↦ (ms / 1000 / 60 / 60, hour, ground arith, ground arith, omega arith, omega arith)
      | inr c ↦
          (ms / 1000 / 60 / 60 / 24, day, ground arith, ground arith, omega arith, omega arith)
    ]
  ]
]

pad2_lem : (n : ℕ) → n < 60 → pad2 n ≡ (48 + n / 10) ∷ (48 + n % 10) ∷ []
unfolding pad2
pad2_lem n h = elim (Bool-cases (ltb n 10)) [
  | inl small ↦ ground (arith, small, show_small n (ground (arith, small)))
  | inr tens ↦ ground (arith, tens, show_tens n (ground (arith, tens)) (omega arith))
]

fmt_duration-minutes :
    (sec : ℕ)
    → 60 ≤ sec
    → fmt_duration (some sec) ≡ show (sec / 60) ++ codes "m " ++ pad2 (sec % 60) ++ codes "s"
unfolding fmt_duration
fmt_duration-minutes sec h = ground (arith, h)

-- A duration of a minute or more is shown as minutes and two digits of seconds, that add up to it.
pub fmt_duration_lem :
    (sec : ℕ)
    → 60 ≤ sec
    → (m a b : ℕ) × (fmt_duration (some sec)
        ≡ show m ++ codes "m " ++ (48 + a) ∷ (48 + b) ∷ codes "s")
      × (a < 6)
      × (b < 10)
      × (m * 60 + a * 10 + b ≡ sec)
unfolding fmt_duration
fmt_duration_lem sec h = (
  sec / 60,
  sec % 60 / 10,
  sec % 60 % 10,
  fmt_duration-minutes sec h
      ∙ ap (λ p. show (sec / 60) ++ codes "m " ++ p ++ codes "s")
          (pad2_lem (sec % 60) (omega arith))
      ∙ append_assoc (show (sec / 60) ++ codes "m ")
          ((48 + sec % 60 / 10) ∷ (48 + sec % 60 % 10) ∷ []) (codes "s"),
  omega arith,
  omega arith,
  omega arith,
)

short-length :
    (limit kept : ℕ) (s : Text)
    → kept ≤ limit
    → 1 ≤ limit
    → length (short limit kept (some s)) ≤ limit
unfolding short
short-length limit kept s h k = ground (arith, length-take kept s)

-- What is shown of a commit or an id is short, and how it begins.
pub short_sha_lem :
    (s : Text) → (length (short_sha (some s)) ≤ 8) × (length (short_id (some s)) ≤ 12)
unfolding short_sha short_id
short_sha_lem s = (
  short-length 8 7 s (omega arith) (omega arith),
  short-length 12 12 s (omega arith) (omega arith),
)

pub data SizeUnit : Type 0 where
  kilo mega : SizeUnit

abbrev pub bytes_of : SizeUnit → ℕ
bytes_of kilo = 1024
bytes_of mega = 1048576

abbrev pub size_suffix : SizeUnit → String
size_suffix kilo = " KB"
size_suffix mega = " MB"

-- A size of 1024 bytes or more is shown in the nearest tenth of a unit.
fmt_bytes_lem :
    (n : ℕ)
    → 1024 ≤ n
    → (t : ℕ) × (u : SizeUnit) × (fmt_bytes n
        ≡ show (t / 10) ++ 46 ∷ show (t % 10) ++ codes (size_suffix u))
      × (20 * n < 2 * bytes_of u * t + bytes_of u)
      × (2 * bytes_of u * t ≤ 20 * n + bytes_of u)
unfolding fmt_bytes
fmt_bytes_lem n h = elim (Bool-cases (ltb n 1048576)) [
  | inl small ↦ (tenths n 1024, kilo, ground (arith, small), omega arith, omega arith)
  | inr large ↦ (tenths n 1048576, mega, ground (arith, large), omega arith, omega arith)
]
