-- ===== src/Text/Decimal.antt =====
-- `String(n)` and `${n}` of a non-negative integer: its decimal digits. Numbers are below 10^21,
-- where JavaScript prints them without an exponent.
use mathlib.Core.Logic.{dite}
use mathlib.Core.WellFounded.{Acc, WellFounded}
use mathlib.Core.List.{cons-ne-nil}
use native.Mathlib.Decide.{dec_lt}
use server_hub.Prelude.{
  ℕ, zero, suc, ◌+◌, ◌*◌, ◌/◌, ◌%◌, ◌≤◌, ◌<◌, ◌≡◌, refl, ◌∙◌, ap, ◌≢◌, List, [], ◌∷◌, arith, All,
}

acc_below : (k n : ℕ) → n < k → Acc ◌<◌ n
acc_below zero n h = elim h [ ]
acc_below (suc k) n h = Acc.intro n (λ m lt. acc_below k m (omega arith))

lt_wf : WellFounded ◌<◌
unfolding acc_below
lt_wf = record { apply = λ n. acc_below (suc n) n (omega arith) }

tenth_lt : {n : ℕ} → 0 < n → n / 10 < n
tenth_lt h = omega arith

digits_acc : (n : ℕ) → Acc ◌<◌ n → List ℕ → List ℕ
digits_acc n (Acc.intro _ smaller) out =
    dite (dec_lt 0 n)
      (λ h. digits_acc (n / 10) (smaller (n / 10) (tenth_lt h)) ((48 + n % 10) ∷ out)) (λ _. out)

-- The digits of `n / 10`, then the last one.
unfoldable pub show : ℕ → List ℕ
unfolding digits_acc lt_wf tenth_lt dec_lt
show n = digits_acc (n / 10) (lt_wf.apply (n / 10)) ((48 + n % 10) ∷ [])

abbrev pub IsDigit : ℕ → Type 0
IsDigit c = (48 ≤ c) × (c ≤ 57)

digits_acc-IsDigit :
    (n : ℕ) (w : Acc ◌<◌ n) (out : List ℕ) → All IsDigit out → All IsDigit (digits_acc n w out)
unfolding digits_acc
digits_acc-IsDigit n (Acc.intro _ smaller) out h = grind (
  arith,
  λ (p : 0 < n).
      digits_acc-IsDigit (n / 10) (smaller (n / 10) (tenth_lt p)) ((48 + n % 10) ∷ out)
        ((omega arith, omega arith), h),
)

-- A printed number consists of digits.
pub show-IsDigit : (n : ℕ) → All IsDigit (show n)
unfolding show
show-IsDigit n =
    digits_acc-IsDigit (n / 10) (lt_wf.apply (n / 10)) ((48 + n % 10) ∷ [])
      ((omega arith, omega arith), tt)

digits_acc-ne-nil : (n : ℕ) (w : Acc ◌<◌ n) (out : List ℕ) → out ≢ [] → digits_acc n w out ≢ []
unfolding digits_acc
digits_acc-ne-nil n (Acc.intro _ smaller) out h = grind (
  arith,
  λ (p : 0 < n).
      digits_acc-ne-nil (n / 10) (smaller (n / 10) (tenth_lt p)) ((48 + n % 10) ∷ out)
        (cons-ne-nil _ _),
)

pub show-ne-nil : (n : ℕ) → show n ≢ []
unfolding show
show-ne-nil n =
    digits_acc-ne-nil (n / 10) (lt_wf.apply (n / 10)) ((48 + n % 10) ∷ []) (cons-ne-nil _ _)

show_1205 : show 1205 ≡ 49 ∷ 50 ∷ 48 ∷ 53 ∷ []
unfolding show
show_1205 = refl

digits_acc-done : (n : ℕ) (w : Acc ◌<◌ n) (out : List ℕ) → n ≡ 0 → digits_acc n w out ≡ out
unfolding digits_acc
digits_acc-done n (Acc.intro _ smaller) out h = grind arith

digits_acc-digit :
    (n : ℕ) (w : Acc ◌<◌ n) (out : List ℕ) → 0 < n → n < 10 → digits_acc n w out ≡ (48 + n) ∷ out
unfolding digits_acc
digits_acc-digit n (Acc.intro _ smaller) out h k = grind (
  arith,
  λ (p : 0 < n).
      digits_acc-done (n / 10) (smaller (n / 10) (tenth_lt p)) ((48 + n % 10) ∷ out) (omega arith),
)

pub show_small : (n : ℕ) → n < 10 → show n ≡ (48 + n) ∷ []
unfolding show
show_small n h =
    digits_acc-done (n / 10) (lt_wf.apply (n / 10)) ((48 + n % 10) ∷ []) (omega arith)
    ∙ ground arith

pub show_tens : (n : ℕ) → 10 ≤ n → n < 100 → show n ≡ (48 + n / 10) ∷ (48 + n % 10) ∷ []
unfolding show
show_tens n h k =
    digits_acc-digit (n / 10) (lt_wf.apply (n / 10)) ((48 + n % 10) ∷ []) (omega arith)
      (omega arith)

-- A reading of digits, by its step on one of them.
module _ (read : ℕ → List ℕ → ℕ)
    (step : (a d : ℕ) (out : List ℕ)
      → d < 10
      → read a ((48 + d) ∷ out) ≡ read (10 * a + d) out) where
  read-tenth : (n : ℕ) (out : List ℕ) → read (n / 10) ((48 + n % 10) ∷ out) ≡ read n out
  read-tenth n out = step (n / 10) (n % 10) out (omega arith) ∙ ap (λ k. read k out) (omega arith)

  digits_acc-read :
      (n : ℕ) (w : Acc ◌<◌ n) (out : List ℕ) → read 0 (digits_acc n w out) ≡ read n out
  unfolding digits_acc
  digits_acc-read n (Acc.intro _ smaller) out = grind (
    arith,
    λ (p : 0 < n).
        digits_acc-read (n / 10) (smaller (n / 10) (tenth_lt p)) ((48 + n % 10) ∷ out)
        ∙ read-tenth n out,
  )

  -- It reads a printed number back.
  pub show-read : (n : ℕ) → read 0 (show n) ≡ read n []
  unfolding show
  show-read n =
      digits_acc-read (n / 10) (lt_wf.apply (n / 10)) ((48 + n % 10) ∷ []) ∙ read-tenth n []
