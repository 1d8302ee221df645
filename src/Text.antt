-- ===== src/Text.antt =====
-- Text: the strings of the sources, as their code points, and the parts of JavaScript's String
-- library that the sources call (toLowerCase, trim, includes, startsWith, String(n)).
pub mod Decimal
pub mod Uri
pub mod Slashes
use Prim.Native.Char.{code}
use Prim.Native.String
use server_hub.Prelude.{
  Bool-cases, inl, inr, ap, ℕ, ◌+◌, ◌≤◌, String, ◌≡◌, refl, ◌≢◌, Bool, true, false, ◌&&◌, ◌||◌,
  List, [], ◌∷◌, ◌++◌, arith, ltb, leb, ◌==◌, if◌then◌else◌, ◌↔◌, ==_iff, and-true, All, any,
}
use mathlib.Core.List.{reverse}

abbrev pub Text : Type 0
Text = List ℕ

abbrev pub codes : String → Text
codes String.[] = []
codes (String.◌∷◌ c s) = code c ∷ codes s

-- `===` on strings.
abbrev pub eqb : Text → Text → Bool
eqb [] [] = true
eqb [] (y ∷ ys) = false
eqb (x ∷ xs) [] = false
eqb (x ∷ xs) (y ∷ ys) = x == y && eqb xs ys

pub eqb_sound : (s t : Text) → eqb s t ≡ true → s ≡ t
eqb_sound [] [] h = refl
eqb_sound [] (y ∷ t) h = cc
eqb_sound (x ∷ s) [] h = cc
eqb_sound (x ∷ s) (y ∷ t) h = ground (arith, eqb_sound s t)

eqb_refl : (s : Text) → eqb s s ≡ true
eqb_refl [] = refl
eqb_refl (x ∷ s) = ground (arith, eqb_refl s)

-- A JavaScript string is falsy when it is empty.
abbrev pub is_empty : Text → Bool
is_empty [] = true
is_empty (x ∷ s) = false

-- `startsWith`
unfoldable pub starts_with : Text → Text → Bool
starts_with s [] = true
starts_with [] (p ∷ ps) = false
starts_with (c ∷ s) (p ∷ ps) = c == p && starts_with s ps

-- `includes`
unfoldable pub includes : Text → Text → Bool
unfolding starts_with
includes [] p = is_empty p
includes (c ∷ s) p = starts_with (c ∷ s) p || includes s p

starts_with_sound : (s p : Text) → starts_with s p ≡ true → (b : Text) × (s ≡ p ++ b)
unfolding starts_with
starts_with_sound s [] h = (s, refl)
starts_with_sound [] (x ∷ p) h = cc
starts_with_sound (c ∷ s) (x ∷ p) h =
    let same : c ≡ x = ground (arith, h) in
    let rest : starts_with s p ≡ true = ground (arith, h) in
    let (b, e) = starts_with_sound s p rest in (b, cc)

starts_with-append : (p s : Text) → starts_with (p ++ s) p ≡ true
unfolding starts_with
starts_with-append [] s = refl
starts_with-append (c ∷ p) s = ground (arith, starts_with-append p s)

-- What is included stands somewhere in the text.
pub includes_sound :
    (s p : Text) → includes s p ≡ true → (a : Text) × (b : Text) × (s ≡ a ++ (p ++ b))
unfolding includes
includes_sound [] [] h = ([], [], refl)
includes_sound [] (x ∷ p) h = cc
includes_sound (c ∷ s) p h = elim (Bool-cases (starts_with (c ∷ s) p)) [
  | inl starts ↦ let (b, e) = starts_with_sound (c ∷ s) p starts in ([], b, e)
  | inr not_here ↦
      let later : includes s p ≡ true = ground (arith, not_here, h) in
      let (a, b, e) = includes_sound s p later in (c ∷ a, b, ap (λ z. c ∷ z) e)
]

pub includes-append : (a p s : Text) → includes (a ++ p ++ s) p ≡ true
unfolding includes
includes-append [] [] [] = refl
includes-append [] [] (c ∷ s) = refl
includes-append [] (c ∷ p) s = ground (arith, starts_with-append (c ∷ p) s)
includes-append (x ∷ a) p s = ground (arith, includes-append a p s)

-- `toLowerCase` of one code point. Outside ASCII only U+0130 and U+212A have an ASCII letter in
-- their lower case; the other mappings stay outside ASCII and are left out.
unfoldable pub lower_char : ℕ → Text
lower_char c =
    if leb 65 c && leb c 90
    then (c + 32) ∷ []
    else if c == 0x130
    then 105 ∷ 0x307 ∷ []
    else if c == 0x212a
    then 107 ∷ []
    else c ∷ []

unfoldable pub to_lower : Text → Text
unfolding lower_char
to_lower [] = []
to_lower (c ∷ s) = lower_char c ++ to_lower s

-- What `trim` strips: WhiteSpace and LineTerminator of ECMAScript.
unfoldable pub is_space : ℕ → Bool
is_space c =
    (leb 9 c && leb c 13)
    || c == 32
    || c == 0xa0
    || c == 0x1680
    || (leb 0x2000 c && leb c 0x200a)
    || c == 0x2028
    || c == 0x2029
    || c == 0x202f
    || c == 0x205f
    || c == 0x3000
    || c == 0xfeff

unfoldable pub trim_start : Text → Text
unfolding is_space
trim_start [] = []
trim_start (c ∷ s) = let rest = trim_start s in if is_space c then rest else c ∷ s

unfoldable pub trim : Text → Text
unfolding trim_start
trim s = reverse (trim_start (reverse (trim_start s)))

-- `arr.join(sep)`
unfoldable pub join : Text → List Text → Text
join sep [] = []
join sep (s ∷ []) = s
join sep (s ∷ t ∷ ts) = s ++ sep ++ join sep (t ∷ ts)

-- No code point of the text is `c`.
abbrev pub Lacks : ℕ → Text → Type 0
Lacks c = All (λ x. x ≢ c)
