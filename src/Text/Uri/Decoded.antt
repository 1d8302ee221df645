-- ===== src/Text/Uri/Decoded.antt =====
-- The percent-decoding of a path, and what it makes of `encodeURIComponent`.
use server_hub.Prelude.{
  ℕ, ◌+◌, ◌-◌, ◌*◌, ◌/◌, ◌%◌, ◌<◌, ◌≡◌, refl, ◌≢◌, true, ◌&&◌, List, [], ◌∷◌, ◌++◌, Option, none,
  some, arith, ltb, leb, ◌==◌, if◌then◌else◌, All, All-append, Bool-cases, inl, inr, append_assoc,
  ◌∙◌, ap, sym, if-elim,
}
use server_hub.Text.{Text}
use server_hub.Text.Uri.{is_unreserved, utf8, hex, percent, encode_char, encode_uri_component}

-- The value of a hexadecimal digit.
unfoldable pub unhex : ℕ → Option ℕ
unhex c =
    if leb 48 c && leb c 57
    then some (c - 48)
    else if leb 65 c && leb c 70
    then some (c - 55)
    else if leb 97 c && leb c 102
    then some (c - 87)
    else none

abbrev pub prepend : Text → Option Text → Option Text
prepend w none = none
prepend w (some t) = some (w ++ t)

-- What has been read of an escape.
pub data Pending : Type 0 where
  nothing sign : Pending
  digit : ℕ → Pending

unescape_from : Pending → Text → Option Text
unfolding unhex
unescape_from nothing [] = some []
unescape_from nothing (c ∷ s) =
    let coded = unescape_from sign s in
    let rest = unescape_from nothing s in if c == 37 then coded else prepend (c ∷ []) rest
unescape_from sign [] = none
unescape_from sign (c ∷ s) = elim (unhex c) [ none ↦ none | some d ↦ unescape_from (digit d) s ]
unescape_from (digit d) [] = none
unescape_from (digit d) (c ∷ s) = elim (unhex c) [
  | none ↦ none
  | some e ↦ prepend ((16 * d + e) ∷ []) (unescape_from nothing s)
]

-- The bytes that a percent-encoded text stands for; none where an escape is broken.
unfoldable pub unescape : Text → Option Text
unfolding unescape_from
unescape s = unescape_from nothing s

-- The bytes of a text.
unfoldable pub utf8_bytes : Text → List ℕ
unfolding utf8
utf8_bytes [] = []
utf8_bytes (c ∷ s) = utf8 c ++ utf8_bytes s

pub prepend-prepend : (a b : Text) (o : Option Text) → prepend a (prepend b o) ≡ prepend (a ++ b) o
prepend-prepend a b none = refl
prepend-prepend a b (some t) = ap some (sym (append_assoc a b t))

unhex-hex : (n : ℕ) → n < 16 → unhex (hex n) ≡ some n
unfolding unhex hex
unhex-hex n h = ground arith

pub unescape-char : (c : ℕ) (s : Text) → c ≢ 37 → unescape (c ∷ s) ≡ prepend (c ∷ []) (unescape s)
unfolding unescape
unescape-char c s h = ground (arith, h)

sign_lem :
    (c d : ℕ) (s : Text) → unhex c ≡ some d → unescape_from sign (c ∷ s) ≡ unescape_from (digit d) s
unfolding unescape_from
sign_lem c d s e =
    ap (λ (o : Option ℕ). elim o [ none ↦ none | some d ↦ unescape_from (digit d) s ]) e

digit_lem :
    (c d e : ℕ) (s : Text)
    → unhex c ≡ some e
    → unescape_from (digit d) (c ∷ s) ≡ prepend ((16 * d + e) ∷ []) (unescape_from nothing s)
unfolding unescape_from
digit_lem c d e s h =
    ap
      (λ (o : Option ℕ). elim o [
        | none ↦ none
        | some e ↦ prepend ((16 * d + e) ∷ []) (unescape_from nothing s)
      ])
      h

unescape-digits :
    (g h a b : ℕ) (s : Text)
    → unhex g ≡ some a
    → unhex h ≡ some b
    → unescape (37 ∷ g ∷ h ∷ s) ≡ prepend ((16 * a + b) ∷ []) (unescape s)
unfolding unescape
unescape-digits g h a b s e f = sign_lem g a (h ∷ s) e ∙ digit_lem h a b s f

unescape-byte :
    (b : ℕ) (s : Text)
    → b < 256
    → unescape (37 ∷ hex (b / 16) ∷ hex (b % 16) ∷ s) ≡ prepend (b ∷ []) (unescape s)
unescape-byte b s h =
    unescape-digits (hex (b / 16)) (hex (b % 16)) (b / 16) (b % 16) s
      (unhex-hex (b / 16) (omega (arith, h))) (unhex-hex (b % 16) (omega arith))
    ∙ ap (λ n. prepend (n ∷ []) (unescape s)) (omega arith)

pub prepend-nil : (o : Option Text) → o ≡ prepend [] o
prepend-nil none = refl
prepend-nil (some t) = refl

unescape-percent :
    (bs : List ℕ) (s : Text)
    → All (λ b. b < 256) bs
    → unescape (percent bs ++ s) ≡ prepend bs (unescape s)
unfolding percent
unescape-percent [] s h = prepend-nil (unescape s)
unescape-percent (b ∷ bs) s h =
    unescape-byte b (percent bs ++ s) h.0
    ∙ ap (prepend (b ∷ [])) (unescape-percent bs s h.1)
    ∙ prepend-prepend (b ∷ []) bs (unescape s)

-- A Unicode code point.
abbrev pub IsCodePoint : ℕ → Type 0
IsCodePoint c = c < 0x110000

utf8_small : (c : ℕ) → IsCodePoint c → All (λ b. b < 256) (utf8 c)
unfolding utf8
utf8_small c h =
    if-elim (All (λ b. b < 256)) (ltb c 0x80) (λ e. (ground (arith, e), tt))
      (λ _.
        if-elim (All (λ b. b < 256)) (ltb c 0x800) (λ e. (ground (arith, e), (omega arith, tt)))
          (λ _.
            if-elim (All (λ b. b < 256)) (ltb c 0x10000)
              (λ e. (ground (arith, e), (omega arith, (omega arith, tt))))
              (λ _. (omega (arith, h), (omega arith, (omega arith, (omega arith, tt)))))))

unreserved-utf8 : (c : ℕ) → is_unreserved c ≡ true → (utf8 c ≡ c ∷ []) × (c ≢ 37)
unfolding is_unreserved utf8
unreserved-utf8 c h = (ground (arith, h), λ e. ground (arith, h, e))

unescape-encode_char :
    (c : ℕ) (s : Text)
    → IsCodePoint c
    → unescape (encode_char c ++ s) ≡ prepend (utf8 c) (unescape s)
unfolding encode_char
unescape-encode_char c s h = elim (Bool-cases (is_unreserved c)) [
  | inl kept ↦
      let (same, other) = unreserved-utf8 c kept in rw (kept, same) (unescape-char c s other)
  | inr coded ↦ rw (coded) (unescape-percent (utf8 c) s (utf8_small c h))
]

-- Decoding gives the bytes of the text back, whatever follows.
pub unescape-encode_uri_component :
    (t s : Text)
    → All IsCodePoint t
    → unescape (encode_uri_component t ++ s) ≡ prepend (utf8_bytes t) (unescape s)
unfolding encode_uri_component utf8_bytes
unescape-encode_uri_component [] s h = prepend-nil (unescape s)
unescape-encode_uri_component (c ∷ t) s h =
    ap unescape (append_assoc (encode_char c) (encode_uri_component t) s)
    ∙ unescape-encode_char c (encode_uri_component t ++ s) h.0
    ∙ ap (prepend (utf8 c)) (unescape-encode_uri_component t s h.1)
    ∙ prepend-prepend (utf8 c) (utf8_bytes t) (unescape s)

utf8-slash : (c : ℕ) → c ≢ 47 → All (λ b. b ≢ 47) (utf8 c)
unfolding utf8
utf8-slash c h =
    if-elim (All (λ (b : ℕ). b ≢ 47)) (ltb c 0x80) (λ _. (h, tt))
      (λ _.
        if-elim (All (λ (b : ℕ). b ≢ 47)) (ltb c 0x800) (λ _. (omega arith, (omega arith, tt)))
          (λ _.
            if-elim (All (λ (b : ℕ). b ≢ 47)) (ltb c 0x10000)
              (λ _. (omega arith, (omega arith, (omega arith, tt))))
              (λ _. (omega arith, (omega arith, (omega arith, (omega arith, tt)))))))

-- The bytes have a slash only where the text has one.
pub utf8_bytes-slash : (t : Text) → All (λ c. c ≢ 47) t → All (λ b. b ≢ 47) (utf8_bytes t)
unfolding utf8_bytes
utf8_bytes-slash [] h = tt
utf8_bytes-slash (c ∷ t) h =
    All-append (λ b. b ≢ 47) (utf8 c) (utf8_bytes t) (utf8-slash c h.0) (utf8_bytes-slash t h.1)

utf8-ne-nil : (c : ℕ) (s : Text) → utf8 c ++ s ≢ []
unfolding utf8
utf8-ne-nil c s = ground arith

pub utf8_bytes-ne-nil : (t : Text) → t ≢ [] → utf8_bytes t ≢ []
unfolding utf8_bytes
utf8_bytes-ne-nil [] h = absurd (h refl)
utf8_bytes-ne-nil (c ∷ t) h = utf8-ne-nil c (utf8_bytes t)
