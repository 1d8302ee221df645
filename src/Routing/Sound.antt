-- ===== src/Routing/Sound.antt =====
-- The search of a table for the parts of a path is sound.
use server_hub.Prelude.{
  ℕ, some, subst, sym, ◌≡◌, refl, ◌≢◌, inl, inr, true, ◌&&◌, ◌||◌, List, [], ◌∷◌, ◌++◌, map,
  append_assoc, append-nil, arith, ◌==◌, Bool-cases, and-true, All, ap, ◌∙◌,
}
use server_hub.Text.{Text, codes, eqb, eqb_sound}
use server_hub.Text.Uri.{IsInert, encode_uri_component, encode_uri_component-IsInert}
use server_hub.Text.Uri.Decoded.{
  unescape, prepend, prepend-nil, prepend-prepend, unescape-char, IsCodePoint, utf8_bytes,
  utf8_bytes-slash, utf8_bytes-ne-nil, unescape-encode_uri_component,
}
use server_hub.Text.Decimal.{show, IsDigit, show-IsDigit, show-ne-nil}
use server_hub.Routing.{
  lit, val, Template, render, Method, method_eqb, split_path, Segment, static, param, pattern_of,
  Access, Route, Matches, ServesPath, Serves, before_query,
}
use server_hub.Routing.Parts.{
  Token, ch, word, tokens, flat, Part, fixed, whole, mixed, parts, decoded, part_text, IsPlain,
  IsPlainPart, fits, access_eqb, serves,
}

flat-chars : (cs : Text) (ts : List Token) → flat (map ch cs ++ ts) ≡ cs ++ flat ts
flat-chars [] ts = refl
flat-chars (c ∷ cs) ts = ap (λ s. c ∷ s) (flat-chars cs ts)

flat-tokens : (ps : Template) → flat (tokens ps) ≡ render ps
flat-tokens [] = refl
flat-tokens (lit s ∷ ps) = rw (flat-chars (codes s) (tokens ps), flat-tokens ps)
flat-tokens (val v ∷ ps) = rw (flat-tokens ps)

-- A text without a slash goes on with the segment that it stands in.
split_path-append :
    (cur v s : Text) → All (λ c. c ≢ 47) v → split_path cur (v ++ s) ≡ split_path (cur ++ v) s
split_path-append cur [] s h = rw append-nil
split_path-append cur (c ∷ v) s (hc, h) =
    ground (arith, split_path-append (cur ++ c ∷ []) v s h, append_assoc cur (c ∷ []) v)

before_query-append : (v s : Text) → All IsInert v → before_query (v ++ s) ≡ v ++ before_query s
before_query-append [] s h = refl
before_query-append (c ∷ v) s (hc, h) = ground (arith, before_query-append v s h)

parts-head : (v : Text) (ts : List Token) → All IsPlainPart (parts (whole v) ts) → IsPlain v
parts-head v [] h = h.0
parts-head v (ch c ∷ ts) h = ground arith
parts-head v (word w ∷ ts) h = absurd h.0

-- The decoded path is read as the parts.
abbrev Reads : Part → List Token → Type 0
Reads p ts =
    (d : Text) × (unescape (before_query (flat ts)) ≡ some d)
    × (split_path (part_text p) d ≡ map part_text (parts p ts))

unescape-nil : unescape [] ≡ some []
unfolding unescape
unescape-nil = refl

slash-Reads :
    (p : Part) (ts : List Token)
    → Reads (fixed []) ts
    → (d : Text) × (unescape (47 ∷ before_query (flat ts)) ≡ some d)
      × (split_path (part_text p) d ≡ part_text p ∷ map part_text (parts (fixed []) ts))
slash-Reads p ts r = (
  47 ∷ r.0,
  unescape-char 47 (before_query (flat ts)) (omega arith) ∙ ap (prepend (47 ∷ [])) r.1,
  ap (λ l. part_text p ∷ l) r.2,
)

fixed-Reads :
    (cur : Text) (c : ℕ) (ts : List Token)
    → (All IsPlainPart (parts (fixed []) ts) → Reads (fixed []) ts)
    → (All IsPlainPart (parts (fixed (cur ++ c ∷ [])) ts) → Reads (fixed (cur ++ c ∷ [])) ts)
    → All IsPlainPart (parts (fixed cur) (ch c ∷ ts))
    → Reads (fixed cur) (ch c ∷ ts)
fixed-Reads cur c ts closed longer h = elim (Bool-cases (c == 47)) [
  | inl e ↦
      let is_slash : c ≡ 47 = ground (arith, e) in
      subst (λ z. All IsPlainPart (parts (fixed cur) (ch z ∷ ts)) → Reads (fixed cur) (ch z ∷ ts))
        (sym is_slash) (λ k. slash-Reads (fixed cur) ts (closed k.1)) h
  | inr e ↦ elim (Bool-cases (c == 63 || c == 35)) [
    | inl f ↦ rw (e, f) ([], unescape-nil, refl)
    | inr f ↦ elim (Bool-cases (c == 37)) [
      | inl g ↦ let k = (rw (e, f, g) at h) in absurd k.0
      | inr g ↦
          let no_escape : c ≢ 37 = ground (arith, g) in
          let r = longer (rw (e, f, g) at h) in
          rw (e, f, g)
            (
              c ∷ r.0,
              unescape-char c (before_query (flat ts)) no_escape ∙ ap (prepend (c ∷ [])) r.1,
              rw e r.2,
            )
    ]
  ]
]

whole-Reads :
    (v : Text) (c : ℕ) (ts : List Token)
    → (All IsPlainPart (parts (fixed []) ts) → Reads (fixed []) ts)
    → All IsPlainPart (parts (whole v) (ch c ∷ ts))
    → Reads (whole v) (ch c ∷ ts)
whole-Reads v c ts closed h = elim (Bool-cases (c == 47)) [
  | inl e ↦
      let is_slash : c ≡ 47 = ground (arith, e) in
      subst (λ z. All IsPlainPart (parts (whole v) (ch z ∷ ts)) → Reads (whole v) (ch z ∷ ts))
        (sym is_slash) (λ k. slash-Reads (whole v) ts (closed k.1)) h
  | inr e ↦ elim (Bool-cases (c == 63 || c == 35)) [
    | inl f ↦ rw (e, f) ([], unescape-nil, refl)
    | inr f ↦ let k = (rw (e, f) at h) in absurd k.0
  ]
]

reads : (p : Part) (ts : List Token) → All IsPlainPart (parts p ts) → Reads p ts
reads mixed ts h = absurd h.0
reads (fixed cur) [] h = ([], unescape-nil, refl)
reads (whole v) [] h = ([], unescape-nil, refl)
reads (fixed cur) (ch c ∷ ts) h =
    fixed-Reads cur c ts (reads (fixed []) ts) (reads (fixed (cur ++ c ∷ [])) ts) h
reads (fixed []) (word v ∷ ts) h =
    let plain = parts-head v ts h in
    let (d, e, k) = reads (whole v) ts h in
    (
      decoded v ++ d,
      ap unescape (before_query-append v (flat ts) plain.0)
          ∙ plain.1 (before_query (flat ts))
          ∙ ap (prepend (decoded v)) e,
      split_path-append [] (decoded v) d plain.3 ∙ k,
    )
reads (fixed (c ∷ cur)) (word v ∷ ts) h = absurd h.0
reads (whole v) (ch c ∷ ts) h = whole-Reads v c ts (reads (fixed []) ts) h
reads (whole v) (word w ∷ ts) h = absurd h.0

fits-Matches :
    (ps : List Part) (ss : List Segment)
    → fits ps ss ≡ true
    → All IsPlainPart ps
    → Matches ss (map part_text ps)
fits-Matches [] [] h k = tt
fits-Matches (fixed t ∷ ps) (static s ∷ ss) h k =
    let (same, rest) = and-true (eqb t s) (fits ps ss) h in
    (eqb_sound t s same, fits-Matches ps ss rest k.1)
fits-Matches (whole v ∷ ps) (param n ∷ ss) h k = (k.0.2, fits-Matches ps ss h k.1)
fits-Matches _ _ h k = cc

access_eqb_sound : (a b : Access) → access_eqb a b ≡ true → a ≡ b
access_eqb_sound a b h = ground arith

method_eqb_sound : (a b : Method) → method_eqb a b ≡ true → a ≡ b
method_eqb_sound a b h = ground arith

-- What the procedure accepts is served.
serves_sound :
    (a : Access) (m : Method) (ps : List Part) (rs : List Route)
    → serves a m ps rs ≡ true
    → All IsPlainPart ps
    → ServesPath a m (map part_text ps) rs
serves_sound a m ps [] h k = cc
serves_sound a m ps (r ∷ rs) h k =
    elim (Bool-cases
      (access_eqb r.access a && method_eqb r.method m && fits ps (pattern_of r.pattern))) [
        | inl found ↦
            let (same, fit) = and-true _ _ found in
            let (same_a, same_m) = and-true _ _ same in
            inl (access_eqb_sound _ _ same_a, method_eqb_sound _ _ same_m, fits-Matches _ _ fit k)
        | inr other ↦ inr (serves_sound a m ps rs (rw other at h) k)
      ]

-- What is left to know of a template: that the values in its path are plain.
abbrev pub PlainValues : List Part → Type 0
PlainValues [] = Unit
PlainValues (fixed t ∷ ps) = PlainValues ps
PlainValues (whole v ∷ ps) = IsPlain v × PlainValues ps
PlainValues (mixed ∷ ps) = ⊥

PlainValues-All : (ps : List Part) → PlainValues ps → All IsPlainPart ps
PlainValues-All [] h = tt
PlainValues-All (fixed t ∷ ps) h = (tt, PlainValues-All ps h)
PlainValues-All (whole v ∷ ps) h = (h.0, PlainValues-All ps h.1)
PlainValues-All (mixed ∷ ps) h = absurd h

-- A template that the procedure accepts is served whatever its values are, so long as each value in the
-- path is plain.
pub serves_lem :
    (a : Access) (m : Method) (t : Template) (rs : List Route)
    → serves a m (parts (fixed []) (tokens t)) rs ≡ true
    → PlainValues (parts (fixed []) (tokens t))
    → Serves a m (render t) rs
serves_lem a m t rs h k =
    let plain = PlainValues-All (parts (fixed []) (tokens t)) k in
    let (d, e, same) = reads (fixed []) (tokens t) plain in
    (
      d,
      ap (λ z. unescape (before_query z)) (sym (flat-tokens t)) ∙ e,
      subst (λ l. ServesPath a m l rs) (sym same)
          (serves_sound a m (parts (fixed []) (tokens t)) rs h plain),
    )

-- A raw value: no delimiter and no escape.
abbrev pub IsRaw : Text → Type 0
IsRaw v = (v ≢ []) × All IsInert v × All (λ c. c ≢ 37) v

unescape-raw : (v s : Text) → All (λ c. c ≢ 37) v → unescape (v ++ s) ≡ prepend v (unescape s)
unescape-raw [] s h = prepend-nil (unescape s)
unescape-raw (c ∷ v) s h =
    unescape-char c (v ++ s) h.0
    ∙ ap (prepend (c ∷ [])) (unescape-raw v s h.1)
    ∙ prepend-prepend (c ∷ []) v (unescape s)

decoded-known : (v w : Text) → unescape (v ++ []) ≡ prepend w (unescape []) → decoded v ≡ w
unfolding unescape
decoded-known v w e =
    let plain : unescape v ≡ some w =
      ap unescape (sym (append-nil v)) ∙ e ∙ ap some (append-nil w) in
    rw plain refl

-- A value whose decoding is known, whatever follows, is plain when the decoding is one segment.
known-IsPlain :
    (v w : Text)
    → All IsInert v
    → ((s : Text) → unescape (v ++ s) ≡ prepend w (unescape s))
    → w ≢ []
    → All (λ c. c ≢ 47) w
    → IsPlain v
known-IsPlain v w inert k full cut =
    let same = decoded-known v w (k []) in
    (
      inert,
      λ s. k s ∙ ap (λ z. prepend z (unescape s)) (sym same),
      subst (λ z. z ≢ []) (sym same) full,
      subst (λ z. All (λ c. c ≢ 47) z) (sym same) cut,
    )

inert-slash : (v : Text) → All IsInert v → All (λ c. c ≢ 47) v
inert-slash [] h = tt
inert-slash (c ∷ v) h = (h.0.0, inert-slash v h.1)

pub raw-IsPlain : (v : Text) → IsRaw v → IsPlain v
raw-IsPlain v (full, inert, whole_text) =
    known-IsPlain v v inert (λ s. unescape-raw v s whole_text) full (inert-slash v inert)

digit-IsInert : (s : Text) → All IsDigit s → All IsInert s
digit-IsInert [] h = tt
digit-IsInert (c ∷ s) (hc, h) = (omega arith, digit-IsInert s h)

digit-percent : (s : Text) → All IsDigit s → All (λ c. c ≢ 37) s
digit-percent [] h = tt
digit-percent (c ∷ s) (hc, h) = (omega arith, digit-percent s h)

pub show-IsPlain : (n : ℕ) → IsPlain (show n)
show-IsPlain n = raw-IsPlain (show n) (
  show-ne-nil n,
  digit-IsInert (show n) (show-IsDigit n),
  digit-percent (show n) (show-IsDigit n),
)

-- No segment that a URL parser takes for a step in the tree.
abbrev pub IsNamed : Text → Type 0
IsNamed t = (t ≢ codes ".") × (t ≢ codes "..")

-- A text that is one segment when it is decoded: it is not empty and has no slash.
abbrev pub IsSegment : Text → Type 0
IsSegment t = (t ≢ []) × All (λ c. c ≢ 47) t × All IsCodePoint t × IsNamed t

pub encode-IsPlain : (s : Text) → IsSegment s → IsPlain (encode_uri_component s)
encode-IsPlain s (full, cut, points, named) =
    known-IsPlain (encode_uri_component s) (utf8_bytes s) (encode_uri_component-IsInert s)
      (λ t. unescape-encode_uri_component s t points) (utf8_bytes-ne-nil s full)
      (utf8_bytes-slash s cut)
