-- ===== src/Text/Uri.antt =====
-- Percent-encoding: `encodeURIComponent`, and the serializer of `URLSearchParams`. Both encode the
-- UTF-8 bytes of a code point. A lone surrogate, for which `encodeURIComponent` throws, is no code
-- point of a text here.
pub mod Decoded
use server_hub.Prelude.{
  ℕ, ◌+◌, ◌/◌, ◌%◌, ◌≡◌, refl, ◌≢◌, Bool, true, false, ◌&&◌, ◌||◌, List, [], ◌∷◌, ◌++◌, arith, ltb,
  leb, ◌==◌, if◌then◌else◌, All, All-append, Bool-cases, inl, inr,
}
use server_hub.Text.{Text, codes, join}

abbrev is_alnum : ℕ → Bool
is_alnum c = (leb 48 c && leb c 57) || (leb 65 c && leb c 90) || (leb 97 c && leb c 122)

-- `A-Z a-z 0-9 - _ . ! ~ * ' ( )`
unfoldable pub is_unreserved : ℕ → Bool
is_unreserved c =
    is_alnum c
    || c == b'-'
    || c == b'_'
    || c == b'.'
    || c == b'!'
    || c == b'~'
    || c == b'*'
    || c == 39
    || c == b'('
    || c == b')'

unfoldable pub utf8 : ℕ → List ℕ
utf8 c =
    if ltb c 0x80
    then c ∷ []
    else if ltb c 0x800
    then (0xc0 + c / 64) ∷ (0x80 + c % 64) ∷ []
    else if ltb c 0x10000
    then (0xe0 + c / 4096) ∷ (0x80 + c / 64 % 64) ∷ (0x80 + c % 64) ∷ []
    else (0xf0 + c / 262144) ∷ (0x80 + c / 4096 % 64) ∷ (0x80 + c / 64 % 64) ∷ (0x80 + c % 64) ∷ []

unfoldable pub hex : ℕ → ℕ
hex n = if ltb n 10 then 48 + n else 55 + n

unfoldable pub percent : List ℕ → Text
unfolding hex
percent [] = []
percent (b ∷ bs) = b'%' ∷ hex (b / 16) ∷ hex (b % 16) ∷ percent bs

unfoldable pub encode_char : ℕ → Text
unfolding is_unreserved utf8 percent
encode_char c = if is_unreserved c then c ∷ [] else percent (utf8 c)

unfoldable pub encode_uri_component : Text → Text
unfolding encode_char
encode_uri_component [] = []
encode_uri_component (c ∷ s) = encode_char c ++ encode_uri_component s

-- application/x-www-form-urlencoded: a space is `+`.
form_char : ℕ → Text
unfolding utf8 percent
form_char c =
    if is_alnum c || c == b'*' || c == b'-' || c == b'.' || c == b'_'
    then c ∷ []
    else if c == 32
    then b'+' ∷ []
    else percent (utf8 c)

form_encode : Text → Text
unfolding form_char
form_encode [] = []
form_encode (c ∷ s) = form_char c ++ form_encode s

form_pairs : List (Text × Text) → List Text
unfolding form_encode
form_pairs [] = []
form_pairs ((k, v) ∷ q) = (form_encode k ++ b'=' ∷ form_encode v) ∷ form_pairs q

-- `q.toString()` of the pairs that were set, in order.
unfoldable pub query_string : List (Text × Text) → Text
unfolding form_pairs join
query_string q = join (b'&' ∷ []) (form_pairs q)

-- A code point that ends no part of a URL: not `/`, `?`, `#`, `&` or `=`.
abbrev pub IsInert : ℕ → Type 0
IsInert c = (c ≢ 47) × (c ≢ 63) × (c ≢ 35) × (c ≢ 38) × (c ≢ 61)

hex-IsInert : (n : ℕ) → IsInert (hex n)
unfolding hex
hex-IsInert n = ground arith

percent-IsInert : (bs : List ℕ) → All IsInert (percent bs)
unfolding percent
percent-IsInert [] = tt
percent-IsInert (b ∷ bs) =
    (omega arith, (hex-IsInert (b / 16), (hex-IsInert (b % 16), percent-IsInert bs)))

-- The test fails at each of the delimiters.
unreserved-ne : (c d : ℕ) → is_unreserved d ≡ false → is_unreserved c ≡ true → c ≢ d
unreserved-ne c d off on e = let same : is_unreserved d ≡ true = rw e at on in cc

unreserved-IsInert : (c : ℕ) → is_unreserved c ≡ true → IsInert c
unfolding is_unreserved
unreserved-IsInert c h = (
  unreserved-ne c 47 refl h,
  unreserved-ne c 63 refl h,
  unreserved-ne c 35 refl h,
  unreserved-ne c 38 refl h,
  unreserved-ne c 61 refl h,
)

encode_char-IsInert : (c : ℕ) → All IsInert (encode_char c)
unfolding encode_char
encode_char-IsInert c = elim (Bool-cases (is_unreserved c)) [
  | inl kept ↦ rw kept (unreserved-IsInert c kept, tt)
  | inr coded ↦ rw coded (percent-IsInert (utf8 c))
]

-- What `encodeURIComponent` returns holds no delimiter of a URL.
pub encode_uri_component-IsInert : (s : Text) → All IsInert (encode_uri_component s)
unfolding encode_uri_component
encode_uri_component-IsInert [] = tt
encode_uri_component-IsInert (c ∷ s) =
    All-append IsInert (encode_char c) (encode_uri_component s) (encode_char-IsInert c)
      (encode_uri_component-IsInert s)

encode_char-ne-nil : (c : ℕ) (s : Text) → encode_char c ++ s ≢ []
unfolding encode_char utf8 percent
encode_char-ne-nil c s = ground arith

pub encode_uri_component-ne-nil : (s : Text) → s ≢ [] → encode_uri_component s ≢ []
unfolding encode_uri_component
encode_uri_component-ne-nil [] h = absurd (h refl)
encode_uri_component-ne-nil (c ∷ s) h = encode_char-ne-nil c (encode_uri_component s)

encode_slash : encode_uri_component (codes "a/b é") ≡ codes "a%2Fb%20%C3%A9"
unfolding encode_uri_component
encode_slash = refl

query_test :
    query_string ((codes "a", codes "x y") ∷ (codes "b", codes "1&2") ∷ []) ≡ codes "a=x+y&b=1%262"
unfolding query_string
query_test = refl
