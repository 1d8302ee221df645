-- ===== src/Routing/Parts.antt =====
-- A template with unknown values as the parts of its path, and the table of routes searched for them.
use server_hub.Prelude.{
  ℕ, String, Option, none, some, ◌≡◌, ◌≢◌, Bool, true, false, ◌&&◌, ◌||◌, List, [], ◌∷◌, ◌++◌, map,
  ◌==◌, if◌then◌else◌, All,
}
use server_hub.Text.{Text, codes, eqb}
use server_hub.Text.Uri.{IsInert}
use server_hub.Text.Uri.Decoded.{unescape, prepend}
use server_hub.Routing.{
  lit, val, Template, Method, method_eqb, Segment, static, param, pattern_of, Access, public,
  session, viewer, operator, admin, agent, Route,
}

-- A rendered template with its values marked.
pub data Token : Type 0 where
  ch : ℕ → Token
  word : Text → Token

abbrev pub chars : String → List Token
chars s = map ch (codes s)

abbrev pub tokens : Template → List Token
tokens [] = []
tokens (lit s ∷ ps) = chars s ++ tokens ps
tokens (val v ∷ ps) = word v ∷ tokens ps

abbrev pub flat : List Token → Text
flat [] = []
flat (ch c ∷ ts) = c ∷ flat ts
flat (word v ∷ ts) = v ++ flat ts

-- A segment of the path: literal text, one whole value, or a mixture that is not looked into.
pub data Part : Type 0 where
  fixed : Text → Part
  whole : Text → Part
  mixed : Part

abbrev pub parts : Part → List Token → List Part
parts mixed ts = mixed ∷ []
parts p [] = p ∷ []
parts (fixed cur) (ch c ∷ ts) =
    let closed = parts (fixed []) ts in
    let longer = parts (fixed (cur ++ c ∷ [])) ts in
    if c == 47
    then fixed cur ∷ closed
    else if c == 63 || c == 35
    then fixed cur ∷ []
    else if c == 37
    then mixed ∷ []
    else longer
parts (fixed []) (word v ∷ ts) = parts (whole v) ts
parts (fixed (c ∷ cur)) (word v ∷ ts) = mixed ∷ []
parts (whole v) (ch c ∷ ts) =
    let closed = parts (fixed []) ts in
    if c == 47 then whole v ∷ closed else if c == 63 || c == 35 then whole v ∷ [] else mixed ∷ []
parts (whole v) (word w ∷ ts) = mixed ∷ []

-- The bytes that a value stands for.
abbrev pub decoded : Text → Text
decoded v = default_text (unescape v)
  where
    default_text : Option Text → Text
    default_text none = []
    default_text (some d) = d

abbrev pub part_text : Part → Text
part_text (fixed t) = t
part_text (whole v) = decoded v
part_text mixed = []

-- A value that fills one segment of a path, also when it is decoded.
abbrev pub IsPlain : Text → Type 0
IsPlain v =
    All IsInert v
    × ((s : Text) → unescape (v ++ s) ≡ prepend (decoded v) (unescape s))
    × (decoded v ≢ [])
    × All (λ c. c ≢ 47) (decoded v)

abbrev pub IsPlainPart : Part → Type 0
IsPlainPart (fixed t) = Unit
IsPlainPart (whole v) = IsPlain v
IsPlainPart mixed = ⊥

abbrev pub fits : List Part → List Segment → Bool
fits [] [] = true
fits (fixed t ∷ ps) (static s ∷ ss) = eqb t s && fits ps ss
fits (whole v ∷ ps) (param n ∷ ss) = fits ps ss
fits _ _ = false

abbrev pub access_eqb : Access → Access → Bool
access_eqb public public = true
access_eqb session session = true
access_eqb viewer viewer = true
access_eqb operator operator = true
access_eqb admin admin = true
access_eqb agent agent = true
access_eqb _ _ = false

abbrev pub serves : Access → Method → List Part → List Route → Bool
serves a m ps [] = false
serves a m ps (r ∷ rs) =
    (access_eqb r.access a && method_eqb r.method m && fits ps (pattern_of r.pattern))
    || serves a m ps rs
