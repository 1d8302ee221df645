-- ===== src/Routing.antt =====
-- How a path that a client builds meets a route that the server registers.
-- A template literal of packages/shared/src/endpoints.ts is the list of its pieces; the routes of
-- server/cmd/server/main.go are patterns in gin's notation, where `:name` stands for one segment.
pub mod Parts
pub mod Sound
use server_hub.Prelude.{
  ℕ, String, ◌≡◌, ◌≢◌, ◌⊎◌, Bool, true, false, ◌&&◌, ◌||◌, List, [], ◌∷◌, Option, some, ◌++◌, map,
  ◌==◌, if◌then◌else◌, All, any,
}
use server_hub.Text.{Text, codes, eqb}
use server_hub.Text.Uri.{encode_uri_component}
use server_hub.Text.Uri.Decoded.{unescape}
use server_hub.Text.Decimal.{show}

-- `lit` is text of the template, `val` what a `${ }` puts in.
pub data Piece : Type 0 where
  lit : String → Piece
  val : Text → Piece

abbrev pub Template : Type 0
Template = List Piece

-- `${n}` of a number.
abbrev pub num : ℕ → Piece
num n = val (show n)

-- `${encodeURIComponent(s)}`
abbrev pub enc : Text → Piece
enc s = val (encode_uri_component s)

-- The string that the template literal evaluates to.
abbrev pub render : Template → Text
render [] = []
render (lit s ∷ ps) = codes s ++ render ps
render (val v ∷ ps) = v ++ render ps

pub data Method : Type 0 where
  get post put patch delete : Method

abbrev pub method_eqb : Method → Method → Bool
method_eqb get get = true
method_eqb post post = true
method_eqb put put = true
method_eqb patch patch = true
method_eqb delete delete = true
method_eqb _ _ = false

-- A path up to its query: what stands before `?` or `#`.
abbrev pub before_query : Text → Text
before_query [] = []
before_query (c ∷ s) = let rest = before_query s in if c == 63 || c == 35 then [] else c ∷ rest

-- The segments of a path, cut at each `/`.
abbrev pub split_path : Text → Text → List Text
split_path cur [] = cur ∷ []
split_path cur (c ∷ s) =
    let closed = split_path [] s in
    let longer = split_path (cur ++ c ∷ []) s in if c == 47 then cur ∷ closed else longer

pub data Segment : Type 0 where
  static : Text → Segment
  param : Text → Segment

abbrev segment : Text → Segment
segment [] = static []
segment (c ∷ s) = if c == b':' then param s else static (c ∷ s)

abbrev pub pattern_of : String → List Segment
pattern_of s = map segment (split_path [] (codes s))

-- Who is admitted: anybody, any session, a session with at least that role, or an agent's token.
pub data Access : Type 0 where
  public session viewer operator admin agent : Access

pub record Route : Type 0 where
  pub access : Access
  pub method : Method
  pub pattern : String

abbrev pub on : Access → Method → String → Route
on a m p = record { access = a; method = m; pattern = p }

-- gin's rule: a static segment stands for itself, a parameter for one segment that is not empty.
abbrev pub Matches : List Segment → List Text → Type 0
Matches [] [] = Unit
Matches [] (t ∷ ts) = ⊥
Matches (s ∷ ps) [] = ⊥
Matches (static p ∷ ps) (t ∷ ts) = (t ≡ p) × Matches ps ts
Matches (param n ∷ ps) (t ∷ ts) = (t ≢ []) × Matches ps ts

-- Some route of the table takes the method and the segments, and asks for that access.
abbrev pub ServesPath : Access → Method → List Text → List Route → Type 0
ServesPath a m ts [] = ⊥
ServesPath a m ts (r ∷ rs) =
    ((r.access ≡ a) × (r.method ≡ m) × Matches (pattern_of r.pattern) ts) ⊎ ServesPath a m ts rs

-- gin without `UseRawPath` routes on the decoded path, so that an encoded `/` cuts the path too; a path
-- with a broken escape is refused before it comes to gin.
abbrev pub Serves : Access → Method → Text → List Route → Type 0
Serves a m path rs =
    (d : Text) × (unescape (before_query path) ≡ some d) × ServesPath a m (split_path [] d) rs
