-- ===== src/Api/Served.antt =====
-- A request of client/src/lib/api.ts meets a route of server/cmd/server/main.go.
use server_hub.Prelude.{List, [], ◌∷◌, ◌≡◌, true, inl, inr}
use server_hub.Routing.{render, Access, Route, Serves, Piece, lit, val, get}
use server_hub.Text.{Text}
use server_hub.Text.Uri.{query_string}
use server_hub.Endpoints.Parts.{suffix, suffix-cases}
use server_hub.Routing.Parts.{fixed, parts, tokens, serves}
use server_hub.Routing.Sound.{PlainValues, serves_lem}
use server_hub.Api.Request.{Request, fetched}

-- Some route of the table takes the request, and asks for that access.
abbrev pub Served : Access → List Route → Request → Type 0
Served a rs q = Serves a q.method (render q.path) rs

pub served :
    (a : Access) (rs : List Route) (q : Request)
    → serves a q.method (parts (fixed []) (tokens q.path)) rs ≡ true
    → PlainValues (parts (fixed []) (tokens q.path))
    → Served a rs q
served a rs q h k = serves_lem a q.method q.path rs h k

-- The same for a path with a query string that may be empty.
pub Served-suffix :
    (a : Access) (rs : List Route) (p₁ p₂ : Piece) (q : List (Text × Text))
    → serves a get (parts (fixed []) (tokens (p₁ ∷ p₂ ∷ []))) rs ≡ true
    → serves a get (parts (fixed []) (tokens (p₁ ∷ p₂ ∷ lit "?" ∷ val (query_string q) ∷ []))) rs
      ≡ true
    → PlainValues (parts (fixed []) (tokens (p₁ ∷ p₂ ∷ [])))
    → PlainValues (parts (fixed []) (tokens (p₁ ∷ p₂ ∷ lit "?" ∷ val (query_string q) ∷ [])))
    → Served a rs (fetched (p₁ ∷ p₂ ∷ suffix q))
Served-suffix a rs p₁ p₂ q bare full k₁ k₂ = elim (suffix-cases q) [
  | inl e ↦ rw e (served a rs (fetched (p₁ ∷ p₂ ∷ [])) bare k₁)
  | inr e ↦ rw e (served a rs (fetched (p₁ ∷ p₂ ∷ lit "?" ∷ val (query_string q) ∷ [])) full k₂)
]
