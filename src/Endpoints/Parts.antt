-- ===== src/Endpoints/Parts.antt =====
-- What the path builders of packages/shared/src/endpoints.ts share: the prefix, defaults of
-- parameters, and the query strings that URLSearchParams builds.
use server_hub.Prelude.{
  ℕ, String, Bool, false, not, List, [], ◌∷◌, Option, none, some, if◌then◌else◌, ◌≡◌, ◌⊎◌, inl, inr,
  Bool-cases,
}
use server_hub.Text.{Text, codes, is_empty}
use server_hub.Text.Decimal.{show}
use server_hub.Text.Uri.{query_string}
use server_hub.Routing.{Piece, lit, val, Template}

abbrev pub api : Piece
api = lit "/server-hub/api"

-- A parameter with a default: `none` is an argument left out.
abbrev pub default {ℓ} : {A : Type ℓ} → A → Option A → A
default d none = d
default d (some a) = a

-- `if (s)` on an optional string.
abbrev pub is_truthy : Option Text → Bool
is_truthy none = false
is_truthy (some s) = not (is_empty s)

-- `${confirm ? "?confirm=true" : ""}`
abbrev pub confirmed : Bool → Option Bool → Piece
confirmed d c = if default d c then lit "?confirm=true" else lit ""

-- `if (v) q.set(key, v)`
abbrev pub set_text : String → Option Text → List (Text × Text)
set_text key v = if is_truthy v then (codes key, default [] v) ∷ [] else []

-- `if (v !== undefined) q.set(key, String(v))`
abbrev pub set_num : String → Option ℕ → List (Text × Text)
set_num key none = []
set_num key (some n) = (codes key, show n) ∷ []

-- `q.toString() ? `?${q.toString()}` : ""`
unfoldable pub suffix : List (Text × Text) → Template
suffix q = if is_empty (query_string q) then [] else lit "?" ∷ val (query_string q) ∷ []

pub suffix-cases :
    (q : List (Text × Text)) → (suffix q ≡ []) ⊎ (suffix q ≡ lit "?" ∷ val (query_string q) ∷ [])
unfolding suffix
suffix-cases q = elim (Bool-cases (is_empty (query_string q))) [
  | inl none_set ↦ inl (rw none_set)
  | inr some_set ↦ inr (rw some_set)
]
