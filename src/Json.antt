-- ===== src/Json.antt =====
-- JSON values as both clients send and receive them, and JavaScript's `String(v)` of one.
pub mod Print
use server_hub.Prelude.{ℕ, String, Bool, List, [], ◌∷◌, ◌++◌, Option, none, some, if◌then◌else◌}
use server_hub.Text.{Text, codes, eqb}
use server_hub.Text.Decimal.{show}

-- `num` is a whole number, `real` any other with the text that JavaScript prints for it.
mutual
  pub data Json : Type 0 where
    null : Json
    bool : Bool → Json
    num : ℕ → Json
    real : Text → Json
    str : Text → Json
    arr : Items → Json
    obj : Fields → Json

  pub data Items : Type 0 where
    nil : Items
    cons : Json → Items → Items

  pub data Fields : Type 0 where
    end : Fields
    field : Text → Json → Fields → Fields

-- An object literal of the source.
abbrev pub object : List (String × Json) → Json
object fs = obj (fields fs)
  where
    fields : List (String × Json) → Fields
    fields [] = end
    fields ((k, v) ∷ r) = field (codes k) v (fields r)

-- `JSON.stringify` leaves out a property that is undefined.
abbrev pub optional : String → Option Json → List (String × Json)
optional k none = []
optional k (some v) = (k, v) ∷ []

abbrev pub array : List Json → Json
array vs = arr (items vs)
  where
    items : List Json → Items
    items [] = nil
    items (v ∷ r) = cons v (items r)

-- The value of a property. JSON.parse keeps the last of several properties with one name.
unfoldable pub property : Text → Fields → Option Json
property k end = none
property k (field j v fs) = elim (property k fs) [
  | some w ↦ some w
  | none ↦ if eqb j k then some v else none
]

-- `String(v)`; inside an array that is printed, `null` is the empty text, and commas join.
unfoldable mutual
  pub element : Json → Text
  element null = []
  element (bool b) = if b then codes "true" else codes "false"
  element (num n) = show n
  element (real t) = t
  element (str s) = s
  element (arr nil) = []
  element (arr (cons v vs)) = element v ++ later vs
  element (obj fs) = codes "[object Object]"

  pub later : Items → Text
  later nil = []
  later (cons v vs) = 44 ∷ element v ++ later vs

unfoldable pub js_string : Json → Text
unfolding element
js_string null = codes "null"
js_string v = element v
