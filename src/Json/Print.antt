-- ===== src/Json/Print.antt =====
-- `JSON.stringify`. The properties of an object stand in their order; their names are no numbers and
-- do not repeat.
use server_hub.Prelude.{ℕ, ◌+◌, ◌/◌, ◌%◌, [], ◌∷◌, ◌++◌, ltb, ◌==◌, if◌then◌else◌}
use server_hub.Text.{Text, codes}
use server_hub.Text.Decimal.{show}
use server_hub.Json.{
  Json, Items, Fields, null, bool, num, real, str, arr, obj, nil, cons, end, field,
}

low_hex : ℕ → ℕ
low_hex n = if ltb n 10 then 48 + n else 87 + n

quote_char : ℕ → Text
unfolding low_hex
quote_char c =
    if c == 34
    then 92 ∷ 34 ∷ []
    else if c == 92
    then 92 ∷ 92 ∷ []
    else if c == 8
    then codes "\\b"
    else if c == 9
    then codes "\\t"
    else if c == 10
    then codes "\\n"
    else if c == 12
    then codes "\\f"
    else if c == 13
    then codes "\\r"
    else if ltb c 32
    then codes "\\u00" ++ low_hex (c / 16) ∷ low_hex (c % 16) ∷ []
    else c ∷ []

quote_chars : Text → Text
unfolding quote_char
quote_chars [] = []
quote_chars (c ∷ s) = quote_char c ++ quote_chars s

quoted : Text → Text
unfolding quote_chars
quoted s = 34 ∷ quote_chars s ++ 34 ∷ []

unfoldable mutual
  unfolding quoted

  pub stringify : Json → Text
  stringify null = codes "null"
  stringify (bool b) = if b then codes "true" else codes "false"
  stringify (num n) = show n
  stringify (real t) = t
  stringify (str s) = quoted s
  stringify (arr nil) = codes "[]"
  stringify (arr (cons v vs)) = 91 ∷ stringify v ++ more_items vs
  stringify (obj end) = codes "{}"
  stringify (obj (field k v fs)) = 123 ∷ quoted k ++ 58 ∷ stringify v ++ more_fields fs

  more_items : Items → Text
  more_items nil = 93 ∷ []
  more_items (cons v vs) = 44 ∷ stringify v ++ more_items vs

  more_fields : Fields → Text
  more_fields end = 125 ∷ []
  more_fields (field k v fs) = 44 ∷ quoted k ++ 58 ∷ stringify v ++ more_fields fs
