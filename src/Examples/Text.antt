-- ===== src/Examples/Text.antt =====
-- What the printing of JSON gives.
use server_hub.Prelude.{◌≡◌, refl}
use server_hub.Text.{codes}
use server_hub.Text.Decimal.{show}
use server_hub.Json.{null, num, str, arr, obj, nil, cons, end, field}
use server_hub.Json.Print.{stringify}

print_test :
    stringify (
      obj (
        field
          (codes "role")
          (str (codes "a\"b"))
          (field (codes "n") (arr (cons (num 4) (cons null nil))) end)))
    ≡ codes "{\"role\":\"a\\\"b\",\"n\":[4,null]}"
unfolding stringify show
print_test = refl
