-- ===== src/Server/Roles.antt =====
-- server/internal/middleware/roles.go: which roles a route that asks for one lets pass.
use server_hub.Prelude.{ℕ, Bool, false, Option, none, some, leb, if◌then◌else◌}
use server_hub.Text.{Text, codes, eqb}
use server_hub.Routing.{Access, viewer, operator, admin}

unfoldable pub role_level : Text → ℕ
role_level role =
    if eqb role (codes "admin")
    then 3
    else if eqb role (codes "operator")
    then 2
    else if eqb role (codes "viewer")
    then 1
    else 0

-- The level of `RequireRole`; none is a route that asks for no role.
unfoldable pub required : Access → Option ℕ
required viewer = some 1
required operator = some 2
required admin = some 3
required _ = none

-- Whether `RequireRole` lets a role pass, on a route that has it.
unfoldable pub permits : Text → Access → Bool
unfolding role_level required
permits role a = elim (required a) [ none ↦ false | some n ↦ leb n (role_level role) ]
