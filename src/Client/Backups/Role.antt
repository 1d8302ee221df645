-- ===== src/Client/Backups/Role.antt =====
-- client/src/features/dbbackups/helpers.ts: what the role of the user makes of the controls.
use server_hub.Prelude.{String, Bool, false, Option, none, some, ◌||◌}
use server_hub.Text.{Text, codes, eqb}

-- `useDbBackupsRole`; none is nobody signed in.
pub record BackupsRole : Type 0 where
  pub can_mutate : Bool
  pub is_admin : Bool

has_role : String → Option Text → Bool
has_role w none = false
has_role w (some r) = eqb r (codes w)

unfoldable pub backups_role : Option Text → BackupsRole
unfolding has_role
backups_role role = record {
  can_mutate = has_role "operator" role || has_role "admin" role;
  is_admin = has_role "admin" role;
}
