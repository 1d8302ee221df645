-- ===== src/Client/Servers.antt =====
-- client/src/features/dashboard/ServersPage.tsx: the counts above the list of servers and the list itself.
pub mod Counted
use server_hub.Prelude.{
  ℕ, String, Bool, true, false, not, List, [], ◌∷◌, Option, none, some, ◌==◌, ◌+◌, ◌&&◌, ◌||◌,
  keep_if, length, if◌then◌else◌,
}
use server_hub.Text.{Text, codes, eqb, is_empty, to_lower, trim, includes}
use server_hub.Types.{ManagedServer}

pub record ServerCounts : Type 0 where
  pub total : ℕ
  pub online : ℕ
  pub offline : ℕ
  pub warning : ℕ
  pub unknown : ℕ

abbrev pub has_status : String → ManagedServer → Bool
has_status w s = eqb s.status (codes w)

abbrev pub is_unknown : ManagedServer → Bool
is_unknown s =
    not (has_status "ONLINE" s) && (not (has_status "OFFLINE" s) && not (has_status "WARNING" s))

unfoldable pub counts : List ManagedServer → ServerCounts
unfolding keep_if
counts servers = record {
  total = length servers;
  online = length (keep_if (has_status "ONLINE") servers);
  offline = length (keep_if (has_status "OFFLINE") servers);
  warning = length (keep_if (has_status "WARNING") servers);
  unknown = length (keep_if is_unknown servers);
}

-- The states `groupFilter`, `statusFilter` and `search`.
pub record Filters : Type 0 where
  pub group : Option ℕ
  pub status : Option Text
  pub search : Text

abbrev pub no_filters : Filters
no_filters = record { group = none; status = none; search = [] }

-- `groupFilter !== null && s.groupId !== groupFilter` leaves a server out.
group_fits : Option ℕ → Option ℕ → Bool
group_fits none g = true
group_fits (some f) none = false
group_fits (some f) (some g) = g == f

status_fits : Option Text → Text → Bool
status_fits none s = true
status_fits (some f) s = eqb s f

found_in : Text → ManagedServer → Bool
unfolding to_lower includes
found_in needle s =
    includes (to_lower s.name) needle
    || (includes (to_lower s.hostname) needle
        || (includes (to_lower s.ip_address) needle || includes (to_lower s.os) needle))

unfoldable pub passes : Filters → ManagedServer → Bool
unfolding group_fits status_fits found_in to_lower trim
passes f s =
    let needle = to_lower (trim f.search) in
    group_fits f.group s.group_id
    && (status_fits f.status s.status && (is_empty needle || found_in needle s))

unfoldable pub filtered : Filters → List ManagedServer → List ManagedServer
unfolding passes keep_if
filtered f servers = keep_if (passes f) servers
