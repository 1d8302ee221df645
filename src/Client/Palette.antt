-- ===== src/Client/Palette.antt =====
-- client/src/components/chrome.tsx, `CommandPalette`: the search for pages, actions and projects.
pub mod Within
use server_hub.Prelude.{
  ℕ, zero, suc, String, Bool, true, false, List, [], ◌∷◌, ◌++◌, Option, none, some, map, length,
  leb, ◌-◌, keep_if, if◌then◌else◌,
}
use server_hub.Text.{Text, codes, is_empty, to_lower, trim, includes}
use server_hub.Text.Decimal.{show}
use server_hub.Types.{Project}

pub record Item : Type 0 where
  pub title : Text
  pub sub : Text
  pub route : Text

page : String → String → Item
page title route = record { title = codes title; sub = codes "page"; route = codes route }

unfoldable pub pages : List Item
unfolding page
pages =
    page "Go to Dashboard" "/"
    ∷ page "Browse databases" "/databases"
    ∷ page "View Host Telemetry" "/telemetry"
    ∷ page "Monitoring" "/monitoring"
    ∷ page "File Transfers" "/transfers"
    ∷ page "Database Backups" "/db-backups"
    ∷ page "Managed Servers" "/servers"
    ∷ page "Alerts" "/alerts"
    ∷ page "Health Checks" "/health-checks"
    ∷ page "Audit Log" "/audit"
    ∷ page "Go to Settings" "/settings"
    ∷ record { title = codes "Discover containers"; sub = codes "action"; route = codes "/?scan=1" }
    ∷ []

project_item : Project → Item
project_item p = record {
  title = p.name;
  sub = codes "open project";
  route = codes "/?project=" ++ show p.id;
}

abbrev pub fits : Text → Item → Bool
fits needle i = includes (to_lower i.title) needle

unfoldable pub items : Text → List Project → List Item
unfolding pages project_item keep_if to_lower trim includes
items q projects =
    let all = pages ++ map project_item projects in
    let needle = to_lower (trim q) in if is_empty needle then all else keep_if (fits needle) all

-- The states `q`, `projects` and `sel`, of which none is -1; and, once it is closed, where to.
pub record Palette : Type 0 where
  pub q : Text
  pub projects : List Project
  pub sel : Option ℕ
  pub is_open : Bool
  pub route : Option Text

abbrev pub opened : Palette
opened = record { q = []; projects = []; sel = some 0; is_open = true; route = none }

unfoldable pub nth : {A : Type 0} → List A → ℕ → Option A
nth [] i = none
nth (x ∷ xs) zero = some x
nth (x ∷ xs) (suc i) = nth xs i

-- `Math.min(s + 1, items.length - 1)`
unfoldable pub down : ℕ → Option ℕ → Option ℕ
down zero s = none
down (suc n) none = some 0
down (suc n) (some i) = some (if leb (suc i) n then suc i else n)

-- `Math.max(s - 1, 0)`
unfoldable pub up : Option ℕ → Option ℕ
up none = some 0
up (some i) = some (i - 1)

item_at : Option ℕ → List Item → Option Item
unfolding nth
item_at none is = none
item_at (some i) is = nth is i

chosen : Option Item → Palette → Palette
chosen none s = s
chosen (some i) s = record s { is_open = false; route = some i.route }

pub data PaletteEvent : Type 0 where
  came : List Project → PaletteEvent
  typed : Text → PaletteEvent
  arrow_down arrow_up enter escape : PaletteEvent
  clicked pointed : ℕ → PaletteEvent

unfoldable pub step : PaletteEvent → Palette → Palette
unfolding items down up item_at chosen
step (came ps) s = record s { projects = ps }
step (typed t) s = record s { q = t; sel = some 0 }
step arrow_down s = record s { sel = down (length (items s.q s.projects)) s.sel }
step arrow_up s = record s { sel = up s.sel }
step enter s = chosen (item_at s.sel (items s.q s.projects)) s
step escape s = record s { is_open = false }
step (pointed i) s = elim (nth (items s.q s.projects) i) [
  | none ↦ s
  | some item ↦ record s { sel = some i }
]
step (clicked i) s = chosen (nth (items s.q s.projects) i) s

-- Once it is closed nothing more happens.
unfoldable pub run : List PaletteEvent → Palette → Palette
unfolding step
run [] s = s
run (e ∷ es) s = let rest = run es (step e s) in if s.is_open then rest else s
