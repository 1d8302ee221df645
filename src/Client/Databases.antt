-- ===== src/Client/Databases.antt =====
-- client/src/features/dashboard/DatabasesPage.tsx: browsing the databases of a found server and registering
-- those that are ticked. The calls that browse are known by the server that they ask.
pub mod Ticked
pub mod Mixed
use server_hub.Prelude.{
  ℕ, zero, suc, String, Bool, true, false, not, List, [], ◌∷◌, ◌++◌, Option, none, some, map, any,
  all, keep_if, length, ltb, ◌==◌, ◌&&◌, ◌||◌, if◌then◌else◌,
}
use server_hub.Text.{Text, codes, eqb, is_empty, to_lower, includes, join}
use server_hub.Text.Decimal.{show}
use server_hub.Types.Databases.{DbServerInfo, DbItem, DbTarget}
use server_hub.Client.Transitions.{Note}

unfoldable pub server_target : DbServerInfo → DbTarget
server_target s = record {
  engine = s.engine;
  source = s.source;
  host = s.host;
  port = s.port;
  container = s.container;
  username = none;
  password = none;
}

-- The states of the page, with the servers that calls are out to. `selected` is the server of
-- `selectedKey` in the list.
pub record Databases : Type 0 where
  pub selected : Option DbServerInfo
  pub dbs : Option (List DbItem)
  pub browsing : Bool
  pub auth_required : Bool
  pub browse_err : Option Text
  pub username : Text
  pub password : Text
  pub checked : List Text
  pub project_id : Text
  pub registering : Bool
  pub notes : List Note
  pub asked : List DbServerInfo

abbrev pub opened : Databases
opened = record {
  selected = none;
  dbs = none;
  browsing = false;
  auth_required = false;
  browse_err = none;
  username = [];
  password = [];
  checked = [];
  project_id = [];
  registering = false;
  notes = [];
  asked = [];
}

-- What a call brings, or the message of its error.
pub data Brought (A : Type 0) : Type 0 where
  got : A → Brought A
  failed : Text → Brought A

unfoldable pub asks_password : List String → Text → Bool
unfolding to_lower includes
asks_password ws message = any (λ w. includes (to_lower message) (codes w)) ws

abbrev pub browse_words : List String
browse_words = "password" ∷ "username" ∷ "auth" ∷ []

abbrev pub connect_words : List String
connect_words = "password" ∷ "username" ∷ "auth" ∷ "invalid" ∷ []

-- The body of the call of `browse`.
unfoldable pub browse_target : DbServerInfo → Text → Text → DbTarget
unfolding server_target
browse_target s username password = record (server_target s) {
  username = some username;
  password = some password;
}

unfoldable pub browse : DbServerInfo → Databases → Databases
browse srv s = record s {
  browsing = true;
  browse_err = none;
  auth_required = false;
  asked = s.asked ++ srv ∷ [];
}

unfoldable pub browsed : Brought (List DbItem) → Databases → Databases
unfolding asks_password
browsed (got items) s = record s { dbs = some items; checked = []; browsing = false }
browsed (failed message) s =
    if asks_password browse_words message
    then record s { auth_required = true; dbs = none; browsing = false }
    else record s { browse_err = some message; dbs = none; browsing = false }

unfoldable pub pick : DbServerInfo → Databases → Databases
unfolding browse
pick srv s = browse srv (record s { selected = some srv; username = []; password = []; dbs = none })

-- `connectAndBrowse`, which then browses, once it is connected and has loaded the servers anew.
unfoldable pub connect : Databases → Databases
connect s = elim s.selected [
  | none ↦ s
  | some srv ↦ record s { browsing = true; browse_err = none }
]

unfoldable pub connected : DbServerInfo → Brought (Unit {0}) → Databases → Databases
unfolding asks_password browse
connected srv (got tt) s = browse srv (record s {
  notes =
      s.notes ++ (codes "Connected to “" ++ (srv.name ++ codes "”. Credential saved."), false) ∷ [];
})
connected srv (failed message) s =
    if asks_password connect_words message
    then record s {
      auth_required = true;
      notes = s.notes ++ (message, true) ∷ [];
      browsing = false;
    }
    else record s { browse_err = some message; browsing = false }

unfoldable pub remove : Text → List Text → List Text
unfolding keep_if
remove name checked = keep_if (λ c. not (eqb c name)) checked

unfoldable pub toggle : Text → List Text → List Text
unfolding remove
toggle name checked =
    if any (λ c. eqb c name) checked then remove name checked else checked ++ name ∷ []

unfoldable pub tickable : List DbItem → List DbItem
unfolding keep_if
tickable items = keep_if (λ d. not d.registered) items

unfoldable pub all_ticked : List Text → List DbItem → Bool
unfolding tickable
all_ticked checked items =
    ltb 0 (length (tickable items)) && all (λ d. any (λ c. eqb c d.name) checked) (tickable items)

-- The names of a list as a set.
unfoldable pub names_of : List DbItem → List Text
names_of [] = []
names_of (d ∷ ds) = d.name ∷ names_of ds

unfoldable pub toggle_all : List Text → List DbItem → List Text
unfolding all_ticked tickable names_of
toggle_all checked items = if all_ticked checked items then [] else names_of (tickable items)

-- `username || undefined`
filled : Text → Option Text
filled t = if is_empty t then none else some t

-- The arguments of `registerDatabases`; `Number(projectId)` is taken of the id as it stands.
pub record Registration : Type 0 where
  pub project_id : Text
  pub target : DbTarget
  pub names : List Text
  pub username : Option Text
  pub password : Option Text

is_nil : List Text → Bool
is_nil [] = true
is_nil (c ∷ cs) = false

unfoldable pub registration : Databases → Option Registration
unfolding server_target filled is_nil
registration s = elim s.selected [
  | none ↦ none
  | some srv ↦
      if is_nil s.checked || is_empty s.project_id
      then none
      else some (record {
        project_id = s.project_id;
        target = server_target srv;
        names = s.checked;
        username = filled s.username;
        password = filled s.password;
      })
]

unfoldable pub register : Databases → Databases
unfolding registration
register s = elim (registration s) [ none ↦ s | some r ↦ record s { registering = true } ]

registered_note : List Text → Text
unfolding join
registered_note [] = codes "Nothing new — already registered."
registered_note names =
    show (length names)
    ++ (codes " database"
        ++ ((if length names == 1 then [] else codes "s")
            ++ (codes " registered: " ++ (join (codes ", ") names ++ codes "."))))

-- The call is answered with the names that were registered; then the server that was selected is browsed
-- again.
unfoldable pub registered : DbServerInfo → Brought (List Text) → Databases → Databases
unfolding registered_note browse
registered srv (got names) s =
    browse srv (record s { notes = s.notes ++ (registered_note names, false) ∷ []; checked = [] })
registered srv (failed message) s = record s {
  notes = s.notes ++ (message, true) ∷ [];
  registering = false;
}

-- What the page offers and what calls bring; `settled` is the `finally` of `register`, after its browsing.
-- A box can be ticked only for a database that is shown and not registered.
pub data DbEvent : Type 0 where
  picked : DbServerInfo → DbEvent
  typed_username typed_password chose_project toggled : Text → DbEvent
  toggled_all pressed_browse pressed_connect pressed_register settled : DbEvent
  browse_answered : ℕ → Brought (List DbItem) → DbEvent
  connect_answered : DbServerInfo → Brought (Unit {0}) → DbEvent
  register_answered : DbServerInfo → Brought (List Text) → DbEvent

unfoldable pub shown_items : Option (List DbItem) → List DbItem
shown_items none = []
shown_items (some items) = items

-- The n-th of the calls that are out, and the others.
unfoldable pub nth : ℕ → List DbServerInfo → Option DbServerInfo
nth n [] = none
nth zero (s ∷ ss) = some s
nth (suc n) (s ∷ ss) = nth n ss

unfoldable pub without : ℕ → List DbServerInfo → List DbServerInfo
without n [] = []
without zero (s ∷ ss) = ss
without (suc n) (s ∷ ss) = s ∷ without n ss

unfoldable pub step : DbEvent → Databases → Databases
unfolding nth without pick browse browsed connect connected toggle toggle_all register registered
    shown_items tickable
step (picked srv) s = pick srv s
step (typed_username t) s = record s { username = t }
step (typed_password t) s = record s { password = t }
step (chose_project t) s = record s { project_id = t }
step (toggled name) s =
    if any (λ d. eqb d.name name) (tickable (shown_items s.dbs))
    then record s { checked = toggle name s.checked }
    else s
step toggled_all s = elim s.dbs [
  | none ↦ s
  | some items ↦ record s { checked = toggle_all s.checked items }
]
step pressed_browse s = elim s.selected [ none ↦ s | some srv ↦ browse srv s ]
step pressed_connect s = connect s
step pressed_register s = register s
step settled s = record s { registering = false }
step (browse_answered n r) s = elim (nth n s.asked) [
  | none ↦ s
  | some srv ↦ browsed r (record s { asked = without n s.asked })
]
step (connect_answered srv r) s = connected srv r s
step (register_answered srv r) s = registered srv r s

unfoldable pub run : List DbEvent → Databases → Databases
unfolding step
run [] s = s
run (e ∷ es) s = run es (step e s)
