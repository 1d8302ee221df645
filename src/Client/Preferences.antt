-- ===== src/Client/Preferences.antt =====
-- client/src/features/settings/hooks/useAlerts.ts and lib/useTheme.ts: the choices that the browser keeps
-- in its local storage; and the dashboard's own reading of them (DashboardPage.tsx).
pub mod Obeyed
use server_hub.Prelude.{
  ℕ, zero, suc, String, Bool, true, false, not, List, [], ◌∷◌, Option, none, some, if◌then◌else◌,
}
use server_hub.Text.{Text, codes, eqb, is_empty}
use server_hub.Json.{Json, null, bool, num, real, str, arr, obj, Fields, end, object, property}

-- Whether JavaScript takes a value for true; none is undefined.
unfoldable pub truthy : Option Json → Bool
truthy none = false
truthy (some null) = false
truthy (some (bool b)) = b
truthy (some (num zero)) = false
truthy (some (num (suc n))) = true
truthy (some (str s)) = not (is_empty s)
truthy (some v) = true

-- The properties of a value that may be no object.
unfoldable pub fields_of : Json → Fields
fields_of (obj fs) = fs
fields_of v = end

-- A stored choice may be any JSON value. What else the stored object holds is never read.
pub record Alerts : Type 0 where
  pub deploy_finished : Json
  pub health_changed : Json
  pub high_usage : Json

abbrev pub default_alerts : Alerts
default_alerts = record {
  deploy_finished = bool true;
  health_changed = bool true;
  high_usage = bool false;
}

-- A property of `{ k: v, ...o }`.
spread : Json → Option Json → Json
spread v none = v
spread v (some w) = w

-- `{ deployFinished: true, healthChanged: true, highUsage: false, ...o }`
unfoldable pub over_defaults : Json → Alerts
unfolding spread fields_of
over_defaults o =
    let fs = fields_of o in
    record {
      deploy_finished = spread (bool true) (property (codes "deployFinished") fs);
      health_changed = spread (bool true) (property (codes "healthChanged") fs);
      high_usage = spread (bool false) (property (codes "highUsage") fs);
    }

pub data AlertKey : Type 0 where
  deploy_key health_key usage_key : AlertKey

-- The object that `flip` stores.
unfoldable pub alerts_json : Alerts → Json
alerts_json a = object (
    ("deployFinished", a.deploy_finished)
    ∷ ("healthChanged", a.health_changed)
    ∷ ("highUsage", a.high_usage)
    ∷ [])

unfoldable pub flip_key : AlertKey → Alerts → Alerts
unfolding truthy
flip_key deploy_key a = record a { deploy_finished = bool (not (truthy (some a.deploy_finished))) }
flip_key health_key a = record a { health_changed = bool (not (truthy (some a.health_changed))) }
flip_key usage_key a = record a { high_usage = bool (not (truthy (some a.high_usage))) }

-- `JSON.parse`, none where it throws, and `JSON.stringify`.
module _ (parse : Text → Option Json) (stringify : Json → Text) where
  parsed : Option Json → Alerts
  unfolding over_defaults
  parsed none = default_alerts
  parsed (some o) = over_defaults o

  -- `loadAlerts` of the settings page.
  unfoldable pub load_alerts : Option Text → Alerts
  unfolding parsed
  load_alerts none = default_alerts
  load_alerts (some raw) = if is_empty raw then default_alerts else parsed (parse raw)

  -- `JSON.parse(localStorage.getItem("serverhub.alerts") ?? "{}")` of the dashboard, over its defaults.
  unfoldable pub read_prefs : Option Text → Alerts
  unfolding parsed
  read_prefs none = parsed (parse (codes "{}"))
  read_prefs (some raw) = parsed (parse raw)

  -- The state of the hook, and what is stored; `flip` changes both.
  unfoldable pub flip : AlertKey → Alerts → Alerts × Option Text
  unfolding flip_key alerts_json
  flip k a = let a' = flip_key k a in (a', some (stringify (alerts_json a')))

pub data ThemeKey : Type 0 where
  workbench cyberdeck : ThemeKey

abbrev pub theme_word : ThemeKey → String
theme_word workbench = "workbench"
theme_word cyberdeck = "cyberdeck"

-- What is stored under "serverhub.theme".
unfoldable pub initial_theme : Option Text → ThemeKey
initial_theme none = workbench
initial_theme (some s) = if eqb s (codes "cyberdeck") then cyberdeck else workbench

-- The document and what is stored after the effect; the flag says whether the storage can be written.
pub record Themed : Type 0 where
  pub dark_class : Bool
  pub color_scheme : String
  pub stored : Option Text

unfoldable pub apply_theme : Bool → ThemeKey → Themed → Themed
apply_theme writable workbench d = record {
  dark_class = false;
  color_scheme = "light";
  stored = if writable then some (codes (theme_word workbench)) else d.stored;
}
apply_theme writable cyberdeck d = record {
  dark_class = true;
  color_scheme = "dark";
  stored = if writable then some (codes (theme_word cyberdeck)) else d.stored;
}
