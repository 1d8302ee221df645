-- ===== src/Client/Preferences/Obeyed.antt =====
-- The settings page and the dashboard agree on the stored alert choices, whatever was stored, and a
-- choice outlives the page.
use server_hub.Prelude.{◌≡◌, refl, true, false, Option, none, some, [], ◌∷◌}
use server_hub.Text.{Text, codes, is_empty}
use server_hub.Json.{Json, object, property}
use server_hub.Client.Preferences.{
  Alerts, over_defaults, AlertKey, alerts_json, load_alerts, read_prefs, flip, flip_key, ThemeKey,
  workbench, cyberdeck, Themed, apply_theme, initial_theme,
}

is_empty_lem : (t : Text) → is_empty t ≡ true → t ≡ []
is_empty_lem [] e = refl
is_empty_lem (c ∷ t) e = cc

-- Whatever is stored, or nothing, the dashboard obeys the choices that the settings page shows, if
-- `JSON.parse` refuses the empty text and reads "{}" as an object without properties.
pub read_prefs-load_alerts :
    (parse : Text → Option Json) (stringify : Json → Text)
    → parse [] ≡ none
    → parse (codes "{}") ≡ some (object [])
    → (raw : Option Text) → read_prefs parse stringify raw ≡ load_alerts parse stringify raw
unfolding read_prefs load_alerts property
read_prefs-load_alerts parse stringify bad empty none = rw empty refl
read_prefs-load_alerts parse stringify bad empty (some []) = rw bad refl
read_prefs-load_alerts parse stringify bad empty (some (c ∷ t)) = refl

alerts_json-over_defaults : (a : Alerts) → over_defaults (alerts_json a) ≡ a
unfolding alerts_json over_defaults property
alerts_json-over_defaults a = refl

-- After a flip the page loads next the choices that it shows now, if the stored
-- text is not empty and `JSON.parse` reads back the object that was written.
pub flip-load_alerts :
    (parse : Text → Option Json) (stringify : Json → Text) (k : AlertKey) (a : Alerts)
    → parse (stringify (alerts_json (flip_key k a))) ≡ some (alerts_json (flip_key k a))
    → is_empty (stringify (alerts_json (flip_key k a))) ≡ false
    → let (a', stored) = flip parse stringify k a in load_alerts parse stringify stored ≡ a'
unfolding load_alerts flip
flip-load_alerts parse stringify k a back full =
    rw (full, back) (alerts_json-over_defaults (flip_key k a))

-- A theme is the one that the page starts with next, if the storage can be written.
pub apply_theme-initial_theme :
    (k : ThemeKey) (d : Themed) → initial_theme (apply_theme true k d).stored ≡ k
unfolding apply_theme initial_theme
apply_theme-initial_theme workbench d = refl
apply_theme-initial_theme cyberdeck d = refl
