-- ===== src/Mobile/Address.antt =====
-- mobile/src/api/serverUrl.ts: the address of the server, which the user may change and SecureStore
-- keeps. The state is the phone's and `client.defaults.baseURL`.
pub mod Kept
use mathlib.Core.List.{reverse}
use server_hub.Prelude.{
  ℕ, Bool, true, false, not, ◌&&◌, ◌||◌, [], ◌∷◌, ◌++◌, Option, none, some, drop, ◌==◌,
  if◌then◌else◌,
}
use server_hub.Text.Slashes.{strip_slashes}
use server_hub.Text.{Text, codes, starts_with, is_empty, trim}
use server_hub.Text.Decimal.{show}
use server_hub.Mobile.Phone.{
  Failure, other_failure, Result, ok, err, Device, M, ◌>>=◌, ◌>>◌, pure, throw, catching,
}

abbrev pub server_url_key : Text
server_url_key = codes "serverhub_api_url"

-- `envUrl && envUrl.length > 0 ? envUrl : …`, where `env` is EXPO_PUBLIC_API_URL as the build has it.
unfoldable pub default_api_base : Option Text → Text
unfolding trim
default_api_base none = codes "http://192.168.0.111:4000"
default_api_base (some env) =
    if is_empty (trim env) then codes "http://192.168.0.111:4000" else trim env

unfoldable pub normalize_url : Text → Text
unfolding trim strip_slashes
normalize_url url = strip_slashes (trim url)

unfoldable pub default_base_url : Option Text → Text
unfolding default_api_base normalize_url
default_base_url env = normalize_url (default_api_base env)

-- `.` of a regular expression takes any code point but these.
abbrev is_line_end : ℕ → Bool
is_line_end c = c == 10 || c == 13 || c == 0x2028 || c == 0x2029

begins_line : Text → Bool
begins_line [] = false
begins_line (c ∷ s) = not (is_line_end c)

-- `/^https?:\/\/.+/`
unfoldable pub is_web_url : Text → Bool
unfolding begins_line starts_with
is_web_url s =
    (starts_with s (codes "http://") && begins_line (drop 7 s))
    || (starts_with s (codes "https://") && begins_line (drop 8 s))

-- How the request for `/health` ends; `aborted` is the time-out, `no_error` a rejection with a value
-- that is no Error.
pub data Probe : Type 0 where
  answered : Bool → ℕ → Probe
  aborted : Probe
  failed : Text → Probe
  no_error : Probe

unfoldable pub probe_result : Probe → Result (Unit {0})
probe_result (answered true status) = ok tt
probe_result (answered false status) =
    err (other_failure (codes "Server answered with HTTP " ++ show status))
probe_result aborted = err (
    other_failure (
      codes
        "Timed out reaching the server. Check the IP, port 4000, and that phone + PC share the same Wi-Fi."))
probe_result (failed m) = err (other_failure m)
probe_result no_error = err (other_failure (codes "Could not reach the server at that address."))

-- `probeBaseUrl`; `fetch` is given the address.
unfoldable probe_base_url : (Text → Probe) → Text → Result (Unit {0})
unfolding normalize_url probe_result
probe_base_url fetch url = probe_result (fetch (normalize_url url ++ codes "/health"))

-- An await that leaves `client.defaults.baseURL` alone.
abbrev pub lifted : {W A : Type 0} → M W A → M (W × Text) A
lifted m (w, b) = let (r, w') = m w in (r, (w', b))

unfoldable pub apply_base_url : {W : Type 0} → Text → M (W × Text) Text
unfolding normalize_url
apply_base_url url (w, b) = (ok (normalize_url url), (w, normalize_url url))

unfoldable current_base_url : {W : Type 0} → W × Text → Text
unfolding normalize_url
current_base_url (w, b) = normalize_url b

module _ {W : Type 0} (device : Device W) (env : Option Text) where
  choose : Option Text → M (W × Text) Text
  unfolding apply_base_url default_base_url
  choose none = apply_base_url (default_base_url env)
  choose (some stored) =
      if not (is_empty stored) && not (is_empty (trim stored))
      then apply_base_url stored
      else apply_base_url (default_base_url env)

  unfoldable pub init_stored_base_url : M (W × Text) Text
  unfolding choose
  init_stored_base_url = do
    stored ← catching (lifted (device.get_item server_url_key)) (λ e. pure none)
    choose stored

  unfoldable pub save_base_url : Text → M (W × Text) Text
  unfolding is_web_url apply_base_url
  save_base_url url =
      if is_web_url (normalize_url url)
      then (do
        lifted (device.set_item server_url_key (normalize_url url))
        apply_base_url (normalize_url url))
      else throw (other_failure (codes "Server URL must start with http:// or https://"))

  unfoldable pub reset_base_url : M (W × Text) Text
  unfolding apply_base_url default_base_url
  reset_base_url = do
    catching (lifted (device.delete_item server_url_key)) (λ e. pure tt)
    apply_base_url (default_base_url env)
