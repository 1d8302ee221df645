-- ===== src/Mobile/Session.antt =====
-- mobile/src/api/client.ts: the interceptors of the axios client, and the renewal of the session.
-- One call by itself.
pub mod Rotation
pub mod Reliable
use server_hub.Prelude.{
  ℕ, Bool, true, false, not, ◌&&◌, List, [], ◌∷◌, ◌++◌, Option, none, some, ◌==◌, if◌then◌else◌,
}
use server_hub.Text.{Text, codes, includes, is_empty}
use server_hub.Text.Decimal.{show}
use server_hub.Json.{Json, null, bool, num, real, str, arr, obj, object, js_string}
use server_hub.Routing.{Method, post, render}
use server_hub.Api.Request.{Request}
use server_hub.Endpoints.Host.{auth_refresh}
use server_hub.Mobile.Phone.{
  Failure, api_failure, other_failure, Result, ok, err, Sent, Answer, resolved, refused,
  unreachable, Device, M, ◌>>=◌, ◌>>◌, pure, throw, catching, optional_property,
}

abbrev pub token_key : Text
token_key = codes "serverhub_token"

abbrev pub refresh_key : Text
refresh_key = codes "serverhub_refresh_token"

abbrev pub user_key : Text
user_key = codes "serverhub_user"

-- A value where JavaScript asks for a condition.
unfoldable pub truthy : Json → Bool
truthy null = false
truthy (bool b) = b
truthy (num n) = not (n == 0)
truthy (real t) = true
truthy (str s) = not (is_empty s)
truthy (arr vs) = true
truthy (obj fs) = true

-- `!!v`, where `undefined` is false.
unfoldable pub has_value : Option Json → Bool
unfolding truthy
has_value none = false
has_value (some v) = truthy v

-- A stored text that is there and not empty.
abbrev pub held : Option Text → Option Text
held none = none
held (some []) = none
held (some (c ∷ s)) = some (c ∷ s)

unfoldable pub is_auth_path : Text → Bool
unfolding includes
is_auth_path url = not (is_empty url) && includes url (codes "/server-hub/api/auth/")

-- What the error interceptor finds: `error.response?.status ?? 0`, the data and `error.message`.
pub record Refusal : Type 0 where
  pub status : ℕ
  pub given : Json
  pub message : Text

abbrev pub refusal : Failure → Refusal
refusal (api_failure n m) = record { status = 0; given = null; message = m }
refusal (other_failure m) = record { status = 0; given = null; message = m }

-- How a transmission ends: with data, with an error whose `config` is known, with its Authorization
-- header, or with an error of the request interceptor, which has none.
pub data Transmission : Type 0 where
  delivered : Json → Transmission
  bounced : Refusal → Option Text → Transmission
  unsent : Refusal → Transmission

unfoldable pub transmission : Option Text → Answer → Transmission
transmission token (resolved v) = delivered v
transmission token (refused n v m) = bounced (record { status = n; given = v; message = m }) token
transmission token (unreachable m) =
    bounced (record { status = 0; given = null; message = m }) token

unreachable_message : Text → Text
unreachable_message base =
    codes "Can't reach the server at "
    ++ base
    ++ codes
        ". Check the server URL, that the backend is running, and that phone + PC share the same Wi-Fi."

message_of : Option Json → Text → Text
message_of none other = other
message_of (some v) other = js_string v

-- The ApiError that the interceptor rejects with.
unfoldable pub as_failure : Text → Refusal → Failure
unfolding unreachable_message message_of
as_failure base r =
    if r.status == 0
    then api_failure 0 (unreachable_message base)
    else api_failure r.status (message_of (optional_property (codes "error") r.given) r.message)

-- `config.headers.Authorization`: the stored token, else what the header was before.
abbrev pub header : Option Text → Option Text → Option Text
header before none = before
header before (some token) = some token

abbrev pub as_sent : Text → Request → Option Text → Sent
as_sent base q token = record {
  method = q.method;
  path = render q.path;
  base = base;
  token = token;
  body = q.body;
}

abbrev pub refresh_sent : Text → Text → Sent
refresh_sent base token = record {
  method = post;
  base = base;
  path = render auth_refresh;
  token = none;
  body = some (object (("refreshToken", str token) ∷ []));
}

module _ {W : Type 0} (device : Device W) where
  -- `SecureStore.setItemAsync(key, v)`, which wants a string.
  unfoldable pub set_value : Text → Option Json → M W (Unit {0})
  set_value key (some (str s)) = device.set_item key s
  set_value key _ = throw (other_failure device.invalid_value)

  store_rotated : Option Json → M W Bool
  unfolding set_value
  store_rotated rotated =
      if has_value rotated then (do set_value refresh_key rotated; pure true) else pure true

  -- What a rotation does with the answer.
  renew : Answer → M W Bool
  unfolding store_rotated
  renew (resolved v) =
      if has_value (optional_property (codes "token") v)
      then (do
        set_value token_key (optional_property (codes "token") v)
        store_rotated (optional_property (codes "refreshToken") v))
      else pure false
  renew (refused n v m) = throw (other_failure m)
  renew (unreachable m) = throw (other_failure m)

  abbrev pub exchanging : Sent → M W Answer
  exchanging q w = let (a, w') = device.exchange q w in (ok a, w')

  rotate : Text → Option Text → M W Bool
  unfolding renew
  rotate base none = pure false
  rotate base (some token) = do a ← exchanging (refresh_sent base token); renew a

  -- `refreshSession`
  unfoldable pub refresh_session : Text → M W Bool
  unfolding rotate
  refresh_session base =
      catching (do stored ← device.get_item refresh_key; rotate base (held stored))
        (λ e. pure false)

  -- The request interceptor and the exchange behind it.
  unfoldable pub transmit : Text → Request → Option Text → M W Transmission
  unfolding transmission
  transmit base q before =
      catching
        (do
          stored ← device.get_item token_key
          a ← exchanging (as_sent base q (header before (held stored)))
          pure (transmission (header before (held stored)) a))
        (λ e. pure (unsent (refusal e)))

  -- The response interceptor where `original._retried` is set.
  unfoldable pub conclude : Text → Transmission → M W Json
  unfolding as_failure
  conclude base (delivered v) = pure v
  conclude base (bounced r token) = throw (as_failure base r)
  conclude base (unsent r) = throw (as_failure base r)

  -- `client.request(original)`, after a rotation.
  retry : Text → Request → Option Text → M W Json
  unfolding transmit conclude
  retry base q before = do
    stored ← device.get_item token_key
    t ← transmit base q (header before (held stored))
    conclude base t

  after_rotation : Text → Request → Option Text → Refusal → Bool → M W Json
  unfolding retry
  after_rotation base q before r true = retry base q before
  after_rotation base q before r false = throw (as_failure base r)

  -- The response interceptor on the first answer.
  intercept : Text → Request → Transmission → M W Json
  unfolding conclude refresh_session after_rotation
  intercept base q (bounced r token) =
      if r.status == 401 && not (is_auth_path (render q.path))
      then (do renewed ← refresh_session base; after_rotation base q token r renewed)
      else throw (as_failure base r)
  intercept base q t = conclude base t

  -- A call of the axios client.
  unfoldable pub request : Text → Request → M W Json
  unfolding transmit intercept
  request base q = do t ← transmit base q none; intercept base q t
