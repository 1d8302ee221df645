-- ===== src/Session.antt =====
-- client/src/lib/api.ts: `refreshSession`, `req` and `uploadReq`, the one way in which the web client
-- talks to the server. One call runs by itself here; Session/Flight.antt lets many run at once.
pub mod Log
pub mod Outcomes
pub mod Flight
use server_hub.Prelude.{
  [], ◌∷◌, ℕ, String, Bool, true, false, not, ◌&&◌, ◌++◌, Option, none, some, leb, ◌==◌,
  if◌then◌else◌,
}
use server_hub.Text.{Text, codes, starts_with}
use server_hub.Text.Decimal.{show}
use server_hub.Json.{Json, null, obj, str, object, property, js_string}
use server_hub.Routing.{Method, post, render}
use server_hub.Api.Request.{Request}
use server_hub.Endpoints.Host.{auth_refresh}

-- What `fetch` is given, behind API_BASE.
pub record Wire : Type 0 where
  pub method : Method
  pub path : Text
  pub body : Option Json

abbrev pub wire : Request → Wire
wire q = record { method = q.method; path = render q.path; body = q.body }

-- A response; `body` is none where `res.json()` throws.
pub record Reply : Type 0 where
  pub status : ℕ
  pub body : Option Json

-- `fetch` resolves to a response or rejects with an error.
pub data Fetched : Type 0 where
  response : Reply → Fetched
  rejected : Text → Fetched

-- How a call settles: a value, `undefined`, an ApiError, or the error that `fetch` rejected with.
pub data Outcome : Type 0 where
  value : Json → Outcome
  undefined : Outcome
  api_error : ℕ → Text → Outcome
  thrown : Text → Outcome

-- `res.ok`
abbrev pub is_ok : Reply → Bool
is_ok r = leb 200 r.status && leb r.status 299

-- The `try` around `res.json()`.
abbrev pub parsed : Option Json → Json
parsed none = null
parsed (some v) = v

fallback : String → ℕ → Text
fallback what status = codes what ++ codes " failed (" ++ show status ++ codes ")"

message_of : Option Json → Text → Text
message_of none other = other
message_of (some e) other = js_string e

-- The server's `error` property, or the fallback.
error_message : String → ℕ → Json → Text
unfolding message_of fallback
error_message what status (obj fs) = message_of (property (codes "error") fs) (fallback what status)
error_message what status _ = fallback what status

-- What follows the retry in `req`.
pub conclude : Reply → Outcome
unfolding error_message
conclude r =
    if r.status == 204
    then undefined
    else if is_ok r
    then value (parsed r.body)
    else api_error r.status (error_message "Request" r.status (parsed r.body))

unfoldable pub settle : Fetched → Outcome
unfolding conclude
settle (rejected m) = thrown m
settle (response r) = conclude r

abbrev pub auth_prefix : Text
auth_prefix = codes "/server-hub/api/auth/"

unfoldable pub is_auth_path : Text → Bool
unfolding starts_with
is_auth_path path = starts_with path auth_prefix

abbrev pub refresh_wire : Wire
refresh_wire = record { method = post; path = render auth_refresh; body = none }

-- `.then((r) => r.ok).catch(() => false)`
abbrev pub renewed : Fetched → Bool
renewed (rejected m) = false
renewed (response r) = is_ok r

-- The reply asks for a rotation: a 401 outside the auth endpoints.
unfoldable pub wants_refresh : Text → Fetched → Bool
unfolding is_auth_path
wants_refresh path (rejected m) = false
wants_refresh path (response r) = r.status == 401 && not (is_auth_path path)

abbrev pub is_unauthorized : Fetched → Bool
is_unauthorized (rejected m) = false
is_unauthorized (response r) = r.status == 401

-- The end of `uploadReq`.
settle_upload : Fetched → Outcome
unfolding error_message
settle_upload (rejected m) = thrown m
settle_upload (response r) =
    if r.status == 204
    then value (object (("message", str (codes "ok")) ∷ ("path", str []) ∷ []))
    else if is_ok r
    then value (parsed r.body)
    else api_error r.status (error_message "Upload" r.status (parsed r.body))

module _ {W : Type 0} (fetch : Wire → W → Fetched × W) where
  pub refresh_session : W → Bool × W
  refresh_session w = let (f, w') = fetch refresh_wire w in (renewed f, w')

  -- `req` with `retry = false`.
  pub req_last : Wire → W → Outcome × W
  unfolding settle
  req_last q w = let (f, w') = fetch q w in (settle f, w')

  after_refresh : Wire → Fetched → Bool × W → Outcome × W
  unfolding req_last
  after_refresh q f (true, w) = req_last q w
  after_refresh q f (false, w) = (settle f, w)

  -- `req` as the calls use it, with `retry = true`.
  unfoldable pub req : Wire → W → Outcome × W
  unfolding refresh_session after_refresh wants_refresh
  req q w =
      let (f, w') = fetch q w in
      if wants_refresh q.path f then after_refresh q f (refresh_session w') else (settle f, w')

  after_upload_refresh : (W → Fetched × W) → Fetched → Bool × W → Fetched × W
  after_upload_refresh do_fetch f (true, w) = do_fetch w
  after_upload_refresh do_fetch f (false, w) = (f, w)

  upload_fetch : (W → Fetched × W) → W → Fetched × W
  unfolding refresh_session after_upload_refresh
  upload_fetch do_fetch w =
      let (f, w') = do_fetch w in
      if is_unauthorized f then after_upload_refresh do_fetch f (refresh_session w') else (f, w')

  -- `uploadReq`: `do_fetch` posts the form. Its path is never an auth endpoint.
  unfoldable pub upload_req : (W → Fetched × W) → W → Outcome × W
  unfolding upload_fetch settle_upload
  upload_req do_fetch w = let (f, w') = upload_fetch do_fetch w in (settle_upload f, w')
