-- ===== src/Mobile/Account.antt =====
-- mobile/src/stores/authStore.ts: who is signed in, and how the app starts, signs in and out.
pub mod Kept
use server_hub.Prelude.{Bool, true, false, [], ◌∷◌, ◌++◌, Option, none, some, if◌then◌else◌}
use server_hub.Text.{Text, codes}
use server_hub.Json.{Json, null, str, obj, object, optional, property}
use server_hub.Json.Print.{stringify}
use server_hub.Mobile.Phone.{
  Failure, api_failure, other_failure, Result, ok, err, Device, M, ◌>>=◌, ◌>>◌, pure, throw,
  catching,
}
use server_hub.Mobile.Calls.{
  MobileCall, login as login_call, logout as logout_call, me, mobile_request,
}
use server_hub.Mobile.Session.{
  token_key, refresh_key, user_key, held, has_value, set_value, request,
}
use server_hub.Mobile.Address.{lifted, init_stored_base_url}

-- `null` is none.
pub record AuthState : Type 0 where
  pub user : Option Json
  pub token : Option Text
  pub checked : Bool
  pub busy : Bool
  pub error : Option Text

abbrev pub signed_out : AuthState
signed_out = record { user = none; token = none; checked = false; busy = false; error = none }

-- `e.message`
abbrev pub failure_message : Failure → Text
failure_message (api_failure n m) = m
failure_message (other_failure m) = m

-- `res.key` of a value that is not null.
unfoldable pub member : Text → Json → Option Json
unfolding property
member k (obj fs) = property k fs
member k _ = none

-- `{ username: res.username, role: res.role }`
unfoldable pub user_of : Json → Json
unfolding member
user_of res = object (
    optional "username" (member (codes "username") res)
    ++ optional "role" (member (codes "role") res))

-- A text, where `setItemAsync` took the value.
abbrev pub text_of : Option Json → Option Text
text_of (some (str s)) = some s
text_of _ = none

abbrev pub pressed : AuthState → AuthState
pressed s = record s { busy = true; error = none }

module _ {W : Type 0} (device : Device W) (env : Option Text) where
  -- `client` call, `.then((r) => r.data)`.
  abbrev pub asking : Text → MobileCall → M W Json
  asking base c = request device base (mobile_request c)

  store_refresh : Option Json → M W (Unit {0})
  unfolding has_value set_value
  store_refresh v = if has_value v then set_value device refresh_key v else pure tt

  -- The `try` of `login`, after the answer came.
  store_session : Json → M W (Json × Option Text)
  unfolding member user_of store_refresh stringify
  store_session null = throw (other_failure device.null_access)
  store_session res = do
    set_value device token_key (member (codes "token") res)
    store_refresh (member (codes "refreshToken") res)
    device.set_item user_key (stringify (user_of res))
    pure (user_of res, text_of (member (codes "token") res))

  signed_in : AuthState → Result (Json × Option Text) → Result (Unit {0}) × AuthState
  signed_in s (ok (user, token)) =
      (ok tt, record s { user = some user; token = token; busy = false })
  signed_in s (err e) = (err e, record s { busy = false; error = some (failure_message e) })

  -- `login`
  unfoldable pub login : Text → Text → Text → AuthState → W → (Result (Unit {0}) × AuthState) × W
  unfolding store_session signed_in
  login base username password s w =
      let (r, w') = (do res ← asking base (login_call username password); store_session res) w in
      (signed_in (pressed s) r, w')

  abbrev pub clear_session : M W (Unit {0})
  clear_session = do
    device.delete_item token_key
    device.delete_item refresh_key
    device.delete_item user_key

  left : AuthState → Result (Unit {0}) → Result (Unit {0}) × AuthState
  left s (ok u) = (ok tt, record s { user = none; token = none })
  left s (err e) = (err e, s)

  -- `logout`
  unfoldable pub logout : Text → AuthState → W → (Result (Unit {0}) × AuthState) × W
  unfolding left
  logout base s w =
      let (r, w') =
        (do catching (do given ← asking base logout_call; pure tt) (λ e. pure tt); clear_session)
          w in
      (left s r, w')

  -- The inner `try` of `hydrate`: the user that the server names, or none after the keys are deleted.
  verify : Text → M W (Option Json)
  unfolding stringify
  verify base =
      catching
        (do fresh ← asking base me; device.set_item user_key (stringify fresh); pure (some fresh))
        (λ e. do clear_session; pure none)

  verified : Text → Option Text → Option Text → M W (Option (Option Json × Option Text))
  unfolding verify
  verified base (some token) (some user) = do fresh ← verify base; pure (some (fresh, some token))
  verified base _ _ = pure none

  at_base : {A : Type 0} → (Text → M W A) → M (W × Text) A
  at_base f (w, b) = lifted (f b) (w, b)

  -- What the outer `try` of `hydrate` finds: nobody signed in, or a session that was verified.
  hydration : M (W × Text) (Option (Option Json × Option Text))
  unfolding init_stored_base_url verified at_base
  hydration = do
    url ← init_stored_base_url device env
    token ← lifted (device.get_item token_key)
    user ← lifted (device.get_item user_key)
    at_base (λ base. verified base (held token) (held user))

  hydrated : AuthState → Result (Option (Option Json × Option Text)) → AuthState
  hydrated s (ok none) = record s { checked = true }
  hydrated s (ok (some (some user, token))) = record s {
    user = some user;
    token = token;
    checked = true;
  }
  hydrated s (ok (some (none, token))) = record s { user = none; token = none; checked = true }
  hydrated s (err e) = record s { checked = true }

  -- `hydrate`, which never throws.
  unfoldable pub hydrate : AuthState → W × Text → AuthState × (W × Text)
  unfolding hydration hydrated
  hydrate s x = let (r, x') = hydration x in (hydrated s r, x')

  -- `clearError`
  unfoldable pub clear_error : AuthState → AuthState
  clear_error s = record s { error = none }
