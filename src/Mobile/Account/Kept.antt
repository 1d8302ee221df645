-- ===== src/Mobile/Account/Kept.antt =====
-- What SecureStore and the store of the mobile client hold after a sign-in, a start and a sign-out.
use server_hub.Prelude.{true, false, ◌≡◌, [], ◌∷◌, Option, none, some, arith}
use mathlib.Core.Option
use server_hub.Text.{Text, codes}
use server_hub.Json.{Json, str}
use server_hub.Json.Print.{stringify}
use server_hub.Mobile.Phone.{Failure, Device, IsReliable, ok, err}
use server_hub.Mobile.Calls.{login as login_call, logout as logout_call, me, mobile_request}
use server_hub.Mobile.Session.{
  token_key, refresh_key, user_key, held, header, has_value, truthy, set_value, request,
}
use server_hub.Mobile.Address.{init_stored_base_url}
use server_hub.Mobile.Account.{
  AuthState, login, logout, hydrate, clear_session, user_of, member, store_session,
}

-- Every start of the app ends with the check done, whatever the device and the server do.
pub hydrate-checked :
    {W : Type 0} (device : Device W) (env : Option Text) (s : AuthState) (x : W × Text)
    → (hydrate device env s x).0.checked ≡ true
unfolding hydrate
hydrate-checked device env s x = ground arith

module _ {W : Type 0} (device : Device W) (content : Text → W → Option Text)
    (d : IsReliable device content) (env : Option Text) where
  -- No key of the session is held.
  abbrev pub IsForgotten : W → Type 0
  IsForgotten w =
      (content token_key w ≡ none) × (content refresh_key w ≡ none) × (content user_key w ≡ none)

  clear_session_lem :
      (w : W) → (w' : W) × (clear_session device env w ≡ (ok tt, w')) × IsForgotten w'
  clear_session_lem w =
      let w₁ = (device.delete_item token_key w).1 in
      let w₂ = (device.delete_item refresh_key w₁).1 in
      let w₃ = (device.delete_item user_key w₂).1 in
      (
        w₃,
        ground (
          arith,
          d.delete_done token_key w,
          d.delete_done refresh_key w₁,
          d.delete_done user_key w₂,
        ),
        (
          ground (
            arith,
            d.delete_content token_key token_key w,
            d.delete_content token_key refresh_key w₁,
            d.delete_content token_key user_key w₂,
          ),
          ground (
            arith,
            d.delete_content refresh_key refresh_key w₁,
            d.delete_content refresh_key user_key w₂,
          ),
          d.delete_content user_key user_key w₂,
        ),
      )

  -- After a sign-out nothing of the session is left, whatever the server answers.
  pub logout-IsForgotten :
      (base : Text) (s : AuthState) (w : W)
      → (w' : W) × (logout device env base s w
          ≡ ((ok tt, record s { user = none; token = none }), w'))
        × IsForgotten w'
  unfolding logout
  logout-IsForgotten base s w =
      let (w', cleared, forgotten) =
        clear_session_lem (request device base (mobile_request logout_call) w).1 in
      (w', ground (arith, cleared), forgotten)

  store_session-unrotated :
      (t : Text) (w : W) (res : Json)
      → member (codes "token") res ≡ some (str t)
      → has_value (member (codes "refreshToken") res) ≡ false
      → (w' : W) × (store_session device env res w ≡ (ok (user_of res, some t), w'))
        × (content token_key w' ≡ some t)
        × (content refresh_key w' ≡ content refresh_key w)
        × (content user_key w' ≡ some (stringify (user_of res)))
  unfolding store_session set_value
  store_session-unrotated t w res a r =
      let w₁ = (device.set_item token_key t w).1 in
      let j = stringify (user_of res) in
      (
        (device.set_item user_key j w₁).1,
        ground (arith, d.set_done token_key t w, d.set_done user_key j w₁),
        ground
            (arith, d.set_content token_key token_key t w, d.set_content token_key user_key j w₁),
        ground (
          arith,
          d.set_content refresh_key token_key t w,
          d.set_content refresh_key user_key j w₁,
        ),
        d.set_content user_key user_key j w₁,
      )

  store_session-stored :
      (t : Text) (w : W) (res : Json) (rotated : Option Text)
      → member (codes "token") res ≡ some (str t)
      → member (codes "refreshToken") res ≡ Option.map str rotated
      → (w' : W) × (store_session device env res w ≡ (ok (user_of res, some t), w'))
        × (content token_key w' ≡ some t)
        × (content refresh_key w' ≡ header (content refresh_key w) (held rotated))
        × (content user_key w' ≡ some (stringify (user_of res)))
  unfolding store_session set_value has_value truthy
  store_session-stored t w res none a r = store_session-unrotated t w res a (ground (arith, r))
  store_session-stored t w res (some []) a r = store_session-unrotated t w res a (ground (arith, r))
  store_session-stored t w res (some (c ∷ v)) a r =
      let w₁ = (device.set_item token_key t w).1 in
      let w₂ = (device.set_item refresh_key (c ∷ v) w₁).1 in
      let j = stringify (user_of res) in
      (
        (device.set_item user_key j w₂).1,
        ground (
          arith,
          d.set_done token_key t w,
          d.set_done refresh_key (c ∷ v) w₁,
          d.set_done user_key j w₂,
        ),
        ground (
          arith,
          d.set_content token_key token_key t w,
          d.set_content token_key refresh_key (c ∷ v) w₁,
          d.set_content token_key user_key j w₂,
        ),
        ground (
          arith,
          d.set_content refresh_key refresh_key (c ∷ v) w₁,
          d.set_content refresh_key user_key j w₂,
        ),
        d.set_content user_key user_key j w₂,
      )

  -- A sign-in that the server accepts: the store and SecureStore hold the same token, and the app is told
  -- who is signed in.
  pub login-stored :
      (base username password t : Text) (s : AuthState) (w w₁ : W) (res : Json)
      (rotated : Option Text)
      → request device base (mobile_request (login_call username password)) w ≡ (ok res, w₁)
      → member (codes "token") res ≡ some (str t)
      → member (codes "refreshToken") res ≡ Option.map str rotated
      → (w' : W) × (login device env base username password s w ≡ (
        (ok tt, record s { user = some (user_of res); token = some t; busy = false; error = none }),
        w',
      ))
        × (content token_key w' ≡ some t)
        × (content refresh_key w' ≡ header (content refresh_key w₁) (held rotated))
        × (content user_key w' ≡ some (stringify (user_of res)))
  unfolding login
  login-stored base username password t s w w₁ res rotated h a r =
      let (w', done, tok, ref, usr) = store_session-stored t w₁ res rotated a r in
      (w', ground (arith, h, done), tok, ref, usr)

  -- At a start with a session stored, the user is the one that the server names now.
  pub hydrate-verified :
      (s : AuthState) (b t j r : Text) (w w₁ : W) (u : Json)
      → held (content token_key w) ≡ some t
      → held (content user_key w) ≡ some j
      → init_stored_base_url device env (w, b) ≡ (ok r, (w, r))
      → request device r (mobile_request me) w ≡ (ok u, w₁)
      → hydrate device env s (w, b) ≡ (
        record s { user = some u; token = some t; checked = true },
        ((device.set_item user_key (stringify u) w₁).1, r),
      )
  unfolding hydrate
  hydrate-verified s b t j r w w₁ u h k i a = ground (
    arith,
    i,
    d.get_lem token_key w,
    d.get_lem user_key w,
    a,
    d.set_done user_key (stringify u) w₁,
  )

  -- At a start with a session stored that the server refuses, the session is forgotten.
  pub hydrate-IsForgotten :
      (s : AuthState) (b t j r : Text) (w w₁ : W) (e : Failure)
      → held (content token_key w) ≡ some t
      → held (content user_key w) ≡ some j
      → init_stored_base_url device env (w, b) ≡ (ok r, (w, r))
      → request device r (mobile_request me) w ≡ (err e, w₁)
      → (w' : W) × (hydrate device env s (w, b)
          ≡ (record s { user = none; token = none; checked = true }, (w', r)))
        × IsForgotten w'
  unfolding hydrate
  hydrate-IsForgotten s b t j r w w₁ e h k i a =
      let (w', cleared, forgotten) = clear_session_lem w₁ in
      (w', ground (arith, i, d.get_lem token_key w, d.get_lem user_key w, a, cleared), forgotten)
