-- ===== src/Mobile/Session/Reliable.antt =====
-- One call of the mobile client, where SecureStore works: what is sent with which token, what the
-- call returns or throws, and what SecureStore holds afterwards.
use server_hub.Prelude.{
  Bool, true, false, not, ◌&&◌, ◌==◌, ◌≡◌, refl, Option, none, some, arith, [], ◌∷◌, ◌∙◌, ap,
}
use server_hub.Text.{is_empty, Text, codes}
use server_hub.Json.{Json, str}
use server_hub.Routing.{render}
use server_hub.Api.Request.{Request}
use mathlib.Core.Option
use server_hub.Mobile.Phone.{
  Failure, Device, IsReliable, Result, ok, err, Sent, Answer, resolved, refused, unreachable,
  optional_property,
}
use server_hub.Mobile.Session.Rotation.{failure_of, refresh-stored, refresh-kept}
use server_hub.Mobile.Session.{
  token_key, refresh_key, held, header, as_sent, refresh_sent, is_auth_path, as_failure,
  transmission, transmit, refresh_session, request, retry,
}

-- The answer asks for a rotation: a 401 outside the auth endpoints.
abbrev pub wants_rotation : Request → Answer → Bool
wants_rotation q (refused n v m) = n == 401 && not (is_auth_path (render q.path))
wants_rotation q _ = false

-- What a call makes of its last answer.
abbrev pub settled : Text → Answer → Result Json
settled base (resolved v) = ok v
settled base (refused n v m) = err (as_failure base (record { status = n; given = v; message = m }))
settled base (unreachable m) =
    err (as_failure base (record { status = 0; given = Json.null; message = m }))

module _ {W : Type 0} (device : Device W) (content : Text → W → Option Text)
    (d : IsReliable device content) where
  -- The request with the stored token.
  abbrev pub signed : Text → Request → W → Sent
  signed base q w = as_sent base q (held (content token_key w))

  header-none : (o : Option Text) → header none o ≡ o
  header-none none = refl
  header-none (some t) = refl

  transmit_lem :
      (base : Text) (q : Request) (before : Option Text) (w : W)
      → transmit device base q before w ≡ (
          let token = header before (held (content token_key w)) in
          let (a, w') = device.exchange (as_sent base q token) w in (ok (transmission token a), w'))
  unfolding transmit
  transmit_lem base q before w = ground (arith, d.get_lem token_key w)

  transmit-first :
      (base : Text) (q : Request) (w : W)
      → transmit device base q none w ≡ (
          let (a, w') = device.exchange (signed base q w) w in
          (ok (transmission (held (content token_key w)) a), w'))
  transmit-first base q w =
      ground (arith, transmit_lem base q none w, header-none (held (content token_key w)))

  -- A call whose answer asks for no rotation is sent once, with the stored token, and the answer is
  -- final.
  pub request-plain :
      (base : Text) (q : Request) (w : W)
      → wants_rotation q (device.exchange (signed base q w) w).0 ≡ false
      → request device base q w
        ≡ (let (a, w') = device.exchange (signed base q w) w in (settled base a, w'))
  unfolding request transmission
  request-plain base q w h = ground (arith, transmit-first base q w)

  held-some : (s : Text) → is_empty s ≡ false → held (some s) ≡ some s
  held-some [] h = cc
  held-some (x ∷ s) h = refl

  retry_lem :
      (base : Text) (q : Request) (before : Option Text) (s : Text) (w : W)
      → content token_key w ≡ some s
      → is_empty s ≡ false
      → retry device base q before w
        ≡ (let (a, w') = device.exchange (as_sent base q (some s)) w in (settled base a, w'))
  unfolding retry transmission
  retry_lem base q before s w h ne = ground (
    arith,
    d.get_lem token_key w,
    transmit_lem base q (header before (held (content token_key w))) w,
    held-some s ne,
  )

  -- After a 401 outside the auth endpoints and a rotation that succeeds, the same request goes out
  -- with the new token, and its answer is final. SecureStore holds the new token, and the new refresh
  -- token where the server sent one.
  pub request-renewed :
      (base : Text) (q : Request) (w : W) (t s : Text) (u : Json) (rotated : Option Text)
      → wants_rotation q (device.exchange (signed base q w) w).0 ≡ true
      → held (content refresh_key w) ≡ some t
      → (device.exchange (refresh_sent base t) (device.exchange (signed base q w) w).1).0
        ≡ resolved u
      → optional_property (codes "token") u ≡ some (str s)
      → is_empty s ≡ false
      → optional_property (codes "refreshToken") u ≡ Option.map str rotated
      → (w' : W) × (content token_key w' ≡ some s)
        × (content refresh_key w' ≡ header (content refresh_key w) (held rotated))
        × (request device base q w ≡ (
            let (a, w'') = device.exchange (as_sent base q (some s)) w' in (settled base a, w'')))
  unfolding request transmission
  request-renewed base q w t s u rotated h k a p ne r =
      let w₁ = (device.exchange (signed base q w) w).1 in
      let same = d.exchange_content refresh_key (signed base q w) w in
      let (w', tok, ref, done) =
        refresh-stored device content d base t s w₁ u rotated (cc (same, k)) a p ne r in
      (
        w',
        tok,
        cc (ref, same),
        ground (
          arith,
          transmit-first base q w,
          h,
          done,
          retry_lem base q (held (content token_key w)) s w' tok ne,
        ),
      )

  request-dead :
      (base : Text) (q : Request) (w w' : W)
      → wants_rotation q (device.exchange (signed base q w) w).0 ≡ true
      → refresh_session device base (device.exchange (signed base q w) w).1 ≡ (ok false, w')
      → request device base q w ≡ (settled base (device.exchange (signed base q w) w).0, w')
  unfolding request transmission
  request-dead base q w w' h left = ground (arith, transmit-first base q w, h, left)

  -- Where no refresh token is stored, or the rotation fails, the call ends with the error of its first
  -- answer, and SecureStore holds what it held.
  pub request-unrenewed :
      (base : Text) (q : Request) (w : W)
      → wants_rotation q (device.exchange (signed base q w) w).0 ≡ true
      → ((t : Text)
          → held (content refresh_key w) ≡ some t
          → (e : Failure) × (failure_of
                (device.exchange (refresh_sent base t) (device.exchange (signed base q w) w).1).0
              ≡ some e))
      → ((request device base q w).0 ≡ settled base (device.exchange (signed base q w) w).0)
        × ((j : Text) → content j (request device base q w).1 ≡ content j w)
  request-unrenewed base q w h fails =
      let w₁ = (device.exchange (signed base q w) w).1 in
      let same = d.exchange_content refresh_key (signed base q w) w in
      let (w', left, kept) =
        refresh-kept device content d base w₁ (λ t k. fails t (cc (same, k))) in
      let ends = request-dead base q w w' h left in
      (
        ap (λ r. r.0) ends,
        λ j. ap (λ r. content j r.1) ends ∙ kept j ∙ d.exchange_content j (signed base q w) w,
      )
