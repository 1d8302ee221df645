-- ===== src/Mobile/Session/Rotation.antt =====
-- mobile/src/api/client.ts: one rotation of the session, where SecureStore works.
use server_hub.Prelude.{
  true, false, ◌≡◌, refl, Option, none, some, arith, [], ◌∷◌, inl, inr, Option-cases,
}
use server_hub.Text.{is_empty, Text, codes}
use server_hub.Json.{Json, str}
use mathlib.Core.Option
use server_hub.Mobile.Phone.{
  Failure, other_failure, Device, IsReliable, ok, Answer, resolved, refused, unreachable,
  optional_property,
}
use server_hub.Mobile.Session.{
  token_key, refresh_key, held, header, refresh_sent, refresh_session, has_value, truthy, set_value,
}

-- The error that axios rejects with.
abbrev pub failure_of : Answer → Option Failure
failure_of (resolved v) = none
failure_of (refused n v m) = some (other_failure m)
failure_of (unreachable m) = some (other_failure m)

module _ {W : Type 0} (device : Device W) (content : Text → W → Option Text)
    (d : IsReliable device content) where
  refresh-none :
      (base : Text) (w : W)
      → held (content refresh_key w) ≡ none
      → refresh_session device base w ≡ (ok false, w)
  unfolding refresh_session
  refresh-none base w h = ground (arith, d.get_lem refresh_key w)

  refresh-failed :
      (base t : Text) (w : W) (e : Failure)
      → held (content refresh_key w) ≡ some t
      → failure_of (device.exchange (refresh_sent base t) w).0 ≡ some e
      → refresh_session device base w ≡ (ok false, (device.exchange (refresh_sent base t) w).1)
  unfolding refresh_session
  refresh-failed base t w e h k = ground (arith, d.get_lem refresh_key w)

  refresh-unrotated :
      (base t c : Text) (w : W) (u : Json)
      → held (content refresh_key w) ≡ some t
      → (device.exchange (refresh_sent base t) w).0 ≡ resolved u
      → optional_property (codes "token") u ≡ some (str c)
      → is_empty c ≡ false
      → has_value (optional_property (codes "refreshToken") u) ≡ false
      → (w' : W) × (content token_key w' ≡ some c)
        × (content refresh_key w' ≡ content refresh_key w)
        × (refresh_session device base w ≡ (ok true, w'))
  unfolding refresh_session set_value has_value truthy
  refresh-unrotated base t c w u h a p ne r =
      let w₁ = (device.exchange (refresh_sent base t) w).1 in
      let w₂ = (device.set_item token_key c w₁).1 in
      (
        w₂,
        ground (arith, d.set_content token_key token_key c w₁),
        ground (
          arith,
          d.set_content refresh_key token_key c w₁,
          d.exchange_content refresh_key (refresh_sent base t) w,
        ),
        ground (arith, d.get_lem refresh_key w, d.set_done token_key c w₁),
      )

  pub refresh-stored :
      (base t c : Text) (w : W) (u : Json) (rotated : Option Text)
      → held (content refresh_key w) ≡ some t
      → (device.exchange (refresh_sent base t) w).0 ≡ resolved u
      → optional_property (codes "token") u ≡ some (str c)
      → is_empty c ≡ false
      → optional_property (codes "refreshToken") u ≡ Option.map str rotated
      → (w' : W) × (content token_key w' ≡ some c)
        × (content refresh_key w' ≡ header (content refresh_key w) (held rotated))
        × (refresh_session device base w ≡ (ok true, w'))
  unfolding refresh_session set_value has_value truthy
  refresh-stored base t c w u none h a p ne r =
      refresh-unrotated base t c w u h a p ne (ground (arith, r))
  refresh-stored base t c w u (some []) h a p ne r =
      refresh-unrotated base t c w u h a p ne (ground (arith, r))
  refresh-stored base t c w u (some (x ∷ s)) h a p ne r =
      let w₁ = (device.exchange (refresh_sent base t) w).1 in
      let w₂ = (device.set_item token_key c w₁).1 in
      let w₃ = (device.set_item refresh_key (x ∷ s) w₂).1 in
      (
        w₃,
        ground (
          arith,
          d.set_content token_key token_key c w₁,
          d.set_content token_key refresh_key (x ∷ s) w₂,
        ),
        ground (arith, d.set_content refresh_key refresh_key (x ∷ s) w₂),
        ground (
          arith,
          d.get_lem refresh_key w,
          d.set_done token_key c w₁,
          d.set_done refresh_key (x ∷ s) w₂,
        ),
      )

  pub refresh-kept :
      (base : Text) (w : W)
      → ((t : Text)
          → held (content refresh_key w) ≡ some t
          → (e : Failure) × (failure_of (device.exchange (refresh_sent base t) w).0 ≡ some e))
      → (w' : W) × (refresh_session device base w ≡ (ok false, w'))
        × ((j : Text) → content j w' ≡ content j w)
  refresh-kept base w fails = elim (Option-cases (held (content refresh_key w))) [
    | inl absent ↦ (w, refresh-none base w absent, λ j. refl)
    | inr (t, found) ↦ (
      (device.exchange (refresh_sent base t) w).1,
      refresh-failed base t w (fails t found).0 found (fails t found).1,
      λ j. d.exchange_content j (refresh_sent base t) w,
    )
  ]
