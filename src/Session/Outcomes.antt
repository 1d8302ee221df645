-- ===== src/Session/Outcomes.antt =====
-- How a call of `req` settles, in terms of the replies that it gets.
use server_hub.Prelude.{
  ◌≡◌, ◌⊎◌, true, false, ◌&&◌, if◌then◌else◌, inl, inr, arith, sym, ◌∙◌, Bool-cases,
}
use server_hub.Text.{Text}
use server_hub.Session.{
  Wire, Fetched, response, rejected, api_error, refresh_wire, wants_refresh, settle, is_auth_path,
  req, is_unauthorized,
}
use server_hub.Session.Log.{first_reply, rotates}

module _ {W : Type 0} (fetch : Wire → W → Fetched × W) where
  -- The reply that decides the call: the second one after a rotation, else the first.
  abbrev pub last_reply : Wire → W → Fetched
  last_reply q w =
      if wants_refresh q.path (first_reply fetch q w) && rotates fetch q w
      then (fetch q (fetch refresh_wire (fetch q w).1).1).0
      else first_reply fetch q w

  -- A call settles by the reply `last_reply`: the one to the retry after a successful rotation,
  -- else the first.
  pub req-settle : (q : Wire) (w : W) → (req fetch q w).0 ≡ settle (last_reply q w)
  unfolding req
  req-settle q w = ground arith

settle-unauthorized :
    (f : Fetched) (m : Text) → settle f ≡ api_error 401 m → is_unauthorized f ≡ true
unfolding settle
settle-unauthorized (rejected e) m h = cc
settle-unauthorized (response r) m h = ground arith

wants_refresh-unauthorized :
    (path : Text) (f : Fetched)
    → is_unauthorized f ≡ true
    → wants_refresh path f ≡ false
    → is_auth_path path ≡ true
unfolding wants_refresh
wants_refresh-unauthorized path (rejected e) h k = cc
wants_refresh-unauthorized path (response r) h k = ground arith

module _ {W : Type 0} (fetch : Wire → W → Fetched × W) where
  -- The reply to the retry.
  abbrev pub second_reply : Wire → W → Fetched
  second_reply q w = (fetch q (fetch refresh_wire (fetch q w).1).1).0

  -- A call fails with 401 only if it was refused, and either it asks an auth endpoint, or the
  -- rotation failed, or the retry was refused as well.
  pub req-unauthorized :
      (q : Wire) (w : W) {m : Text}
      → (req fetch q w).0 ≡ api_error 401 m
      → (is_unauthorized (last_reply fetch q w) ≡ true)
        × ((is_auth_path q.path ≡ true)
            ⊎ (rotates fetch q w ≡ false)
            ⊎ (is_unauthorized (second_reply q w) ≡ true))
  unfolding is_auth_path
  req-unauthorized q w {m} h =
      let refused = settle-unauthorized (last_reply fetch q w) m (sym (req-settle fetch q w) ∙ h) in
      (
        refused,
        elim (Bool-cases (wants_refresh q.path (first_reply fetch q w))) [
          | inr plain ↦ inl (
              wants_refresh-unauthorized q.path (first_reply fetch q w) (rw plain at refused) plain)
          | inl asked ↦ elim (Bool-cases (rotates fetch q w)) [
            | inr failed ↦ inr (inl failed)
            | inl renewed_ok ↦ inr (inr (rw (asked, renewed_ok) at refused))
          ]
        ],
      )
