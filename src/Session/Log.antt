-- ===== src/Session/Log.antt =====
-- What one call of `req` or `uploadReq` sends to the server, whatever the server answers.
use server_hub.Prelude.{◌≡◌, Bool, true, List, [], ◌∷◌, ◌++◌, if◌then◌else◌, arith, true}
use server_hub.Session.{
  Wire, Fetched, refresh_wire, renewed, wants_refresh, req, is_auth_path, settle, is_unauthorized,
  upload_req,
}

module _ {W : Type 0} (fetch : Wire → W → Fetched × W) where
  -- `fetch`, with a log of all that was sent.
  abbrev pub logged : Wire → W × List Wire → Fetched × (W × List Wire)
  logged q (w, log) = let (f, w') = fetch q w in (f, (w', log ++ q ∷ []))

  abbrev pub logged_form : (W → Fetched × W) → Wire → W × List Wire → Fetched × (W × List Wire)
  logged_form do_fetch p (w, log) = let (f, w') = do_fetch w in (f, (w', log ++ p ∷ []))

  -- The first response, and whether the rotation behind it succeeds.
  abbrev pub first_reply : Wire → W → Fetched
  first_reply q w = (fetch q w).0

  abbrev pub rotates : Wire → W → Bool
  rotates q w = renewed (fetch refresh_wire (fetch q w).1).0

  -- What is sent, said without the code's control flow.
  abbrev pub expected_log : Wire → W → List Wire
  expected_log q w =
      if wants_refresh q.path (first_reply q w)
      then q ∷ refresh_wire ∷ (if rotates q w then q ∷ [] else [])
      else q ∷ []

  -- What one call sends: the request, and after a 401 outside the auth endpoints the rotation,
  -- and the request again exactly when the rotation succeeds.
  pub req-log : (q : Wire) (w : W) → (req logged q (w, [])).1.1 ≡ expected_log q w
  unfolding req
  req-log q w = ground arith

  -- The log does not change how the call settles.
  req-logged : (q : Wire) (w : W) → (req logged q (w, [])).0 ≡ (req fetch q w).0
  unfolding req
  req-logged q w = ground arith

  -- An auth endpoint is asked once, and its answer is final.
  pub req-log_auth :
      (q : Wire) (w : W)
      → is_auth_path q.path ≡ true
      → ((req logged q (w, [])).1.1 ≡ q ∷ []) × ((req fetch q w).0 ≡ settle (first_reply q w))
  unfolding req
  req-log_auth q w h = ground arith

  -- What an upload sends: the form `p` once or twice, with a rotation between.
  pub upload_req-log :
      (do_fetch : W → Fetched × W) (p : Wire) (w : W)
      → (upload_req logged (λ s. logged_form do_fetch p s) (w, [])).1.1 ≡ (
          if is_unauthorized (do_fetch w).0
          then p
            ∷ refresh_wire
            ∷ (if renewed (fetch refresh_wire (do_fetch w).1).0 then p ∷ [] else [])
          else p ∷ [])
  unfolding upload_req
  upload_req-log do_fetch p w = ground arith
