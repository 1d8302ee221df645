-- ===== src/Client/Wizard/Based.antt =====
-- The set-up of the wizard creates one server and one token.
use server_hub.Prelude.{
  ℕ, suc, ◌≡◌, ◌≢◌, refl, true, false, not, ◌&&◌, List, [], ◌∷◌, Option, none, some, ◌==◌, if-elim,
  arith, subst, sym, ap, ◌∙◌,
}
use server_hub.Text.{Text, is_empty, trim}
use server_hub.Client.Dashboard.{Failure, Fetch, got, lost}
use server_hub.Client.Wizard.{
  Step, details, environment, command, connection, Setup, quiet, creating, tokening, Wizard, known,
  is_connection, rerun, ready, failed, ask_token, proceed, created, token_made, WizardEvent,
  server_created, token_created,
}

abbrev as_list : Option ℕ → List ℕ
as_list none = []
as_list (some id) = id ∷ []

abbrev texts : Text → List Text
texts [] = []
texts (c ∷ s) = (c ∷ s) ∷ []

-- What the set-up waits for is still missing.
abbrev pub IsMissing : Setup → Option ℕ → Text → Type 0
IsMissing quiet id t = Unit {0}
IsMissing (creating name) id t = id ≡ none
IsMissing (tokening name i) id t = (id ≡ some i) × (t ≡ [])

-- The last two steps are reached with a server and a token only.
abbrev pub IsPlaced : Step → Option ℕ → Text → Type 0
IsPlaced command id t = (known id ≡ true) × (is_empty t ≡ false)
IsPlaced connection id t = (known id ≡ true) × (is_empty t ≡ false)
IsPlaced _ id t = Unit {0}

-- What the wizard has is what it has created.
pub record IsBased (w : Wizard) : Type 0 where
  pub server : w.servers ≡ as_list w.server_id
  pub real : w.server_id ≢ some 0
  pub token : w.tokens ≡ texts w.agent_token
  pub placed : IsPlaced w.step w.server_id w.agent_token

pub record IsOnce (w : Wizard) : Type 0 where
  pub based : IsBased w
  pub missing : IsMissing w.setup w.server_id w.agent_token

-- The server gives ids from 1 and tokens that are not empty.
abbrev pub IsProperAnswer : WizardEvent → Type 0
IsProperAnswer (server_created (got id)) = id ≢ 0
IsProperAnswer (token_created (got t)) = t ≢ []
IsProperAnswer _ = Unit {0}

module _ (w : Wizard) where
  rerun-IsBased : IsBased w → IsBased (rerun w)
  unfolding rerun
  rerun-IsBased h = if-elim IsBased (is_connection w.step && known w.server_id) (λ e. h') (λ e. h'')
    where
      h' : IsBased (record w { effect = suc w.effect; polling = true; armed = true })
      h' = record { server = h.server; real = h.real; token = h.token; placed = h.placed }

      h'' : IsBased (record w { polling = false; armed = false })
      h'' = record { server = h.server; real = h.real; token = h.token; placed = h.placed }

  rerun-setup : (rerun w).setup ≡ w.setup
  unfolding rerun
  rerun-setup = ground arith

  rerun-id : (rerun w).server_id ≡ w.server_id
  unfolding rerun
  rerun-id = ground arith

  rerun-token : (rerun w).agent_token ≡ w.agent_token
  unfolding rerun
  rerun-token = ground arith

  pub rerun-IsOnce : IsOnce w → IsOnce (rerun w)
  rerun-IsOnce h = record {
    based = rerun-IsBased h.based;
    missing = rw (rerun-setup, rerun-id, rerun-token) h.missing;
  }

is_empty-nil : (t : Text) → is_empty t ≡ true → t ≡ []
is_empty-nil [] h = refl
is_empty-nil (c ∷ t) h = cc

known-real : (id : ℕ) → id ≢ 0 → not (id == 0) ≡ true
known-real id h = ground (arith, h)

ready-IsOnce :
    (w : Wizard)
    → IsBased w
    → known w.server_id ≡ true
    → is_empty w.agent_token ≡ false
    → IsOnce (ready w)
unfolding ready
ready-IsOnce w h k e =
    rerun-IsOnce (record w { step = command; setup = quiet; refreshed = suc w.refreshed })
      (record {
        based = record { server = h.server; real = h.real; token = h.token; placed = (k, e) };
        missing = tt;
      })

failed-IsOnce : (e : Failure) (w : Wizard) → IsBased w → IsOnce (failed e w)
unfolding failed
failed-IsOnce e w h = record {
  based = record { server = h.server; real = h.real; token = h.token; placed = h.placed };
  missing = tt;
}

-- With a server at hand, whether its token is missing or not.
ask_token-IsOnce :
    (name : Text) (o : Option ℕ) (w : Wizard)
    → IsBased w
    → w.server_id ≡ o
    → known o ≡ true
    → IsOnce (ask_token name o w)
unfolding ask_token
ask_token-IsOnce name none w h e k = cc
ask_token-IsOnce name (some id) w h e k =
    if-elim IsOnce (is_empty w.agent_token && not (id == 0))
      (λ m. record {
        based = record { server = h.server; real = h.real; token = h.token; placed = h.placed };
        missing = (e, is_empty-nil w.agent_token (ground (arith, m)));
      })
      (λ m. ready-IsOnce w h (ap known e ∙ k) (ground (arith, m, k)))

unknown-none : (o : Option ℕ) → o ≢ some 0 → known o ≡ false → o ≡ none
unknown-none none h k = refl
unknown-none (some id) h k = ground (arith, h)

pub proceed-IsOnce : (u : Setup) (w : Wizard) → IsOnce w → IsOnce (proceed u w)
unfolding proceed
proceed-IsOnce quiet w h =
    if-elim IsOnce (is_empty (trim w.name)) (λ e. h)
      (λ e.
        if-elim IsOnce (known w.server_id)
          (λ k. ask_token-IsOnce (trim w.name) w.server_id w h.based refl k)
          (λ k. record {
            based = record {
              server = h.based.server;
              real = h.based.real;
              token = h.based.token;
              placed = h.based.placed;
            };
            missing = unknown-none w.server_id h.based.real k;
          }))
proceed-IsOnce (creating n) w h = h
proceed-IsOnce (tokening n i) w h = h

placed-none : (s : Step) (t : Text) (o : Option ℕ) → IsPlaced s none t → IsPlaced s o t
placed-none details t o h = tt
placed-none environment t o h = tt
placed-none command t o h = cc h.0
placed-none connection t o h = cc h.0

pub created-IsOnce :
    (u : Setup) (o : Fetch ℕ) (w : Wizard)
    → w.setup ≡ u
    → IsProperAnswer (server_created o)
    → IsOnce w
    → IsOnce (created u o w)
unfolding created
created-IsOnce (creating name) (got id) w e p h =
    let none_yet = subst (λ u. IsMissing u w.server_id w.agent_token) e h.missing in
    let placed = subst (λ o. IsPlaced w.step o w.agent_token) none_yet h.based.placed in
    let v : Wizard = record w { server_id = some id; servers = id ∷ w.servers } in
    let based : IsBased v = record {
      server = ap (λ ids. id ∷ ids) (h.based.server ∙ ap as_list none_yet);
      real = λ z. p (cc z);
      token = h.based.token;
      placed = placed-none w.step w.agent_token (some id) placed;
    } in
    ask_token-IsOnce name (some id) (rerun v) (rerun-IsBased v based) (rerun-id v)
      (ground (arith, p))
created-IsOnce (creating name) (lost f) w e p h = failed-IsOnce f w h.based
created-IsOnce quiet _ w e p h = h
created-IsOnce (tokening n i) _ w e p h = h

texts-one : (t : Text) → t ≢ [] → (texts t ≡ t ∷ []) × (is_empty t ≡ false)
texts-one [] h = absurd (h refl)
texts-one (c ∷ t) h = (refl, refl)

placed-token :
    (s : Step) (t t' : Text) (o : Option ℕ) → IsPlaced s o t → is_empty t' ≡ false → IsPlaced s o t'
placed-token details t t' o h e = tt
placed-token environment t t' o h e = tt
placed-token command t t' o h e = (h.0, e)
placed-token connection t t' o h e = (h.0, e)

pub token_made-IsOnce :
    (u : Setup) (o : Fetch Text) (w : Wizard)
    → w.setup ≡ u
    → IsProperAnswer (token_created o)
    → IsOnce w
    → IsOnce (token_made u o w)
unfolding token_made
token_made-IsOnce (tokening name i) (got t) w e p h =
    let (has_id, no_token) = subst (λ u. IsMissing u w.server_id w.agent_token) e h.missing in
    let (one, full) = texts-one t p in
    ready-IsOnce (record w { agent_token = t; tokens = t ∷ w.tokens })
      (record {
        server = h.based.server;
        real = h.based.real;
        token = ap (λ ts. t ∷ ts) (h.based.token ∙ ap texts no_token) ∙ sym one;
        placed = placed-token w.step w.agent_token t w.server_id h.based.placed full;
      })
      (ap known has_id ∙ known-real i (λ z. h.based.real (has_id ∙ ap some z))) full
token_made-IsOnce (tokening name i) (lost f) w e p h = failed-IsOnce f w h.based
token_made-IsOnce quiet _ w e p h = h
token_made-IsOnce (creating n) _ w e p h = h
