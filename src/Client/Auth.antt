-- ===== src/Client/Auth.antt =====
-- client/src/stores/store.ts: `useAuth`, who is signed in.
use server_hub.Prelude.{
  String, Bool, true, false, ◌++◌, ◌≡◌, ◌⊎◌, refl, inl, inr, Option, none, some,
}
use server_hub.Text.{Text, codes}
use server_hub.Json.{Json, null, obj, object, optional, property}
use server_hub.Session.{Outcome, value, undefined, api_error, thrown}

-- `user` and `error` are none for null.
pub record AuthState : Type 0 where
  pub user : Option Json
  pub checked : Bool
  pub busy : Bool
  pub error : Option Text

abbrev pub nobody : AuthState
nobody = record { user = none; checked = false; busy = false; error = none }

-- `check`, by how `api.me()` settles; a call that gives no value counts as nobody.
unfoldable pub check : Outcome → AuthState → AuthState
check (value me) s = record s { user = some me; checked = true }
check _ s = record s { user = none; checked = true }

abbrev member : String → Json → Option Json
member k (obj fs) = property (codes k) fs
member k _ = none

-- `{ username: res.username, role: res.role }`
user_of : Json → Json
unfolding property
user_of res =
    object (optional "username" (member "username" res) ++ optional "role" (member "role" res))

-- What `login` does with the answer: the state, and the error that it throws again. `null_access` is
-- the engine's message for a property of null.
unfoldable pub login : Text → Outcome → AuthState → AuthState × Option Text
unfolding user_of
login null_access (value null) s =
    (record s { busy = false; error = some null_access }, some null_access)
login null_access (value res) s =
    (record s { user = some (user_of res); busy = false; error = none }, none)
login null_access undefined s =
    (record s { busy = false; error = some null_access }, some null_access)
login null_access (api_error n m) s = (record s { busy = false; error = some m }, some m)
login null_access (thrown m) s = (record s { busy = false; error = some m }, some m)

-- `logout`, whatever the call gives.
unfoldable pub logout : Outcome → AuthState → AuthState
logout o s = record s { user = none }

-- A login ends with `busy` cleared, and either with a user and no error, or with the user as before and
-- the error that is thrown as well.
login_lem :
    (null_access : Text) (o : Outcome) (s : AuthState)
    → let (s', failed) = login null_access o s in
      (s'.busy ≡ false)
      × (s'.error ≡ failed)
      × (((u : Json) × (s'.user ≡ some u) × (failed ≡ none))
          ⊎ ((m : Text) × (s'.user ≡ s.user) × (failed ≡ some m)))
unfolding login
login_lem null_access (value null) s = (refl, refl, inr (null_access, refl, refl))
login_lem null_access undefined s = (refl, refl, inr (null_access, refl, refl))
login_lem null_access (api_error n m) s = (refl, refl, inr (m, refl, refl))
login_lem null_access (thrown m) s = (refl, refl, inr (m, refl, refl))
login_lem null_access (value res) s = (refl, refl, inl (user_of res, refl, refl))
