-- ===== src/Examples/Mobile.antt =====
-- The mobile client on a device that keeps its entries in a list, and a server that plays back a list of
-- answers.
use server_hub.Prelude.{
  arith, ◌≡◌, refl, true, false, List, [], ◌∷◌, Option, none, some, if◌then◌else◌,
}
use server_hub.Text.{trim, Text, codes, eqb}
use server_hub.Json.{Json, null, str, object, property, js_string}
use server_hub.Json.Print.{stringify}
use server_hub.Endpoints.Host
use server_hub.Routing.{operator}
use server_hub.Api.Served.{Served}
use server_hub.Server.Routes.{routes}
use server_hub.Mobile.Phone.{
  Failure, api_failure, Device, IsReliable, ok, Sent, Answer, resolved, refused, unreachable,
}
use server_hub.Mobile.Calls.{delete_silence, login as login_call, mobile_request}
use server_hub.Routing.Sound.{IsSegment}
use server_hub.Mobile.Calls.Served.{mobile_call-Served}
use server_hub.Mobile.Session.{token_key, refresh_key, user_key, is_auth_path, request}
use server_hub.Mobile.Address.{
  server_url_key, is_web_url, normalize_url, save_base_url, init_stored_base_url, default_base_url,
}
use server_hub.Mobile.Address.Kept.{init_stored_base_url-save_base_url}
use server_hub.Mobile.Account.{signed_out, user_of, member, login, logout, hydrate}
use server_hub.Mobile.Account.Kept.{
  IsForgotten, logout-IsForgotten, login-stored, hydrate-IsForgotten,
}

abbrev Phone : Type 0
Phone = List (Text × Option Text) × List Answer

abbrev look : Text → List (Text × Option Text) → Option Text
look j [] = none
look j ((k, o) ∷ es) = if eqb k j then o else look j es

abbrev holds : Text → Phone → Option Text
holds j (es, answers) = look j es

abbrev answer : Sent → Phone → Answer × Phone
answer q (es, []) = (unreachable (codes "Network Error"), (es, []))
answer q (es, a ∷ answers) = (a, (es, answers))

abbrev phone : Device Phone
phone = record {
  get_item = λ k (es, answers). (ok (look k es), (es, answers));
  set_item = λ k v (es, answers). (ok tt, ((k, some v) ∷ es, answers));
  delete_item = λ k (es, answers). (ok tt, ((k, none) ∷ es, answers));
  exchange = answer;
  invalid_value = codes "Invalid value";
  null_access = codes "Cannot read property";
}

answer-holds : (j : Text) (q : Sent) (w : Phone) → holds j (answer q w).1 ≡ holds j w
answer-holds j q (es, []) = refl
answer-holds j q (es, a ∷ answers) = refl

phone-IsReliable : IsReliable phone holds
phone-IsReliable = record {
  get_lem = λ k w. refl;
  set_done = λ k v w. refl;
  set_content = λ j k v w. refl;
  delete_done = λ k w. refl;
  delete_content = λ j k w. refl;
  exchange_content = answer-holds;
}

abbrev home : Text
home = codes "http://10.0.0.2:4000"

abbrev expired : Answer
expired =
    refused 401 (object (("error", str (codes "expired")) ∷ []))
      (codes "Request failed with status code 401")

abbrev new_session : Json
new_session = object (("token", str (codes "t2")) ∷ ("refreshToken", str (codes "r2")) ∷ [])

abbrev session : List (Text × Option Text)
session =
    (token_key, some (codes "t1"))
    ∷ (refresh_key, some (codes "r1"))
    ∷ (user_key, some (codes "{}"))
    ∷ []

s1-IsSegment : IsSegment (codes "s1")
s1-IsSegment = (
  λ e. cc,
  (omega arith, (omega arith, tt)),
  (omega arith, (omega arith, tt)),
  (λ e. cc, λ e. cc),
)

mobile_call-Served_example :
    Served operator (routes false) (mobile_request (delete_silence (codes "s1")))
mobile_call-Served_example = mobile_call-Served false (delete_silence (codes "s1")) s1-IsSegment

abbrev quiet : Phone
quiet = (session, resolved null ∷ [])

abbrev stale : Phone
stale = (session, expired ∷ resolved new_session ∷ resolved null ∷ [])

abbrev revoked : Phone
revoked = (session, expired ∷ refused 401 null (codes "Request failed with status code 401") ∷ [])

normalize_url_test : normalize_url (codes " http://h// ") ≡ codes "http://h"
unfolding normalize_url
normalize_url_test = refl

saved_test : is_web_url (normalize_url (codes "http://h/ ")) ≡ true
unfolding is_web_url normalize_url
saved_test = refl

init_stored_base_url-save_base_url_example :
    (w' : Phone) × (save_base_url phone none (codes "http://h/ ") (quiet, home)
      ≡ (ok (codes "http://h"), (w', codes "http://h")))
    × (holds server_url_key w' ≡ some (codes "http://h"))
    × (init_stored_base_url phone none (w', home) ≡ (ok (codes "http://h"), (w', codes "http://h")))
unfolding normalize_url trim
init_stored_base_url-save_base_url_example =
    init_stored_base_url-save_base_url phone holds phone-IsReliable none (codes "http://h/ ") home
      home quiet saved_test

logout-IsForgotten_example :
    (w' : Phone) × (logout phone none home signed_out stale
      ≡ ((ok tt, record signed_out { user = none; token = none }), w'))
    × IsForgotten phone holds phone-IsReliable none w'
logout-IsForgotten_example =
    logout-IsForgotten phone holds phone-IsReliable none home signed_out stale

abbrev account : Json
account = object (
    ("username", str (codes "sri"))
    ∷ ("role", str (codes "admin"))
    ∷ ("token", str (codes "t3"))
    ∷ [])

abbrev accepting : Phone
accepting = ([], resolved account ∷ [])

accepted :
    request phone home (mobile_request (login_call (codes "sri") (codes "pw"))) accepting
    ≡ (ok account, ([], []))
unfolding request mobile_request
accepted = refl

login-stored_example :
    (w' : Phone) × (login phone none home (codes "sri") (codes "pw") signed_out accepting ≡ (
      (
        ok tt,
        record signed_out {
          user = some (user_of account);
          token = some (codes "t3");
          busy = false;
          error = none;
        },
      ),
      w',
    ))
    × (holds token_key w' ≡ some (codes "t3"))
    × (holds refresh_key w' ≡ none)
    × (holds user_key w' ≡ some (stringify (user_of account)))
unfolding member property
login-stored_example =
    login-stored phone holds phone-IsReliable none home (codes "sri") (codes "pw") (codes "t3")
      signed_out accepting ([], []) account none accepted refl refl

abbrev admin_user : Json
admin_user = object (("username", str (codes "sri")) ∷ [])

abbrev known : Phone
known = (session, resolved admin_user ∷ [])

abbrev unknown : Phone
unknown = (session, expired ∷ [])

abbrev denied : Failure
denied = api_failure 401 (codes "expired")

hydrate-IsForgotten_example :
    (w' : Phone) × (hydrate phone none signed_out (unknown, home) ≡ (
      record signed_out { user = none; token = none; checked = true },
      (w', normalize_url (default_base_url none)),
    ))
    × IsForgotten phone holds phone-IsReliable none w'
unfolding init_stored_base_url request mobile_request is_auth_path property Host.auth_me js_string
hydrate-IsForgotten_example =
    hydrate-IsForgotten phone holds phone-IsReliable none signed_out home (codes "t1") (codes "{}")
      (normalize_url (default_base_url none)) unknown (session, []) denied refl refl refl refl
