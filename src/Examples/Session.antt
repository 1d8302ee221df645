-- ===== src/Examples/Session.antt =====
-- The web client's session: a call whose token has expired, and two calls that share a rotation.
use server_hub.Prelude.{
  ◌*◌, ◌≤◌, ◌≡◌, ◌⊎◌, refl, suc, Bool, true, false, List, [], ◌∷◌, none, some, if◌then◌else◌, All,
}
use server_hub.Text.{codes}
use server_hub.Json.{str, property, js_string, object}
use server_hub.Routing.{get}
use server_hub.Session.{
  Wire, Fetched, response, rejected, api_error, settle, is_auth_path, is_unauthorized, refresh_wire,
  wants_refresh, req, upload_req,
}
use server_hub.Session.Log.{
  logged, logged_form, first_reply, rotates, expected_log, req-log, req-log_auth, upload_req-log,
}
use server_hub.Session.Outcomes.{last_reply, second_reply, req-unauthorized}
use server_hub.Session.Flight.{Event, call, reply, rotated, start, run}
use server_hub.Session.Flight.Invariant.{IsSound, run-IsSound}
use server_hub.Session.Flight.Bounds.{
  traffic, IsOut, IsSettled, run-refreshes, run-traffic, run-IsSettled,
}

abbrev status : Bool → Fetched
status good = response (record {
  status = if good then 200 else 401;
  body = some (object (("error", str (codes "expired")) ∷ []));
})

-- A server that plays back a list of answers.
abbrev script : Wire → List Fetched → Fetched × List Fetched
script q [] = (rejected (codes "down"), [])
script q (f ∷ fs) = (f, fs)

abbrev form_script : List Fetched → Fetched × List Fetched
form_script [] = (rejected (codes "down"), [])
form_script (f ∷ fs) = (f, fs)

abbrev ask_projects : Wire
ask_projects = record { method = get; path = codes "/server-hub/api/projects"; body = none }

abbrev ask_me : Wire
ask_me = record { method = get; path = codes "/server-hub/api/auth/me"; body = none }

abbrev expired : List Fetched
expired = status false ∷ status true ∷ status true ∷ []

abbrev dead : List Fetched
dead = status false ∷ status false ∷ []

req-log_example :
    (req (logged script) ask_projects (expired, [])).1.1 ≡ expected_log script ask_projects expired
req-log_example = req-log script ask_projects expired

req-log_auth_example :
    ((req (logged script) ask_me (dead, [])).1.1 ≡ ask_me ∷ [])
    × ((req script ask_me dead).0 ≡ settle (first_reply script ask_me dead))
unfolding is_auth_path
req-log_auth_example = req-log_auth script ask_me dead refl

upload_req-log_example :
    (upload_req (logged script) (logged_form script form_script ask_projects) (expired, [])).1.1
    ≡ ask_projects ∷ refresh_wire ∷ ask_projects ∷ []
upload_req-log_example = upload_req-log script form_script ask_projects expired

abbrev events : List Event
events =
    call (codes "/server-hub/api/projects")
    ∷ call (codes "/server-hub/api/servers")
    ∷ reply 0 (status false)
    ∷ reply 1 (status false)
    ∷ rotated (status true)
    ∷ reply 0 (status true)
    ∷ reply 1 (status true)
    ∷ []

run-traffic_example : ((run events start).refreshes ≤ 2) × (traffic (run events start) ≤ 3 * 2)
run-traffic_example = run-traffic events

run-refreshes_example : (run events start).refreshes ≤ suc 1
run-refreshes_example = run-refreshes events

run-IsSound_example : IsSound (run events start)
unfolding start
run-IsSound_example = run-IsSound events start tt

dead_session : (req script ask_projects dead).0 ≡ api_error 401 (codes "expired")
unfolding req property js_string
dead_session = refl

req-unauthorized_example :
    (is_unauthorized (last_reply script ask_projects dead) ≡ true)
    × ((is_auth_path ask_projects.path ≡ true)
        ⊎ (rotates script ask_projects dead ≡ false)
        ⊎ (is_unauthorized (second_reply script ask_projects dead) ≡ true))
req-unauthorized_example = req-unauthorized script ask_projects dead dead_session

idle_at_the_end : (run events start).refreshing ≡ false
unfolding run start wants_refresh
idle_at_the_end = refl

quiet_at_the_end : All (λ t. ¬ IsOut t) (run events start).tasks
unfolding run start wants_refresh
quiet_at_the_end = ((λ o. cc (o.1)), ((λ o. cc (o.1)), tt))

run-IsSettled_example : All IsSettled (run events start).tasks
run-IsSettled_example = run-IsSettled events idle_at_the_end quiet_at_the_end

-- Two refused calls share one rotation, and each is sent again.
shared_rotation : ((run events start).refreshes ≡ 1) × (traffic (run events start) ≡ 5)
unfolding run start wants_refresh
shared_rotation = (refl, refl)
