-- ===== src/Client/Wizard.antt =====
-- client/src/features/dashboard/ServersPage.tsx: `AddServerModal`, the wizard that connects a server.
pub mod Based
pub mod Once
pub mod Silent
use server_hub.Prelude.{
  ℕ, zero, suc, Bool, true, false, not, ◌&&◌, ◌||◌, List, [], ◌∷◌, ◌++◌, Option, none, some, any,
  ◌==◌, if◌then◌else◌,
}
use server_hub.Text.{Text, codes, eqb, is_empty, trim}
use server_hub.Json.{Json, str, object, optional}
use server_hub.Api.Server.{ServerCall, create_server, create_agent_token}
use server_hub.Client.Dashboard.{Failure, Fetch, got, lost}
use server_hub.Client.Transfers.{err_msg}
use server_hub.Client.Toasts.{Ui, push_toast, fresh_ui}

pub data Step : Type 0 where
  details environment command connection : Step

pub data OsType : Type 0 where
  linux docker windows : OsType

pub data PollStatus : Type 0 where
  connecting connected timeout : PollStatus

-- Where `handleProceedToSetup` stands: not running, or waiting for one of its two calls. The name is the
-- one that it began with.
pub data Setup : Type 0 where
  quiet : Setup
  creating : Text → Setup
  tokening : Text → ℕ → Setup

-- The state of the component. `effect` numbers the runs of the polling effect; `polling` and `armed` say
-- whether the timers and the time-out of the last run are set, `asked` which runs have a request out.
-- `servers` and `tokens` are what the server has created, `refreshed` counts `onCreated`.
pub record Wizard : Type 0 where
  pub step : Step
  pub name : Text
  pub hostname : Text
  pub ip : Text
  pub os_type : OsType
  pub server_id : Option ℕ
  pub agent_token : Text
  pub setup : Setup
  pub poll_status : PollStatus
  pub seconds : ℕ
  pub effect : ℕ
  pub polling : Bool
  pub armed : Bool
  pub asked : List ℕ
  pub servers : List ℕ
  pub tokens : List Text
  pub refreshed : ℕ
  pub ui : Ui

abbrev pub opened : Wizard
opened = record {
  step = details;
  name = [];
  hostname = [];
  ip = [];
  os_type = linux;
  server_id = none;
  agent_token = [];
  setup = quiet;
  poll_status = connecting;
  seconds = 0;
  effect = 0;
  polling = false;
  armed = false;
  asked = [];
  servers = [];
  tokens = [];
  refreshed = 0;
  ui = fresh_ui;
}

-- A number that JavaScript takes for true.
abbrev pub known : Option ℕ → Bool
known none = false
known (some id) = not (id == 0)

is_connection : Step → Bool
is_connection connection = true
is_connection _ = false

-- The polling effect: what it left behind is cleared, and in the last step it begins anew.
unfoldable pub rerun : Wizard → Wizard
unfolding is_connection
rerun w =
    if is_connection w.step && known w.server_id
    then record w { effect = suc w.effect; polling = true; armed = true }
    else record w { polling = false; armed = false }

abbrev go : Step → Wizard → Wizard
go s w = record w { step = s }

-- `hostname.trim() || undefined`
given : Text → Option Json
unfolding trim
given s = if is_empty (trim s) then none else some (str (trim s))

-- What the call of `handleProceedToSetup` asks for that goes out when the set-up comes to this state.
unfoldable pub call_of : Wizard → Option ServerCall
unfolding given trim
call_of w = elim w.setup [
  | quiet ↦ none
  | creating name ↦ some (
      create_server (
        object (
          ("name", str name) ∷ optional "hostname" (given w.hostname)
          ++ optional "ipAddress" (given w.ip))))
  | tokening name id ↦ some (create_agent_token id (some (name ++ codes "-initial-token")))
]

-- After both calls.
ready : Wizard → Wizard
unfolding rerun
ready w = rerun (record w { step = command; setup = quiet; refreshed = suc w.refreshed })

failed : Failure → Wizard → Wizard
unfolding err_msg push_toast
failed e w = record w {
  setup = quiet;
  ui = push_toast (err_msg e (codes "Failed to initialize server")) true w.ui;
}

-- `if (!agentToken && serverId)`
ask_token : Text → Option ℕ → Wizard → Wizard
unfolding ready
ask_token name none w = ready w
ask_token name (some id) w =
    if is_empty w.agent_token && not (id == 0)
    then record w { setup = tokening name id }
    else ready w

-- A click on the button, which is disabled while the set-up runs.
pub proceed : Setup → Wizard → Wizard
unfolding ask_token trim
proceed quiet w =
    if is_empty (trim w.name)
    then w
    else if known w.server_id
    then ask_token (trim w.name) w.server_id w
    else record w { setup = creating (trim w.name) }
proceed _ w = w

pub created : Setup → Fetch ℕ → Wizard → Wizard
unfolding ask_token failed rerun
created (creating name) (got id) w =
    ask_token name (some id) (rerun (record w { server_id = some id; servers = id ∷ w.servers }))
created (creating name) (lost e) w = failed e w
created _ _ w = w

pub token_made : Setup → Fetch Text → Wizard → Wizard
unfolding ready failed
token_made (tokening name id) (got t) w =
    ready (record w { agent_token = t; tokens = t ∷ w.tokens })
token_made (tokening name id) (lost e) w = failed e w
token_made _ _ w = w

-- A request of the given run is answered: it is out no more.
answered : ℕ → List ℕ → List ℕ
answered g [] = []
answered g (h ∷ hs) = if g == h then hs else h ∷ answered g hs

abbrev is_asked : ℕ → List ℕ → Bool
is_asked g hs = any (λ h. g == h) hs

-- An answer of `managedServer` that shows the agent connected, from any run of the effect.
heard : ℕ → Wizard → Wizard
heard g w = record w {
  poll_status = connected;
  polling = w.polling && not (g == w.effect);
  refreshed = suc w.refreshed;
}

expire : PollStatus → PollStatus
expire connected = connected
expire _ = timeout

-- What the user does in each step, and what the calls and the timers bring. `rendered` is a new render of
-- the page, which hands the wizard a new `onCreated`.
pub data WizardEvent : Type 0 where
  typed_name typed_hostname typed_ip : Text → WizardEvent
  picked_os : OsType → WizardEvent
  next back proceeded reviewed_environment entered reviewed_command retried rendered : WizardEvent
  server_created : Fetch ℕ → WizardEvent
  token_created : Fetch Text → WizardEvent
  ticked polled expired : WizardEvent
  poll_answered : ℕ → Bool → WizardEvent

-- The two buttons that the last step shows after its time-out.
review : PollStatus → Wizard → Wizard
unfolding rerun
review timeout w = rerun (go command w)
review _ w = w

retry : PollStatus → Wizard → Wizard
retry timeout w = record w { poll_status = connecting }
retry _ w = w

-- The buttons of a step are there in that step only.
unfoldable pub press : Step → WizardEvent → Wizard → Wizard
unfolding proceed rerun trim review retry
press details (typed_name s) w = record w { name = s }
press details (typed_hostname s) w = record w { hostname = s }
press details (typed_ip s) w = record w { ip = s }
press details next w = if is_empty (trim w.name) then w else rerun (go environment w)
press environment (picked_os o) w = record w { os_type = o }
press environment back w = rerun (go details w)
press environment proceeded w = proceed w.setup w
press command reviewed_environment w = rerun (go environment w)
press command entered w = rerun (go connection (record w { poll_status = connecting; seconds = 0 }))
press connection reviewed_command w = review w.poll_status w
press connection retried w = retry w.poll_status w
press _ _ w = w

unfoldable pub happen : WizardEvent → Wizard → Wizard
unfolding press created token_made answered heard expire rerun
happen rendered w = rerun w
happen (server_created o) w = created w.setup o w
happen (token_created o) w = token_made w.setup o w
happen ticked w = if w.polling then record w { seconds = suc w.seconds } else w
happen polled w = if w.polling then record w { asked = w.effect ∷ w.asked } else w
happen (poll_answered g shown) w =
    if is_asked g w.asked
    then (let w' = record w { asked = answered g w.asked } in if shown then heard g w' else w')
    else w
happen expired w =
    if w.armed
    then record w { poll_status = expire w.poll_status; polling = false; armed = false }
    else w
happen e w = press w.step e w

unfoldable pub run : List WizardEvent → Wizard → Wizard
unfolding happen
run [] w = w
run (e ∷ es) w = run es (happen e w)

-- The command that the third step shows, for the page's origin and the token.
unfoldable pub setup_command : OsType → Text → Text → Text
setup_command linux origin token =
    codes "curl -fsSL "
    ++ origin
    ++ codes "/agent/install.sh | sudo AGENT_TOKEN=\""
    ++ token
    ++ codes "\" SERVERHUB_URL=\""
    ++ origin
    ++ codes "\" bash"
setup_command docker origin token =
    codes "docker run -d --name serverhub-agent --restart always \\\n  -e AGENT_TOKEN=\""
    ++ token
    ++ codes "\" \\\n  -e SERVERHUB_URL=\""
    ++ origin
    ++ codes "\" \\\n  -v /var/run/docker.sock:/var/run/docker.sock \\\n  serverhub/agent:latest"
setup_command windows origin token =
    codes "$env:AGENT_TOKEN=\""
    ++ token
    ++ codes "\"; $env:SERVERHUB_URL=\""
    ++ origin
    ++ codes "\"; .\\serverhub-agent.exe"
