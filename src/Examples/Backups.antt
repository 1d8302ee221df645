-- ===== src/Examples/Backups.antt =====
-- The controls of the database backups, the databases and the found projects at concrete data.
use server_hub.Prelude.{
  All, any, inl, if◌then◌else◌, ◌≡◌, ◌&&◌, refl, true, false, List, [], ◌∷◌, none, some,
}
use server_hub.Text.Decimal.{show}
use server_hub.Text.{eqb, Text, codes}
use server_hub.Api.Routed.Backup.{backup_access}
use server_hub.Server.Roles.{permits}
use server_hub.Client.Backups.Told.{Ending, succeeded, Screen}
use server_hub.Client.Backups.Settled.{Settles}
use server_hub.Client.Backups.Connections
use server_hub.Client.Backups.Policies
use server_hub.Client.Backups.Runs
use server_hub.Client.Backups.Controls.{
  Control, on_connection, on_policy, on_run, offered, is_shown, call_of, is_missing, press,
}
use server_hub.Client.Backups.Controls.Allowed.{is_shown-permits, role_text}
use server_hub.Client.Backups.Controls.Answered.{press-Tells, is_silent, went_wrong}
use server_hub.Types.Databases.{DbServerInfo, DbItem}
use server_hub.Client.Databases.{Registration, DbEvent, opened, registration, server_target, run}
use server_hub.Client.Discovery
use server_hub.Client.Discovery.{DiscoveryEvent, pressed_one, one_answered, threw}
use server_hub.Client.Discovery.Single.{IsSingle, run-opened-IsSingle}
use server_hub.Client.Databases.Mixed.{two_picks, registration-mixed}
use server_hub.Client.Databases.Ticked.{run-opened-IsTicked, IsTicked}

abbrev cancel : Control
cancel = on_run (Runs.cancel_run (codes "r1") (codes "UPLOADING"))

is_shown-permits_example : is_shown (some (codes "operator")) cancel ≡ (
    permits (role_text (some (codes "operator"))) (backup_access (call_of cancel))
    && offered cancel)
is_shown-permits_example = is_shown-permits (some (codes "operator")) cancel

operator_cancels : is_shown (some (codes "operator")) cancel ≡ true
unfolding is_shown
operator_cancels = refl

viewer_deletes :
    is_shown (some (codes "viewer")) (on_policy (Policies.delete_policy (codes "p1"))) ≡ false
unfolding is_shown
viewer_deletes = refl

abbrev unreachable : Ending
unreachable = succeeded (record {
  status = codes "error";
  latency_ms = none;
  error = some (codes "refused");
  databases = [];
  secret = [];
})

abbrev test : Control
test = on_connection (Connections.test_connection (codes "c1"))

abbrev screen : Screen
screen = record {
  busy = false;
  checking = false;
  testing = none;
  notes = [];
  reloads = 0;
  is_open = true;
  secret = [];
  has_checks = false;
}

press-Tells_example :
    Settles
      (is_silent test unreachable)
      (went_wrong test unreachable)
      screen
      (press test unreachable screen)
unfolding is_missing
press-Tells_example = press-Tells test unreachable screen (refl, refl, refl) refl

refused_test : (press test unreachable screen).notes ≡ (codes "refused", true) ∷ []
unfolding press
refused_test = refl

went_wrong-test : went_wrong test unreachable ≡ true
went_wrong-test = refl

abbrev db_server : Text → DbServerInfo
db_server name = record {
  key = name;
  engine = codes "postgres";
  source = codes "docker";
  name = name;
  host = name;
  port = 5432;
  container = [];
  version = [];
  state = codes "running";
  verified = true;
  has_creds = true;
  registered = [];
}

abbrev shop : DbItem
shop = record { name = codes "shop"; size_bytes = none; registered = false; system = false }

-- The first server has the database "shop", the second none.
abbrev inside : DbServerInfo → List DbItem
inside srv = if eqb srv.name (codes "a") then shop ∷ [] else []

registration-mixed_example :
    (r : Registration) × (registration (
        run
          (two_picks inside
            (db_server (codes "a"))
            (db_server (codes "b"))
            (codes "shop")
            (codes "7"))
          opened)
      ≡ some r)
    × (r.target ≡ server_target (db_server (codes "b")))
    × (r.names ≡ codes "shop" ∷ [])
    × All (λ name. any (λ d. eqb d.name name) (inside (db_server (codes "b"))) ≡ false) r.names
registration-mixed_example =
    registration-mixed inside (db_server (codes "a")) (db_server (codes "b")) shop (codes "7")
      (inl refl) refl refl refl

abbrev picks : List DbEvent
picks = two_picks inside (db_server (codes "a")) (db_server (codes "b")) (codes "shop") (codes "7")

run-opened-IsTicked_example : IsTicked (run picks opened)
run-opened-IsTicked_example = run-opened-IsTicked picks

-- Two presses, of which the second finds the button disabled, and an answer.
abbrev presses : List DiscoveryEvent
presses =
    pressed_one (codes "shop")
    ∷ pressed_one (codes "blog")
    ∷ one_answered (threw (some (codes "no")))
    ∷ []

run-opened-IsSingle_example : IsSingle (Discovery.run presses Discovery.opened)
run-opened-IsSingle_example = run-opened-IsSingle presses

one_import : (Discovery.run presses Discovery.opened).notes ≡ (codes "no", true) ∷ []
unfolding Discovery.run
one_import = refl

-- An import of all that went well tells of a failure when the scan after it throws.
failed_scan :
    (Discovery.scanned_again
      (threw none)
      (Discovery.all_imported (Discovery.got (2, 3)) Discovery.opened)).notes
    ≡ (codes "2 projects imported with 3 services.", false) ∷ (codes "Import failed", true) ∷ []
unfolding Discovery.scanned_again Discovery.all_imported show
failed_scan = refl
