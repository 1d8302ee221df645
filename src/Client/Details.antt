-- ===== src/Client/Details.antt =====
-- client/src/features/dashboard/useProjectDetails.ts: the actions on one project.
pub mod Acts
use server_hub.Prelude.{
  ℕ, zero, suc, Bool, true, false, not, ◌&&◌, ◌||◌, [], ◌∷◌, ◌++◌, List, Option, none, some, take,
  ◌==◌, if◌then◌else◌, String,
}
use server_hub.Text.{Text, codes, is_empty, trim}
use server_hub.Json.{Json}
use server_hub.Endpoints.Parts.{default}
use server_hub.Endpoints.Projects.{Lifecycle, start, stop, restart, action_name}
use server_hub.Api.Project.{project_action}
use server_hub.Api.Deploy.{deploy, rollback, reveal_secret, upsert_secret}
use server_hub.Api.Host.{create_backup, delete_backup, restore_backup}
use server_hub.Api.Calls.{Call, project_call, deploy_call, host_call}
use server_hub.Client.Dashboard.{Failure, Fetch, got, lost}
use server_hub.Client.Transfers.{err_msg}
use server_hub.Client.Toasts.{Ui, push_toast}

pub record Project : Type 0 where
  pub id : ℕ
  pub name : Text

-- The lists, the revealed secrets, the open dialogs, `busy`, the form of a new secret; the toasts of
-- the page, and how often `onChanged` and `refreshLists` were called.
pub record Details : Type 0 where
  pub services : Json
  pub deployments : Json
  pub secrets : Json
  pub backups : Json
  pub revealed : List (ℕ × Text)
  pub pending : Option Lifecycle
  pub pending_rollback : Option ℕ
  pub pending_restore : Option ℕ
  pub progress : Option (Text × Text)
  pub busy : Bool
  pub new_name : Text
  pub new_value : Text
  pub ui : Ui
  pub changes : ℕ
  pub refreshes : ℕ

-- `refreshLists`, by how its calls end: the lists stay as they are where one is lost. Of the backups
-- the call itself is guarded.
unfoldable refresh_lists : Fetch Json → Fetch Json → Fetch Json → Json → Details → Details
refresh_lists (got s) (got d) (got sec) b x = record x {
  services = s;
  deployments = d;
  secrets = sec;
  backups = b;
}
refresh_lists _ _ _ b x = x

unfoldable pub look_up : ℕ → List (ℕ × Text) → Option Text
look_up id [] = none
look_up id ((j, v) ∷ r) = if j == id then some v else look_up id r

unfoldable pub hide : ℕ → List (ℕ × Text) → List (ℕ × Text)
hide id [] = []
hide id ((j, v) ∷ r) = let rest = hide id r in if j == id then rest else (j, v) ∷ rest

-- `revealed[id]`, where a text counts that is not empty.
is_shown : Option Text → Bool
is_shown none = false
is_shown (some v) = not (is_empty v)

pub data Act : Type 0 where
  run_lifecycle : Lifecycle → Act
  ship_it : Act
  rollback_to : ℕ → Option Text → Act
  make_backup : Act
  remove_backup : ℕ → Act
  recover_backup : ℕ → Act
  peek : ℕ → Act
  add_secret : Act

abbrev pub is_start : Lifecycle → Bool
is_start start = true
is_start stop = false
is_start restart = false

peek_call : ℕ → Bool → Option Call
peek_call id true = none
peek_call id false = some (deploy_call (reveal_secret id))

secret_call : Project → Text → Text → Option Call
unfolding trim
secret_call p name given =
    if is_empty (trim name) || is_empty given
    then none
    else some (deploy_call (upsert_secret p.id (trim name) given none))

-- The call that an action makes, if it makes one.
unfoldable pub call_of : Project → Act → Details → Option Call
unfolding look_up is_shown peek_call secret_call
call_of p (run_lifecycle verb) x =
    some (project_call (project_action p.id verb (some (not (is_start verb)))))
call_of p ship_it x = some (deploy_call (deploy p.id none))
call_of p (rollback_to id sha) x = some (deploy_call (rollback p.id id))
call_of p make_backup x = some (host_call (create_backup p.id))
call_of p (remove_backup id) x = some (host_call (delete_backup id))
call_of p (recover_backup id) x = some (host_call (restore_backup id))
call_of p (peek id) x = peek_call id (is_shown (look_up id x.revealed))
call_of p add_secret x = secret_call p x.new_name x.new_value

abbrev quoted_name : Project → Text
quoted_name p = codes "“" ++ p.name ++ codes "”"

lifecycle_message : Project → Lifecycle → Text
lifecycle_message p start = quoted_name p ++ codes " waking up."
lifecycle_message p stop = quoted_name p ++ codes " taking a nap."
lifecycle_message p restart = quoted_name p ++ codes " fresh-started."

abbrev say : Text → Details → Details
say text x = record x { ui = push_toast text false x.ui }

abbrev complain : Text → Details → Details
complain text x = record x { ui = push_toast text true x.ui }

-- What an action does with a result: a text of the reply, the operation's id or the secret.
succeed : Project → Act → Text → Details → Details
unfolding lifecycle_message hide push_toast trim
succeed p (run_lifecycle verb) r x = record (say (lifecycle_message p verb) x) {
  pending = none;
  changes = suc x.changes;
  busy = false;
}
succeed p ship_it r x =
    record (say (codes "Dispatch launched for " ++ quoted_name p ++ codes ".") x) {
      progress = some (r, codes "Dispatching " ++ p.name);
      changes = suc x.changes;
      refreshes = suc x.refreshes;
      busy = false;
    }
succeed p (rollback_to id sha) r x =
    record (say
      (codes "Rolling back to " ++ take 7 (default [] sha) ++ codes " — dispatch running.") x) {
        pending_rollback = none;
        progress = some (r, codes "Rolling back " ++ p.name);
        changes = suc x.changes;
        refreshes = suc x.refreshes;
        busy = false;
      }
succeed p make_backup r x =
    record (say (codes "Snapshot started for " ++ quoted_name p ++ codes ".") x) {
      progress = some (r, codes "Snapshotting " ++ p.name);
      refreshes = suc x.refreshes;
      busy = false;
    }
succeed p (remove_backup id) r x = record (say (codes "Snapshot deleted.") x) {
  refreshes = suc x.refreshes;
}
succeed p (recover_backup id) r x =
    record (say (codes "Restore running — live files are being replaced.") x) {
      pending_restore = none;
      progress = some (r, codes "Restoring " ++ p.name);
      refreshes = suc x.refreshes;
      busy = false;
    }
succeed p (peek id) r x = record (say (codes "Secret revealed — eyes only.") x) {
  revealed = (id, r) ∷ hide id x.revealed;
}
succeed p add_secret r x =
    record (say (codes "Sealed “" ++ trim x.new_name ++ codes "” into the vault.") x) {
      new_name = [];
      new_value = [];
      refreshes = suc x.refreshes;
    }

fallback_of : Act → Text
fallback_of (run_lifecycle verb) = codes (action_name verb) ++ codes " failed"
fallback_of ship_it = codes "Deploy failed"
fallback_of (rollback_to id sha) = codes "Rollback failed"
fallback_of make_backup = codes "Backup failed"
fallback_of (remove_backup id) = codes "Delete failed"
fallback_of (recover_backup id) = codes "Restore failed"
fallback_of (peek id) = codes "Reveal failed"
fallback_of add_secret = codes "Could not seal secret"

-- Whether the action sets `busy`, which its `finally` clears.
unfoldable pub takes_busy : Act → Bool
takes_busy (remove_backup id) = false
takes_busy (peek id) = false
takes_busy add_secret = false
takes_busy _ = true

-- The action's call is lost.
fail : Act → Failure → Details → Details
unfolding fallback_of push_toast takes_busy err_msg
fail a e x = record (complain (err_msg e (fallback_of a)) x) {
  busy = if takes_busy a then false else x.busy;
}

-- Without a call, `peek` hides the secret, and `addSecret` does nothing.
idle : Act → Details → Details
unfolding hide
idle (peek id) x = record x { revealed = hide id x.revealed }
idle _ x = x

settle : Project → Act → Option Call → Fetch Text → Details → Details
unfolding succeed fail idle
settle p a none o x = idle a x
settle p a (some c) (got r) x = succeed p a r x
settle p a (some c) (lost e) x = fail a e x

-- An action from its click to its end, by how its call ends.
unfoldable pub perform : Project → Act → Fetch Text → Details → Details
unfolding call_of settle
perform p a o x = settle p a (call_of p a x) o x
