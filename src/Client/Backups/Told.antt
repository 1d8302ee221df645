-- ===== src/Client/Backups/Told.antt =====
-- The states that the tabs of client/src/features/dbbackups keep while a call is out, the setters that their
-- handlers use, and the texts that they share.
use server_hub.Prelude.{
  ℕ, suc, String, Bool, true, false, List, [], ◌∷◌, ◌++◌, Option, none, some, length, ◌==◌, not,
  if◌then◌else◌,
}
use server_hub.Text.{Text, codes, eqb}
use server_hub.Text.Decimal.{show}
use server_hub.Client.Transitions.{Note}

-- What is told or shown of an answer: a test's status, latency, error and databases, and a new secret.
pub record Reply : Type 0 where
  pub status : Text
  pub latency_ms : Option ℕ
  pub error : Option Text
  pub databases : List Text
  pub secret : Text

-- How a call ends: with a reply, or with the message of an error, none where what is thrown is no error.
pub data Ending : Type 0 where
  succeeded : Reply → Ending
  threw : Option Text → Ending

-- The states of a tab: the flags of its buttons, the id that is tested, the toasts, how often its lists are
-- loaded anew, whether its dialog is open, the secret it shows, and whether it shows the checks of a job.
pub record Screen : Type 0 where
  pub busy : Bool
  pub checking : Bool
  pub testing : Option Text
  pub notes : List Note
  pub reloads : ℕ
  pub is_open : Bool
  pub secret : Text
  pub has_checks : Bool

abbrev pub set_busy : Bool → Screen → Screen
set_busy b s = record s { busy = b }

abbrev pub set_checking : Bool → Screen → Screen
set_checking b s = record s { checking = b }

abbrev pub set_testing : Option Text → Screen → Screen
set_testing o s = record s { testing = o }

abbrev pub push : Text → Bool → Screen → Screen
push text bad s = record s { notes = s.notes ++ (text, bad) ∷ [] }

abbrev pub reload : Screen → Screen
reload s = record s { reloads = suc s.reloads }

-- The dialog goes: `onClose`, or its object is set to null.
abbrev pub close : Screen → Screen
close s = record s { is_open = false }

abbrev pub stay : Screen → Screen
stay s = s

abbrev pub set_secret : Text → Screen → Screen
set_secret t s = record s { secret = t }

abbrev pub show_checks : Screen → Screen
show_checks s = record s { has_checks = true }

abbrev pub saved : String → Text → String → Text
saved what name how = codes what ++ (codes " \"" ++ (name ++ (codes "\" " ++ codes how)))

latency : Option ℕ → Text
latency none = []
latency (some ms) = codes " (" ++ (show ms ++ codes "ms)")

-- What is found by testing a connection; the middle dot is written in another encoding.
unfoldable pub found_text : List Text → Text
found_text [] = []
found_text ds =
    codes " Â· "
    ++ (show (length ds)
        ++ (codes " database" ++ ((if length ds == 1 then [] else codes "s") ++ codes " found")))

error_text : Option Text → Text
error_text none = codes "Test failed"
error_text (some e) = e

-- The text of a test, and whether it is bad.
unfoldable pub test_text : String → Text → Reply → Text
unfolding latency error_text
test_text reached detail t =
    if eqb t.status (codes "ok")
    then codes reached ++ (latency t.latency_ms ++ detail)
    else error_text t.error

abbrev pub is_bad : Reply → Bool
is_bad t = not (eqb t.status (codes "ok"))

-- `e instanceof Error ? e.message : fallback`
unfoldable pub thrown : String → Option Text → Text
thrown fallback none = codes fallback
thrown fallback (some message) = message
