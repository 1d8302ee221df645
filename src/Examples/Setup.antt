-- ===== src/Examples/Setup.antt =====
-- The wizard for a new server, the log of a container and the progress of an update at concrete runs.
use server_hub.Prelude.{◌≡◌, refl, List, [], ◌∷◌, none}
use server_hub.Text.{codes}
use server_hub.Client.Dashboard.{got}
use server_hub.Client.Logs
use server_hub.Client.Logs.{LogEvent, message, toggled}
use server_hub.Client.Progress
use server_hub.Client.Progress.{ProgressEvent, transient, timed_out}
use server_hub.Client.Progress.Followed.{IsFollowed, run-opened-IsFollowed}
use server_hub.Client.Wizard
use server_hub.Client.Wizard.{
  WizardEvent, Wizard, typed_name, next, proceeded, server_created, token_created, entered, expired,
  retried, ticked, polled, timeout, connecting,
}
use server_hub.Client.Wizard.Silent.{IsTimedOut, run-retried}

abbrev setup : List WizardEvent
setup =
    typed_name (codes "db")
    ∷ next
    ∷ proceeded
    ∷ server_created (got 7)
    ∷ token_created (got (codes "secret"))
    ∷ entered
    ∷ []

abbrev expired_wizard : Wizard
unfolding Wizard.run
expired_wizard = Wizard.run (expired ∷ []) (Wizard.run setup Wizard.opened)

run-retried_example :
    IsTimedOut connecting (Wizard.run (retried ∷ ticked ∷ polled ∷ []) expired_wizard)
unfolding Wizard.run
run-retried_example =
    run-retried (ticked ∷ polled ∷ []) expired_wizard (tt, (tt, tt))
      (record {
        last = refl;
        shown = refl;
        silent = refl;
        unarmed = refl;
        unasked = refl;
        settled = refl;
      })

abbrev stream : List LogEvent
stream =
    message (codes "one\ntwo\n")
    ∷ message (codes "three")
    ∷ toggled
    ∷ toggled
    ∷ message (codes "four")
    ∷ []

one_line_left : (Logs.run stream (Logs.opened (codes "web"))).lines ≡ codes "four" ∷ []
unfolding Logs.run
one_line_left = refl

abbrev polls : List ProgressEvent
polls =
    transient
    ∷ timed_out
    ∷ Progress.answered (record { status = codes "RUNNING"; error = none })
    ∷ timed_out
    ∷ Progress.answered (record { status = codes "SUCCESS"; error = none })
    ∷ []

run-opened-IsFollowed_example : IsFollowed (Progress.run polls Progress.opened)
run-opened-IsFollowed_example = run-opened-IsFollowed polls (tt, (tt, (tt, (tt, (tt, tt)))))
