-- ===== src/Client/Wizard/Silent.antt =====
-- The wizard that connects a server does not listen again after its time-out.
use server_hub.Prelude.{◌≡◌, refl, false, List, [], ◌∷◌, arith, All}
use server_hub.Client.Wizard.{
  Step, details, environment, command, connection, PollStatus, connecting, timeout, quiet, Wizard,
  created, token_made, WizardEvent, reviewed_command, retried, rendered, server_created,
  token_created, ticked, polled, expired, poll_answered, press, review, retry, happen, run,
}

-- The last step after its time-out: nothing is listened to any more.
pub record IsTimedOut (status : PollStatus) (w : Wizard) : Type 0 where
  pub last : w.step ≡ connection
  pub shown : w.poll_status ≡ status
  pub silent : w.polling ≡ false
  pub unarmed : w.armed ≡ false
  pub unasked : w.asked ≡ []
  pub settled : w.setup ≡ quiet

abbrev pub IsNoRender : WizardEvent → Type 0
IsNoRender rendered = ⊥
IsNoRender _ = Unit {0}

review-IsTimedOut :
    (s : PollStatus) (w : Wizard)
    → s ≡ connecting
    → IsTimedOut connecting w
    → IsTimedOut connecting (review s w)
unfolding review
review-IsTimedOut timeout w e h = cc e
review-IsTimedOut _ w e h = h

retry-IsTimedOut :
    (s : PollStatus) (w : Wizard)
    → s ≡ connecting
    → IsTimedOut connecting w
    → IsTimedOut connecting (retry s w)
unfolding retry
retry-IsTimedOut timeout w e h = cc e
retry-IsTimedOut _ w e h = h

press-IsTimedOut :
    (s : Step) (e : WizardEvent) (w : Wizard)
    → s ≡ connection
    → IsTimedOut connecting w
    → IsTimedOut connecting (press s e w)
unfolding press
press-IsTimedOut details e w c h = cc c
press-IsTimedOut environment e w c h = cc c
press-IsTimedOut command e w c h = cc c
press-IsTimedOut connection retried w c h = retry-IsTimedOut w.poll_status w h.shown h
press-IsTimedOut connection reviewed_command w c h = review-IsTimedOut w.poll_status w h.shown h
press-IsTimedOut connection _ w c h = h

happen-IsTimedOut :
    (e : WizardEvent) (w : Wizard)
    → IsNoRender e
    → IsTimedOut connecting w
    → IsTimedOut connecting (happen e w)
unfolding happen created token_made
happen-IsTimedOut rendered w n h = absurd n
happen-IsTimedOut (server_created o) w n h = ground arith
happen-IsTimedOut (token_created o) w n h = ground arith
happen-IsTimedOut ticked w n h = ground arith
happen-IsTimedOut polled w n h = ground arith
happen-IsTimedOut (poll_answered g shown) w n h = ground arith
happen-IsTimedOut expired w n h = ground arith
happen-IsTimedOut e w n h = press-IsTimedOut w.step e w h.last h

run-IsTimedOut :
    (es : List WizardEvent) (w : Wizard)
    → All IsNoRender es
    → IsTimedOut connecting w
    → IsTimedOut connecting (run es w)
unfolding run
run-IsTimedOut [] w n h = h
run-IsTimedOut (e ∷ es) w n h = run-IsTimedOut es (happen e w) n.1 (happen-IsTimedOut e w n.0 h)

retried-IsTimedOut :
    (s : Step) (p : PollStatus) (w : Wizard)
    → s ≡ connection
    → w.poll_status ≡ p
    → IsTimedOut timeout w
    → IsTimedOut connecting (press s retried w)
unfolding press retry
retried-IsTimedOut details p w c e h = cc c
retried-IsTimedOut environment p w c e h = cc c
retried-IsTimedOut command p w c e h = cc c
retried-IsTimedOut connection p w c e h = ground (arith, h.shown)

-- After a time-out `Retry Listening` says that the wizard listens, but until the page renders anew no
-- request goes out, no timer runs and no time-out comes, whatever happens.
pub run-retried :
    (es : List WizardEvent) (w : Wizard)
    → All IsNoRender es
    → IsTimedOut timeout w
    → IsTimedOut connecting (run (retried ∷ es) w)
unfolding run happen
run-retried es w n h =
    run-IsTimedOut es (press w.step retried w) n
      (retried-IsTimedOut w.step w.poll_status w h.last refl h)
