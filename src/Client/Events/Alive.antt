-- ===== src/Client/Events/Alive.antt =====
-- The live subscription of the web client neither gives up nor outlives its component.
use server_hub.Prelude.{◌≡◌, refl, Bool, true, false, not, List, [], ◌∷◌, ◌∙◌, arith}
use server_hub.Client.Events.{Feed, FeedEvent, frame, dropped, timed_out, unmount, step, run, mount}

-- While mounted it is connected or waits to connect again, never both; afterwards neither.
pub record IsAlive (f : Feed) : Type 0 where
  pub mounted : f.closed ≡ false → f.timer ≡ not f.connected
  pub ended : f.closed ≡ true → (f.timer ≡ false) × (f.connected ≡ false)

mount-IsAlive : (succeeds : Bool) → IsAlive (mount succeeds)
unfolding mount
mount-IsAlive succeeds = ground arith

step-IsAlive : (e : FeedEvent) (f : Feed) → IsAlive f → IsAlive (step e f)
unfolding step
step-IsAlive (frame t body) f h = ground arith
step-IsAlive dropped f h = ground arith
step-IsAlive (timed_out succeeds) f h = ground arith
step-IsAlive unmount f h = ground arith

run-IsAlive_from : (es : List FeedEvent) (f : Feed) → IsAlive f → IsAlive (run es f)
unfolding run
run-IsAlive_from [] f h = h
run-IsAlive_from (e ∷ es) f h = run-IsAlive_from es (step e f) (step-IsAlive e f h)

-- Whatever happens, a mounted subscription is connected or waits to connect again, and never both, and
-- after the end of the component it is neither.
pub run-IsAlive : (succeeds : Bool) (es : List FeedEvent) → IsAlive (run es (mount succeeds))
run-IsAlive succeeds es = run-IsAlive_from es (mount succeeds) (mount-IsAlive succeeds)

step-silent :
    (e : FeedEvent) (f : Feed)
    → IsAlive f
    → f.closed ≡ true
    → ((step e f).closed ≡ true) × ((step e f).handled ≡ f.handled)
unfolding step
step-silent (frame t body) f h k = ground arith
step-silent dropped f h k = ground arith
step-silent (timed_out succeeds) f h k = ground arith
step-silent unmount f h k = ground arith

run-silent :
    (es : List FeedEvent) (f : Feed) → IsAlive f → f.closed ≡ true → (run es f).handled ≡ f.handled
unfolding run
run-silent [] f h k = refl
run-silent (e ∷ es) f h k =
    run-silent es (step e f) (step-IsAlive e f h) (step-silent e f h k).0 ∙ (step-silent e f h k).1

-- After the end of the component the handler is not called any more.
pub run-after_unmount :
    (succeeds : Bool) (es later : List FeedEvent)
    → (run later (step unmount (run es (mount succeeds)))).handled
      ≡ (run es (mount succeeds)).handled
unfolding step
run-after_unmount succeeds es later =
    run-silent later (step unmount (run es (mount succeeds)))
      (step-IsAlive unmount (run es (mount succeeds)) (run-IsAlive succeeds es)) refl
