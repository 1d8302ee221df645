-- ===== src/Session/Flight/Bounds.antt =====
-- How much the calls send together, and that none of them is left hanging.
use server_hub.Prelude.{
  ℕ, zero, suc, ◌+◌, ◌*◌, ◌≤◌, ◌≡◌, ◌≢◌, refl, Bool, true, false, List, [], ◌∷◌, ◌++◌, arith, All,
  length, length-append,
}
use server_hub.Session.{Fetched, Outcome, renewed}
use server_hub.Session.Flight.{
  Phase, sent, waiting, settled, Task, Hub, Event, call, reply, rotated, start, on_reply, reply_at,
  asks_at, resume, resume_all, step, run,
}
use server_hub.Session.Flight.Invariant.{InPhase, IsOrderly, run-IsSound}

abbrev pub calls : List Event → ℕ
calls [] = 0
calls (call path ∷ es) = suc (calls es)
calls (reply i f ∷ es) = calls es
calls (rotated f ∷ es) = calls es

abbrev pub rotations : List Event → ℕ
rotations [] = 0
rotations (rotated f ∷ es) = suc (rotations es)
rotations (call path ∷ es) = rotations es
rotations (reply i f ∷ es) = rotations es

abbrev pub all_fetches : List Task → ℕ
all_fetches [] = 0
all_fetches (t ∷ ts) = t.fetches + all_fetches ts

-- A call that has not been answered yet.
abbrev fresh : Phase → ℕ
fresh (sent true) = 1
fresh _ = 0

abbrev all_fresh : List Task → ℕ
all_fresh [] = 0
all_fresh (t ∷ ts) = fresh t.phase + all_fresh ts

abbrev flag : Bool → ℕ
flag true = 1
flag false = 0

-- One rotation at a time: a second one is requested only after the first has settled.
step-refreshes :
    (e : Event) (h : Hub)
    → (step e h).refreshes + flag h.refreshing + rotations []
      ≤ h.refreshes + flag (step e h).refreshing + rotations (e ∷ [])
unfolding step
step-refreshes (call path) h = omega arith
step-refreshes (reply i f) h = ground arith
step-refreshes (rotated f) h = ground arith

run-refreshes_from :
    (es : List Event) (h : Hub)
    → (run es h).refreshes + flag h.refreshing
      ≤ h.refreshes + rotations es + flag (run es h).refreshing
unfolding run
run-refreshes_from [] h = omega arith
run-refreshes_from (call p ∷ es) h =
    omega (arith, run-refreshes_from es (step (call p) h), step-refreshes (call p) h)
run-refreshes_from (reply i f ∷ es) h =
    omega (arith, run-refreshes_from es (step (reply i f) h), step-refreshes (reply i f) h)
run-refreshes_from (rotated f ∷ es) h =
    omega (arith, run-refreshes_from es (step (rotated f) h), step-refreshes (rotated f) h)

flag-le : (b : Bool) → flag b ≤ 1
flag-le b = ground arith

-- At any time at most one more rotation was requested than has settled.
pub run-refreshes : (es : List Event) → (run es start).refreshes ≤ suc (rotations es)
unfolding start
run-refreshes es = omega (arith, run-refreshes_from es start, flag-le (run es start).refreshing)

on_reply-fresh :
    (f : Fetched) (t : Task) → fresh (on_reply f t).0.phase + flag (on_reply f t).1 ≤ fresh t.phase
unfolding on_reply
on_reply-fresh f t = ground arith

reply_at-fresh :
    (i : ℕ) (f : Fetched) (ts : List Task)
    → all_fresh (reply_at i f ts) + flag (asks_at i f ts) ≤ all_fresh ts
unfolding reply_at asks_at
reply_at-fresh i f [] = omega arith
reply_at-fresh zero f (t ∷ ts) = omega (arith, on_reply-fresh f t)
reply_at-fresh (suc i) f (t ∷ ts) = omega (arith, reply_at-fresh i f ts)

length-reply_at : (i : ℕ) (f : Fetched) (ts : List Task) → length (reply_at i f ts) ≡ length ts
unfolding reply_at
length-reply_at i f [] = refl
length-reply_at zero f (t ∷ ts) = refl
length-reply_at (suc i) f (t ∷ ts) = omega (arith, length-reply_at i f ts)

resume-fresh : (ok : Bool) (t : Task) → fresh (resume ok t.phase t).phase ≤ fresh t.phase
unfolding resume
resume-fresh ok t = ground arith

resume_all-fresh : (ok : Bool) (ts : List Task) → all_fresh (resume_all ok ts) ≤ all_fresh ts
unfolding resume_all
resume_all-fresh ok [] = omega arith
resume_all-fresh ok (t ∷ ts) = omega (arith, resume-fresh ok t, resume_all-fresh ok ts)

length-resume_all : (ok : Bool) (ts : List Task) → length (resume_all ok ts) ≡ length ts
unfolding resume_all
length-resume_all ok [] = refl
length-resume_all ok (t ∷ ts) = omega (arith, length-resume_all ok ts)

all_fresh-append : (ts us : List Task) → all_fresh (ts ++ us) ≡ all_fresh ts + all_fresh us
all_fresh-append [] us = omega arith
all_fresh-append (t ∷ ts) us = omega (arith, all_fresh-append ts us)

step-length : (e : Event) (h : Hub) → length (step e h).tasks ≡ length h.tasks + calls (e ∷ [])
unfolding step
step-length (call p) h = omega (arith, length-append h.tasks _)
step-length (reply i f) h = ground (arith, length-reply_at i f h.tasks)
step-length (rotated f) h = ground (arith, length-resume_all (renewed f) h.tasks)

-- A rotation uses up the first answer of a call.
step-fresh :
    (e : Event) (h : Hub)
    → (step e h).refreshes + all_fresh (step e h).tasks
      ≤ h.refreshes + all_fresh h.tasks + calls (e ∷ [])
unfolding step
step-fresh (call p) h = omega (arith, all_fresh-append h.tasks _)
step-fresh (reply i f) h = ground (arith, reply_at-fresh i f h.tasks)
step-fresh (rotated f) h = ground (arith, resume_all-fresh (renewed f) h.tasks)

run-length_from : (es : List Event) (h : Hub) → length (run es h).tasks ≡ length h.tasks + calls es
unfolding run
run-length_from [] h = omega arith
run-length_from (call p ∷ es) h =
    omega (arith, run-length_from es (step (call p) h), step-length (call p) h)
run-length_from (reply i f ∷ es) h =
    omega (arith, run-length_from es (step (reply i f) h), step-length (reply i f) h)
run-length_from (rotated f ∷ es) h =
    omega (arith, run-length_from es (step (rotated f) h), step-length (rotated f) h)

run-fresh_from :
    (es : List Event) (h : Hub)
    → (run es h).refreshes + all_fresh (run es h).tasks ≤ h.refreshes + all_fresh h.tasks + calls es
unfolding run
run-fresh_from [] h = omega arith
run-fresh_from (call p ∷ es) h =
    omega (arith, run-fresh_from es (step (call p) h), step-fresh (call p) h)
run-fresh_from (reply i f ∷ es) h =
    omega (arith, run-fresh_from es (step (reply i f) h), step-fresh (reply i f) h)
run-fresh_from (rotated f ∷ es) h =
    omega (arith, run-fresh_from es (step (rotated f) h), step-fresh (rotated f) h)

phase-fetches : (b : Bool) (t : Task) → IsOrderly b t → t.fetches ≤ 2
phase-fetches b t h = ground arith

all_fetches-le : (b : Bool) (ts : List Task) → All (IsOrderly b) ts → all_fetches ts ≤ 2 * length ts
all_fetches-le b [] h = omega arith
all_fetches-le b (t ∷ ts) h = omega (arith, phase-fetches b t h.0, all_fetches-le b ts h.1)

-- All that a run of events has sent: the fetches of the calls, and the rotations.
abbrev pub traffic : Hub → ℕ
traffic h = all_fetches h.tasks + h.refreshes

-- Whatever the server answers and in whatever order, n calls send at most 3n requests, at most n of
-- them rotations.
pub run-traffic :
    (es : List Event)
    → ((run es start).refreshes ≤ calls es) × (traffic (run es start) ≤ 3 * calls es)
unfolding start
run-traffic es = (
  omega (arith, run-fresh_from es start),
  omega (
    arith,
    run-fresh_from es start,
    run-length_from es start,
    all_fetches-le (run es start).refreshing (run es start).tasks (run-IsSound es start tt),
  ),
)

abbrev pub IsOut : Task → Type 0
IsOut t = (b : Bool) × (t.phase ≡ sent b)

abbrev pub IsSettled : Task → Type 0
IsSettled t = (o : Outcome) × (t.phase ≡ settled o)

orderly-IsSettled :
    (p : Phase) (n : ℕ)
    → InPhase false p n
    → ((b : Bool) → p ≢ sent b)
    → (o : Outcome) × (p ≡ settled o)
orderly-IsSettled (sent b) n h out = absurd (out b refl)
orderly-IsSettled (waiting f) n h out = cc
orderly-IsSettled (settled o) n h out = (o, refl)

idle-IsSettled :
    (ts : List Task) → All (IsOrderly false) ts → All (λ t. ¬ IsOut t) ts → All IsSettled ts
idle-IsSettled [] h k = tt
idle-IsSettled (t ∷ ts) h k =
    (orderly-IsSettled t.phase t.fetches h.0 (λ b e. k.0 (b, e)), idle-IsSettled ts h.1 k.1)

-- No call is lost: once no fetch and no rotation is out, every call has settled.
pub run-IsSettled :
    (es : List Event)
    → (run es start).refreshing ≡ false
    → All (λ t. ¬ IsOut t) (run es start).tasks
    → All IsSettled (run es start).tasks
unfolding start
run-IsSettled es idle quiet =
    idle-IsSettled (run es start).tasks (rw idle at (run-IsSound es start tt)) quiet
