-- ===== src/Session/Flight.antt =====
-- client/src/lib/api.ts: many calls of `req` at once, sharing one `refreshPromise`. JavaScript runs
-- one reaction at a time, so an execution is a sequence of events: a call starts, the fetch of a
-- call settles, the rotation settles. When the rotation settles, `refreshPromise` is cleared and the
-- calls that await it go on as microtasks, before the next event.
pub mod Invariant
pub mod Bounds
use server_hub.Prelude.{
  ℕ, zero, suc, ◌+◌, Bool, true, false, ◌||◌, List, [], ◌∷◌, ◌++◌, if◌then◌else◌,
}
use server_hub.Text.{Text}
use server_hub.Session.{Fetched, Outcome, settle, renewed, wants_refresh}

-- Where a call is: its fetch is out (`sent retry`), it awaits the rotation with the reply it got, or
-- it has settled.
pub data Phase : Type 0 where
  sent : Bool → Phase
  waiting : Fetched → Phase
  settled : Outcome → Phase

pub record Task : Type 0 where
  pub path : Text
  pub phase : Phase
  pub fetches : ℕ

-- The module's state: the calls in the order they were made, `refreshPromise !== null`, and how many
-- rotations were requested.
pub record Hub : Type 0 where
  pub tasks : List Task
  pub refreshing : Bool
  pub refreshes : ℕ

pub data Event : Type 0 where
  call : Text → Event
  reply : ℕ → Fetched → Event
  rotated : Fetched → Event

unfoldable pub start : Hub
start = record { tasks = []; refreshing = false; refreshes = 0 }

-- The reaction to a fetch that settles; the flag asks for a rotation.
react : Phase → Fetched → Task → Task × Bool
react (sent true) f t =
    if wants_refresh t.path f
    then (record t { phase = waiting f }, true)
    else (record t { phase = settled (settle f) }, false)
react (sent false) f t = (record t { phase = settled (settle f) }, false)
react _ f t = (t, false)

pub on_reply : Fetched → Task → Task × Bool
unfolding react
on_reply f t = react t.phase f t

reply_at : ℕ → Fetched → List Task → List Task
unfolding on_reply
reply_at i f [] = []
reply_at zero f (t ∷ ts) = (on_reply f t).0 ∷ ts
reply_at (suc i) f (t ∷ ts) = t ∷ reply_at i f ts

asks_at : ℕ → Fetched → List Task → Bool
unfolding on_reply
asks_at i f [] = false
asks_at zero f (t ∷ ts) = (on_reply f t).1
asks_at (suc i) f (t ∷ ts) = asks_at i f ts

-- `refreshSession`: a rotation that is under way is shared.
ask : Bool → Hub → Hub
ask false h = h
ask true h = if h.refreshing then h else record h { refreshing = true; refreshes = suc h.refreshes }

-- A call goes on after `await refreshSession()`.
resume : Bool → Phase → Task → Task
resume true (waiting f) t = record t { phase = sent false; fetches = suc t.fetches }
resume false (waiting f) t = record t { phase = settled (settle f) }
resume _ _ t = t

resume_all : Bool → List Task → List Task
unfolding resume
resume_all ok [] = []
resume_all ok (t ∷ ts) = resume ok t.phase t ∷ resume_all ok ts

unfoldable pub step : Event → Hub → Hub
unfolding reply_at asks_at ask resume_all
step (call path) h = record h {
  tasks = h.tasks ++ record { path = path; phase = sent true; fetches = 1 } ∷ [];
}
step (reply i f) h = ask (asks_at i f h.tasks) (record h { tasks = reply_at i f h.tasks })
step (rotated f) h =
    if h.refreshing
    then record h { tasks = resume_all (renewed f) h.tasks; refreshing = false }
    else h

unfoldable pub run : List Event → Hub → Hub
unfolding step
run [] h = h
run (e ∷ es) h = run es (step e h)
