-- ===== src/Session/Flight/Invariant.antt =====
-- What holds of the calls between two events.
use server_hub.Prelude.{
  ℕ, zero, suc, ◌≤◌, ◌≡◌, refl, Bool, true, false, List, [], ◌∷◌, arith, All, All-append,
  Bool-cases, inl, inr,
}
use server_hub.Session.{Fetched, renewed}
use server_hub.Session.Flight.{
  Phase, sent, waiting, settled, Task, Hub, Event, call, reply, rotated, on_reply, reply_at,
  asks_at, ask, resume, resume_all, step, run,
}

-- How often a call has fetched, by its phase; it waits only while a rotation is under way.
abbrev pub InPhase : Bool → Phase → ℕ → Type 0
InPhase r (sent true) n = n ≡ 1
InPhase r (sent false) n = n ≡ 2
InPhase r (waiting f) n = (n ≡ 1) × (r ≡ true)
InPhase r (settled o) n = n ≤ 2

abbrev pub IsOrderly : Bool → Task → Type 0
IsOrderly r t = InPhase r t.phase t.fetches

abbrev pub IsSound : Hub → Type 0
IsSound h = All (IsOrderly h.refreshing) h.tasks

-- Starting a rotation keeps what held without one.
weaken : (p : Phase) (n : ℕ) (b : Bool) → InPhase b p n → InPhase true p n
weaken (sent true) n b h = h
weaken (sent false) n b h = h
weaken (waiting f) n b h = (h.0, refl)
weaken (settled o) n b h = h

weaken-All : (ts : List Task) (b : Bool) → All (IsOrderly b) ts → All (IsOrderly true) ts
weaken-All [] b h = tt
weaken-All (t ∷ ts) b (ht, h) = (weaken t.phase t.fetches b ht, weaken-All ts b h)

on_reply-calm :
    (b : Bool) (f : Fetched) (t : Task)
    → IsOrderly b t
    → (on_reply f t).1 ≡ false
    → IsOrderly b (on_reply f t).0
unfolding on_reply
on_reply-calm b f t h calm = ground arith

on_reply-asks :
    (b : Bool) (f : Fetched) (t : Task) → IsOrderly b t → IsOrderly true (on_reply f t).0
unfolding on_reply
on_reply-asks b f t h = ground arith

resume-IsOrderly : (ok : Bool) (t : Task) → IsOrderly true t → IsOrderly false (resume ok t.phase t)
unfolding resume
resume-IsOrderly ok t h = ground arith

resume_all-IsOrderly :
    (ok : Bool) (ts : List Task)
    → All (IsOrderly true) ts
    → All (IsOrderly false) (resume_all ok ts)
unfolding resume_all
resume_all-IsOrderly ok [] h = tt
resume_all-IsOrderly ok (t ∷ ts) h = (resume-IsOrderly ok t h.0, resume_all-IsOrderly ok ts h.1)

reply_at-calm :
    (b : Bool) (i : ℕ) (f : Fetched) (ts : List Task)
    → All (IsOrderly b) ts
    → asks_at i f ts ≡ false
    → All (IsOrderly b) (reply_at i f ts)
unfolding reply_at asks_at
reply_at-calm b i f [] h calm = tt
reply_at-calm b zero f (t ∷ ts) h calm = (on_reply-calm b f t h.0 calm, h.1)
reply_at-calm b (suc i) f (t ∷ ts) h calm = (h.0, reply_at-calm b i f ts h.1 calm)

reply_at-asks :
    (b : Bool) (i : ℕ) (f : Fetched) (ts : List Task)
    → All (IsOrderly b) ts
    → All (IsOrderly true) (reply_at i f ts)
unfolding reply_at
reply_at-asks b i f [] h = tt
reply_at-asks b zero f (t ∷ ts) h = (on_reply-asks b f t h.0, weaken-All ts b h.1)
reply_at-asks b (suc i) f (t ∷ ts) h = (weaken t.phase t.fetches b h.0, reply_at-asks b i f ts h.1)

ask-IsSound : (h : Hub) → All (IsOrderly true) h.tasks → IsSound (ask true h)
unfolding ask
ask-IsSound h s = elim (Bool-cases h.refreshing) [ inl busy ↦ rw busy s | inr idle ↦ rw idle s ]

-- Every event keeps the calls in order.
step-IsSound : (e : Event) (h : Hub) → IsSound h → IsSound (step e h)
unfolding step
step-IsSound (call path) h s = All-append (IsOrderly h.refreshing) h.tasks _ s (refl, tt)
step-IsSound (reply i f) h s = elim (Bool-cases (asks_at i f h.tasks)) [
  | inr calm ↦ rw calm (reply_at-calm h.refreshing i f h.tasks s calm)
  | inl asks ↦ rw asks (ask-IsSound _ (reply_at-asks h.refreshing i f h.tasks s))
]
step-IsSound (rotated f) h s = elim (Bool-cases h.refreshing) [
  | inl busy ↦ rw busy (resume_all-IsOrderly (renewed f) h.tasks (rw busy at s))
  | inr idle ↦ rw idle (rw idle at s)
]

-- Every run of events keeps the invariant IsSound.
pub run-IsSound : (es : List Event) (h : Hub) → IsSound h → IsSound (run es h)
unfolding run
run-IsSound [] h s = s
run-IsSound (e ∷ es) h s = run-IsSound es (step e h) (step-IsSound e h s)
