-- ===== src/Client/Progress/Followed.antt =====
-- The dialog of an operation follows it to its end, and reports the end once.
use server_hub.Prelude.{
  ◌≡◌, refl, Bool, true, false, List, [], ◌∷◌, Option, none, some, if◌then◌else◌, arith, subst, All,
}
use server_hub.Client.Progress.{
  Operation, Phase, asking, resting, ended, gone, Progress, opened, is_over, answer, ProgressEvent,
  answered, transient, timed_out, another, unmounted, waits, step, run,
}

-- The last answer says that the operation is over.
abbrev pub over : Option Operation → Bool
over none = false
over (some o) = is_over o.status

-- While the operation is not over the effect waits for exactly one thing.
abbrev Agrees : Phase → Bool → Type 0
Agrees asking b = b ≡ false
Agrees resting b = b ≡ false
Agrees ended b = b ≡ true
Agrees gone b = Unit {0}

pub record IsFollowed (p : Progress) : Type 0 where
  pub first : p.was_done ≡ false
  pub phased : Agrees p.phase (over p.op)
  pub counted : p.finished ≡ (if over p.op then 1 else 0)

abbrev IsSame : ProgressEvent → Type 0
IsSame another = ⊥
IsSame _ = Unit {0}

answer-IsFollowed :
    (cur : Operation) (p : Progress) → IsFollowed p → over p.op ≡ false → IsFollowed (answer cur p)
unfolding answer is_over
answer-IsFollowed cur p h k = ground (arith, h.counted)

waits-IsFollowed :
    (ph : Phase) (e : ProgressEvent) (p : Progress)
    → p.phase ≡ ph
    → IsFollowed p
    → IsFollowed (waits ph e p)
unfolding waits
waits-IsFollowed asking (answered cur) p e h =
    answer-IsFollowed cur p h (subst (λ ph. Agrees ph (over p.op)) e h.phased)
waits-IsFollowed asking transient p e h =
    ground (arith, subst (λ ph. Agrees ph (over p.op)) e h.phased)
waits-IsFollowed resting timed_out p e h =
    ground (arith, subst (λ ph. Agrees ph (over p.op)) e h.phased)
waits-IsFollowed _ _ p e h = h

step-IsFollowed :
    (e : ProgressEvent) (p : Progress) → IsSame e → IsFollowed p → IsFollowed (step e p)
unfolding step
step-IsFollowed another p s h = absurd s
step-IsFollowed unmounted p s h = record { first = h.first; phased = tt; counted = h.counted }
step-IsFollowed e p s h = waits-IsFollowed p.phase e p refl h

run-IsFollowed :
    (es : List ProgressEvent) (p : Progress) → All IsSame es → IsFollowed p → IsFollowed (run es p)
unfolding run
run-IsFollowed [] p s h = h
run-IsFollowed (e ∷ es) p s h = run-IsFollowed es (step e p) s.1 (step-IsFollowed e p s.0 h)

-- Whatever comes for one operation: `onDone` has been called once if an answer said that the operation is
-- over, and not at all otherwise; and a dialog that is not taken away waits for an answer or for its timer
-- exactly until the operation is over.
pub run-opened-IsFollowed : (es : List ProgressEvent) → All IsSame es → IsFollowed (run es opened)
run-opened-IsFollowed es s =
    run-IsFollowed es opened s (record { first = refl; phased = refl; counted = refl })
