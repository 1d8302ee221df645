-- ===== src/Client/Transitions/Changes.antt =====
-- The dashboard toasts changes only: a poll that brings what the last one brought says nothing.
use server_hub.Prelude.{
  ℕ, Bool, true, false, List, [], ◌∷◌, ◌++◌, some, map, any, not, ◌==◌, ◌&&◌, ◌||◌, if◌then◌else◌,
  ◌≡◌, ◌≢◌, refl, arith, if-elim, subst, Has, Has-append_left, Has-append_right, Bool-cases, inl,
  inr, sym, All,
}
use server_hub.Text.{codes}
use server_hub.Types.{Project, Deployment, DashboardData}
use server_hub.Status.{FleetStatus, sailing, choppy, lost, docked, to_fleet_status, fleet_label}
use server_hub.Client.Transitions.{
  set_status, status_at, map_onto, statuses, same_status, name_of, Note, unarmed, Choices,
  health_note, health_notes, deployment_notes, is_hot, health_part, deployment_part, hot_note,
  poll_notes, poll,
}

status_at-set_status :
    (k j : ℕ) (v : FleetStatus) (m : List (ℕ × FleetStatus))
    → status_at j (set_status k v m) ≡ (if k == j then some v else status_at j m)
unfolding status_at set_status
status_at-set_status k j v [] = refl
status_at-set_status k j v ((i, w) ∷ m) = ground (arith, status_at-set_status k j v m)

-- A key that is not in the map.
abbrev Misses : ℕ → List (ℕ × FleetStatus) → Type 0
Misses k [] = Unit
Misses k ((j, w) ∷ m) = (j ≢ k) × Misses k m

abbrev IsMap : List (ℕ × FleetStatus) → Type 0
IsMap [] = Unit
IsMap ((j, w) ∷ m) = Misses j m × IsMap m

set_status-Misses :
    (k j : ℕ) (v : FleetStatus) (m : List (ℕ × FleetStatus))
    → k ≢ j
    → Misses j m
    → Misses j (set_status k v m)
unfolding set_status
set_status-Misses k j v [] n h = (n, tt)
set_status-Misses k j v ((i, w) ∷ m) n h = elim (Bool-cases (i == k)) [
  | inl e ↦ rw e h
  | inr e ↦ rw e (h.0, set_status-Misses k j v m n h.1)
]

set_status-IsMap :
    (k : ℕ) (v : FleetStatus) (m : List (ℕ × FleetStatus)) → IsMap m → IsMap (set_status k v m)
unfolding set_status
set_status-IsMap k v [] h = (tt, tt)
set_status-IsMap k v ((i, w) ∷ m) h = elim (Bool-cases (i == k)) [
  | inl e ↦ rw e h
  | inr e ↦ rw e (set_status-Misses k i v m (λ s. ground arith) h.0, set_status-IsMap k v m h.1)
]

map_onto-IsMap : (ps : List Project) (m : List (ℕ × FleetStatus)) → IsMap m → IsMap (map_onto ps m)
unfolding map_onto
map_onto-IsMap [] m h = h
map_onto-IsMap (p ∷ ps) m h =
    let m' = set_status p.id (to_fleet_status (some p.status)) m in
    map_onto-IsMap ps m' (set_status-IsMap p.id (to_fleet_status (some p.status)) m h)

statuses-IsMap : (ps : List Project) → IsMap (statuses ps)
unfolding statuses
statuses-IsMap ps = map_onto-IsMap ps [] tt

-- Each entry is what the map `m` says of its key.
abbrev Says : List (ℕ × FleetStatus) → List (ℕ × FleetStatus) → Type 0
Says m = All (λ e. status_at e.0 m ≡ some e.1)

Says-cons :
    (j : ℕ) (w : FleetStatus) (m cur : List (ℕ × FleetStatus))
    → Misses j cur
    → Says m cur
    → Says ((j, w) ∷ m) cur
unfolding status_at
Says-cons j w m [] h s = tt
Says-cons j w m ((i, v) ∷ cur) h s = (ground (arith, h.0, s.0), Says-cons j w m cur h.1 s.1)

IsMap-Says : (m : List (ℕ × FleetStatus)) → IsMap m → Says m m
unfolding status_at
IsMap-Says [] h = tt
IsMap-Says ((j, w) ∷ m) h = (ground arith, Says-cons j w m m h.0 (IsMap-Says m h.1))

health_notes-nil :
    (ps : List Project) (m cur : List (ℕ × FleetStatus)) → Says m cur → health_notes ps m cur ≡ []
unfolding health_notes health_note
health_notes-nil ps m [] s = refl
health_notes-nil ps m ((i, v) ∷ cur) s = rw (s.0) (same v (health_notes-nil ps m cur s.1))
  where
    same :
        (v : FleetStatus)
        → health_notes ps m cur ≡ []
        → health_note ps i v (some v) ++ health_notes ps m cur ≡ []
    same sailing e = e
    same choppy e = e
    same lost e = e
    same docked e = e

abbrev Knows : List ℕ → List Deployment → Type 0
Knows before ds = All (λ d. any (λ i. i == d.id) before ≡ true) ds

Knows-cons :
    (j : ℕ) (before : List ℕ) (ds : List Deployment) → Knows before ds → Knows (j ∷ before) ds
Knows-cons j before [] h = tt
Knows-cons j before (d ∷ ds) h = (ground (arith, h.0), Knows-cons j before ds h.1)

Knows-map : (ds : List Deployment) → Knows (map (λ d. d.id) ds) ds
Knows-map [] = tt
Knows-map (d ∷ ds) = (ground arith, Knows-cons d.id (map (λ d. d.id) ds) ds (Knows-map ds))

deployment_notes-nil :
    (ps : List Project) (before : List ℕ) (ds : List Deployment)
    → Knows before ds
    → deployment_notes ps before ds ≡ []
unfolding deployment_notes
deployment_notes-nil ps before [] h = refl
deployment_notes-nil ps before (d ∷ ds) h = rw (h.0) (deployment_notes-nil ps before ds h.1)

health_part-nil :
    (c : Choices) (ps qs : List Project)
    → statuses ps ≡ statuses qs
    → health_part c ps (some (statuses qs)) ≡ []
unfolding health_part
health_part-nil c ps qs e =
    if-elim (λ ns. ns ≡ []) c.health_changed
      (λ _.
        subst (λ m. health_notes ps (statuses qs) m ≡ []) (sym e)
          (health_notes-nil ps (statuses qs) (statuses qs)
            (IsMap-Says (statuses qs) (statuses-IsMap qs))))
      (λ _. refl)

deployment_part-nil :
    (c : Choices) (ps : List Project) (ds es : List Deployment)
    → map (λ d. d.id) ds ≡ map (λ d. d.id) es
    → deployment_part c ps ds (some (map (λ d. d.id) es)) ≡ []
unfolding deployment_part
deployment_part-nil c ps ds es e =
    if-elim (λ ns. ns ≡ []) c.deploy_finished
      (λ _.
        deployment_notes-nil ps (map (λ d. d.id) es) ds
          (subst (λ ids. Knows ids ds) e (Knows-map ds)))
      (λ _. refl)

hot_part-nil :
    (now before wanted : Bool)
    → (now ≡ true → before ≡ true)
    → (if now && (not before && wanted) then hot_note ∷ [] else []) ≡ []
hot_part-nil true true u h = refl
hot_part-nil true false u h = absurd_case (h refl)
  where
    absurd_case : false ≡ true → (if u then hot_note ∷ [] else []) ≡ []
    absurd_case e = cc
hot_part-nil false b u h = refl

join-nil : (x y z : List Note) → x ≡ [] → y ≡ [] → z ≡ [] → x ++ (y ++ z) ≡ []
join-nil x y z e f g = rw (e, f) g

-- A poll is silent when it brings the statuses and the deployments of the poll before, and no high load
-- that was not there, whatever the choices.
pub poll-silent :
    (c : Choices) (old new : DashboardData)
    → statuses new.projects ≡ statuses old.projects
    → map (λ d. d.id) new.recent_deployments ≡ map (λ d. d.id) old.recent_deployments
    → (is_hot new.server ≡ true → is_hot old.server ≡ true)
    → poll_notes c new (poll old) ≡ []
unfolding poll_notes poll
poll-silent c old new same_st same_ids hot =
    join-nil (health_part c new.projects (some (statuses old.projects))) _ _
      (health_part-nil c new.projects old.projects same_st)
      (deployment_part-nil c new.projects new.recent_deployments old.recent_deployments same_ids)
      (hot_part-nil (is_hot new.server) (is_hot old.server) c.high_usage hot)

-- The first poll after the page was opened can only toast high load.
pub poll-first :
    (c : Choices) (dash : DashboardData)
    → poll_notes c dash unarmed ≡ (if is_hot dash.server && c.high_usage then hot_note ∷ [] else [])
unfolding poll_notes health_part deployment_part
poll-first c dash = refl

abbrev pub note_of : List Project → ℕ → FleetStatus → Note
note_of ps id st = (
  name_of ps id ++ (codes " is " ++ (codes (fleet_label st) ++ codes ".")),
  same_status st lost || same_status st choppy,
)

Has-health_notes :
    (ps : List Project) (before cur : List (ℕ × FleetStatus)) (id : ℕ) (st : FleetStatus) (n : Note)
    → status_at id cur ≡ some st
    → Has n (health_note ps id st (status_at id before))
    → Has n (health_notes ps before cur)
unfolding health_notes status_at
Has-health_notes ps before [] id st n e h = absurd (cc)
Has-health_notes ps before ((i, v) ∷ cur) id st n e h = elim (Bool-cases (i == id)) [
  | inl q ↦
      let same_id : id ≡ i = ground (arith, q) in
      let same_st : st ≡ v = ground (arith, q, e) in
      Has-append_left n (health_note ps i v (status_at i before)) (health_notes ps before cur) (
        subst (λ t. Has n (health_note ps i t (status_at i before))) same_st
          (subst (λ j. Has n (health_note ps j st (status_at j before))) same_id h))
  | inr q ↦
      Has-append_right n (health_note ps i v (status_at i before)) (health_notes ps before cur)
        (Has-health_notes ps before cur id st n (rw q at e) h)
]

change_note :
    (ps : List Project) (id : ℕ) (before st : FleetStatus)
    → before ≢ st
    → st ≢ docked
    → Has (note_of ps id st) (health_note ps id st (some before))
unfolding health_note
change_note ps id sailing sailing n m = absurd (n refl)
change_note ps id choppy choppy n m = absurd (n refl)
change_note ps id lost lost n m = absurd (n refl)
change_note ps id before docked n m = absurd (m refl)
change_note ps id sailing choppy n m = inl refl
change_note ps id sailing lost n m = inl refl
change_note ps id choppy sailing n m = inl refl
change_note ps id choppy lost n m = inl refl
change_note ps id lost sailing n m = inl refl
change_note ps id lost choppy n m = inl refl
change_note ps id docked sailing n m = inl refl
change_note ps id docked choppy n m = inl refl
change_note ps id docked lost n m = inl refl

-- Where the alerts on health are wanted, a poll toasts every project whose status is another one than at
-- the poll before and not `docked`: its name and new status, as bad news for `lost` and `choppy`.
pub poll-change :
    (c : Choices) (old new : DashboardData) (id : ℕ) (before st : FleetStatus)
    → c.health_changed ≡ true
    → status_at id (statuses old.projects) ≡ some before
    → status_at id (statuses new.projects) ≡ some st
    → before ≢ st
    → st ≢ docked
    → Has (note_of new.projects id st) (poll_notes c new (poll old))
unfolding poll_notes poll health_part
poll-change c old new id before st wanted was is n m =
    let ps = new.projects in
    let was_map = statuses old.projects in
    rw wanted (
      Has-append_left (note_of ps id st) (health_notes ps was_map (statuses ps)) _ (
        Has-health_notes ps was_map (statuses ps) id st (note_of ps id st) is
          (rw was (change_note ps id before st n m))))
