-- ===== src/Client/Databases/Ticked.antt =====
-- Only databases that are shown and not registered yet are ever ticked.
use server_hub.Prelude.{
  ◌≡◌, refl, List, [], ◌∷◌, Option, none, some, true, any, not, if-elim, sym, subst, arith, All,
  All-append,
}
use server_hub.Text.{Text, eqb}
use server_hub.Types.Databases.{DbServerInfo, DbItem}
use server_hub.Client.Databases.{
  browsed, Brought, nth, without, Databases, got, failed, opened, browse, pick, connect, connected,
  remove, toggle, tickable, all_ticked, names_of, toggle_all, register, registration, registered,
  DbEvent, picked, typed_username, typed_password, chose_project, toggled, toggled_all,
  pressed_browse, pressed_connect, pressed_register, settled, browse_answered, connect_answered,
  register_answered, shown_items, asks_password, browse_words, connect_words, step, run,
}

-- A name of the list.
abbrev pub IsOffered : List DbItem → Text → Type 0
IsOffered items c = any (λ d. eqb d.name c) (tickable items) ≡ true

abbrev Ticks : Option (List DbItem) → List Text → Type 0
Ticks none checked = Unit
Ticks (some items) checked = All (IsOffered items) checked

abbrev pub IsTicked : Databases → Type 0
IsTicked s = Ticks s.dbs s.checked

remove-All : (P : Text → Type 0) (name : Text) (cs : List Text) → All P cs → All P (remove name cs)
unfolding remove
remove-All P name [] h = tt
remove-All P name (c ∷ cs) h =
    if-elim (All P) (not (eqb c name)) (λ _. (h.0, remove-All P name cs h.1))
      (λ _. remove-All P name cs h.1)

toggle-All :
    (P : Text → Type 0) (name : Text) (cs : List Text) → P name → All P cs → All P (toggle name cs)
unfolding toggle
toggle-All P name cs p h =
    if-elim (All P) (any (λ c. eqb c name) cs) (λ _. remove-All P name cs h)
      (λ _. All-append P cs (name ∷ []) h (p, tt))

eqb_refl : (t : Text) → eqb t t ≡ true
eqb_refl [] = refl
eqb_refl (c ∷ t) = ground (arith, eqb_refl t)

any_weaken :
    (d : DbItem) (ds : List DbItem) (cs : List Text)
    → All (λ c. any (λ e. eqb e.name c) ds ≡ true) cs
    → All (λ c. any (λ e. eqb e.name c) (d ∷ ds) ≡ true) cs
any_weaken d ds [] h = tt
any_weaken d ds (c ∷ cs) h = (ground (arith, h.0), any_weaken d ds cs h.1)

names_of-offered : (ds : List DbItem) → All (λ c. any (λ d. eqb d.name c) ds ≡ true) (names_of ds)
unfolding names_of
names_of-offered [] = tt
names_of-offered (d ∷ ds) =
    (ground (arith, eqb_refl d.name), any_weaken d ds (names_of ds) (names_of-offered ds))

toggle_all-All :
    (items : List DbItem) (cs : List Text) → All (IsOffered items) (toggle_all cs items)
unfolding toggle_all
toggle_all-All items cs =
    if-elim (All (IsOffered items)) (all_ticked cs items) (λ _. tt)
      (λ _. names_of-offered (tickable items))

toggled-IsTicked : (name : Text) (s : Databases) → IsTicked s → IsTicked (step (toggled name) s)
unfolding step
toggled-IsTicked name s h =
    if-elim IsTicked (any (λ d. eqb d.name name) (tickable (shown_items s.dbs)))
      (λ e. ticked s.dbs e h) (λ _. h)
  where
    ticked :
        (o : Option (List DbItem))
        → any (λ d. eqb d.name name) (tickable (shown_items o)) ≡ true
        → Ticks o s.checked
        → Ticks o (toggle name s.checked)
    ticked none e k = tt
    ticked (some items) e k = toggle-All (IsOffered items) name s.checked e k

toggled_all-IsTicked : (s : Databases) → IsTicked s → IsTicked (step toggled_all s)
unfolding step
toggled_all-IsTicked s h = ticked s.dbs refl
  where
    ticked :
        (o : Option (List DbItem))
        → s.dbs ≡ o
        → IsTicked
            (elim o [ none ↦ s | some items ↦ record s { checked = toggle_all s.checked items } ])
    ticked none e = h
    ticked (some items) e =
        subst (λ z. Ticks z (toggle_all s.checked items)) (sym e) (toggle_all-All items s.checked)

pressed-IsTicked :
    {A : Type 0} (o : Option A) (f : A → Databases) (s : Databases)
    → ((a : A) → IsTicked (f a))
    → IsTicked s
    → IsTicked (elim o [ none ↦ s | some a ↦ f a ])
pressed-IsTicked none f s k h = h
pressed-IsTicked (some a) f s k h = k a

browsed-IsTicked : (r : Brought (List DbItem)) (s : Databases) → IsTicked (browsed r s)
unfolding browsed
browsed-IsTicked (got items) s = tt
browsed-IsTicked (failed t) s = if-elim IsTicked (asks_password browse_words t) (λ _. tt) (λ _. tt)

step-IsTicked : (e : DbEvent) (s : Databases) → IsTicked s → IsTicked (step e s)
unfolding step browse pick connect connected register registered
step-IsTicked (picked srv) s h = tt
step-IsTicked (typed_username t) s h = h
step-IsTicked (typed_password t) s h = h
step-IsTicked (chose_project t) s h = h
step-IsTicked (toggled name) s h = toggled-IsTicked name s h
step-IsTicked toggled_all s h = toggled_all-IsTicked s h
step-IsTicked pressed_browse s h = pressed-IsTicked s.selected (λ srv. browse srv s) s (λ srv. h) h
step-IsTicked pressed_connect s h =
    pressed-IsTicked s.selected (λ srv. record s { browsing = true; browse_err = none }) s
      (λ srv. h) h
step-IsTicked pressed_register s h =
    pressed-IsTicked (registration s) (λ r. record s { registering = true }) s (λ r. h) h
step-IsTicked settled s h = h
step-IsTicked (browse_answered n r) s h = answered (nth n s.asked)
  where
    answered :
        (o : Option DbServerInfo)
        → IsTicked
            (elim o [ none ↦ s | some srv ↦ browsed r (record s { asked = without n s.asked }) ])
    answered none = h
    answered (some srv) = browsed-IsTicked r (record s { asked = without n s.asked })
step-IsTicked (connect_answered srv (got tt)) s h = h
step-IsTicked (connect_answered srv (failed t)) s h =
    if-elim IsTicked (asks_password connect_words t) (λ _. h) (λ _. h)
step-IsTicked (register_answered srv (got ns)) s h = cleared s.dbs
  where
    cleared : (o : Option (List DbItem)) → Ticks o []
    cleared none = tt
    cleared (some items) = tt
step-IsTicked (register_answered srv (failed t)) s h = h

run-IsTicked : (es : List DbEvent) (s : Databases) → IsTicked s → IsTicked (run es s)
unfolding run
run-IsTicked [] s h = h
run-IsTicked (e ∷ es) s h = run-IsTicked es (step e s) (step-IsTicked e s h)

-- In whatever order servers are picked, boxes ticked and calls answered: while databases are shown, every
-- ticked name is one of theirs that is not registered.
pub run-opened-IsTicked : (es : List DbEvent) → IsTicked (run es opened)
run-opened-IsTicked es = run-IsTicked es opened tt
