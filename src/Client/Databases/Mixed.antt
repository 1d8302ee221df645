-- ===== src/Client/Databases/Mixed.antt =====
-- What registering sends when two servers are picked in a row.
use server_hub.Prelude.{
  ap, ◌∙◌, keep_if, All, Has, inl, inr, if-elim, any, not, ◌≡◌, refl, List, [], ◌∷◌, none, some,
  true, false, arith,
}
use server_hub.Text.{Text, eqb, is_empty}
use server_hub.Types.Databases.{DbServerInfo, DbItem}
use server_hub.Client.Databases.{
  shown_items, step, toggle, tickable, DbEvent, opened, Databases, got, server_target, Registration,
  registration, picked, chose_project, toggled, browse_answered, run,
}

eqb_refl : (t : Text) → eqb t t ≡ true
eqb_refl [] = refl
eqb_refl (c ∷ t) = ground (arith, eqb_refl t)

-- A database of a list that is not registered can be ticked.
any-tickable :
    (item : DbItem) (items : List DbItem)
    → item.registered ≡ false
    → Has item items
    → any (λ d. eqb d.name item.name) (tickable items) ≡ true
unfolding tickable keep_if
any-tickable item [] new h = elim h [ ]
any-tickable item (d ∷ ds) new (inl e) = rw (← e) (rw (new) (ground (arith, eqb_refl item.name)))
any-tickable item (d ∷ ds) new (inr h) =
    if-elim (λ (l : List DbItem). any (λ z. eqb z.name item.name) l ≡ true) (not d.registered)
      (λ _. ground (arith, any-tickable item ds new h)) (λ _. any-tickable item ds new h)

toggled-shown :
    (name : Text) (s : Databases)
    → any (λ d. eqb d.name name) (tickable (shown_items s.dbs)) ≡ true
    → step (toggled name) s ≡ record s { checked = toggle name s.checked }
unfolding step
toggled-shown name s h = rw (h) refl

-- Two servers are picked in a row, and the call to the first is answered last.
abbrev pub two_picks :
    (DbServerInfo → List DbItem) → DbServerInfo → DbServerInfo → Text → Text → List DbEvent
two_picks inside first second name project =
    picked first
    ∷ picked second
    ∷ browse_answered 1 (got (inside second))
    ∷ browse_answered 0 (got (inside first))
    ∷ toggled name
    ∷ chose_project project
    ∷ []

-- When two servers are picked in a row, each call is answered with what is inside its server, and the first
-- server's answer comes last, then the page shows the first one's databases under the second one. A database
-- of the first that is then ticked, and that the second does not have, is registered with the address of the
-- second.
pub registration-mixed :
    (inside : DbServerInfo → List DbItem) (first second : DbServerInfo) (item : DbItem)
    (project : Text)
    → Has item (inside first)
    → item.registered ≡ false
    → any (λ d. eqb d.name item.name) (inside second) ≡ false
    → is_empty project ≡ false
    → (r : Registration) × (registration
          (run (two_picks inside first second item.name project) opened)
        ≡ some r)
      × (r.target ≡ server_target second)
      × (r.names ≡ item.name ∷ [])
      × All (λ name. any (λ d. eqb d.name name) (inside second) ≡ false) r.names
unfolding run registration
registration-mixed inside first second item project h new absent chosen = (
  record {
    project_id = project;
    target = server_target second;
    names = item.name ∷ [];
    username = none;
    password = none;
  },
  ap (λ t. registration (run (chose_project project ∷ []) t))
        (toggled-shown item.name
          (run
            (picked first
              ∷ picked second
              ∷ browse_answered 1 (got (inside second))
              ∷ browse_answered 0 (got (inside first))
              ∷ [])
            opened)
          (any-tickable item (inside first) new h))
      ∙ rw (chosen) refl,
  refl,
  refl,
  (absent, tt),
)
