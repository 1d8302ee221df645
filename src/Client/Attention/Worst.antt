-- ===== src/Client/Attention/Worst.antt =====
-- The dashboard's list of what needs attention shows the worst first, and leaves nothing worse out.
use server_hub.Prelude.{
  ℕ, zero, suc, ◌≤◌, ◌≡◌, refl, ◌⊎◌, inl, inr, true, false, List, [], ◌∷◌, Option, none, some, take,
  drop, length, sort_by, IsSortedBy, Has-sort_by, sort_by-IsSortedBy, arith, All, Has,
  Has-append_left, Has-append_right, Has-take-drop, All-Has, ap, subst, sym, ◌∙◌,
}
use server_hub.Text.{Text, codes, eqb}
use server_hub.Types.{Project, ManagedServer, HealthCheck, Alert}
use server_hub.Status.{
  attention, down, tone_rank, FleetStatus, sailing, choppy, lost, docked, to_business_status,
  to_fleet_status,
}
use server_hub.Client.Attention.{
  AttentionItem, status_of, is_trouble, project_item, server_item, server_entry, project_detail,
  items_of, no_milder, troubles, attention_list,
}

abbrev pub rank : AttentionItem → ℕ
rank x = tone_rank x.tone

-- No item is more severe than one above it.
abbrev pub Rises : List AttentionItem → Type 0
Rises = IsSortedBy no_milder

no_milder_trans :
    (a b c : AttentionItem) → no_milder a b ≡ true → no_milder b c ≡ true → no_milder a c ≡ true
no_milder_trans a b c e f = ground (arith, e, f)

no_milder_total : (a b : AttentionItem) → no_milder a b ≡ false → no_milder b a ≡ true
no_milder_total a b e = ground (arith, e)

sort-Rises : (xs : List AttentionItem) → Rises (sort_by no_milder xs)
sort-Rises xs = sort_by-IsSortedBy no_milder no_milder_trans no_milder_total xs

-- What is cut off is no worse than what stays, and then the list is full.
Has-drop :
    (n : ℕ) (a : AttentionItem) (xs : List AttentionItem)
    → Rises xs
    → Has a (drop n xs)
    → (length (take n xs) ≡ n) × All (λ y. rank y ≤ rank a) (take n xs)
Has-drop zero a xs r h = (refl, tt)
Has-drop (suc n) a [] r h = elim h [ ]
Has-drop (suc n) a (x ∷ xs) r h =
    let (full, worse) = Has-drop n a xs r.1 h in
    (
      ap suc full,
      (
        ground (arith, All-Has (λ y. no_milder x y ≡ true) a xs r.0 (Has-drop_whole n a xs h)),
        worse,
      ),
    )
  where
    Has-drop_whole :
        (n : ℕ) (a : AttentionItem) (xs : List AttentionItem) → Has a (drop n xs) → Has a xs
    Has-drop_whole zero a xs h = h
    Has-drop_whole (suc n) a [] h = h
    Has-drop_whole (suc n) a (x ∷ xs) h = inr (Has-drop_whole n a xs h)

shown_or_full :
    (a : AttentionItem) (xs : List AttentionItem)
    → Has a xs
    → let shown = take 6 (sort_by no_milder xs) in
      Has a shown ⊎ ((length shown ≡ 6) × All (λ y. rank y ≤ rank a) shown)
shown_or_full a xs h =
    elim (Has-take-drop 6 a (sort_by no_milder xs) (Has-sort_by no_milder a xs h)) [
      | inl k ↦ inl k
      | inr k ↦ inr (Has-drop 6 a (sort_by no_milder xs) (sort-Rises xs) k)
    ]

Rises-take : (n : ℕ) (xs : List AttentionItem) → Rises xs → Rises (take n xs)
Rises-take zero xs h = tt
Rises-take (suc n) [] h = tt
Rises-take (suc n) (x ∷ xs) h = (All-take (λ y. no_milder x y ≡ true) n xs h.0, Rises-take n xs h.1)
  where
    All-take :
        (P : AttentionItem → Type 0) (n : ℕ) (xs : List AttentionItem)
        → All P xs
        → All P (take n xs)
    All-take P zero xs h = tt
    All-take P (suc n) [] h = tt
    All-take P (suc n) (x ∷ xs) h = (h.0, All-take P n xs h.1)

Has-items_of :
    {A : Type 0} (f : A → Option AttentionItem) (a : A) (x : AttentionItem) (as' : List A)
    → Has a as'
    → f a ≡ some x
    → Has x (items_of f as')
unfolding items_of
Has-items_of f a x [] h e = elim h [ ]
Has-items_of f a x (b ∷ bs) (inl same) e =
    subst (λ z. Has x (elim z [ none ↦ items_of f bs | some y ↦ y ∷ items_of f bs ]))
      (sym e ∙ ap f same) (inl refl)
Has-items_of f a x (b ∷ bs) (inr h) e = onto (f b) (items_of f bs) (Has-items_of f a x bs h e)
  where
    onto :
        (o : Option AttentionItem) (ys : List AttentionItem)
        → Has x ys
        → Has x (elim o [ none ↦ ys | some y ↦ y ∷ ys ])
    onto none ys k = k
    onto (some y) ys k = inr k

abbrev offline : ManagedServer → AttentionItem
unfolding server_entry
offline s =
    server_entry down (codes "Server is offline — check power, network, and its monitoring agent.")
      s

offline_item :
    (s : ManagedServer) → eqb s.status (codes "OFFLINE") ≡ true → server_item s ≡ some (offline s)
unfolding server_item
offline_item s e = rw e refl

none_milder : (xs : List AttentionItem) → All (λ y. rank y ≤ 0) xs → All (λ y. rank y ≡ 0) xs
none_milder [] h = tt
none_milder (x ∷ xs) h = (omega (arith, h.0), none_milder xs h.1)

-- An offline server is on the dashboard's list, or the list holds six items that are all as severe.
-- In both cases the list is in order: no item is more severe than one above it. The severities are
-- those of `tone_rank`, with 0 the worst.
pub attention_list-offline :
    (parse_date : Text → Option ℕ) (now : ℕ) (ps : List Project) (ss : List ManagedServer)
    (cs : List HealthCheck) (as' : List Alert) (s : ManagedServer)
    → Has s ss
    → eqb s.status (codes "OFFLINE") ≡ true
    → let shown = attention_list parse_date now ps ss cs as' in
      Rises shown
      × (Has
            (server_entry down
              (codes "Server is offline — check power, network, and its monitoring agent.")
              s)
            shown
          ⊎ ((length shown ≡ 6) × All (λ y. rank y ≡ 0) shown))
unfolding attention_list troubles server_entry tone_rank
attention_list-offline parse_date now ps ss cs as' s h e =
    let xs = troubles parse_date now ps ss cs as' in
    (
      Rises-take 6 (sort_by no_milder xs) (sort-Rises xs),
      elim (shown_or_full (offline s) xs
          (inside s (Has-items_of server_item s (offline s) ss h (offline_item s e)))) [
            | inl k ↦ inl k
            | inr (full, worse) ↦ inr (full, none_milder (take 6 (sort_by no_milder xs)) worse)
          ],
    )
  where
    inside :
        (s : ManagedServer)
        → Has (offline s) (items_of server_item ss)
        → Has (offline s) (troubles parse_date now ps ss cs as')
    inside s k =
        Has-append_right (offline s) (items_of project_item ps) _
          (Has-append_left (offline s) (items_of server_item ss) _ k)

-- What the list says of a project whose fleet status is given.
abbrev pub Listed : FleetStatus → Option AttentionItem → Type 0
Listed lost o = (x : AttentionItem) × (o ≡ some x) × (x.tone ≡ down)
Listed choppy o = (x : AttentionItem) × (o ≡ some x) × (x.tone ≡ attention)
Listed _ o = o ≡ none

-- A project is listed as down when its status is a word for "down" (`lost`), as needing attention
-- when it is a word for that (`choppy`), and is not listed otherwise. So no item of a project is
-- ever of unknown status: an unrecognised word counts as `docked`.
pub project_item-Listed : (p : Project) → Listed (to_fleet_status (some p.status)) (project_item p)
unfolding project_item status_of to_business_status is_trouble project_detail
project_item-Listed p = by_status (to_fleet_status (some p.status)) refl
  where
    by_status : (f : FleetStatus) → to_fleet_status (some p.status) ≡ f → Listed f (project_item p)
    by_status sailing e = rw e refl
    by_status docked e = rw e refl
    by_status lost e = rw e (_, refl, refl)
    by_status choppy e = rw e (_, refl, refl)
