-- ===== src/Client/Palette/Within.antt =====
-- What the command palette highlights and where it leads.
use server_hub.Prelude.{
  ℕ, zero, suc, Bool, true, false, List, [], ◌∷◌, Option, none, some, length, if-elim, ◌≡◌, refl,
  Has, inl, inr,
}
use server_hub.Text.{Text}
use server_hub.Client.Palette.{
  Item, items, Palette, opened, nth, down, up, item_at, chosen, PaletteEvent, came, typed,
  arrow_down, arrow_up, enter, escape, clicked, pointed, step, run,
}

-- An open palette leads nowhere yet, and a closed one nowhere or to the page of a listed item.
abbrev pub Leads : Bool → Option Text → List Item → Type 0
Leads true r is = r ≡ none
Leads false none is = Unit
Leads false (some r) is = (i : Item) × Has i is × (i.route ≡ r)

abbrev pub IsHonest : Palette → Type 0
IsHonest s = Leads s.is_open s.route (items s.q s.projects)

Has-nth : (is : List Item) (i : ℕ) (a : Item) → nth is i ≡ some a → Has a is
unfolding nth
Has-nth [] i a e = absurd (cc)
Has-nth (x ∷ xs) zero a e = inl (cc)
Has-nth (x ∷ xs) (suc i) a e = inr (Has-nth xs i a e)

stays-IsHonest : (s : Palette) → s.is_open ≡ true → s.route ≡ none → IsHonest s
stays-IsHonest s o r = rw o r

leaves-IsHonest : (s : Palette) (is : List Item) → s.route ≡ none → Leads false s.route is
leaves-IsHonest s is r = rw r tt

chosen-IsHonest :
    (o : Option Item) (s : Palette)
    → ((a : Item) → o ≡ some a → Has a (items s.q s.projects))
    → s.is_open ≡ true
    → s.route ≡ none
    → IsHonest (chosen o s)
unfolding chosen
chosen-IsHonest none s h e r = stays-IsHonest s e r
chosen-IsHonest (some i) s h e r = (i, h i refl, refl)

step-IsHonest :
    (e : PaletteEvent) (s : Palette) → s.is_open ≡ true → s.route ≡ none → IsHonest (step e s)
unfolding step item_at
step-IsHonest (came ps) s o r = stays-IsHonest (record s { projects = ps }) o r
step-IsHonest (typed t) s o r = stays-IsHonest (record s { q = t; sel = some 0 }) o r
step-IsHonest arrow_down s o r =
    stays-IsHonest (record s { sel = down (length (items s.q s.projects)) s.sel }) o r
step-IsHonest arrow_up s o r = stays-IsHonest (record s { sel = up s.sel }) o r
step-IsHonest enter s o r = chosen-IsHonest (item_at s.sel (items s.q s.projects)) s (at s.sel) o r
  where
    at :
        (i : Option ℕ) (a : Item)
        → item_at i (items s.q s.projects) ≡ some a
        → Has a (items s.q s.projects)
    at none a e = absurd (cc)
    at (some i) a e = Has-nth (items s.q s.projects) i a e
step-IsHonest escape s o r = leaves-IsHonest s (items s.q s.projects) r
step-IsHonest (clicked i) s o r =
    chosen-IsHonest (nth (items s.q s.projects) i) s (Has-nth (items s.q s.projects) i) o r
step-IsHonest (pointed i) s o r = pointed_at (nth (items s.q s.projects) i)
  where
    pointed_at :
        (n : Option Item) → IsHonest (elim n [ none ↦ s | some item ↦ record s { sel = some i } ])
    pointed_at none = stays-IsHonest s o r
    pointed_at (some item) = stays-IsHonest (record s { sel = some i }) o r

run-IsHonest : (es : List PaletteEvent) (s : Palette) → IsHonest s → IsHonest (run es s)
unfolding run
run-IsHonest [] s h = h
run-IsHonest (e ∷ es) s h =
    if-elim IsHonest s.is_open (λ o. run-IsHonest es (step e s) (step-IsHonest e s o (rw o at h)))
      (λ _. h)

-- In whatever order keys, clicks, texts and the projects come, the palette leads to no page until it is
-- closed, and then to none or to that of an item which it lists for its text.
pub run-opened-IsHonest : (es : List PaletteEvent) → IsHonest (run es opened)
run-opened-IsHonest es = run-IsHonest es opened refl
