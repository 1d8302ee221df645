-- ===== src/Prelude/Sorting.antt =====
-- A stable sort by a Boolean order, and the filter of a list, with what they keep.
use mathlib.Core.Path.{◌≡◌, refl, subst, sym}
use mathlib.Core.Logic.{inl, inr}
use mathlib.Core.Bool.{Bool, true, false}
use mathlib.Core.List.{List, [], ◌∷◌}
use server_hub.Prelude.Tests.{if◌then◌else◌, if-elim}
use server_hub.Prelude.Lists.{All, Has}

module _ {A : Type 0} where
  -- An item goes before the first one that it does not come after.
  unfoldable pub insert_by : (A → A → Bool) → A → List A → List A
  insert_by le x [] = x ∷ []
  insert_by le x (y ∷ ys) =
      let later = insert_by le x ys in if le x y then x ∷ y ∷ ys else y ∷ later

  unfoldable pub sort_by : (A → A → Bool) → List A → List A
  unfolding insert_by
  sort_by le [] = []
  sort_by le (x ∷ xs) = insert_by le x (sort_by le xs)

  unfoldable pub keep_if : (A → Bool) → List A → List A
  keep_if p [] = []
  keep_if p (x ∷ xs) = let rest = keep_if p xs in if p x then x ∷ rest else rest

  abbrev pub IsSortedBy : (A → A → Bool) → List A → Type 0
  IsSortedBy le [] = Unit
  IsSortedBy le (x ∷ xs) = All (λ y. le x y ≡ true) xs × IsSortedBy le xs

  pub Has-keep_if :
      (p : A → Bool) (a : A) (xs : List A) → Has a xs → p a ≡ true → Has a (keep_if p xs)
  unfolding keep_if
  Has-keep_if p a [] h e = elim h [ ]
  Has-keep_if p a (x ∷ xs) (inl s) e = rw (← s) (rw e (inl refl))
  Has-keep_if p a (x ∷ xs) (inr h) e =
      if-elim (Has a) (p x) (λ _. inr (Has-keep_if p a xs h e)) (λ _. Has-keep_if p a xs h e)

  pub keep_if-All : (p : A → Bool) (xs : List A) → All (λ a. p a ≡ true) (keep_if p xs)
  unfolding keep_if
  keep_if-All p [] = tt
  keep_if-All p (x ∷ xs) =
      if-elim (All (λ a. p a ≡ true)) (p x) (λ e. (e, keep_if-All p xs)) (λ _. keep_if-All p xs)

  -- What holds of all items holds of those that are kept.
  pub keep_if-keeps :
      (P : A → Type 0) (p : A → Bool) (xs : List A) → All P xs → All P (keep_if p xs)
  unfolding keep_if
  keep_if-keeps P p [] h = tt
  keep_if-keeps P p (x ∷ xs) h =
      if-elim (All P) (p x) (λ _. (h.0, keep_if-keeps P p xs h.1)) (λ _. keep_if-keeps P p xs h.1)

  All-weaken_Has : (x : A) (xs ys : List A) → All (λ a. Has a xs) ys → All (λ a. Has a (x ∷ xs)) ys
  All-weaken_Has x xs [] h = tt
  All-weaken_Has x xs (y ∷ ys) h = (inr h.0, All-weaken_Has x xs ys h.1)

  -- Every item of a list is in it.
  pub All-Has_itself : (xs : List A) → All (λ a. Has a xs) xs
  All-Has_itself [] = tt
  All-Has_itself (x ∷ xs) = (inl refl, All-weaken_Has x xs xs (All-Has_itself xs))

  Has-insert_by_new : (le : A → A → Bool) (x : A) (ys : List A) → Has x (insert_by le x ys)
  unfolding insert_by
  Has-insert_by_new le x [] = inl refl
  Has-insert_by_new le x (y ∷ ys) =
      if-elim (Has x) (le x y) (λ _. inl refl) (λ _. inr (Has-insert_by_new le x ys))

  Has-insert_by_old :
      (le : A → A → Bool) (a x : A) (ys : List A) → Has a ys → Has a (insert_by le x ys)
  unfolding insert_by
  Has-insert_by_old le a x [] h = elim h [ ]
  Has-insert_by_old le a x (y ∷ ys) h =
      if-elim (Has a) (le x y) (λ _. inr h)
        (λ _. elim h [ inl e ↦ inl e | inr k ↦ inr (Has-insert_by_old le a x ys k) ])

  pub Has-sort_by : (le : A → A → Bool) (a : A) (xs : List A) → Has a xs → Has a (sort_by le xs)
  unfolding sort_by
  Has-sort_by le a [] h = elim h [ ]
  Has-sort_by le a (x ∷ xs) (inl e) =
      subst (λ z. Has z (insert_by le x (sort_by le xs))) (sym e)
        (Has-insert_by_new le x (sort_by le xs))
  Has-sort_by le a (x ∷ xs) (inr h) =
      Has-insert_by_old le a x (sort_by le xs) (Has-sort_by le a xs h)

  All-insert_by :
      (P : A → Type 0) (le : A → A → Bool) (x : A) (ys : List A)
      → P x
      → All P ys
      → All P (insert_by le x ys)
  unfolding insert_by
  All-insert_by P le x [] p h = (p, tt)
  All-insert_by P le x (y ∷ ys) p h =
      if-elim (All P) (le x y) (λ _. (p, h)) (λ _. (h.0, All-insert_by P le x ys p h.1))

  pub All-sort_by :
      (P : A → Type 0) (le : A → A → Bool) (xs : List A) → All P xs → All P (sort_by le xs)
  unfolding sort_by
  All-sort_by P le [] h = tt
  All-sort_by P le (x ∷ xs) h = All-insert_by P le x (sort_by le xs) h.0 (All-sort_by P le xs h.1)

module _ {A : Type 0} (le : A → A → Bool)
    (trans : (a b c : A) → le a b ≡ true → le b c ≡ true → le a c ≡ true)
    (total : (a b : A) → le a b ≡ false → le b a ≡ true) where
  above :
      (x y : A) (ys : List A)
      → le x y ≡ true
      → All (λ z. le y z ≡ true) ys
      → All (λ z. le x z ≡ true) ys
  above x y [] e h = tt
  above x y (z ∷ zs) e h = (trans x y z e h.0, above x y zs e h.1)

  insert_by-IsSortedBy :
      (x : A) (ys : List A) → IsSortedBy le ys → IsSortedBy le (insert_by le x ys)
  unfolding insert_by
  insert_by-IsSortedBy x [] h = (tt, tt)
  insert_by-IsSortedBy x (y ∷ ys) h =
      if-elim (IsSortedBy le) (le x y) (λ e. ((e, above x y ys e h.0), h))
        (λ e. (
          All-insert_by (λ z. le y z ≡ true) le x ys (total x y e) h.0,
          insert_by-IsSortedBy x ys h.1,
        ))

  pub sort_by-IsSortedBy : (xs : List A) → IsSortedBy le (sort_by le xs)
  unfolding sort_by
  sort_by-IsSortedBy [] = tt
  sort_by-IsSortedBy (x ∷ xs) = insert_by-IsSortedBy x (sort_by le xs) (sort_by-IsSortedBy xs)
