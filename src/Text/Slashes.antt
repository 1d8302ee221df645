-- ===== src/Text/Slashes.antt =====
-- `.replace(/\/+$/, "")`: a text without the slashes at its end.
use mathlib.Core.List.{reverse, reverse-append, reverse-cons, reverse-reverse}
use server_hub.Prelude.{
  ◌≡◌, ◌≢◌, refl, [], ◌∷◌, ◌++◌, ◌==◌, if◌then◌else◌, All-append, arith, sym, ap, subst, ◌∙◌,
}
use server_hub.Text.{Text, Lacks}

drop_slashes : Text → Text
drop_slashes [] = []
drop_slashes (c ∷ s) = let rest = drop_slashes s in if c == 47 then rest else c ∷ s

unfoldable pub strip_slashes : Text → Text
unfolding drop_slashes
strip_slashes s = reverse (drop_slashes (reverse s))

reverse-Lacks : (s : Text) → Lacks 47 s → Lacks 47 (reverse s)
reverse-Lacks [] h = tt
reverse-Lacks (c ∷ s) h =
    subst (Lacks 47) (sym (reverse-cons c s))
      (All-append (λ x. x ≢ 47) (reverse s) (c ∷ []) (reverse-Lacks s h.1) (h.0, tt))

reverse-ne-nil : (s : Text) → s ≢ [] → reverse s ≢ []
reverse-ne-nil s h e = h (sym (reverse-reverse s) ∙ ap reverse e)

drop_slashes-append : (s t : Text) → s ≢ [] → Lacks 47 s → drop_slashes (s ++ t) ≡ s ++ t
unfolding drop_slashes
drop_slashes-append [] t h k = absurd (h refl)
drop_slashes-append (c ∷ s) t h k = ground (arith, k.0)

-- A text that ends with a part without slashes loses nothing.
pub strip_slashes-append : (s t : Text) → t ≢ [] → Lacks 47 t → strip_slashes (s ++ t) ≡ s ++ t
unfolding strip_slashes
strip_slashes-append s t h k =
    ap (λ r. reverse (drop_slashes r)) (reverse-append s t)
    ∙ ap reverse
        (drop_slashes-append (reverse t) (reverse s) (reverse-ne-nil t h) (reverse-Lacks t k))
    ∙ ap reverse (sym (reverse-append s t))
    ∙ reverse-reverse (s ++ t)
