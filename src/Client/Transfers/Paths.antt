-- ===== src/Client/Transfers/Paths.antt =====
-- The file browser of the web client finds its way back.
use server_hub.Prelude.{
  ◌≡◌, ◌≢◌, refl, false, [], ◌∷◌, ◌++◌, none, some, take, length, arith, sym, ap, ◌∙◌, append_assoc,
  ◌⊎◌, inl, inr, if-elim,
}
use server_hub.Text.{Text, eqb, eqb_sound, includes-append, Lacks}
use server_hub.Text.Slashes.{strip_slashes, strip_slashes-append}
use server_hub.Client.Transfers.{root, join_path, last_slash, cut_at, parent_path}

last_slash-none : (s : Text) → Lacks 47 s → last_slash s ≡ none
unfolding last_slash
last_slash-none [] h = refl
last_slash-none (c ∷ s) h = ground (arith, h.0, last_slash-none s h.1)

last_slash-append : (s t : Text) → Lacks 47 t → last_slash (s ++ 47 ∷ t) ≡ some (length s)
unfolding last_slash
last_slash-append [] t h = ground (arith, last_slash-none t h)
last_slash-append (c ∷ s) t h = ground (arith, last_slash-append s t h)

take-append : (s t : Text) → take (length s) (s ++ t) ≡ s
take-append [] t = refl
take-append (c ∷ s) t = ap (λ r. c ∷ r) (take-append s t)

long-ne-root : (s t : Text) → t ≢ [] → eqb (s ++ 47 ∷ t) root ≡ false
long-ne-root [] [] h = absurd (h refl)
long-ne-root [] (d ∷ t) h = ground arith
long-ne-root (c ∷ []) t h = ground arith
long-ne-root (c ∷ d ∷ s) t h = ground arith

-- The parent of a path that ends with a name: what stands before the last slash, or the root.
parent_path-append :
    (s t : Text)
    → t ≢ []
    → Lacks 47 t
    → parent_path (s ++ 47 ∷ t) ≡ some (cut_at (s ++ 47 ∷ t) (some (length s)))
unfolding parent_path
parent_path-append s t h k = ground (
  arith,
  long-ne-root s t h,
  includes-append s root t,
  last_slash-append s t k,
  strip_slashes-append (s ++ root) t h k,
  append_assoc s root t,
)

-- A folder of the browser: the root, or a path that does not end with a slash.
abbrev pub IsFolder : Text → Type 0
IsFolder dir = (dir ≡ root) ⊎ ((dir ≢ []) × (strip_slashes dir ≡ dir))

cut_at-length : (s t : Text) → s ≢ [] → cut_at (s ++ t) (some (length s)) ≡ s
unfolding cut_at
cut_at-length [] t h = absurd (h refl)
cut_at-length (c ∷ s) t h = take-append (c ∷ s) t

join_path-root : (name : Text) → join_path root name ≡ 47 ∷ name
unfolding join_path
join_path-root name = refl

strip_slashes-root : strip_slashes root ≢ root
unfolding strip_slashes
strip_slashes-root h = cc

join_path-folder :
    (dir name : Text) → dir ≢ [] → strip_slashes dir ≡ dir → join_path dir name ≡ dir ++ 47 ∷ name
unfolding join_path
join_path-folder dir name d s =
    if-elim (λ p. p ≡ dir ++ 47 ∷ name) (eqb dir root)
      (λ e. absurd (
        strip_slashes-root
          (ap strip_slashes (sym (eqb_sound dir root e)) ∙ s ∙ eqb_sound dir root e)))
      (λ e. ap (λ p. p ++ 47 ∷ name) s)

-- Going up from an entry of a folder leads back to the folder.
pub parent_path-join_path :
    (dir name : Text)
    → IsFolder dir
    → name ≢ []
    → Lacks 47 name
    → parent_path (join_path dir name) ≡ some dir
unfolding cut_at
parent_path-join_path dir name (inl e) n l =
    ap (λ d. parent_path (join_path d name)) e
    ∙ ap parent_path (join_path-root name)
    ∙ parent_path-append [] name n l
    ∙ ap some (sym e)
parent_path-join_path dir name (inr (d, s)) n l =
    ap parent_path (join_path-folder dir name d s)
    ∙ parent_path-append dir name n l
    ∙ ap some (cut_at-length dir (47 ∷ name) d)
