-- ===== src/Mobile/Address/Kept.antt =====
-- What a restart of the mobile client makes of the saved address.
use mathlib.Core.List.{reverse, reverse-cons}
use server_hub.Prelude.{
  ℕ, true, false, not, ◌&&◌, ◌≡◌, refl, [], ◌∷◌, ◌++◌, Option, some, arith, ◌∙◌, ap, inl, inr,
  Option-cases, Bool-cases,
}
use server_hub.Text.{Text, codes, starts_with, is_empty, is_space, trim_start, trim}
use server_hub.Mobile.Phone.{other_failure, Device, IsReliable, ok, err}
use server_hub.Mobile.Address.{
  server_url_key, normalize_url, is_web_url, default_base_url, init_stored_base_url, save_base_url,
  choose, apply_base_url,
}

-- A text with a code point that is no space is not trimmed away.
trim_start-keeps :
    (s : Text) (c : ℕ) → is_space c ≡ false → is_empty (trim_start (s ++ c ∷ [])) ≡ false
unfolding trim_start
trim_start-keeps [] c h = ground arith
trim_start-keeps (x ∷ s) c h = ground (arith, trim_start-keeps s c h)

snoc-is_empty : (s : Text) (c : ℕ) → is_empty (s ++ c ∷ []) ≡ false
snoc-is_empty [] c = refl
snoc-is_empty (x ∷ s) c = refl

reverse-is_empty : (s : Text) → is_empty (reverse s) ≡ is_empty s
reverse-is_empty [] = refl
reverse-is_empty (x ∷ s) = ap is_empty (reverse-cons x s) ∙ snoc-is_empty (reverse s) x

trim_start-cons : (c : ℕ) (s : Text) → is_space c ≡ false → trim_start (c ∷ s) ≡ c ∷ s
unfolding trim_start
trim_start-cons c s h = ground (arith, h)

trim-keeps : (c : ℕ) (s : Text) → is_space c ≡ false → is_empty (trim (c ∷ s)) ≡ false
unfolding trim
trim-keeps c s h =
    reverse-is_empty (trim_start (reverse (trim_start (c ∷ s))))
    ∙ ap (λ u. is_empty (trim_start (reverse u))) (trim_start-cons c s h)
    ∙ ap (λ u. is_empty (trim_start u)) (reverse-cons c s)
    ∙ trim_start-keeps (reverse s) c h

-- An address that is saved is not blank.
is_web_url-head : (c : ℕ) (s : Text) → is_web_url (c ∷ s) ≡ true → c ≡ 104
unfolding is_web_url starts_with
is_web_url-head c s h = ground (arith, h)

h-is_space : (c : ℕ) → c ≡ 104 → is_space c ≡ false
unfolding is_space
h-is_space c h = ground arith

is_web_url-trim :
    (s : Text) → is_web_url s ≡ true → (is_empty s ≡ false) × (is_empty (trim s) ≡ false)
unfolding is_web_url
is_web_url-trim [] h = ground (arith, h)
is_web_url-trim (c ∷ s) h = (refl, trim-keeps c s (h-is_space c (is_web_url-head c s h)))

module _ {W : Type 0} (device : Device W) (content : Text → W → Option Text)
    (d : IsReliable device content) (env : Option Text) where
  save_base_url-done :
      (url b : Text) (w : W)
      → is_web_url (normalize_url url) ≡ true
      → save_base_url device env url (w, b) ≡ (
          let r = normalize_url (normalize_url url) in
          (ok r, ((device.set_item server_url_key (normalize_url url) w).1, r)))
  unfolding save_base_url apply_base_url
  save_base_url-done url b w h = ground (arith, h, d.set_done server_url_key (normalize_url url) w)

  init_stored_base_url-stored :
      (s b : Text) (w : W)
      → is_web_url s ≡ true
      → content server_url_key w ≡ some s
      → init_stored_base_url device env (w, b) ≡ (ok (normalize_url s), (w, normalize_url s))
  unfolding init_stored_base_url apply_base_url
  init_stored_base_url-stored s b w h k =
      ground (arith, k, d.get_lem server_url_key w, is_web_url-trim s h)

  stored-set :
      (s : Text) (w : W) → content server_url_key (device.set_item server_url_key s w).1 ≡ some s
  stored-set s w = d.set_content server_url_key server_url_key s w

  -- Where SecureStore works: an address that passes the test for http:// or https:// is kept in SecureStore
  -- without its outer spaces and final slashes; normalised once more, it is the address in effect at once,
  -- and again after a restart, whatever the address was before.
  pub init_stored_base_url-save_base_url :
      (url b other : Text) (w : W)
      → is_web_url (normalize_url url) ≡ true
      → (w' : W) × (save_base_url device env url (w, b)
          ≡ (ok (normalize_url (normalize_url url)), (w', normalize_url (normalize_url url))))
        × (content server_url_key w' ≡ some (normalize_url url))
        × (init_stored_base_url device env (w', other)
            ≡ (ok (normalize_url (normalize_url url)), (w', normalize_url (normalize_url url))))
  init_stored_base_url-save_base_url url b other w h =
      let clean = normalize_url url in
      let w' = (device.set_item server_url_key clean w).1 in
      (
        w',
        save_base_url-done url b w h,
        stored-set clean w,
        init_stored_base_url-stored clean other w' h (stored-set clean w),
      )

  -- What is no address with `http://` or `https://` is refused, and nothing changes.
  save_base_url-refused :
      (url b : Text) (w : W)
      → is_web_url (normalize_url url) ≡ false
      → (m : Text) × (save_base_url device env url (w, b) ≡ (err (other_failure m), (w, b)))
  unfolding save_base_url
  save_base_url-refused url b w h =
      (codes "Server URL must start with http:// or https://", ground (arith, h))

  -- A start leaves the storage alone, and the address that it picks is in effect.
  init_stored_base_url_lem :
      (w : W) (b : Text) → (r : Text) × (init_stored_base_url device env (w, b) ≡ (ok r, (w, r)))
  unfolding init_stored_base_url apply_base_url choose
  init_stored_base_url_lem w b = elim (Option-cases (content server_url_key w)) [
    | inl absent ↦
        (normalize_url (default_base_url env), ground (arith, absent, d.get_lem server_url_key w))
    | inr (s, found) ↦ elim (Bool-cases (not (is_empty s) && not (is_empty (trim s)))) [
      | inl good ↦ (normalize_url s, ground (arith, good, found, d.get_lem server_url_key w))
      | inr blank ↦ (
        normalize_url (default_base_url env),
        ground (arith, blank, found, d.get_lem server_url_key w),
      )
    ]
  ]
