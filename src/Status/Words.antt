-- ===== src/Status/Words.antt =====
-- What the words of packages/shared/src/api-types.ts mean, said without the order of the tests.
use server_hub.Prelude.{
  String, Bool, true, false, not, ◌≡◌, ◌≢◌, ◌↔◌, refl, List, [], ◌∷◌, Option, some, all, All, subst,
  arith, Bool-cases, inl, inr, ap, sym, ◌∙◌,
}
use server_hub.Text.{Text, codes, eqb, eqb_sound, to_lower, trim}
use server_hub.Status.{
  fleet_working, fleet_attention, fleet_down, docked, one_of, fleet_of_word, to_fleet_status,
  fleet_label, BusinessTone, working, attention, down, stopped, business_working,
  business_attention, business_down, business_stopped, business_of_word, word_of,
  to_business_status, tone_rank,
}

-- No word of one list stands in the other.
abbrev disjoint : List String → List String → Bool
disjoint xs ys = all (λ x. not (one_of ys (codes x))) xs

disjoint-one_of :
    (xs ys : List String) (s : Text)
    → disjoint xs ys ≡ true
    → one_of xs s ≡ true
    → one_of ys s ≡ false
unfolding one_of
disjoint-one_of [] ys s d h = cc
disjoint-one_of (x ∷ xs) ys s d h = elim (Bool-cases (eqb s (codes x))) [
  | inl same ↦ ap (one_of ys) (eqb_sound s (codes x) same) ∙ ground (arith, d)
  | inr other ↦ disjoint-one_of xs ys s (ground (arith, d)) (ground (arith, h, other))
]

-- Each tone but `unknown` stands for the words of its list, and `unknown` for those of none: the lists
-- have no word in common, so that the order of the tests does not matter.
pub to_business_status-tone :
    (raw : Option Text)
    → let tone = (to_business_status raw).tone in
      ((tone ≡ working) ↔ (one_of business_working (word_of raw) ≡ true))
      × ((tone ≡ attention) ↔ (one_of business_attention (word_of raw) ≡ true))
      × ((tone ≡ down) ↔ (one_of business_down (word_of raw) ≡ true))
      × ((tone ≡ stopped) ↔ (one_of business_stopped (word_of raw) ≡ true))
unfolding to_business_status
to_business_status-tone raw =
    let w = word_of raw in
    ground (
      arith,
      disjoint-one_of business_attention business_working w refl,
      disjoint-one_of business_down business_working w refl,
      disjoint-one_of business_down business_attention w refl,
      disjoint-one_of business_stopped business_working w refl,
      disjoint-one_of business_stopped business_attention w refl,
      disjoint-one_of business_stopped business_down w refl,
    )

-- Tones with one rank are one tone.
tone_rank_injective : (a b : BusinessTone) → tone_rank a ≡ tone_rank b → a ≡ b
unfolding tone_rank
tone_rank_injective a b h = ground arith

one_of-All :
    (P : Text → Type 0) (ws : List String) (s : Text)
    → All (λ w. P (codes w)) ws
    → one_of ws s ≡ true
    → P s
unfolding one_of
one_of-All P [] s each h = cc
one_of-All P (w ∷ ws) s each h = elim (Bool-cases (eqb s (codes w))) [
  | inl same ↦ subst P (sym (eqb_sound s (codes w) same)) each.0
  | inr other ↦ one_of-All P ws s each.1 (ground (arith, h, other))
]

abbrev Agrees : Text → Type 0
Agrees s = (business_of_word s).label ≡ fleet_label (fleet_of_word s)

fleet_of_word-Agrees :
    (s : Text) → eqb s (codes "running_partial") ≡ false → fleet_of_word s ≢ docked → Agrees s
unfolding fleet_label business_of_word fleet_of_word one_of
fleet_of_word-Agrees s plain h = elim (Bool-cases (one_of fleet_working s)) [
  | inl good ↦ one_of-All Agrees fleet_working s (refl, (refl, (refl, (refl, tt)))) good
  | inr not_good ↦ elim (Bool-cases (one_of fleet_attention s)) [
    | inl fair ↦
        one_of-All Agrees ("degraded" ∷ "choppy" ∷ []) s (refl, (refl, tt))
          (ground (arith, fair, plain))
    | inr not_fair ↦ elim (Bool-cases (one_of fleet_down s)) [
      | inl bad ↦ one_of-All Agrees fleet_down s (refl, (refl, (refl, tt))) bad
      | inr not_bad ↦ absurd (h (ground (arith, not_good, not_fair, not_bad)))
    ]
  ]
]

-- A status word with no blanks around it has one label in both vocabularies, but for
-- `running_partial` and for what the fleet's vocabulary calls stopped.
pub to_business_status-to_fleet_status :
    (raw : Text)
    → trim raw ≡ raw
    → eqb (to_lower raw) (codes "running_partial") ≡ false
    → to_fleet_status (some raw) ≢ docked
    → (to_business_status (some raw)).label ≡ fleet_label (to_fleet_status (some raw))
unfolding to_business_status to_fleet_status
to_business_status-to_fleet_status raw tight plain h =
    ap (λ s. (business_of_word (to_lower s)).label) tight
    ∙ fleet_of_word-Agrees (to_lower raw) plain h
