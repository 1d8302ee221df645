-- ===== src/Client/Rules/Kept.antt =====
-- What the form of a notification rule keeps of a rule, and of its own operator.
use server_hub.Prelude.{
  ℕ, ◌≡◌, refl, Bool, true, false, [], ◌∷◌, ◌++◌, List, Option, none, some, ◌+◌, ◌*◌, ◌/◌, ◌<◌,
  if◌then◌else◌, map, arith, if-elim, ap, ◌∙◌,
}
use server_hub.Text.{Text, codes, join, trim}
use server_hub.Text.Decimal.{show, show-read}
use server_hub.Client.Rules.{
  ConditionField, on_severity, on_condition, on_value, on_server_id, operators_by_field, has,
  FormState, whole_part, to_seconds, Edit, set, to_cond_op, to_cond_field, first, edit,
  NotificationRule, start_edit, start_create, channels_of, cooldown_of, cooldown_unit_of,
  with_condition, with_field, split_commas, Condition, condition_field,
}

whole_part-digit :
    (a d : ℕ) (s : Text) → d < 10 → whole_part a ((48 + d) ∷ s) ≡ whole_part (10 * a + d) s
unfolding whole_part
whole_part-digit a d s h = ground arith

whole_part-show : (n : ℕ) → whole_part 0 (show n) ≡ n
unfolding whole_part
whole_part-show n = show-read whole_part whole_part-digit n ∙ refl

to_seconds-cooldown_of : (cd : ℕ) → to_seconds (show (cooldown_of cd)) (cooldown_unit_of cd) ≡ cd
unfolding to_seconds cooldown_of cooldown_unit_of
to_seconds-cooldown_of cd =
    grind (arith, whole_part-show (cd / 3600), whole_part-show (cd / 60), whole_part-show cd)

-- The channels as the server stores them.
abbrev stored : Bool → Bool → Text
stored email in_app =
    join (codes ",")
      ((if email then codes "EMAIL" ∷ [] else []) ++ (if in_app then codes "IN_APP" ∷ [] else []))

shown : Text → Bool × Bool
unfolding split_commas trim
shown s = (
  has (codes "EMAIL") (map trim (split_commas s)),
  has (codes "IN_APP") (map trim (split_commas s)),
)

shown-stored : (email in_app : Bool) → shown (stored email in_app) ≡ (email, in_app)
unfolding shown join
shown-stored true true = refl
shown-stored true false = refl
shown-stored false true = refl
shown-stored false false = refl

-- A form with the cooldown and the channels of another.
abbrev IsKept : FormState → FormState → Type 0
IsKept g f =
    (to_seconds g.cooldown g.cooldown_unit ≡ to_seconds f.cooldown f.cooldown_unit)
    × (channels_of g ≡ channels_of f)

with_field-IsKept :
    (k : Option ConditionField) (c : Condition) (f : FormState) → IsKept (with_field k c f) f
unfolding with_field channels_of
with_field-IsKept none c f = (refl, refl)
with_field-IsKept (some k) c f = (refl, refl)

-- The condition of a rule touches neither.
with_condition-IsKept : (c : Option Condition) (f : FormState) → IsKept (with_condition c f) f
unfolding with_condition
with_condition-IsKept none f = (refl, refl)
with_condition-IsKept (some c) f = with_field-IsKept (condition_field c.field) c f

-- A rule whose channels a form chose, and the server joined, opens with the same channels, and with a
-- cooldown that is as many seconds as the rule's.
pub start_edit-kept :
    (r : NotificationRule) (f : FormState)
    → r.channels ≡ join (codes ",") (channels_of f)
    → (to_seconds (start_edit r).cooldown (start_edit r).cooldown_unit ≡ r.cooldown_seconds)
      × (channels_of (start_edit r) ≡ channels_of f)
unfolding start_edit channels_of shown
start_edit-kept r f h =
    let kept = with_condition-IsKept r.condition _ in
    let pair = ap shown h ∙ shown-stored f.email f.in_app in
    (
      kept.0 ∙ to_seconds-cooldown_of r.cooldown_seconds,
      kept.1
          ∙ ap
              (λ p.
                (if p.0 then codes "EMAIL" ∷ [] else [])
                ++ (if p.1 then codes "IN_APP" ∷ [] else []))
              pair,
    )

-- The operator of the form is one that its field offers.
abbrev pub OffersOperator : FormState → Type 0
OffersOperator f = has f.cond_op (operators_by_field f.cond_field) ≡ true

-- Of an operator, the form's list offers only what its field has at that time.
abbrev IsOffered : Edit → FormState → Type 0
IsOffered (to_cond_op s) f = has s (operators_by_field f.cond_field) ≡ true
IsOffered _ f = Unit {0}

abbrev AreOffered : List Edit → FormState → Type 0
AreOffered [] f = Unit {0}
AreOffered (e ∷ es) f = IsOffered e f × AreOffered es (set e f)

has-first : (k : ConditionField) → has (first (operators_by_field k)) (operators_by_field k) ≡ true
unfolding first
has-first on_severity = refl
has-first on_condition = refl
has-first on_value = refl
has-first on_server_id = refl

set-OffersOperator :
    (e : Edit) (f : FormState) → OffersOperator f → IsOffered e f → OffersOperator (set e f)
unfolding set
set-OffersOperator (to_cond_op s) f h k = k
set-OffersOperator (to_cond_field k) f h _ =
    if-elim (λ s. has s (operators_by_field k) ≡ true) (has f.cond_op (operators_by_field k))
      (λ e. e) (λ e. has-first k)
set-OffersOperator _ f h k = h

edit-OffersOperator :
    (es : List Edit) (f : FormState)
    → OffersOperator f
    → AreOffered es f
    → OffersOperator (edit es f)
unfolding edit
edit-OffersOperator [] f h k = h
edit-OffersOperator (e ∷ es) f h k =
    edit-OffersOperator es (set e f) (set-OffersOperator e f h k.0) k.1

start_create-OffersOperator : (ids : List ℕ) → OffersOperator (start_create ids)
unfolding start_create
start_create-OffersOperator [] = refl
start_create-OffersOperator (id ∷ ids) = refl

-- However a new rule's form is edited, its operator is one that its field offers.
pub start_create-edit :
    (ids : List ℕ) (es : List Edit)
    → AreOffered es (start_create ids)
    → OffersOperator (edit es (start_create ids))
start_create-edit ids es k =
    edit-OffersOperator es (start_create ids) (start_create-OffersOperator ids) k
