-- ===== src/Mobile/Phone.antt =====
-- What the mobile client runs on: SecureStore, axios and the JavaScript engine, as a record of
-- operations, and the awaits of mobile/src as a monad over the phone's state.
use server_hub.Prelude.{ℕ, Option, none, some, ◌≡◌, if◌then◌else◌}
use server_hub.Text.{Text, eqb}
use server_hub.Json.{Json, obj, null, property}
use server_hub.Routing.{Method}

-- ApiError of mobile/src/api/client.ts, or any other error, with its message.
pub data Failure : Type 0 where
  api_failure : ℕ → Text → Failure
  other_failure : Text → Failure

pub data Result {ℓ} (A : Type ℓ) : Type ℓ where
  ok : A → Result A
  err : Failure → Result A

-- A request as axios sends it; `token` is what follows `Bearer ` in the Authorization header.
pub record Sent : Type 0 where
  pub method : Method
  pub base : Text
  pub path : Text
  pub token : Option Text
  pub body : Option Json

-- axios resolves with the data of a response in 200 to 299, and rejects any other response, or when
-- there is none, with an error that has a message.
pub data Answer : Type 0 where
  resolved : Json → Answer
  refused : ℕ → Json → Text → Answer
  unreachable : Text → Answer

-- SecureStore may reject with an error. `invalid_value` is its message for a value that is no string,
-- `null_access` the engine's for a property of null.
pub record Device (W : Type 0) : Type 0 where
  pub get_item : Text → W → Result (Option Text) × W
  pub set_item : Text → Text → W → Result (Unit {0}) × W
  pub delete_item : Text → W → Result (Unit {0}) × W
  pub exchange : Sent → W → Answer × W
  pub invalid_value : Text
  pub null_access : Text

-- A SecureStore that works: `content` is what it holds, and requests leave it alone.
pub record IsReliable {W : Type 0} (d : Device W) (content : Text → W → Option Text) : Type 0 where
  pub get_lem : (k : Text) (w : W) → d.get_item k w ≡ (ok (content k w), w)
  pub set_done : (k v : Text) (w : W) → (d.set_item k v w).0 ≡ ok tt
  pub set_content :
      (j k v : Text) (w : W)
      → content j (d.set_item k v w).1 ≡ (if eqb k j then some v else content j w)
  pub delete_done : (k : Text) (w : W) → (d.delete_item k w).0 ≡ ok tt
  pub delete_content :
      (j k : Text) (w : W)
      → content j (d.delete_item k w).1 ≡ (if eqb k j then none else content j w)
  pub exchange_content : (j : Text) (q : Sent) (w : W) → content j (d.exchange q w).1 ≡ content j w

-- An async function: what it returns or throws, and what it leaves behind.
abbrev pub M : Type 0 → Type 0 → Type 0
M W A = W → Result A × W

infixl 5 ◌>>=◌ ◌>>◌
abbrev pub ◌>>=◌ : {W A B : Type 0} → M W A → (A → M W B) → M W B
(m >>= f) w = let (r, w') = m w in elim r [ ok a ↦ f a w' | err e ↦ (err e, w') ]

abbrev pub ◌>>◌ : {W B : Type 0} → M W (Unit {0}) → M W B → M W B
◌>>◌ m k = m >>= λ _. k

abbrev pub pure : {W A : Type 0} → A → M W A
pure a w = (ok a, w)

abbrev pub throw : {W A : Type 0} → Failure → M W A
throw e w = (err e, w)

-- `try { m } catch (e) { handle(e) }`
abbrev pub catching : {W A : Type 0} → M W A → (Failure → M W A) → M W A
catching m handle w = let (r, w') = m w in elim r [ ok a ↦ (ok a, w') | err e ↦ handle e w' ]

-- `data?.key`, where a property that is null counts as missing.
abbrev pub optional_property : Text → Json → Option Json
optional_property k (obj fs) = elim (property k fs) [ some null ↦ none | v ↦ v ]
optional_property k _ = none
