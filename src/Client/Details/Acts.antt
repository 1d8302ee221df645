-- ===== src/Client/Details/Acts.antt =====
-- What the actions on a project leave behind, and what they ask the server for.
use server_hub.Prelude.{
  ℕ, suc, ◌≡◌, refl, Bool, true, false, [], ◌∷◌, List, none, some, length, length-append,
  if◌then◌else◌, arith, ap, ◌∙◌,
}
use server_hub.Text.{Text, is_empty}
use server_hub.Client.Dashboard.{Failure, Fetch, got, lost}
use server_hub.Client.Toasts.{Ui, push_toast}
use server_hub.Api.Calls.{Call}
use server_hub.Client.Transfers.{err_msg}
use server_hub.Client.Details.{
  Project, Details, Act, run_lifecycle, ship_it, rollback_to, make_backup, remove_backup,
  recover_backup, peek, add_secret, fallback_of, call_of, perform, settle, succeed, fail, idle,
  takes_busy, look_up, hide,
}

abbrev toast_count : Details → ℕ
toast_count x = length x.ui.toasts

push_toast-length :
    (text : Text) (bad : Bool) (ui : Ui)
    → length (push_toast text bad ui).toasts ≡ suc (length ui.toasts)
unfolding push_toast
push_toast-length text bad ui = omega (arith, length-append ui.toasts _)

succeed-ui :
    (p : Project) (a : Act) (r : Text) (x : Details)
    → (text : Text) × ((succeed p a r x).ui ≡ push_toast text false x.ui)
unfolding succeed
succeed-ui p (run_lifecycle verb) r x = (_, refl)
succeed-ui p ship_it r x = (_, refl)
succeed-ui p (rollback_to id sha) r x = (_, refl)
succeed-ui p make_backup r x = (_, refl)
succeed-ui p (remove_backup id) r x = (_, refl)
succeed-ui p (recover_backup id) r x = (_, refl)
succeed-ui p (peek id) r x = (_, refl)
succeed-ui p add_secret r x = (_, refl)

succeed-busy :
    (p : Project) (a : Act) (r : Text) (x : Details)
    → (succeed p a r x).busy ≡ (if takes_busy a then false else x.busy)
unfolding succeed takes_busy
succeed-busy p (run_lifecycle verb) r x = refl
succeed-busy p _ r x = refl

fail-ui :
    (a : Act) (e : Failure) (x : Details)
    → (text : Text) × ((fail a e x).ui ≡ push_toast text true x.ui)
unfolding fail
fail-ui a e x = (err_msg e (fallback_of a), refl)

fail-busy :
    (a : Act) (e : Failure) (x : Details)
    → (fail a e x).busy ≡ (if takes_busy a then false else x.busy)
unfolding fail
fail-busy a e x = refl

-- An action that calls the server ends with one toast more, and with `busy` cleared where it set it.
pub perform-called :
    (p : Project) (a : Act) (o : Fetch Text) (x : Details) (c : Call)
    → call_of p a x ≡ some c
    → (length (perform p a o x).ui.toasts ≡ suc (length x.ui.toasts))
      × ((perform p a o x).busy ≡ (if takes_busy a then false else x.busy))
unfolding perform
perform-called p a (got r) x c h =
    let (text, pushed) = succeed-ui p a r x in
    (
      ground (arith, h, pushed, push_toast-length text false x.ui),
      ground (arith, h, succeed-busy p a r x),
    )
perform-called p a (lost e) x c h =
    let (text, pushed) = fail-ui a e x in
    (
      ground (arith, h, pushed, push_toast-length text true x.ui),
      ground (arith, h, fail-busy a e x),
    )

look_up-hide : (id : ℕ) (r : List (ℕ × Text)) → look_up id (hide id r) ≡ none
unfolding look_up hide
look_up-hide id [] = refl
look_up-hide id ((j, v) ∷ r) = ground (arith, look_up-hide id r)

look_up-succeed :
    (p : Project) (id : ℕ) (r : Text) (x : Details) (c : Call) (o : Fetch Text)
    → call_of p (peek id) x ≡ some c
    → look_up id (perform p (peek id) (got r) x).revealed ≡ some r
unfolding perform succeed look_up
look_up-succeed p id r x c o h =
    ap (λ k. look_up id (settle p (peek id) k (got r) x).revealed) h ∙ ground arith

peek-shown :
    (p : Project) (id : ℕ) (o : Fetch Text) (y : Details) (r : Text)
    → look_up id y.revealed ≡ some r
    → is_empty r ≡ false
    → (call_of p (peek id) y ≡ none) × (look_up id (perform p (peek id) o y).revealed ≡ none)
unfolding perform idle call_of
peek-shown p id o y r h ne =
    let none_left : call_of p (peek id) y ≡ none = ground (arith, h, ne) in
    (
      none_left,
      ap (λ k. look_up id (settle p (peek id) k o y).revealed) none_left
          ∙ look_up-hide id y.revealed,
    )

-- A secret that was revealed is shown, and the next peek hides it without a call.
perform-peek :
    (p : Project) (id : ℕ) (r : Text) (o : Fetch Text) (x : Details) (c : Call)
    → call_of p (peek id) x ≡ some c
    → is_empty r ≡ false
    → let y = perform p (peek id) (got r) x in
      (look_up id y.revealed ≡ some r)
      × (call_of p (peek id) y ≡ none)
      × (look_up id (perform p (peek id) o y).revealed ≡ none)
perform-peek p id r o x c h ne =
    let shown = look_up-succeed p id r x c o h in
    let (none_left, hidden) = peek-shown p id o (perform p (peek id) (got r) x) r shown ne in
    (shown, none_left, hidden)
