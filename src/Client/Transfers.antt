-- ===== src/Client/Transfers.antt =====
-- client/src/features/transfers/FileTransfersPage.tsx: the paths of the file browser, and what its
-- prompt asks the server for.
pub mod Paths
pub mod Prompted
use server_hub.Prelude.{
  ℕ, zero, suc, Bool, true, false, not, ◌&&◌, ◌||◌, [], ◌∷◌, ◌++◌, List, Option, none, some, take,
  drop, length, leb, ◌-◌, ◌==◌, if◌then◌else◌,
}
use server_hub.Text.{Text, codes, eqb, is_empty, includes, starts_with, trim}
use server_hub.Text.Slashes.{strip_slashes}
use server_hub.Api.Transfer.{TransferCall, mkdir, rename, move, copy}
use server_hub.Client.Dashboard.{Failure, api_failure, other_failure, no_error, Fetch, got, lost}
use server_hub.Client.Toasts.{Ui, push_toast}

abbrev pub root : Text
root = 47 ∷ []

unfoldable pub join_path : Text → Text → Text
unfolding strip_slashes
join_path dir name = if eqb dir root then 47 ∷ name else strip_slashes dir ++ 47 ∷ name

-- `lastIndexOf("/")`, where none is -1.
unfoldable pub last_slash : Text → Option ℕ
last_slash [] = none
last_slash (c ∷ s) = elim (last_slash s) [
  | some i ↦ some (suc i)
  | none ↦ if c == 47 then some 0 else none
]

cut_at : Text → Option ℕ → Text
cut_at p none = root
cut_at p (some zero) = root
cut_at p (some (suc i)) = take (suc i) p

-- none is null.
unfoldable pub parent_path : Text → Option Text
unfolding strip_slashes last_slash cut_at includes
parent_path p =
    if eqb p root || not (includes p root)
    then none
    else some (cut_at p (last_slash (strip_slashes p)))

unfoldable pub err_msg : Failure → Text → Text
err_msg (api_failure n m) other = m
err_msg (other_failure m) other = m
err_msg no_error other = other

-- `endsWith`
unfoldable pub ends_with : Text → Text → Bool
unfolding starts_with
ends_with s p = leb (length p) (length s) && eqb (drop (length s - length p) s) p

pub data PromptKind : Type 0 where
  making renaming moving copying : PromptKind

-- The path and the name of the item, if there is one.
pub record Prompt : Type 0 where
  pub kind : PromptKind
  pub item : Option (Text × Text)
  pub given : Text
  pub dest : Option Text

-- `(prompt.destValue ?? path).trim() || path`
abbrev destination : Text → Option Text → Text
destination path none = if is_empty (trim path) then path else trim path
destination path (some d) = if is_empty (trim d) then path else trim d

unfoldable pub target_of : Text → Option Text → Text → Text
unfolding join_path ends_with trim
target_of path dest name =
    let d = destination path dest in if ends_with d name then d else join_path d name

-- The call that the prompt makes, with the toast of its success.
asked : Text → Text → PromptKind → Option (Text × Text) → Option Text → Option (TransferCall × Text)
unfolding target_of join_path
asked path v making item dest = some (mkdir (join_path path v), codes "Created " ++ v)
asked path v renaming (some (p, name)) dest = some (rename p v, codes "Renamed to " ++ v)
asked path v moving (some (p, name)) dest =
    some (move p (target_of path dest name), codes "Moved to " ++ target_of path dest name)
asked path v copying (some (p, name)) dest =
    some (copy p (target_of path dest name), codes "Copied to " ++ target_of path dest name)
asked path v _ none dest = none

-- `submitPrompt` up to its call: nothing at all without a prompt or the right to change, a toast where
-- no name is given, and else the call, if there is one.
pub data Submission : Type 0 where
  ignored : Submission
  name_required : Submission
  submitted : Option (TransferCall × Text) → Submission

unfoldable pub submit_prompt : Bool → Text → Option Prompt → Submission
unfolding asked trim
submit_prompt can_mutate path none = ignored
submit_prompt can_mutate path (some prompt) =
    if not can_mutate
    then ignored
    else if is_empty (trim prompt.given)
    then name_required
    else submitted (asked path (trim prompt.given) prompt.kind prompt.item prompt.dest)

-- The page's state: `busy`, how often `refreshAll` ran, and the toasts.
pub record Page : Type 0 where
  pub busy : Bool
  pub refreshed : ℕ
  pub ui : Ui

-- `run`, by how the call ends: the page afterwards, and the result or null.
unfoldable pub run {ℓ} : {A : Type ℓ} → Fetch A → Text → Page → Page × Option A
unfolding err_msg push_toast
run (got out) ok_msg page = (
  record page {
    busy = false;
    refreshed = suc page.refreshed;
    ui = push_toast ok_msg false page.ui;
  },
  some out,
)
run (lost e) ok_msg page = (
  record page {
    busy = false;
    ui = push_toast (err_msg e (ok_msg ++ codes " (failed)")) true page.ui;
  },
  none,
)
