-- ===== src/Client/Backups/Settled.antt =====
-- When a press of a control of the database backups has ended well for the page: its buttons are free again
-- and it has told how the call ended.
use server_hub.Prelude.{Bool, true, false, ◌≡◌, [], ◌∷◌, ◌++◌, List, none}
use server_hub.Text.{Text}
use server_hub.Client.Transitions.{Note}
use server_hub.Client.Backups.Told.{Screen}

abbrev pub IsFree : Screen → Type 0
IsFree s = (s.busy ≡ false) × (s.checking ≡ false) × (s.testing ≡ none)

-- An effect that leaves the flags and the toasts alone.
abbrev pub IsNeutral : (Screen → Screen) → Type 0
IsNeutral f =
    (s : Screen)
    → ((f s).busy ≡ s.busy)
      × ((f s).checking ≡ s.checking)
      × ((f s).testing ≡ s.testing)
      × ((f s).notes ≡ s.notes)

-- Nothing is told, or one toast which is bad or not.
abbrev pub Tells : Bool → Bool → List Note → Type 0
Tells true bad told = told ≡ []
Tells false bad told = (t : Text) × (told ≡ (t, bad) ∷ [])

-- The buttons are free, and the toasts have grown by what is told.
abbrev pub Settles : Bool → Bool → Screen → Screen → Type 0
Settles silent bad before after =
    IsFree after
    × ((told : List Note) × (after.notes ≡ before.notes ++ told) × Tells silent bad told)
