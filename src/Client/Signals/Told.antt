-- ===== src/Client/Signals/Told.antt =====
-- What a live event says: which kinds may toast, and what the toasts leave out.
use server_hub.Prelude.{ℕ, Bool, true, false, ◌≡◌, refl, Option, some, [], ◌∷◌, ◌++◌}
use server_hub.Text.{Text, codes}
use server_hub.Json.{Json, num, Fields, property}
use server_hub.Format.{short_sha}
use server_hub.Client.Signals.{completed, threshold, text_of, react}

-- The server sends the duration of an update and the limit of a signal as numbers. Then the toast on a
-- finished update, with the duration that its event has, has none before its "s"; and the toast on high
-- load, with the limit that its event has, has none before its "%".
pub react-numbers :
    (bytes_text percent_text : Option Json → Text) (usage : Bool) (duration limit : ℕ)
    (update signal : Fields)
    → property (codes "durationSec") update ≡ some (num duration)
    → property (codes "threshold") signal ≡ some (num limit)
    → ((react bytes_text percent_text usage completed update).notes
        ≡ (
          codes "Update complete: "
              ++ (text_of (property (codes "project") update)
                  ++ (codes " @ "
                      ++ (short_sha (some (text_of (property (codes "commit") update)))
                          ++ codes " (s)."))),
          false,
        )
          ∷ [])
      × ((react bytes_text percent_text true threshold signal).notes
          ≡ (
            codes "Resource signal: host "
                ++ (text_of (property (codes "resource") signal)
                    ++ (codes " at "
                        ++ (percent_text (property (codes "value") signal)
                            ++ codes "% (limit %)."))),
            true,
          )
            ∷ [])
unfolding react
react-numbers bytes_text percent_text usage n m update signal e f = (rw e refl, rw f refl)
