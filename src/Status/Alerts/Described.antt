-- ===== src/Status/Alerts/Described.antt =====
-- What every description of an alert has.
use server_hub.Prelude.{
  if-elim, ℕ, suc, true, false, ◌||◌, ◌≡◌, ◌≢◌, refl, [], ◌∷◌, ◌++◌, Option, some, none, arith,
  subst,
}
use server_hub.Text.{includes-append, Text, codes, eqb, to_lower, includes}
use server_hub.Endpoints.Parts.{default}
use server_hub.Status.Alerts.{
  fallback_what, offline_card, load_card, memory_card, disk_card, check_card, external_card,
  other_card, check_words, Alert, AlertDescription, mentions, limit_note, resolve_note,
  offline_words, load_words, memory_words, disk_words, haystack, describe_words, describe_alert,
}

-- The card says something, and its next step ends with the warning that resolving fixes nothing.
pub record IsComplete (d : AlertDescription) : Type 0 where
  pub says : d.what ≢ []
  pub advice : Text
  pub warns : d.next ≡ advice ++ resolve_note

fallback_what-ne-nil : (message : Option Text) → fallback_what message ≢ []
fallback_what-ne-nil none h = cc
fallback_what-ne-nil (some []) h = cc
fallback_what-ne-nil (some (c ∷ s)) h = cc

offline_card-IsComplete : IsComplete offline_card
unfolding offline_card
offline_card-IsComplete = record {
  says = λ h. cc;
  advice =
      codes
        "Check that the machine is powered on and connected to the network, then make sure its monitoring agent is running. The alert clears on the next successful check-in. ";
  warns = refl;
}

load_card-IsComplete : (limit : Text) → IsComplete (load_card limit)
unfolding load_card
load_card-IsComplete limit = record {
  says = λ h. cc;
  advice =
      codes
        "Find the busiest app and restart it from its project page. If this happens during normal use, the machine may need more capacity. ";
  warns = refl;
}

memory_card-IsComplete : (limit : Text) → IsComplete (memory_card limit)
unfolding memory_card
memory_card-IsComplete limit = record {
  says = λ h. cc;
  advice =
      codes
        "Restart the busiest app to free memory. If it keeps happening, the machine may need more memory. ";
  warns = refl;
}

disk_card-IsComplete : (limit : Text) → IsComplete (disk_card limit)
unfolding disk_card
disk_card-IsComplete limit = record {
  says = λ h. cc;
  advice =
      codes
        "Delete or move unneeded files, old backups, or old uploads, then watch for the all-clear. ";
  warns = refl;
}

check_card-IsComplete : IsComplete check_card
unfolding check_card
check_card-IsComplete = record {
  says = λ h. cc;
  advice =
      codes
        "Open the site in a browser. If it's down, restart the related project, then re-run the check from Website checks. ";
  warns = refl;
}

external_card-IsComplete : IsComplete external_card
unfolding external_card
external_card-IsComplete = record {
  says = λ h. cc;
  advice = codes "Open Monitoring for the full details and fix the underlying issue there. ";
  warns = refl;
}

other_card-IsComplete : (message : Option Text) → IsComplete (other_card message)
unfolding other_card
other_card-IsComplete message = record {
  says = fallback_what-ne-nil message;
  advice = codes "Open the related page to investigate. ";
  warns = refl;
}

-- Every description is complete.
pub describe_alert-IsComplete : (alert : Alert) → IsComplete (describe_alert alert)
unfolding describe_alert
describe_alert-IsComplete alert =
    let hay = haystack alert in
    let limit = limit_note alert.threshold in
    if-elim IsComplete (mentions offline_words hay) (λ e. offline_card-IsComplete)
      (λ e.
        if-elim IsComplete (mentions load_words hay) (λ e. load_card-IsComplete limit)
          (λ e.
            if-elim IsComplete (mentions memory_words hay) (λ e. memory_card-IsComplete limit)
              (λ e.
                if-elim IsComplete (mentions disk_words hay) (λ e. disk_card-IsComplete limit)
                  (λ e.
                    if-elim IsComplete (mentions check_words hay) (λ e. check_card-IsComplete)
                      (λ e.
                        if-elim IsComplete
                          (eqb (to_lower (default [] alert.source)) (codes "alertmanager"))
                          (λ e. external_card-IsComplete)
                          (λ e. other_card-IsComplete alert.message))))))

load_card-limit : (limit : Text) → includes (load_card limit).what limit ≡ true
unfolding load_card
load_card-limit limit =
    includes-append
      (codes "This machine is working very hard — processor use is above its normal range") limit
      (codes ".")

memory_card-limit : (limit : Text) → includes (memory_card limit).what limit ≡ true
unfolding memory_card
memory_card-limit limit =
    includes-append (codes "This machine is running low on memory") limit (codes ".")

disk_card-limit : (limit : Text) → includes (disk_card limit).what limit ≡ true
unfolding disk_card
disk_card-limit limit =
    includes-append (codes "This machine is running low on disk space") limit (codes ".")

describe_words-limit :
    (hay limit : Text) (alert : Alert)
    → mentions offline_words hay ≡ false
    → (mentions load_words hay || mentions memory_words hay || mentions disk_words hay) ≡ true
    → includes (describe_words hay limit alert).what limit ≡ true
unfolding describe_words
describe_words-limit hay limit alert k m =
    ground (arith, k, m, load_card-limit limit, memory_card-limit limit, disk_card-limit limit)

-- An alert about the load, the memory or the disk, and not about a silent machine, names its limit.
pub describe_alert-limit :
    (alert : Alert) (n : ℕ)
    → alert.threshold ≡ some (suc n)
    → mentions offline_words (haystack alert) ≡ false
    → (mentions load_words (haystack alert)
        || mentions memory_words (haystack alert)
        || mentions disk_words (haystack alert))
      ≡ true
    → includes (describe_alert alert).what (limit_note (some (suc n))) ≡ true
unfolding describe_alert
describe_alert-limit alert n h k m =
    subst (λ o. includes (describe_alert alert).what (limit_note o) ≡ true) h
      (describe_words-limit (haystack alert) (limit_note alert.threshold) alert k m)
