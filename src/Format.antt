-- ===== src/Format.antt =====
-- packages/shared/src/format.ts: the formatters that both clients share. Numbers are whole; a time is
-- in milliseconds after 1970.
pub mod Shown
use server_hub.Prelude.{
  ℕ, zero, suc, ◌+◌, ◌-◌, ◌*◌, ◌/◌, ◌%◌, String, Bool, [], ◌∷◌, ◌++◌, Option, none, some, length,
  take, drop, ltb, leb, ◌==◌, if◌then◌else◌,
}
use server_hub.Text.{Text, codes, includes, is_empty}
use server_hub.Text.Decimal.{show}

abbrev pub dash : Text
dash = codes "—"

-- `s.replace(" ", "T")`: the first blank.
replace_blank : Text → Text
replace_blank [] = []
replace_blank (c ∷ s) = let rest = replace_blank s in if c == 32 then b'T' ∷ s else c ∷ rest

-- What `new Date` is given.
iso_of : Text → Text
unfolding includes replace_blank
iso_of s = if includes s (codes "T") then s else replace_blank s ++ codes "Z"

unfoldable pub seconds_text : ℕ → Text
seconds_text n = show n ++ codes "s ago"

-- `${n} word${n === 1 ? "" : "s"} ago`
unfoldable pub plural_text : ℕ → String → Text
plural_text n word = show n ++ 32 ∷ codes word ++ (if n == 1 then [] else codes "s") ++ codes " ago"

-- `new Date(iso).getTime()` is a parameter; none is NaN.
module _ (parse_date : Text → Option ℕ) where
  unfoldable pub parse_time : Option Text → Option ℕ
  unfolding iso_of
  parse_time none = none
  parse_time (some s) = if is_empty s then none else parse_date (iso_of s)

  ago : ℕ → Text
  unfolding seconds_text plural_text
  ago secs =
      if ltb secs 60
      then seconds_text secs
      else if ltb (secs / 60) 60
      then plural_text (secs / 60) "min"
      else if ltb (secs / 60 / 60) 24
      then plural_text (secs / 60 / 60) "hour"
      else plural_text (secs / 60 / 60 / 24) "day"

  since : ℕ → Option ℕ → Text
  unfolding ago
  since now none = dash
  since now (some t) = ago ((now - t) / 1000)

  -- `now` is `Date.now()`; a time to come counts as now.
  unfoldable pub time_ago : ℕ → Option Text → Text
  unfolding parse_time since
  time_ago now s = since now (parse_time s)

-- `String(n).padStart(2, "0")`
unfoldable pub pad2 : ℕ → Text
pad2 n = if ltb n 10 then 48 ∷ show n else show n

unfoldable pub fmt_duration : Option ℕ → Text
unfolding pad2
fmt_duration none = dash
fmt_duration (some sec) =
    if ltb sec 60
    then show sec ++ codes "s"
    else show (sec / 60) ++ codes "m " ++ pad2 (sec % 60) ++ codes "s"

unfoldable fmt_uptime : ℕ → Text
fmt_uptime total_sec =
    let d = total_sec / 86400 in
    let h = total_sec % 86400 / 3600 in
    if ltb 0 d
    then show d ++ codes "d " ++ show h ++ codes "h"
    else if ltb 0 h
    then show h ++ codes "h " ++ show (total_sec % 3600 / 60) ++ codes "m"
    else show (total_sec / 60) ++ codes "m"

-- `h` is the hour of the clock.
unfoldable greeting : ℕ → Text
greeting h =
    if ltb h 12
    then codes "Good morning"
    else if ltb h 18
    then codes "Good afternoon"
    else codes "Good evening"

short : ℕ → ℕ → Option Text → Text
short limit kept none = dash
short limit kept (some s) =
    if is_empty s then dash else if ltb limit (length s) then take kept s else s

unfoldable pub short_sha : Option Text → Text
unfolding short
short_sha sha = short 8 7 sha

unfoldable pub short_id : Option Text → Text
unfolding short
short_id id = short 12 12 id

-- `(n / unit).toFixed(1)`, where `unit` is a power of two: the nearest tenth, the larger one of two.
unfoldable pub tenths : ℕ → ℕ → ℕ
tenths n unit = (20 * n + unit) / (2 * unit)

fixed1 : ℕ → Text
fixed1 t = show (t / 10) ++ 46 ∷ show (t % 10)

unfoldable pub fmt_bytes : ℕ → Text
unfolding tenths fixed1
fmt_bytes bytes =
    if bytes == 0
    then codes "0 B"
    else if ltb bytes 1024
    then show bytes ++ codes " B"
    else if ltb bytes (1024 * 1024)
    then fixed1 (tenths bytes 1024) ++ codes " KB"
    else fixed1 (tenths bytes (1024 * 1024)) ++ codes " MB"

-- none is null or undefined; below zero is left out.
unfoldable fmt_gb_from_mb : Option ℕ → Text
unfolding tenths fixed1
fmt_gb_from_mb none = dash
fmt_gb_from_mb (some mb) =
    if ltb mb 1024 then show mb ++ codes " MB" else fixed1 (tenths mb 1024) ++ codes " GB"

-- none is an age that is negative or no finite number.
unfoldable pub format_age : Option ℕ → Text
format_age none = codes "just now"
format_age (some age_ms) =
    let secs = age_ms / 1000 in
    if ltb age_ms 10000
    then codes "just now"
    else if ltb secs 60
    then show secs ++ codes "s ago"
    else if ltb (secs / 60) 60
    then show (secs / 60) ++ codes " min ago"
    else if ltb (secs / 60 / 60) 24
    then show (secs / 60 / 60) ++ codes " hr ago"
    else show (secs / 60 / 60 / 24) ++ codes " days ago"

abbrev pub stale_after_ms : ℕ
stale_after_ms = 90000
