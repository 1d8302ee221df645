-- ===== src/Client/Logs.antt =====
-- client/src/features/dashboard/LogsViewer.tsx: the live log of a container.
pub mod Recent
use server_hub.Prelude.{
  ℕ, ◌+◌, ◌-◌, String, Bool, true, false, not, ◌&&◌, ◌||◌, List, [], ◌∷◌, ◌++◌, Option, none, some,
  any, ltb, leb, length, drop, map, ◌==◌, if◌then◌else◌,
}
use server_hub.Text.{Text, codes, eqb, is_empty, includes, starts_with, trim, to_lower}

-- `ALL` is none.
pub data Level : Type 0 where
  info warn error debug : Level

-- A character as the flag `i` of a regular expression compares it.
unfoldable pub fold_char : ℕ → ℕ
fold_char c = if leb 65 c && leb c 90 then c + 32 else c

-- `\w`
is_word : ℕ → Bool
is_word c = (leb 48 c && leb c 57) || (leb 65 c && leb c 90) || c == 95 || (leb 97 c && leb c 122)

-- `\b` after a letter.
ends_word : Text → Bool
unfolding is_word
ends_word [] = true
ends_word (c ∷ s) = not (is_word c)

-- `/err\b/`
unfoldable pub has_err : Text → Bool
unfolding ends_word starts_with
has_err [] = false
has_err (c ∷ s) = (starts_with (c ∷ s) (codes "err") && ends_word (drop 2 s)) || has_err s

abbrev pub error_words : List String
error_words = "error" ∷ "fail" ∷ "exception" ∷ "fatal" ∷ "panic" ∷ []

abbrev pub mentions : List String → Text → Bool
mentions ws s = any (λ w. includes s (codes w)) ws

unfoldable pub level_of : Text → Level
unfolding fold_char has_err includes
level_of line =
    let s = map fold_char line in
    if mentions error_words s || has_err s
    then error
    else if mentions ("warn" ∷ []) s
    then warn
    else if mentions ("debug" ∷ "trace" ∷ []) s
    then debug
    else info

abbrev pub level_eqb : Level → Level → Bool
level_eqb info info = true
level_eqb warn warn = true
level_eqb error error = true
level_eqb debug debug = true
level_eqb _ _ = false

abbrev pub max_lines : ℕ
max_lines = 800

-- `xs.slice(-n)`, where `n` is not zero.
abbrev pub last_of {ℓ} : {A : Type ℓ} → ℕ → List A → List A
last_of n xs = drop (length xs - n) xs

onto : ℕ → List Text → List Text
onto c [] = (c ∷ []) ∷ []
onto c (p ∷ ps) = (c ∷ p) ∷ ps

-- `split("\n")`
split_lines : Text → List Text
unfolding onto
split_lines [] = [] ∷ []
split_lines (c ∷ s) = let rest = split_lines s in if c == 10 then [] ∷ rest else onto c rest

-- `filter((l) => l.length > 0)`
full_lines : List Text → List Text
full_lines [] = []
full_lines (l ∷ ls) = let rest = full_lines ls in if is_empty l then rest else l ∷ rest

unfoldable pub chunk_of : Text → List Text
unfolding split_lines full_lines
chunk_of s = full_lines (split_lines s)

-- The component's inputs and state; `streaming` says that its event source is open.
pub record Viewer : Type 0 where
  pub container : Text
  pub live : Bool
  pub tail : Text
  pub lines : List Text
  pub error : Option Text
  pub streaming : Bool

-- The effect that runs when the container, the tail or `live` has changed.
unfoldable pub subscribe : Viewer → Viewer
subscribe v = record v {
  lines = [];
  error = none;
  streaming = v.live && not (is_empty v.container);
}

abbrev pub opened : Text → Viewer
opened container = record {
  container = container;
  live = true;
  tail = codes "200";
  lines = [];
  error = none;
  streaming = not (is_empty container);
}

-- `es.onmessage`: at most so many lines are kept.
unfoldable pub receive : Text → Viewer → Viewer
unfolding chunk_of
receive s v = record v { lines = last_of max_lines (last_of max_lines v.lines ++ chunk_of s) }

-- A message or an error of the stream, the button, the choice of a tail, another container.
pub data LogEvent : Type 0 where
  message : Text → LogEvent
  interrupted : LogEvent
  toggled : LogEvent
  tail_picked : Text → LogEvent
  moved : Text → LogEvent

unfoldable pub step : LogEvent → Viewer → Viewer
unfolding receive subscribe
step (message s) v = if v.streaming then receive s v else v
step interrupted v =
    if v.streaming
    then record v {
      error = some (codes "Stream interrupted — the shipyard may be unreachable. Resume to retry.");
      streaming = false;
    }
    else v
step toggled v = subscribe (record v { live = not v.live })
step (tail_picked t) v = if eqb t v.tail then v else subscribe (record v { tail = t })
step (moved c) v = if eqb c v.container then v else subscribe (record v { container = c })

unfoldable pub run : List LogEvent → Viewer → Viewer
unfolding step
run [] v = v
run (e ∷ es) v = run es (step e v)

level_fits : Option Level → Text → Bool
unfolding level_of
level_fits none line = true
level_fits (some l) line = level_eqb (level_of line) l

-- The lines that are shown: of the chosen level, and with the searched text.
unfoldable pub visible : Option Level → Text → List Text → List Text
unfolding level_fits trim to_lower includes
visible level query [] = []
visible level query (l ∷ ls) =
    let rest = visible level query ls in
    let q = to_lower (trim query) in
    if level_fits level l && (is_empty q || includes (to_lower l) q) then l ∷ rest else rest
