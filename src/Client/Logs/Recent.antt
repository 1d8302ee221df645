-- ===== src/Client/Logs/Recent.antt =====
-- What the live log of a container holds: the last lines of its stream.
use server_hub.Prelude.{◌≡◌, List, [], ◌∷◌, ◌++◌, if◌then◌else◌}
use server_hub.Text.{Text, eqb}
use server_hub.Client.Logs.{
  Viewer, LogEvent, message, interrupted, toggled, tail_picked, moved, max_lines, last_of, chunk_of,
  step,
}

-- The lines that came on the current stream, all of them, after one more event.
heard : LogEvent → Viewer → List Text → List Text
heard (message s) v h = if v.streaming then h ++ chunk_of s else h
heard interrupted v h = h
heard toggled v h = []
heard (tail_picked t) v h = if eqb t v.tail then h else []
heard (moved c) v h = if eqb c v.container then h else []

unfoldable pub received : List LogEvent → Viewer → List Text → List Text
unfolding heard
received [] v h = h
received (e ∷ es) v h = received es (step e v) (heard e v h)

abbrev Holds : List Text → Viewer → Type 0
Holds h v = v.lines ≡ last_of max_lines h
