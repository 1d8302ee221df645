-- ===== src/Client/Discovery/Single.antt =====
-- At most one import runs at any time.
use server_hub.Prelude.{
  ℕ, ◌≡◌, ◌≤◌, true, not, List, [], ◌∷◌, Option, none, some, arith, ◌&&◌, if◌then◌else◌, if-elim,
  ltb, ◌==◌, ◌+◌, ◌-◌,
}
use server_hub.Text.{Text}
use server_hub.Client.Discovery.{
  Discovery, opened, got, threw, DiscoveryEvent, scan_answered, pressed_one, pressed_all,
  one_answered, all_answered, rescanned, is_free, begin, one_imported, all_imported, scanned_again,
  scanned, show_scan, unregistered, import_failed, step, run,
}

-- At most one call is out, and none while the buttons can be pressed.
abbrev pub IsSingle : Discovery → Type 0
IsSingle s = s.running ≤ (if is_free s.busy then 0 else 1)

running : (o : Option Text) (n : ℕ) → n ≤ (if is_free o then 0 else 1) → n ≤ 1
unfolding is_free
running none n h = omega (arith, h)
running (some t) n h = h

free_begins :
    (o : Option Text) (n : ℕ) → is_free o ≡ true → n ≤ (if is_free o then 0 else 1) → n + 1 ≤ 1
unfolding is_free
free_begins none n e h = omega (arith, h)
free_begins (some t) n e h = absurd (ground (arith, e))

fewer : (s : Discovery) → IsSingle s → s.running - 1 ≤ 0
fewer s h = omega (arith, running s.busy s.running h)

less :
    (o : Option Text) (n : ℕ)
    → n ≤ (if is_free o then 0 else 1)
    → n - 1 ≤ (if is_free o then 0 else 1)
unfolding is_free
less none n h = omega (arith, h)
less (some t) n h = omega (arith, h)

step-IsSingle : (e : DiscoveryEvent) (s : Discovery) → IsSingle s → IsSingle (step e s)
unfolding step is_free begin one_imported all_imported scanned_again scanned show_scan import_failed
step-IsSingle (scan_answered (got r)) s h = h
step-IsSingle (scan_answered (threw m)) s h = h
step-IsSingle (pressed_one name) s h =
    if-elim IsSingle (is_free s.busy) (λ e. free_begins s.busy s.running e h) (λ _. h)
step-IsSingle pressed_all s h =
    if-elim IsSingle (is_free s.busy && ltb 1 (unregistered s))
      (λ e. free_begins s.busy s.running (ground (arith, e)) h) (λ _. h)
step-IsSingle (one_answered (got r)) s h =
    if-elim IsSingle (ltb 0 s.running) (λ e. less s.busy s.running h) (λ _. h)
step-IsSingle (one_answered (threw m)) s h =
    if-elim IsSingle (ltb 0 s.running) (λ e. fewer s h) (λ _. h)
step-IsSingle (all_answered (got r)) s h =
    if-elim IsSingle (ltb 0 s.running) (λ e. less s.busy s.running h) (λ _. h)
step-IsSingle (all_answered (threw m)) s h =
    if-elim IsSingle (ltb 0 s.running) (λ e. fewer s h) (λ _. h)
step-IsSingle (rescanned (got r)) s h =
    if-elim IsSingle (s.running == 0 && not (is_free s.busy)) (λ e. ground (arith, e)) (λ _. h)
step-IsSingle (rescanned (threw m)) s h =
    if-elim IsSingle (s.running == 0 && not (is_free s.busy)) (λ e. ground (arith, e)) (λ _. h)

run-IsSingle : (es : List DiscoveryEvent) (s : Discovery) → IsSingle s → IsSingle (run es s)
unfolding run
run-IsSingle [] s h = h
run-IsSingle (e ∷ es) s h = run-IsSingle es (step e s) (step-IsSingle e s h)

-- Whatever is pressed and in whatever order calls are answered, at most one call that imports is out.
pub run-opened-IsSingle : (es : List DiscoveryEvent) → IsSingle (run es opened)
run-opened-IsSingle es = run-IsSingle es opened (omega arith)
