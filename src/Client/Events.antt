-- ===== src/Client/Events.antt =====
-- client/src/lib/useEvents.ts: the subscription to the live events, which reconnects when it drops.
pub mod Alive
use server_hub.Prelude.{
  ℕ, suc, String, Bool, true, false, List, [], ◌∷◌, ◌++◌, Option, none, some, any, if◌then◌else◌,
}
use server_hub.Text.{Text, codes, eqb}
use server_hub.Json.{Json, null, obj, str, property}

abbrev pub types : List String
types =
    "deployment.started" ∷ "deployment.completed" ∷ "deployment.failed" ∷ "container.start"
    ∷ "container.stop" ∷ "container.restart" ∷ "container.exec" ∷ "project.start" ∷ "project.stop"
    ∷ "project.restart" ∷ "gateway.reloaded" ∷ "discovery.completed" ∷ "backup.created"
    ∷ "backup.failed" ∷ "backup.restored" ∷ "backup.restoreFailed" ∷ "backup.deleted"
    ∷ "telemetry.threshold" ∷ "server.heartbeat" ∷ "server.metrics" ∷ "alert.triggered"
    ∷ "alert.resolved" ∷ "monitoring.alert.firing" ∷ "monitoring.alert.resolved" ∷ []

-- What the handler is called with; `body.data` may be undefined.
pub record BusEvent : Type 0 where
  pub kind : Text
  pub content : Option Json
  pub timestamp : Json

-- The variables of the effect: `es` is open, `closed`, a timer runs; and the calls of the handler.
pub record Feed : Type 0 where
  pub connected : Bool
  pub closed : Bool
  pub timer : Bool
  pub handled : List BusEvent

abbrev pub unmounted : Feed
unmounted = record { connected = false; closed = false; timer = false; handled = [] }

-- `connect`; the flag says whether `new EventSource` succeeds.
unfoldable pub connect : Bool → Feed → Feed
connect succeeds f =
    if f.closed
    then f
    else if succeeds
    then record f { connected = true }
    else record f { timer = true }

-- `v ?? ""`
or_empty : Option Json → Json
or_empty none = str []
or_empty (some null) = str []
or_empty (some v) = v

-- The listener of a type: a frame that is no JSON, or whose body is null, is ignored.
listen : Text → Option Json → List BusEvent
unfolding or_empty property
listen t none = []
listen t (some null) = []
listen t (some (obj fs)) =
    record {
      kind = t;
      content = property (codes "data") fs;
      timestamp = or_empty (property (codes "timestamp") fs);
    }
    ∷ []
listen t (some v) = record { kind = t; content = none; timestamp = str [] } ∷ []

-- A frame of a type that is listened to.
unfoldable pub deliver : Text → Option Json → Feed → Feed
unfolding listen
deliver t body f =
    if any (λ w. eqb t (codes w)) types
    then record f { handled = f.handled ++ listen t body }
    else f

-- What happens to a mounted subscription: a frame, an error of the connection, the end of the timer, the
-- end of the component. Only an open connection has frames and errors.
pub data FeedEvent : Type 0 where
  frame : Text → Option Json → FeedEvent
  dropped : FeedEvent
  timed_out : Bool → FeedEvent
  unmount : FeedEvent

unfoldable pub step : FeedEvent → Feed → Feed
unfolding connect deliver
step (frame t body) f = if f.connected then deliver t body f else f
step dropped f =
    if f.connected
    then (if f.closed
        then record f { connected = false }
        else record f { connected = false; timer = true })
    else f
step (timed_out succeeds) f = if f.timer then connect succeeds (record f { timer = false }) else f
step unmount f = record f { closed = true; timer = false; connected = false }

unfoldable pub run : List FeedEvent → Feed → Feed
unfolding step
run [] f = f
run (e ∷ es) f = run es (step e f)

-- The effect runs `connect` once.
unfoldable pub mount : Bool → Feed
unfolding connect
mount succeeds = connect succeeds unmounted
