-- ===== src/Events.antt =====
-- internal/events/broadcaster.go: the set of subscribers and the broadcast. A channel is a number
-- with the events that wait in it; a method runs under the mutex and is one step.
pub mod Delivery
mod Tests
use job_manager_quorum.Common.{
  ℕ, suc, String, Bool, true, false, Option, none, some, List, [], ◌∷◌, ◌++◌, Map, lookup, insert,
  delete, ℕ-key, length, ltb, ◌==◌, if◌then◌else◌,
}
use job_manager_quorum.Common.Outcome.{Outcome, ok, panic}

pub record Event : Type 0 where
  pub type : String
  pub message : String
  pub timestamp : ℕ
  pub metadata : Map String String

-- `next_channel` is the number of the channel that `make` gives next, `closed` are the closed ones.
pub record Broadcaster : Type 0 where
  pub subscribers : Map ℕ (List Event)
  pub next_channel : ℕ
  pub closed : Map ℕ (Unit {0})

abbrev pub channel_cap : ℕ
channel_cap = 100

unfoldable pub global_broadcaster : Broadcaster
global_broadcaster = record { subscribers = []; next_channel = 0; closed = [] }

unfoldable pub subscribe : Broadcaster → Broadcaster × ℕ
subscribe b = (
  record b {
    subscribers = insert b.next_channel [] b.subscribers;
    next_channel = suc b.next_channel;
  },
  b.next_channel,
)

-- Closing a closed channel panics.
unfoldable pub unsubscribe : ℕ → Broadcaster → Outcome Broadcaster
unsubscribe ch b = elim (lookup ch b.closed) [
  | some _ ↦ panic
  | none ↦ ok (record b { subscribers = delete ch b.subscribers; closed = insert ch tt b.closed })
]

-- A send with a default: a full channel drops the event.
unfoldable pub send : Event → List Event → List Event
send evt waiting = if ltb (length waiting) channel_cap then waiting ++ evt ∷ [] else waiting

-- The loop over the subscribers.
unfoldable pub send_all : Event → Map ℕ (List Event) → Map ℕ (List Event)
unfolding send
send_all evt [] = []
send_all evt ((ch, waiting) ∷ subs) = (ch, send evt waiting) ∷ send_all evt subs

-- The time 0 stands for the zero time.
abbrev pub stamped : ℕ → Event → Event
stamped now evt = record evt { timestamp = if evt.timestamp == 0 then now else evt.timestamp }

unfoldable pub broadcast : ℕ → Event → Broadcaster → Broadcaster
unfolding send_all
broadcast now evt b = record b { subscribers = send_all (stamped now evt) b.subscribers }
