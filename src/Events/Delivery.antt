-- ===== src/Events/Delivery.antt =====
-- What the subscribers of internal/events/broadcaster.go receive.
use mathlib.Core.List.{append-nil, append_assoc}
use job_manager_quorum.Common.{
  ℕ, ◌+◌, ◌<◌, ◌≤◌, ◌≡◌, refl, sym, ap, ◌∙◌, Option, none, some, List, [], ◌∷◌, ◌++◌, Map, lookup,
  ℕ-key, ℕ_discrete, if_pos, if_neg, length, length-append, arith,
}
use job_manager_quorum.Events.{Event, Broadcaster, channel_cap, send, send_all, stamped, broadcast}

abbrev pub sent_to : Event → Option (List Event) → Option (List Event)
sent_to evt none = none
sent_to evt (some waiting) = some (send evt waiting)

send_all-lookup :
    (evt : Event) (ch : ℕ) (subs : Map ℕ (List Event))
    → lookup ch (send_all evt subs) ≡ sent_to evt (lookup ch subs)
unfolding send_all lookup
send_all-lookup evt ch [] = refl
send_all-lookup evt ch ((n, waiting) ∷ subs) = elim (ℕ_discrete n ch) [
  | yes p ↦
      if_pos (ℕ_discrete n ch) p _ _
      ∙ ap (sent_to evt) (sym (if_pos (ℕ_discrete n ch) p (some waiting) (lookup ch subs)))
  | no other ↦
      if_neg (ℕ_discrete n ch) other _ _
      ∙ send_all-lookup evt ch subs
      ∙ ap (sent_to evt) (sym (if_neg (ℕ_discrete n ch) other (some waiting) (lookup ch subs)))
]

send-room :
    (evt : Event) (waiting : List Event)
    → length waiting < channel_cap
    → send evt waiting ≡ waiting ++ evt ∷ []
unfolding send
send-room evt waiting h = ground arith

-- Broadcasts in a row, each with its clock.
unfoldable pub broadcast_all : List (ℕ × Event) → Broadcaster → Broadcaster
broadcast_all [] b = b
broadcast_all ((now, evt) ∷ evts) b = broadcast_all evts (broadcast now evt b)

abbrev pub all_stamped : List (ℕ × Event) → List Event
all_stamped [] = []
all_stamped ((now, evt) ∷ evts) = stamped now evt ∷ all_stamped evts

-- A subscriber that reads nothing gets all events of a run of broadcasts, in their order, behind those
-- that wait in its channel, if the channel has room for them; a channel that is not subscribed gets
-- none.
pub broadcast_all-delivers :
    (evts : List (ℕ × Event)) (b : Broadcaster) (ch : ℕ)
    → ((waiting : List Event)
        → lookup ch b.subscribers ≡ some waiting
        → length waiting + length evts ≤ channel_cap
        → lookup ch (broadcast_all evts b).subscribers ≡ some (waiting ++ all_stamped evts))
      × (lookup ch b.subscribers ≡ none → lookup ch (broadcast_all evts b).subscribers ≡ none)
unfolding broadcast_all broadcast
broadcast_all-delivers [] b ch = (λ waiting e room. e ∙ ap some (sym (append-nil waiting)), λ e. e)
broadcast_all-delivers ((now, evt) ∷ evts) b ch =
    let one = send_all-lookup (stamped now evt) ch b.subscribers in
    let rest = broadcast_all-delivers evts (broadcast now evt b) ch in
    (
      λ waiting e room.
          rest.0 (waiting ++ stamped now evt ∷ [])
            (one
              ∙ ap (sent_to (stamped now evt)) e
              ∙ ap some (send-room (stamped now evt) waiting (omega arith)))
            (omega (arith, length-append waiting (stamped now evt ∷ [])))
          ∙ ap some (append_assoc waiting (stamped now evt ∷ []) (all_stamped evts)),
      λ e. rest.1 (one ∙ ap (sent_to (stamped now evt)) e),
    )
