-- ===== src/Server/Stream.antt =====
-- GET /events of cmd/server/server.go, behind the outer handlers of internal/middleware.
use job_manager_quorum.Common.{
  ℕ, [], ◌≡◌, refl, ◌∙◌, sym, ap, String, Bool, none, Map, lookup, insert, delete, ℕ-key,
  ℕ_discrete, lookup-delete, lookup-insert, if_pos, if_neg,
}
use job_manager_quorum.Auth.{Codec}
use job_manager_quorum.Middleware.{Request, answer}
use job_manager_quorum.Middleware.Wrapped.{
  Writer, logging, tracing, with_request_id, response_writer,
}
use job_manager_quorum.Events.{subscribe, unsubscribe}
use job_manager_quorum.Handlers.Cluster.{Cluster}
use job_manager_quorum.Server.{
  Call, Surroundings, events_route, panicked, stream_events, serve, handler,
}

-- A new key that is deleted again leaves no trace.
delete-insert :
    {V : Type 0} (k j : ℕ) (v : V) (m : Map ℕ V)
    → lookup j m ≡ none
    → lookup k (delete j (insert j v m)) ≡ lookup k m
delete-insert k j v m fresh = elim (ℕ_discrete j k) [
  | yes same ↦
      lookup-delete k j (insert j v m)
      ∙ if_pos (ℕ_discrete j k) same _ _
      ∙ sym (ap (λ i. lookup i m) (sym same) ∙ fresh)
  | no other ↦
      lookup-delete k j (insert j v m)
      ∙ if_neg (ℕ_discrete j k) other _ _
      ∙ lookup-insert k j v m
      ∙ if_neg (ℕ_discrete j k) other _ _
]

-- Whatever writer net/http gives to the server, with or without Flush: GET /events panics, since the
-- writer of Logging has no Flush. Where the next channel is neither subscribed nor closed, the
-- subscribers, the engine and the manager are as before.
pub handler-panics :
    (codec : Codec) (secret : String) (auth_enabled : Bool) {S : Type 0} (env : Surroundings S)
    (header generated : String) (w : Writer) (call : Call) (r : Request) (c : Cluster S)
    → lookup c.events.next_channel c.events.subscribers ≡ none
    → lookup c.events.next_channel c.events.closed ≡ none
    → let (c', response) =
        handler codec secret auth_enabled env header generated w events_route call r c in
      (response ≡ answer panicked)
      × (c'.engine ≡ c.engine)
      × (c'.manager ≡ c.manager)
      × ((k : ℕ) → lookup k c'.events.subscribers ≡ lookup k c.events.subscribers)
unfolding handler with_request_id tracing logging response_writer serve stream_events subscribe
    unsubscribe
handler-panics codec secret auth_enabled env header generated w call r c fresh open_channel =
    rw (open_channel, handler, unsubscribe)
      (refl, refl, refl, λ k. delete-insert k c.events.next_channel [] c.events.subscribers fresh)
