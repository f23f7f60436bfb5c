-- ===== src/Product/Orchestrator/Resend.antt =====
-- A key that is completed, among messages of every kind
-- (pke/src/pke/product/conversation/orchestrator.py).
use jamesbrain.Common.{
  Text, true, List, [], ◌∷◌, Option, ◌≡◌, arith, ap, ◌∙◌, ◌⊎◌, inl, inr, Bool-cases,
}
use jamesbrain.Product.World.{World, Environment, IdempotencyRecord, dump}
use jamesbrain.Product.Dtos.{ApiMessageRequest, ApiMessageResponse}
use jamesbrain.Product.Idempotency.{lookup}
use jamesbrain.Product.Idempotency.Claims.{SameKey, IsCompleted}
use jamesbrain.Product.Orchestrator.{has_request, request_of, send_message}
use jamesbrain.Product.Orchestrator.Durable.{send_message-other}
use jamesbrain.Product.Orchestrator.Replay.{completed_answer, send_message-completed}

module _ {K S : Type 0} (env : Environment K S) where
  -- The row of a key in a world.
  abbrev pub row_at : Text → Text → World K S → Option IdempotencyRecord
  row_at v d w = lookup v d w.tables.idempotency

  row_of_answer :
      (u : Text) (r : ApiMessageRequest) (v d stored : Text) (x : ApiMessageResponse)
      (w : World K S)
      → row_at v d (completed_answer env u r stored x w).1 ≡ row_at v d w
  row_of_answer u r v d stored x w = ground arith

  SameKey-dec : (u c v d : Text) → SameKey u c v d ⊎ ¬ SameKey u c v d
  SameKey-dec u c v d = ground arith

  -- Whatever message is sent, by whatever user, under whatever key or none, and however it ends, the row
  -- of a completed key stays as it is.
  pub send_message-durable :
      (u : Text) (r : ApiMessageRequest) (v d stored : Text) (x : ApiMessageResponse)
      (w : World K S)
      → IsCompleted stored (dump x) (row_at v d w)
      → row_at v d (send_message env u r w).1 ≡ row_at v d w
  send_message-durable u r v d stored x w h = elim (SameKey-dec u (request_of env r) v d) [
    | inr ne ↦ send_message-other env u r v d (λ _. ne) w
    | inl same ↦ elim (Bool-cases (has_request env r)) [
      | inl e ↦
          ap (λ z. row_at v d z.1)
            (send_message-completed env u r stored x w e (rw (same.0, same.1) h))
          ∙ row_of_answer u r v d stored x w
      | inr e ↦ send_message-other env u r v d (λ e' s. cc) w
    ]
  ]

  -- The world after a sequence of messages, of any users.
  unfoldable pub send_all : List (Text × ApiMessageRequest) → World K S → World K S
  unfolding send_message
  send_all [] w = w
  send_all ((u, r) ∷ ms) w = send_all ms (send_message env u r w).1

  send_all-durable :
      (ms : List (Text × ApiMessageRequest)) (v d stored : Text) (x : ApiMessageResponse)
      (w : World K S)
      → IsCompleted stored (dump x) (row_at v d w)
      → IsCompleted stored (dump x) (row_at v d (send_all ms w))
  unfolding send_all
  send_all-durable [] v d stored x w h = h
  send_all-durable ((u, r) ∷ ms) v d stored x w (row, e, ef, es, ej) =
      send_all-durable ms v d stored x (send_message env u r w).1
        (row, send_message-durable u r v d stored x w (row, e, ef, es, ej) ∙ e, ef, es, ej)

  -- A completed key is answered for ever: after any sequence of messages, of any users and under any keys,
  -- the request of the key gets what was stored (`completed_answer`), and changes no table and no
  -- knowledge.
  pub send_all-resend :
      (ms : List (Text × ApiMessageRequest)) (u : Text) (r : ApiMessageRequest) (stored : Text)
      (x : ApiMessageResponse) (w : World K S)
      → has_request env r ≡ true
      → IsCompleted stored (dump x) (row_at u (request_of env r) w)
      → send_message env u r (send_all ms w) ≡ completed_answer env u r stored x (send_all ms w)
  send_all-resend ms u r stored x w e h =
      send_message-completed env u r stored x (send_all ms w) e
        (send_all-durable ms u (request_of env r) stored x w h)
