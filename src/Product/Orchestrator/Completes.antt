-- ===== src/Product/Orchestrator/Completes.antt =====
-- A message that was answered under a key (pke/src/pke/product/conversation/orchestrator.py).
use jamesbrain.Common.{
  ℕ, suc, Text, Bool, true, false, not, ◌&&◌, List, Option, some, ◌≡◌, arith, refl, sym, ap, ◌∙◌,
  inl, inr,
}
use jamesbrain.Product.World.{
  World, Environment, Action, Error, Payload, Tables, IdempotencyRecord, Turn, ask, with_tables,
  dump, ok, ◌>>=◌, ◌>>◌, pure, raise,
}
use jamesbrain.Product.Dtos.{ApiMessageRequest, ApiMessageResponse}
use jamesbrain.Product.Idempotency.{
  statement, now_stamp, set_rows, complete, lookup, complete_idempotent, fail_idempotent,
}
use jamesbrain.Product.Idempotency.Claims.{IsCompleted, complete-IsCompleted}
use jamesbrain.Product.Orchestrator.{
  catch, when, has_request, request_of, message_fingerprint, with_user_message, passes_through,
  take_message, run_engine, conclude, answer_message, give_up, persist_assistant, run_message,
  send_message,
}
use jamesbrain.Product.Orchestrator.Methods.{persist_assistant-Keeps}
use jamesbrain.Product.Orchestrator.Durable.{row_of}
use jamesbrain.Product.Orchestrator.Runs.{bind_inv, catch_inv, statement_inv}
use jamesbrain.Product.Orchestrator.Replay.{after_calls, completed_answer}
use jamesbrain.Product.Orchestrator.Resend.{row_at, send_all, send_all-resend}

module _ {K S : Type 0} (env : Environment K S) where
  same_row :
      (u c : Text) (v : World K S) (t : Tables S) (rows : List IdempotencyRecord) (w : World K S)
      {x : Unit {0}}
      → ◌≡◌ {A = Option (Unit {0} × Tables S)} (some (tt, set_rows env w.tables rows)) (some (x, t))
      → v ≡ with_tables (ask w).1 t
      → row_at env u c v ≡ lookup u c rows
  same_row u c v t rows w k kv = cc

  complete_idempotent-IsCompleted :
      (u c : Text) (p : Payload) (fp : Text) (o : Option Text) (w v : World K S) (x : Unit)
      → complete_idempotent env u c p fp o w ≡ (ok x, v)
      → IsCompleted fp p (row_at env u c v)
  unfolding complete_idempotent
  complete_idempotent-IsCompleted u c p fp o w v x e =
      let write : ℕ → Tables S → Option (Unit × Tables S) =
        λ stamp t. some (tt, set_rows env t (complete u c p fp o stamp t.idempotency)) in
      let (stamp, w1, e1, e2) =
        bind_inv (now_stamp env) (λ stamp. statement env (write stamp)) w v x e in
      let (t, k, kv) = statement_inv env (write stamp) w1 v x e2 in
      let (row, found, ef, es, ej) = complete-IsCompleted u c p fp o stamp w1.tables.idempotency in
      (
        row,
        same_row u c v t (complete u c p fp o stamp w1.tables.idempotency) w1 k kv ∙ found,
        ef,
        es,
        ej,
      )

  condition_met : (b : Bool) (m : Action K S Unit) → b ≡ true → when env b m ≡ m
  condition_met b m e = rw e refl

  ended : {A : Type 0} (b a : A) (w v : World K S) → pure b w ≡ (ok a, v) → (b ≡ a) × (w ≡ v)
  ended b a w v h = (cc, cc)

  moved :
      (u c fp : Text) (b a : Text × ApiMessageResponse × Option Text) (w v : World K S)
      → pure b w ≡ (ok a, v)
      → IsCompleted fp (dump b.1) (row_at env u c w)
      → IsCompleted fp (dump a.1) (row_at env u c v)
  moved u c fp b a w v h s = let ea : a ≡ b = cc in let ev : v ≡ w = cc in rw (ea, ev) s

  module _ (u : Text) (r : ApiMessageRequest) (e : has_request env r ≡ true) where
    abbrev fingerprint : Text
    fingerprint = message_fingerprint env r.text r.conversation_id

    conclude-IsCompleted :
        (t : Text × Text) (turn : Turn) (w v : World K S)
        (a : Text × ApiMessageResponse × Option Text)
        → conclude env u r t turn w ≡ (ok a, v)
        → IsCompleted fingerprint (dump a.1) (row_at env u (request_of env r) v)
    unfolding conclude
    conclude-IsCompleted t turn w v a h =
        let x = with_user_message env t.1 turn.response in
        let write = complete_idempotent env u (request_of env r) (dump x) fingerprint (some t.0) in
        let (y, w1, h1, h2) =
          bind_inv (when env (has_request env r) write)
            (λ _. pure (t.0, x, turn.pending_operation_json)) w v a h in
        let done : write w ≡ (ok y, w1) =
          sym (ap (λ m. m w) (condition_met (has_request env r) write e)) ∙ h1 in
        let stored =
          complete_idempotent-IsCompleted u (request_of env r) (dump x) fingerprint (some t.0) w w1
            y done in
        moved u (request_of env r) fingerprint (t.0, x, turn.pending_operation_json) a w1 v h2
          stored

    answer_message-IsCompleted :
        (w v : World K S) (a : Text × ApiMessageResponse × Option Text)
        → answer_message env u r w ≡ (ok a, v)
        → IsCompleted fingerprint (dump a.1) (row_at env u (request_of env r) v)
    unfolding answer_message
    answer_message-IsCompleted w v a h =
        let (t, w1, h1, h2) =
          bind_inv (take_message env u r)
            (λ t. run_engine env u t.0 r.text r.client_request_id >>= conclude env u r t) w v a h in
        let (turn, w2, h3, h4) =
          bind_inv (run_engine env u t.0 r.text r.client_request_id) (conclude env u r t) w1 v a
            h2 in
        conclude-IsCompleted t turn w2 v a h4

    -- What was given up returned nothing.
    give_up-raises :
        (x : Error) (w v : World K S) (a : Text × ApiMessageResponse × Option Text)
        → ¬ (give_up env u r x w ≡ (ok a, v))
    unfolding give_up
    give_up-raises x w v a h =
        let (y, w1, h1, h2) =
          bind_inv
            (when env (has_request env r && not (passes_through env x))
              (fail_idempotent env u (request_of env r)))
            (λ _. raise x) w v a h in
        cc

    -- When the part of a keyed request that runs after its claim returns an answer, the row of the key is
    -- completed with that answer and with the fingerprint of the request.
    pub run_message-IsCompleted :
        (w v : World K S) (x : ApiMessageResponse)
        → run_message env u r w ≡ (ok x, v)
        → IsCompleted fingerprint (dump x) (row_at env u (request_of env r) v)
    unfolding run_message
    run_message-IsCompleted w v x h =
        let answer = catch (answer_message env u r) (give_up env u r) in
        let (a, w1, h1, h2) =
          bind_inv answer (λ a. persist_assistant env u a.0 r.text a.1 a.2 >> pure a.1) w v x h in
        let (y, w2, h3, h4) =
          bind_inv (persist_assistant env u a.0 r.text a.1 a.2) (λ _. pure a.1) w1 v x h2 in
        elim (catch_inv (answer_message env u r) (give_up env u r) w w1 a h1) [
          | inl k ↦
              let kept =
                persist_assistant-Keeps (row_of u (request_of env r)) env u a.0 r.text a.1 a.2 w1 in
              let (row, found, ef, es, ej) = answer_message-IsCompleted w w1 a k in
              let (ex, ev) = ended a.1 x w2 v h4 in
              (
                row,
                ap (row_at env u (request_of env r)) (sym ev)
                    ∙ (ap (λ z. row_at env u (request_of env r) z.1) (sym h3) ∙ (kept ∙ found)),
                ef,
                es,
                ej ∙ ap (λ z. some (dump z)) ex,
              )
          | inr (z, w3, k) ↦ absurd (give_up-raises z w3 w1 a k)
        ]

answered :
    {K S : Type 0} (env : Environment K S) (u : Text) (r : ApiMessageRequest)
    (x : ApiMessageResponse) (w : World K S)
    → env.fails w.calls ≡ false
    → env.fails (suc (suc w.calls)) ≡ false
    → completed_answer env u r (message_fingerprint env r.text r.conversation_id) x w
      ≡ (ok x, after_calls env u r (suc (suc (suc w.calls))) w)
answered env u r x w f1 f2 = rw (f1, f2) (ground arith)

-- Once the run of a keyed request has returned an answer, the same request sent again, after any further
-- messages, gets that answer and changes no table and no knowledge, provided that the database answers the
-- ping and the claim.
pub run_message-resend :
    {K S : Type 0} (env : Environment K S) (u : Text) (r : ApiMessageRequest)
    (ms : List (Text × ApiMessageRequest)) (w v : World K S) (x : ApiMessageResponse)
    → has_request env r ≡ true
    → run_message env u r w ≡ (ok x, v)
    → env.fails (send_all env ms v).calls ≡ false
    → env.fails (suc (suc (send_all env ms v).calls)) ≡ false
    → send_message env u r (send_all env ms v)
      ≡ (ok x, after_calls env u r (suc (suc (suc (send_all env ms v).calls))) (send_all env ms v))
run_message-resend env u r ms w v x e h f1 f2 =
    let fp = message_fingerprint env r.text r.conversation_id in
    send_all-resend env ms u r fp x v e (run_message-IsCompleted env u r e w v x h)
    ∙ answered env u r x (send_all env ms v) f1 f2
