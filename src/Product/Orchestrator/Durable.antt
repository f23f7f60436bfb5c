-- ===== src/Product/Orchestrator/Durable.antt =====
-- The row of a key while messages are sent under other keys, or under none
-- (pke/src/pke/product/conversation/orchestrator.py, recovery.py and store.py).
use jamesbrain.Common.{
  ℕ, Text, Bool, true, false, List, Option, none, some, ◌≡◌, arith, refl, inl, inr, if◌then◌else◌,
  not, ◌&&◌, Bool-cases,
}
use jamesbrain.Product.World.{
  Environment, Action, Error, Turn, IdempotencyRecord, Payload, IdempotencyStatus, ◌>>=◌, ◌>>◌,
  pure, raise, or_raise, dump, requires_reconciliation, validation_error,
}
use jamesbrain.Product.World.IdempotencyStatus.{failed, recovery_required}
use jamesbrain.Product.Dtos.{ApiMessage, ApiMessageRequest, ApiMessageResponse}
use jamesbrain.Product.Idempotency.{
  Claim, IdempotencyClaimResult, second_of, lookup, with_status, claim_idempotent,
  complete_idempotent, set_status, fail_idempotent, mark_recovery_required,
}
use jamesbrain.Product.Idempotency.Claims.{
  SameKey, KeepsKey, lookup-update_other, claim-other, complete-other,
}
use jamesbrain.Product.Store.{find_messages_by_client_request}
use jamesbrain.Product.Recovery.{
  BeginOutcome, RecoveryAction, outcome, is_stale, reconcile_without_response, reconcile_stale,
  begin_with, begin_replay, begin_claimed, begin_or_replay, response_from_assistant_message,
  last_assistant, text_or_else, filled_payload, model_validate,
}
use jamesbrain.Product.Orchestrator.{
  catch, when, ensure_product_store, take_message, run_engine, conclude, answer_message, give_up,
  run_message, persist_assistant, has_request, request_of, after_begin, send_keyed, send_message,
  message_fingerprint, with_user_message, passes_through,
}
use jamesbrain.Product.Orchestrator.Frame.{Keeps, view, Keeps-bind, Keeps-catch, Keeps-when}
use jamesbrain.Product.Orchestrator.Methods.{
  ensure_product_store-Keeps, take_message-Keeps, run_engine-Keeps, persist_assistant-Keeps,
  find_messages-Keeps,
}

-- The row of one key.
abbrev pub row_of :
    {K : Type 0} → Text → Text → List IdempotencyRecord → K → Option IdempotencyRecord
row_of v d rows k = lookup v d rows

module _ {K S : Type 0} (env : Environment K S) (u c v d : Text) (ne : ¬ SameKey u c v d) where
  abbrev KeepsRow : {A : Type 0} → Action K S A → Type 0
  KeepsRow m = Keeps (view (row_of v d)) m

  claim_idempotent-other : (fp : Text) (o : Option Text) → KeepsRow (claim_idempotent env u c fp o)
  unfolding claim_idempotent
  claim_idempotent-other fp o w =
      ground
        (arith, claim-other u c v d fp o (second_of (env.clock w.calls)) w.tables.idempotency ne)

  complete_idempotent-other :
      (p : Payload) (fp : Text) (o : Option Text) → KeepsRow (complete_idempotent env u c p fp o)
  unfolding complete_idempotent
  complete_idempotent-other p fp o w =
      ground (
        arith,
        complete-other u c v d p fp o (second_of (env.clock w.calls)) w.tables.idempotency ne,
      )

  with_status-KeepsKey : (s : IdempotencyStatus) (t : ℕ) → KeepsKey (with_status s t)
  with_status-KeepsKey s t r = (refl, refl)

  set_status-other : (s : IdempotencyStatus) → KeepsRow (set_status env s u c)
  unfolding set_status
  set_status-other s w =
      let t = second_of (env.clock w.calls) in
      ground (
        arith,
        lookup-update_other u c v d (with_status s t) w.tables.idempotency
            (with_status-KeepsKey s t) ne,
      )

  fail_idempotent-other : KeepsRow (fail_idempotent env u c)
  unfolding fail_idempotent
  fail_idempotent-other = set_status-other failed

  mark_recovery_required-other : KeepsRow (mark_recovery_required env u c)
  unfolding mark_recovery_required
  mark_recovery_required-other = set_status-other recovery_required

  or_raise-Keeps : {A : Type 0} (o : Option A) (e : Error) → KeepsRow (or_raise o e)
  or_raise-Keeps none e w = refl
  or_raise-Keeps (some a) e w = refl

  without_response-other :
      (r : IdempotencyRecord) (fp : Text) (o : Option Text) (m : Option ApiMessage)
      → KeepsRow (reconcile_without_response env u c r fp o m)
  unfolding reconcile_without_response
  without_response-other r fp o none =
      Keeps-bind (row_of v d) (mark_recovery_required env u c) (λ _. raise requires_reconciliation)
        mark_recovery_required-other (λ _ w. refl)
  without_response-other r fp o (some m) =
      let response = response_from_assistant_message m c in
      Keeps-bind (row_of v d)
        (complete_idempotent env u c (dump response) fp (text_or_else o (some m.conversation_id)))
        (λ _. pure (outcome RecoveryAction.replay_product_result (some response) (some r)))
        (complete_idempotent-other (dump response) fp (text_or_else o (some m.conversation_id)))
        (λ _ w. refl)

  replay-other :
      (r : IdempotencyRecord) (p : Payload)
      → KeepsRow (
          or_raise (model_validate p) validation_error >>= λ x.
          pure (outcome RecoveryAction.replay_product_result (some x) (some r)))
  replay-other r p =
      Keeps-bind (row_of v d) (or_raise (model_validate p) validation_error)
        (λ x. pure (outcome RecoveryAction.replay_product_result (some x) (some r)))
        (or_raise-Keeps (model_validate p) validation_error) (λ x w. refl)

  reconcile_stale-other :
      (r : IdempotencyRecord) (fp : Text) (o : Option Text) (j : Option Payload)
      → r.response_json ≡ j
      → KeepsRow (reconcile_stale env u c r fp o)
  unfolding reconcile_stale
  reconcile_stale-other r fp o none e =
      rw (reconcile_stale, e)
        (Keeps-bind (row_of v d) (find_messages_by_client_request env u c)
          (λ ms. reconcile_without_response env u c r fp o (last_assistant ms))
          (find_messages-Keeps (row_of v d) env u c)
          (λ ms. without_response-other r fp o (last_assistant ms)))
  reconcile_stale-other r fp o (some p) e =
      rw (reconcile_stale, e)
        (Keeps-bind (row_of v d) (complete_idempotent env u c p fp o)
          (λ _. or_raise (model_validate p) validation_error >>= λ x.
            pure (outcome RecoveryAction.replay_product_result (some x) (some r)))
          (complete_idempotent-other p fp o) (λ _. replay-other r p))

  begin_with-other :
      (fp : Text) (o : Option Text) (k : IdempotencyClaimResult) (r : IdempotencyRecord)
      → KeepsRow (begin_with env u c fp o k r)
  unfolding begin_with is_stale
  begin_with-other fp o IdempotencyClaimResult.proceed r w = refl
  begin_with-other fp o IdempotencyClaimResult.conflict r w = refl
  begin_with-other fp o IdempotencyClaimResult.needs_recovery r w = refl
  begin_with-other fp o IdempotencyClaimResult.replay r w =
      by_payload (filled_payload r.response_json) w
    where
      by_payload : (j : Option Payload) → KeepsRow (begin_replay env r j)
      by_payload none w = refl
      by_payload (some p) w = replay-other r p w
  begin_with-other fp o IdempotencyClaimResult.busy r w =
      Keeps-bind (row_of v d) (is_stale env r)
        (λ stale.
          if stale
          then reconcile_stale env u c r fp (text_or_else o r.conversation_id)
          else pure (outcome RecoveryAction.in_flight none (some r)))
        (λ w. refl) by_age w
    where
      by_age :
          (stale : Bool)
          → KeepsRow (
              if stale
              then reconcile_stale env u c r fp (text_or_else o r.conversation_id)
              else pure (outcome RecoveryAction.in_flight none (some r)))
      by_age true w =
          reconcile_stale-other r fp (text_or_else o r.conversation_id) r.response_json refl w
      by_age false w = refl

  begin_claimed-other :
      (fp : Text) (o : Option Text) (x : Claim) → KeepsRow (begin_claimed env u c fp o x)
  begin_claimed-other fp o (k, none) w = refl
  begin_claimed-other fp o (k, some r) w = begin_with-other fp o k r w

  pub begin_or_replay-other :
      (fp : Text) (o : Option Text) → KeepsRow (begin_or_replay env u c fp o)
  unfolding begin_or_replay
  begin_or_replay-other fp o =
      Keeps-bind (row_of v d) (claim_idempotent env u c fp o) (begin_claimed env u c fp o)
        (claim_idempotent-other fp o) (begin_claimed-other fp o)

-- A message under another key, or under none.
module _ {K S : Type 0} (env : Environment K S) (u : Text) (r : ApiMessageRequest) (v d : Text)
    (ne : has_request env r ≡ true → ¬ SameKey u (request_of env r) v d) where
  abbrev KeepsRow' : {A : Type 0} → Action K S A → Type 0
  KeepsRow' m = Keeps (view (row_of v d)) m

  when_request-other :
      (b : Bool) (m : Action K S Unit)
      → (has_request env r ≡ false → b ≡ false)
      → (¬ SameKey u (request_of env r) v d → KeepsRow' m)
      → KeepsRow' (when env b m)
  when_request-other b m hb h = elim (Bool-cases (has_request env r)) [
    | inl e ↦ Keeps-when (row_of v d) b env m (h (ne e))
    | inr e ↦ λ w. rw (hb e) refl
  ]

  conclude-other : (t : Text × Text) (x : Turn) → KeepsRow' (conclude env u r t x)
  unfolding conclude
  conclude-other t x =
      let p = dump (with_user_message env t.1 x.response) in
      let fp = message_fingerprint env r.text r.conversation_id in
      Keeps-bind (row_of v d)
        (when env (has_request env r)
          (complete_idempotent env u (request_of env r) p fp (some t.0)))
        (λ _. pure (t.0, with_user_message env t.1 x.response, x.pending_operation_json))
        (when_request-other (has_request env r)
          (complete_idempotent env u (request_of env r) p fp (some t.0)) (λ e. e)
          (λ ne. complete_idempotent-other env u (request_of env r) v d ne p fp (some t.0)))
        (λ _ w. refl)

  answer_message-other : KeepsRow' (answer_message env u r)
  unfolding answer_message
  answer_message-other =
      Keeps-bind (row_of v d) (take_message env u r)
        (λ t. run_engine env u t.0 r.text r.client_request_id >>= conclude env u r t)
        (take_message-Keeps (row_of v d) env u r)
        (λ t.
          Keeps-bind (row_of v d) (run_engine env u t.0 r.text r.client_request_id)
            (conclude env u r t)
            (run_engine-Keeps (row_of v d) env (λ rows k k'. refl) u t.0 r.text r.client_request_id)
            (conclude-other t))

  give_up-other :
      (e : Error) → KeepsRow' (give_up env {A = Text × ApiMessageResponse × Option Text} u r e)
  unfolding give_up
  give_up-other e =
      let b = has_request env r && not (passes_through env e) in
      Keeps-bind (row_of v d) (when env b (fail_idempotent env u (request_of env r))) (λ _. raise e)
        (when_request-other b (fail_idempotent env u (request_of env r)) (λ n. rw n refl)
          (λ ne. fail_idempotent-other env u (request_of env r) v d ne))
        (λ _ w. refl)

  run_message-other : KeepsRow' (run_message env u r)
  unfolding run_message
  run_message-other =
      Keeps-bind (row_of v d) (catch (answer_message env u r) (give_up env u r))
        (λ a. persist_assistant env u a.0 r.text a.1 a.2 >> pure a.1)
        (Keeps-catch (row_of v d) (answer_message env u r) (give_up env u r) answer_message-other
          give_up-other)
        (λ a.
          Keeps-bind (row_of v d) (persist_assistant env u a.0 r.text a.1 a.2) (λ _. pure a.1)
            (persist_assistant-Keeps (row_of v d) env u a.0 r.text a.1 a.2) (λ _ w. refl))

  after_begin-other : (b : BeginOutcome) → KeepsRow' (after_begin env b (run_message env u r))
  after_begin-other b = by_action b.action b.response
    where
      by_action :
          (a : RecoveryAction) (x : Option ApiMessageResponse)
          → KeepsRow' (after_begin env (outcome a x b.stored) (run_message env u r))
      by_action RecoveryAction.replay_product_result none w = run_message-other w
      by_action RecoveryAction.replay_product_result (some x) w = refl
      by_action RecoveryAction.conflict x w = refl
      by_action RecoveryAction.in_flight x w = refl
      by_action RecoveryAction.safe_engine_retry x w = run_message-other w

  send_keyed-other : ¬ SameKey u (request_of env r) v d → KeepsRow' (send_keyed env u r)
  unfolding send_keyed
  send_keyed-other n =
      let begin =
        begin_or_replay env u (request_of env r) (message_fingerprint env r.text r.conversation_id)
          r.conversation_id in
      Keeps-bind (row_of v d) (ensure_product_store env >> begin)
        (λ b. after_begin env b (run_message env u r))
        (Keeps-bind (row_of v d) (ensure_product_store env) (λ _. begin)
          (ensure_product_store-Keeps (row_of v d) env)
          (λ _.
            begin_or_replay-other env u (request_of env r) v d n
              (message_fingerprint env r.text r.conversation_id) r.conversation_id))
        after_begin-other

  pub send_message-other : KeepsRow' (send_message env u r)
  unfolding send_message
  send_message-other = by_key (has_request env r) refl
    where
      by_key :
          (b : Bool)
          → has_request env r ≡ b
          → KeepsRow' (if b then send_keyed env u r else run_message env u r)
      by_key true e = send_keyed-other (ne e)
      by_key false e = run_message-other
