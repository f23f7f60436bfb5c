-- ===== src/Product/Orchestrator/Reconciles.antt =====
-- How the reconciliation of a stale request ends (pke/src/pke/product/conversation/recovery.py).
use jamesbrain.Common.{
  Text, ◌≡◌, ◌≢◌, ◌⊎◌, inl, inr, refl, Option, none, some, Option-cases, Bool-cases,
}
use jamesbrain.Product.World.{
  World, Tables, Environment, Action, Error, Result, IdempotencyRecord, Payload, ok, err,
  store_error, ask, ◌>>=◌, ◌>>◌, raise, dump, requires_reconciliation, validation_error,
  idempotency_in_progress, or_raise, pure,
}
use jamesbrain.Product.Dtos.{ApiMessage, ApiMessageResponse}
use jamesbrain.Product.Idempotency.{
  statement, second_of, set_rows, complete, update_row, with_status, complete_idempotent,
  mark_recovery_required, set_status,
}
use jamesbrain.Product.World.IdempotencyStatus.{recovery_required}
use jamesbrain.Product.Store.{messages_of_request, find_messages_by_client_request}
use jamesbrain.Product.Recovery.{
  BeginOutcome, RecoveryAction, outcome, model_validate, reconcile_stale,
  reconcile_without_response, response_from_assistant_message, last_assistant, text_or_else,
}

module _ {K S : Type 0} where
  -- The method returns or raises an error of the store.
  abbrev Stores : {A : Type 0} → Action K S A → Type 0
  Stores {A = A} m = (w : World K S) → ((a : A) × ((m w).0 ≡ ok a)) ⊎ ((m w).0 ≡ err store_error)

  -- A replay, or an error other than that of a request in progress.
  abbrev pub Settles : Result BeginOutcome × World K S → Type 0
  Settles z =
      ((response : ApiMessageResponse) × (r : IdempotencyRecord) × (z.0
          ≡ ok (outcome RecoveryAction.replay_product_result (some response) (some r))))
      ⊎ ((x : Error) × (z.0 ≡ err x) × (x ≢ idempotency_in_progress))

  bind-Settles :
      {A : Type 0} (m : Action K S A) (f : A → Action K S BeginOutcome) (w : World K S)
      → Stores m
      → ((a : A) (v : World K S) → Settles (f a v))
      → Settles ((m >>= f) w)
  bind-Settles {A = A} m f w st g = by_result (m w) (st w)
    where
      by_result :
          (z : Result A × World K S)
          → ((a : A) × (z.0 ≡ ok a)) ⊎ (z.0 ≡ err store_error)
          → Settles (elim z.0 as (λ _. Result BeginOutcome × World K S) [
            | ok a ↦ f a z.1
            | err x ↦ raise x z.1
          ])
      by_result (ok a, v) h = g a v
      by_result (err x, v) (inl (a, e)) = cc
      by_result (err x, v) (inr e) = inr (x, refl, λ p. cc)

  module _ (env : Environment K S) where
    statement-Stores :
        {A : Type 0} (f : Tables S → Option (A × Tables S)) → Stores (statement env f)
    statement-Stores f w = elim (Bool-cases (env.fails w.calls)) [
      | inl e ↦ inr (rw e refl)
      | inr e ↦ elim (Option-cases (f w.tables)) [
        | inl n ↦ inr (rw (e, n) refl)
        | inr ((a, t), k) ↦ inl (a, rw (e, k) refl)
      ]
    ]

    complete-Stores :
        (u c : Text) (p : Payload) (fp : Text) (o : Option Text)
        → Stores (complete_idempotent env u c p fp o)
    unfolding complete_idempotent
    complete-Stores u c p fp o w =
        statement-Stores
          (λ t. some (
            tt,
            set_rows env t (complete u c p fp o (second_of (env.clock w.calls)) t.idempotency),
          ))
          (ask w).1

    mark-Stores : (u c : Text) → Stores (mark_recovery_required env u c)
    unfolding mark_recovery_required set_status
    mark-Stores u c w =
        statement-Stores
          (λ t. some (
            tt,
            set_rows env t (
                update_row u c (with_status recovery_required (second_of (env.clock w.calls)))
                  t.idempotency),
          ))
          (ask w).1

    find-Stores : (u c : Text) → Stores (find_messages_by_client_request env u c)
    unfolding find_messages_by_client_request
    find-Stores u c w = statement-Stores (λ t. some (messages_of_request u c t.messages, t)) w

    validated :
        (p : Option ApiMessageResponse) (r : IdempotencyRecord) (v : World K S)
        → Settles (
            (or_raise p validation_error >>= λ response.
            pure (outcome RecoveryAction.replay_product_result (some response) (some r)))
              v)
    validated none r v = inr (validation_error, refl, λ e. cc)
    validated (some response) r v = inl (response, r, refl)

    without_response-Settles :
        (u c : Text) (r : IdempotencyRecord) (fp : Text) (o : Option Text) (m : Option ApiMessage)
        (w : World K S)
        → Settles (reconcile_without_response env u c r fp o m w)
    unfolding reconcile_without_response
    without_response-Settles u c r fp o none w =
        bind-Settles (mark_recovery_required env u c) (λ _. raise requires_reconciliation) w
          (mark-Stores u c) (λ a v. inr (requires_reconciliation, refl, λ e. cc))
    without_response-Settles u c r fp o (some m) w =
        let response = response_from_assistant_message m c in
        bind-Settles
          (complete_idempotent env u c (dump response) fp (text_or_else o (some m.conversation_id)))
          (λ _. pure (outcome RecoveryAction.replay_product_result (some response) (some r))) w
          (complete-Stores u c (dump response) fp (text_or_else o (some m.conversation_id)))
          (λ a v. inl (response, r, refl))

    -- The reconciliation replays a result or raises, and never says that the request is in progress.
    pub reconcile_stale-Settles :
        (u c : Text) (r : IdempotencyRecord) (fp : Text) (o : Option Text) (w : World K S)
        → Settles (reconcile_stale env u c r fp o w)
    unfolding reconcile_stale
    reconcile_stale-Settles u c r fp o w =
        elim r.response_json
          as (λ q. Settles (
            (elim q as (λ _. Action K S BeginOutcome) [
              | some p ↦
                  complete_idempotent env u c p fp o
                  >> (or_raise (model_validate p) validation_error >>= λ response.
                      pure (outcome RecoveryAction.replay_product_result (some response) (some r)))
              | none ↦ find_messages_by_client_request env u c >>= λ messages.
                  reconcile_without_response env u c r fp o (last_assistant messages)
            ])
              w)) [
                | none ↦
                    bind-Settles (find_messages_by_client_request env u c)
                      (λ messages.
                        reconcile_without_response env u c r fp o (last_assistant messages))
                      w (find-Stores u c)
                      (λ messages v.
                        without_response-Settles u c r fp o (last_assistant messages) v)
                | some p ↦
                    bind-Settles (complete_idempotent env u c p fp o)
                      (λ _. or_raise (model_validate p) validation_error >>= λ response.
                        pure
                          (outcome RecoveryAction.replay_product_result (some response) (some r)))
                      w (complete-Stores u c p fp o) (λ a v. validated (model_validate p) r v)
              ]
