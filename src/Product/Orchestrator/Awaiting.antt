-- ===== src/Product/Orchestrator/Awaiting.antt =====
-- A message under a key that is in progress, or whose outcome is not known
-- (pke/src/pke/product/conversation/orchestrator.py, recovery.py and store.py).
use jamesbrain.Common.{
  ℕ, suc, ◌+◌, ◌*◌, ◌<◌, Text, Bool, true, false, Option, none, some, ◌≡◌, ◌≢◌, ◌↔◌, inl, inr, refl,
  ap, ◌∙◌, if◌then◌else◌, Bool-cases, arith,
}
use jamesbrain.Product.World.{
  World, Environment, Action, Result, IdempotencyRecord, ok, err, ◌>>◌, requires_reconciliation,
  idempotency_in_progress, StoredStatus, Stamp, Payload, known, blank, foreign, no_stamp,
  unreadable, at,
}
use jamesbrain.Product.World.IdempotencyStatus.{in_progress, completed, failed, recovery_required}
use jamesbrain.Product.Orchestrator.Reconciles.{Settles, reconcile_stale-Settles}
use jamesbrain.Product.Dtos.{ApiMessageRequest, ApiMessageResponse}
use jamesbrain.Product.Idempotency.{
  IdempotencyClaimResult, second_of, get_idempotency_record, classify, classify_status,
  claim_idempotent, stamp_or,
}
use jamesbrain.Product.Idempotency.Claims.{Refused, claim_of_verdict}
use jamesbrain.Product.Recovery.{
  BeginOutcome, RecoveryAction, outcome, is_stale, is_stale_at, begin_with, begin_claimed,
  begin_or_replay, reconcile_stale, text_or_else,
}
use jamesbrain.Product.Orchestrator.{
  ensure_product_store, run_message, has_request, request_of, after_begin, send_keyed, send_message,
  message_fingerprint,
}
use jamesbrain.Product.Orchestrator.Runs.{bind_ok, bind_err}
use jamesbrain.Product.Orchestrator.Replay.{after_calls, ping_holds, send_message-keyed}

-- A record with the fingerprint of the request is classified by its status.
classify-same :
    (fp : Text) (s : IdempotencyRecord)
    → s.request_fingerprint ≡ fp
    → classify fp s ≡ classify_status s.status s.response_json
unfolding classify
classify-same fp s f = ground arith

uncertain :
    (st : StoredStatus) (p : Option Payload)
    → st ≢ known in_progress
    → st ≢ known failed
    → (st ≡ known completed → p ≡ none)
    → classify_status st p ≡ IdempotencyClaimResult.needs_recovery
uncertain (known completed) none a b c = refl
uncertain (known completed) (some x) a b c = cc (c refl)
uncertain (known recovery_required) p a b c = refl
uncertain (known in_progress) p a b c = absurd (a refl)
uncertain (known failed) p a b c = absurd (b refl)
uncertain blank p a b c = refl
uncertain (foreign x) p a b c = refl

-- The time can be read, and the limit has not passed since.
abbrev pub IsYoung : ℕ → ℕ → Stamp → Type 0
IsYoung now limit stamp = (t : ℕ) × (stamp ≡ at t) × (now < t + limit * 1000000)

fresh-IsYoung :
    (now limit : ℕ) (stamp : Stamp) → is_stale_at now limit stamp ≡ false → IsYoung now limit stamp
fresh-IsYoung now limit no_stamp h = cc
fresh-IsYoung now limit unreadable h = cc
fresh-IsYoung now limit (at t) h = (t, refl, ground arith)

IsYoung-fresh :
    (now limit : ℕ) (stamp : Stamp) → IsYoung now limit stamp → is_stale_at now limit stamp ≡ false
IsYoung-fresh now limit stamp (t, e, l) = rw e (ground arith)

module _ {K S : Type 0} (env : Environment K S) (u : Text) (r : ApiMessageRequest) (w : World K S)
    (s : IdempotencyRecord) (keyed : has_request env r ≡ true) (f1 : env.fails w.calls ≡ false)
    (f2 : env.fails (suc (suc w.calls)) ≡ false)
    (found : get_idempotency_record u (request_of env r) w.tables.idempotency ≡ some s) where
  abbrev fingerprint : Text
  fingerprint = message_fingerprint env r.text r.conversation_id

  abbrev begin : Action K S BeginOutcome
  begin = begin_or_replay env u (request_of env r) fingerprint r.conversation_id

  abbrev rest : BeginOutcome → Action K S ApiMessageResponse
  rest b = after_begin env b (run_message env u r)

  abbrev w1 : World K S
  w1 = after_calls env u r (suc w.calls) w

  abbrev w3 : World K S
  w3 = after_calls env u r (suc (suc (suc w.calls))) w

  -- What comes first of a refused claim.
  begin-Refused :
      (v : IdempotencyClaimResult) (z : Result BeginOutcome × World K S)
      → classify fingerprint s ≡ v
      → Refused v
      → begin_with env u (request_of env r) fingerprint r.conversation_id v s w3 ≡ z
      → (ensure_product_store env >> begin) w ≡ z
  unfolding begin_or_replay claim_idempotent
  begin-Refused v z k ne e =
      let c =
        claim_of_verdict u (request_of env r) fingerprint r.conversation_id
          (second_of (env.clock (suc w.calls))) w.tables.idempotency s v found k ne in
      bind_ok (ensure_product_store env) (λ _. begin) w w1 tt (ping_holds env u r w f1)
      ∙ (bind_ok (claim_idempotent env u (request_of env r) fingerprint r.conversation_id)
            (begin_claimed env u (request_of env r) fingerprint r.conversation_id) w1 w3 (v, some s)
            (rw (claim_idempotent, f2, c) refl)
          ∙ e)

  classified-needs_recovery :
      classify fingerprint s ≡ IdempotencyClaimResult.needs_recovery
      → send_message env u r w ≡ (err requires_reconciliation, w3)
  unfolding send_keyed begin_with
  classified-needs_recovery k =
      ap (λ m. m w) (send_message-keyed env u r keyed)
      ∙ bind_err (ensure_product_store env >> begin) rest w w3 requires_reconciliation (
          begin-Refused IdempotencyClaimResult.needs_recovery (err requires_reconciliation, w3) k
            (λ x. cc) refl)

  -- When the database answers the ping and the claim, and the record of the key, with the fingerprint
  -- of the request, is neither in progress nor failed nor completed with an answer, whatever its status
  -- says, the request is refused as one to reconcile, and no table and no knowledge changes.
  pub send_message-needs_recovery :
      s.request_fingerprint ≡ fingerprint
      → s.status ≢ known in_progress
      → s.status ≢ known failed
      → (s.status ≡ known completed → s.response_json ≡ none)
      → send_message env u r w
        ≡ (err requires_reconciliation, after_calls env u r (suc (suc (suc w.calls))) w)
  send_message-needs_recovery f busy failing done =
      classified-needs_recovery
        (classify-same fingerprint s f ∙ uncertain s.status s.response_json busy failing done)

  abbrev w4 : World K S
  w4 = after_calls env u r (suc (suc (suc (suc w.calls)))) w

  abbrev now_stale : Bool
  now_stale =
      is_stale_at (env.clock (suc (suc (suc w.calls)))) env.stale_after_seconds
        (stamp_or s.updated_at s.created_at)

  abbrev reconciled : Result BeginOutcome × World K S
  reconciled =
      reconcile_stale env u (request_of env r) s fingerprint
        (text_or_else r.conversation_id s.conversation_id) w4

  -- What `begin_or_replay` comes to for a request in progress.
  begin_busy :
      (z : Result BeginOutcome × World K S)
      → classify fingerprint s ≡ IdempotencyClaimResult.busy
      → (if now_stale
            then reconcile_stale env u
                (request_of env r)
                s
                fingerprint
                (text_or_else r.conversation_id s.conversation_id)
            else (λ v. (ok (outcome RecoveryAction.in_flight none (some s)), v)))
          w4
        ≡ z
      → (ensure_product_store env >> begin) w ≡ z
  unfolding begin_with is_stale
  begin_busy z k e =
      begin-Refused IdempotencyClaimResult.busy z k (λ x. cc)
        (bind_ok (is_stale env s)
            (λ stale.
              if stale
              then reconcile_stale env u (request_of env r) s fingerprint
                  (text_or_else r.conversation_id s.conversation_id)
              else (λ v. (ok (outcome RecoveryAction.in_flight none (some s)), v)))
            w3 w4 now_stale refl
          ∙ e)

  young-refused :
      classify fingerprint s ≡ IdempotencyClaimResult.busy
      → now_stale ≡ false
      → send_message env u r w ≡ (err idempotency_in_progress, w4)
  unfolding send_keyed
  young-refused k young =
      let b = outcome RecoveryAction.in_flight none (some s) in
      ap (λ m. m w) (send_message-keyed env u r keyed)
      ∙ bind_ok (ensure_product_store env >> begin) rest w w4 b
          (begin_busy (ok b, w4) k (rw young refl))

  stale-settled :
      (z : Result BeginOutcome × World K S)
      → (ensure_product_store env >> begin) w ≡ z
      → Settles z
      → (send_message env u r w).0 ≢ err idempotency_in_progress
  unfolding send_keyed
  stale-settled (ok b, v) e (inl (response, row, f)) h =
      let g : b ≡ outcome RecoveryAction.replay_product_result (some response) (some row) = cc in
      let k : send_message env u r w ≡ (ok response, v) =
        ap (λ m. m w) (send_message-keyed env u r keyed)
        ∙ bind_ok (ensure_product_store env >> begin) rest w v b e
        ∙ ap (λ o. rest o v) g in
      cc (ap (λ y. y.0) k)
  stale-settled (ok b, v) e (inr (x, f, n)) h = cc
  stale-settled (err x, v) e (inl (response, row, f)) h = cc
  stale-settled (err x, v) e (inr (y, f, n)) h =
      let k : send_message env u r w ≡ (err x, v) =
        ap (λ m. m w) (send_message-keyed env u r keyed)
        ∙ bind_err (ensure_product_store env >> begin) rest w v x e in
      let g : x ≡ y = cc in n (cc (ap (λ y. y.0) k))

  -- When the database answers the ping and the claim, and the record of the key, with the fingerprint
  -- of the request, is in progress: the request is refused as in progress, and no table and no
  -- knowledge changes, exactly when the record has a time that can be read and that is not as old as
  -- the limit.
  pub send_message-in_flight_iff :
      s.request_fingerprint ≡ fingerprint
      → s.status ≡ known in_progress
      → (send_message env u r w
          ≡ (err idempotency_in_progress, after_calls env u r (suc (suc (suc (suc w.calls)))) w))
        ↔ IsYoung
            (env.clock (suc (suc (suc w.calls))))
            env.stale_after_seconds
            (stamp_or s.updated_at s.created_at)
  send_message-in_flight_iff f p = (to, λ y. young-refused busy (IsYoung-fresh _ _ _ y))
    where
      busy : classify fingerprint s ≡ IdempotencyClaimResult.busy
      busy = classify-same fingerprint s f ∙ ap (λ x. classify_status x s.response_json) p

      to :
          send_message env u r w
            ≡ (err idempotency_in_progress, after_calls env u r (suc (suc (suc (suc w.calls)))) w)
          → IsYoung
              (env.clock (suc (suc (suc w.calls))))
              env.stale_after_seconds
              (stamp_or s.updated_at s.created_at)
      to h = elim (Bool-cases now_stale) [
        | inr n ↦ fresh-IsYoung _ _ _ n
        | inl o ↦ absurd (
            stale-settled reconciled (begin_busy reconciled busy (rw o refl))
              (reconcile_stale-Settles env u (request_of env r) s fingerprint
                (text_or_else r.conversation_id s.conversation_id) w4)
              (ap (λ z. z.0) h))
      ]
