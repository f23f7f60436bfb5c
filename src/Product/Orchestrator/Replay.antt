-- ===== src/Product/Orchestrator/Replay.antt =====
-- Sending a message again under a key that is completed
-- (pke/src/pke/product/conversation/orchestrator.py, recovery.py and store.py).
use jamesbrain.Common.{
  ℕ, suc, Text, Bool, true, false, List, Option, none, some, ◌≡◌, refl, ap, ◌∙◌, inl, inr,
  if◌then◌else◌, is_filled, not, ◌==◌, ◌&&◌, Bool-cases,
}
use jamesbrain.Product.World.{
  World, Environment, Action, Result, IdempotencyRecord, known, ok, err, dump, store_error, ◌>>◌,
  product_store_unavailable, idempotency_conflict,
}
use jamesbrain.Product.World.IdempotencyStatus.{completed}
use jamesbrain.Product.Dtos.{ApiMessageRequest, ApiMessageResponse}
use jamesbrain.Product.Idempotency.{
  IdempotencyClaimResult, second_of, lookup, read_record, classify, claim, claim_idempotent,
}
use jamesbrain.Product.Idempotency.Claims.{IsCompleted, Refused, claim_of_verdict, get_record_of}
use jamesbrain.Product.Store.{ping}
use jamesbrain.Product.Recovery.{
  BeginOutcome, RecoveryAction, outcome, begin_with, begin_replay, filled_payload, begin_claimed,
  begin_or_replay,
}
use jamesbrain.Product.Orchestrator.{
  ensure_product_store, unavailable, run_message, has_request, request_of, after_begin, send_keyed,
  send_message, message_fingerprint,
}
use jamesbrain.Product.Orchestrator.Runs.{
  bind_ok, bind_err, catch_ok, catch_err, statement_ok, statement_err,
}

-- Whether a stored fingerprint refuses a request of the fingerprint `fp`.
abbrev pub differs : Text → Text → Bool
differs stored fp = is_filled (some stored) && not (stored == fp)

abbrev verdict : Bool → IdempotencyClaimResult
verdict b = if b then IdempotencyClaimResult.conflict else IdempotencyClaimResult.replay

verdict-Refused : (b : Bool) → Refused (verdict b)
verdict-Refused true = λ e. cc
verdict-Refused false = λ e. cc

classify-completed :
    (fp stored : Text) (x : ApiMessageResponse) (r : IdempotencyRecord)
    → r.request_fingerprint ≡ stored
    → r.status ≡ known completed
    → r.response_json ≡ some (dump x)
    → classify fp r ≡ verdict (differs stored fp)
unfolding classify
classify-completed fp stored x r ef es ej = rw (classify, ef, es, ej) refl

-- The claim of a completed key.
abbrev pub CompletedRecord : Text → ApiMessageResponse → IdempotencyRecord → Type 0
CompletedRecord stored x r =
    (r.request_fingerprint ≡ stored)
    × (r.status ≡ known completed)
    × (r.response_json ≡ some (dump x))

pub claim-completed :
    (u c fp : Text) (o : Option Text) (t : ℕ) (rows : List IdempotencyRecord) (stored : Text)
    (x : ApiMessageResponse)
    → IsCompleted stored (dump x) (lookup u c rows)
    → (r : IdempotencyRecord) × CompletedRecord stored x r
      × (claim u c fp o t rows ≡ ((verdict (differs stored fp), some r), rows))
unfolding read_record
claim-completed u c fp o t rows stored x (row, e, ef, es, ej) =
    let r = read_record row in
    let es' : r.status ≡ known completed = rw es refl in
    (
      r,
      (ef, es', ej),
      claim_of_verdict u c fp o t rows r (verdict (differs stored fp))
          (get_record_of u c rows row e) (classify-completed fp stored x r ef es' ej)
          (verdict-Refused (differs stored fp)),
    )

module _ {K S : Type 0} (env : Environment K S) (u : Text) (r : ApiMessageRequest) where
  -- The world after `n` calls that wrote nothing.
  abbrev pub after_calls : ℕ → World K S → World K S
  after_calls n w = record { tables = w.tables; knowledge = w.knowledge; calls = n }

  -- What a request with a key gets whose key is completed: what was stored, unless the fingerprints
  -- differ or the database fails at the ping or at the claim.
  abbrev pub completed_answer :
      Text → ApiMessageResponse → World K S → Result ApiMessageResponse × World K S
  completed_answer stored x w =
      if env.fails w.calls then (err product_store_unavailable, after_calls (suc w.calls) w) else (
        if env.fails (suc (suc w.calls))
            then err store_error
            else if differs stored (message_fingerprint env r.text r.conversation_id)
            then err idempotency_conflict
            else ok x,
        after_calls (suc (suc (suc w.calls))) w,
      )

  begin_with-completed :
      (c fp : Text) (o : Option Text) (b : Bool) (stored : Text) (x : ApiMessageResponse)
      (s : IdempotencyRecord) (w : World K S)
      → CompletedRecord stored x s
      → begin_with env u c fp o (verdict b) s w ≡ (
        ok (
            if b
            then outcome RecoveryAction.conflict none (some s)
            else outcome RecoveryAction.replay_product_result (some x) (some s)),
        w,
      )
  unfolding begin_with
  begin_with-completed c fp o true stored x s w h = refl
  begin_with-completed c fp o false stored x s w (ef, es, ej) =
      ap (λ j. begin_replay env s (filled_payload j) w) ej

  ping_fails :
      (w : World K S)
      → env.fails w.calls ≡ true
      → ensure_product_store env w ≡ (err product_store_unavailable, after_calls (suc w.calls) w)
  unfolding ensure_product_store ping
  ping_fails w f =
      catch_err (ping env) (unavailable env) w (after_calls (suc w.calls) w) store_error
        (statement_err env (λ t. some (tt, t)) w f)

  pub ping_holds :
      (w : World K S)
      → env.fails w.calls ≡ false
      → ensure_product_store env w ≡ (ok tt, after_calls (suc w.calls) w)
  unfolding ensure_product_store ping
  ping_holds w f =
      catch_ok (ping env) (unavailable env) w (after_calls (suc w.calls) w) tt
        (statement_ok env (λ t. some (tt, t)) w tt w.tables f refl)

  claim_fails :
      (c fp : Text) (o : Option Text) (w : World K S)
      → env.fails (suc w.calls) ≡ true
      → begin_or_replay env u c fp o w ≡ (err store_error, after_calls (suc (suc w.calls)) w)
  unfolding begin_or_replay claim_idempotent
  claim_fails c fp o w f =
      bind_err (claim_idempotent env u c fp o) (begin_claimed env u c fp o) w
        (after_calls (suc (suc w.calls)) w) store_error (rw (claim_idempotent, f) refl)

  -- The outcome of a claim of a completed key.
  abbrev completed_outcome : Bool → ApiMessageResponse → IdempotencyRecord → BeginOutcome
  completed_outcome b x s =
      if b
      then outcome RecoveryAction.conflict none (some s)
      else outcome RecoveryAction.replay_product_result (some x) (some s)

  claim_holds :
      (c fp stored : Text) (o : Option Text) (x : ApiMessageResponse) (w : World K S)
      → env.fails (suc w.calls) ≡ false
      → IsCompleted stored (dump x) (lookup u c w.tables.idempotency)
      → (s : IdempotencyRecord) × (begin_or_replay env u c fp o w
          ≡ (ok (completed_outcome (differs stored fp) x s), after_calls (suc (suc w.calls)) w))
  unfolding begin_or_replay claim_idempotent
  claim_holds c fp stored o x w f h =
      let (s, hs, e) =
        claim-completed u c fp o (second_of (env.clock w.calls)) w.tables.idempotency stored x h in
      let v : World K S = after_calls (suc (suc w.calls)) w in
      (
        s,
        bind_ok (claim_idempotent env u c fp o) (begin_claimed env u c fp o) w v
              (verdict (differs stored fp), some s) (rw (claim_idempotent, f, e) refl)
            ∙ begin_with-completed c fp o (differs stored fp) stored x s v hs,
      )

  after_completed :
      (b : Bool) (x : ApiMessageResponse) (s : IdempotencyRecord) (w : World K S)
      → after_begin env (completed_outcome b x s) (run_message env u r) w
        ≡ ((if b then err idempotency_conflict else ok x), w)
  after_completed true x s w = refl
  after_completed false x s w = refl

  abbrev begin : Action K S BeginOutcome
  begin =
      begin_or_replay env u (request_of env r) (message_fingerprint env r.text r.conversation_id)
        r.conversation_id

  abbrev rest : BeginOutcome → Action K S ApiMessageResponse
  rest b = after_begin env b (run_message env u r)

  pub send_keyed-completed :
      (stored : Text) (x : ApiMessageResponse) (w : World K S)
      → IsCompleted stored (dump x) (lookup u (request_of env r) w.tables.idempotency)
      → send_keyed env u r w ≡ completed_answer stored x w
  unfolding send_keyed
  send_keyed-completed stored x w h =
      let fp = message_fingerprint env r.text r.conversation_id in
      let w1 : World K S = after_calls (suc w.calls) w in
      let w3 : World K S = after_calls (suc (suc (suc w.calls))) w in
      elim (Bool-cases (env.fails w.calls)) [
        | inl f1 ↦ rw f1 (
            bind_err (ensure_product_store env >> begin) rest w w1 product_store_unavailable (
              bind_err (ensure_product_store env) (λ _. begin) w w1 product_store_unavailable
                (ping_fails w f1)))
        | inr f1 ↦ elim (Bool-cases (env.fails (suc (suc w.calls)))) [
          | inl f2 ↦
              rw (f1, f2)
                (bind_err (ensure_product_store env >> begin) rest w w3 store_error (
                  bind_ok (ensure_product_store env) (λ _. begin) w w1 tt (ping_holds w f1)
                  ∙ claim_fails (request_of env r) fp r.conversation_id w1 f2))
          | inr f2 ↦
              let (s, e) = claim_holds (request_of env r) fp stored r.conversation_id x w1 f2 h in
              rw (f1, f2)
                (bind_ok (ensure_product_store env >> begin) rest w w3
                    (completed_outcome (differs stored fp) x s)
                    (bind_ok (ensure_product_store env) (λ _. begin) w w1 tt (ping_holds w f1) ∙ e)
                  ∙ after_completed (differs stored fp) x s w3)
        ]
      ]

  pub send_message-keyed : has_request env r ≡ true → send_message env u r ≡ send_keyed env u r
  unfolding send_message
  send_message-keyed e = rw (send_message, e) refl

  -- A request whose key is completed gets what was stored, whatever the engine and the recovery would do:
  -- the answer, or a conflict when the stored fingerprint is not empty and differs; when the database
  -- fails, the error of that. The tables and the knowledge stay as they are in every case.
  pub send_message-completed :
      (stored : Text) (x : ApiMessageResponse) (w : World K S)
      → has_request env r ≡ true
      → IsCompleted stored (dump x) (lookup u (request_of env r) w.tables.idempotency)
      → send_message env u r w ≡ completed_answer stored x w
  send_message-completed stored x w e h =
      ap (λ m. m w) (send_message-keyed e) ∙ send_keyed-completed stored x w h
