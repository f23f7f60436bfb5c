-- ===== src/Product/Recovery.antt =====
-- `ProductRecoveryService` (pke/src/pke/product/conversation/recovery.py): whether a request with an
-- idempotency key runs, replays a stored result, or is refused.
use jamesbrain.Common.{
  ℕ, ◌+◌, ◌*◌, Text, Bool, true, false, List, [], ◌∷◌, Option, none, some, if◌then◌else◌, leb,
  or_else, is_filled,
}
use jamesbrain.Product.Dtos.{
  ApiMessage, ApiMessageResponse, ApiMessageRole, ApiMessageStatus, ApiOperation, ApiOperationKind,
  ApiOperationOutcome, ApiResponseType, MessageType,
}
use jamesbrain.Product.World.{
  Stamp, Payload, IdempotencyRecord, Environment, Action, ok, no_stamp, unreadable, at, dump,
  empty_object, no_response, ask, pure, raise, or_raise, ◌>>=◌, ◌>>◌, requires_reconciliation,
  validation_error,
}
use jamesbrain.Product.Idempotency.{
  IdempotencyClaimResult, Claim, stamp_or, claim_idempotent, complete_idempotent,
  mark_recovery_required,
}
use jamesbrain.Product.Store.{find_messages_by_client_request}

pub data RecoveryAction : Type 0 where
  replay_product_result safe_engine_retry in_flight conflict : RecoveryAction

pub record BeginOutcome : Type 0 where
  pub action : RecoveryAction
  pub response : Option ApiMessageResponse
  pub stored : Option IdempotencyRecord

-- `ApiMessageResponse.model_validate`
abbrev pub model_validate : Payload → Option ApiMessageResponse
model_validate empty_object = none
model_validate (dump r) = some r
model_validate (no_response _) = none

-- Whether a `response_json` is a dict that is not empty.
abbrev pub filled_payload : Option Payload → Option Payload
filled_payload none = none
filled_payload (some empty_object) = none
filled_payload (some (dump r)) = some (dump r)
filled_payload (some (no_response x)) = some (no_response x)

-- The age is compared at the reading of the clock in microseconds.
abbrev pub is_stale_at : ℕ → ℕ → Stamp → Bool
is_stale_at now stale_after no_stamp = true
is_stale_at now stale_after unreadable = true
is_stale_at now stale_after (at t) = leb (t + stale_after * 1000000) now

abbrev pub response_type_of : MessageType → ApiResponseType
response_type_of (MessageType.response_type t) = t
response_type_of (MessageType.other_type _) = ApiResponseType.answer

abbrev pub no_operation : ApiOperation
no_operation = record { kind = ApiOperationKind.nothing; outcome = ApiOperationOutcome.failed }

abbrev pub status_or_completed : Option ApiMessageStatus → ApiMessageStatus
status_or_completed none = ApiMessageStatus.completed
status_or_completed (some s) = s

unfoldable pub response_from_assistant_message : ApiMessage → Text → ApiMessageResponse
response_from_assistant_message m request = record {
  conversation_id = m.conversation_id;
  message_id = m.id;
  type = response_type_of m.type;
  status = status_or_completed m.status;
  text = m.text;
  clarification = m.clarification;
  error = m.error;
  data_json = m.data_json;
  operation = or_else m.operation (some no_operation);
  request_id = none;
  client_request_id = some request;
  user_message_id = none;
  debug = none;
}

abbrev pub is_assistant : ApiMessageRole → Bool
is_assistant ApiMessageRole.user = false
is_assistant ApiMessageRole.assistant = true
is_assistant ApiMessageRole.system = false

-- `assistant[-1]`, none when no message is the assistant's.
unfoldable pub last_assistant : List ApiMessage → Option ApiMessage
last_assistant [] = none
last_assistant (m ∷ ms) = or_else (last_assistant ms) (if is_assistant m.role then some m else none)

-- `a or b`, of optional texts
abbrev pub text_or_else : Option Text → Option Text → Option Text
text_or_else a b = if is_filled a then a else b

abbrev pub outcome :
    RecoveryAction → Option ApiMessageResponse → Option IdempotencyRecord → BeginOutcome
outcome a r s = record { action = a; response = r; stored = s }

module _ {K S : Type 0} (env : Environment K S) where
  unfoldable pub is_stale : IdempotencyRecord → Action K S Bool
  is_stale r w = (
    ok (
        is_stale_at (env.clock w.calls) env.stale_after_seconds
          (stamp_or r.updated_at r.created_at)),
    (ask w).1,
  )

  unfoldable pub reconcile_without_response :
      Text
      → Text
      → IdempotencyRecord
      → Text
      → Option Text
      → Option ApiMessage
      → Action K S BeginOutcome
  unfolding response_from_assistant_message complete_idempotent mark_recovery_required
  reconcile_without_response user request r fp conversation none =
      mark_recovery_required env user request >> raise requires_reconciliation
  reconcile_without_response user request r fp conversation (some m) = do
    let response = response_from_assistant_message m request
    complete_idempotent env user request (dump response) fp
        (text_or_else conversation (some m.conversation_id))
    pure (outcome RecoveryAction.replay_product_result (some response) (some r))

  unfoldable pub reconcile_stale :
      Text → Text → IdempotencyRecord → Text → Option Text → Action K S BeginOutcome
  unfolding reconcile_without_response complete_idempotent find_messages_by_client_request
      last_assistant
  reconcile_stale user request r fp conversation = elim r.response_json [
    | some p ↦ do
      complete_idempotent env user request p fp conversation
      response ← or_raise (model_validate p) validation_error
      pure (outcome RecoveryAction.replay_product_result (some response) (some r))
    | none ↦ do
      messages ← find_messages_by_client_request env user request
      reconcile_without_response user request r fp conversation (last_assistant messages)
  ]

  -- A stored result is replayed; one that is an empty object counts as none.
  abbrev pub begin_replay : IdempotencyRecord → Option Payload → Action K S BeginOutcome
  begin_replay r none = pure (outcome RecoveryAction.safe_engine_retry none (some r))
  begin_replay r (some p) = do
    response ← or_raise (model_validate p) validation_error
    pure (outcome RecoveryAction.replay_product_result (some response) (some r))

  -- What `begin_or_replay` makes of a claim, when there is a record.
  unfoldable pub begin_with :
      Text
      → Text
      → Text
      → Option Text
      → IdempotencyClaimResult
      → IdempotencyRecord
      → Action K S BeginOutcome
  unfolding reconcile_stale is_stale
  begin_with user request fp conversation IdempotencyClaimResult.proceed r =
      pure (outcome RecoveryAction.safe_engine_retry none (some r))
  begin_with user request fp conversation IdempotencyClaimResult.replay r =
      begin_replay r (filled_payload r.response_json)
  begin_with user request fp conversation IdempotencyClaimResult.conflict r =
      pure (outcome RecoveryAction.conflict none (some r))
  begin_with user request fp conversation IdempotencyClaimResult.needs_recovery r =
      raise requires_reconciliation
  begin_with user request fp conversation IdempotencyClaimResult.busy r = is_stale r >>= λ stale.
      if stale
      then reconcile_stale user request r fp (text_or_else conversation r.conversation_id)
      else pure (outcome RecoveryAction.in_flight none (some r))

  -- A claim without a record is a fresh one.
  abbrev pub begin_claimed : Text → Text → Text → Option Text → Claim → Action K S BeginOutcome
  begin_claimed user request fp conversation (v, none) =
      pure (outcome RecoveryAction.safe_engine_retry none none)
  begin_claimed user request fp conversation (v, some r) =
      begin_with user request fp conversation v r

  unfoldable pub begin_or_replay : Text → Text → Text → Option Text → Action K S BeginOutcome
  unfolding begin_with claim_idempotent
  begin_or_replay user request fp conversation =
      claim_idempotent env user request fp conversation
      >>= begin_claimed user request fp conversation
