-- ===== src/Product/Orchestrator/Examples.antt =====
-- The theorems on the product at a small world: an engine that counts its runs in the knowledge, and a
-- store in which the key 9 of user 7 is completed.
use jamesbrain.Common.{
  ℕ, ◌+◌, suc, Text, false, [], ◌∷◌, none, some, ◌≡◌, refl, if◌then◌else◌, ◌==◌,
}
use jamesbrain.Product.World.{
  World, Environment, FingerprintParts, IdempotencyRecord, IdempotencyStatus, Turn, ok, err,
  requires_reconciliation, idempotency_in_progress, at, dump, known,
}
use jamesbrain.Product.World.IdempotencyStatus.{completed, in_progress, recovery_required}
use jamesbrain.Product.Dtos.{
  ApiMessageRequest, ApiMessageResponse, ApiMessageStatus, ApiResponseType,
}
use jamesbrain.Product.Idempotency.{
  IdempotencyClaimResult, lookup, get_idempotency_record, read_record, claim,
}
use jamesbrain.Product.Idempotency.Claims.{IsCompleted, claim-excludes}
use jamesbrain.Product.Orchestrator.{
  send_message, run_message, message_fingerprint, with_user_message,
}
use jamesbrain.Common.{◌↔◌}
use jamesbrain.Product.Orchestrator.Awaiting.{
  IsYoung, send_message-needs_recovery, send_message-in_flight_iff,
}
use jamesbrain.Product.Orchestrator.Completes.{run_message-IsCompleted, run_message-resend}
use jamesbrain.Product.Orchestrator.Replay.{after_calls, completed_answer, send_message-completed}
use jamesbrain.Product.Orchestrator.Resend.{row_at, send_message-durable, send_all, send_all-resend}

abbrev response : ApiMessageResponse
response = record {
  conversation_id = 50;
  message_id = 60;
  type = ApiResponseType.answer;
  status = ApiMessageStatus.completed;
  text = 70;
  clarification = none;
  error = none;
  data_json = none;
  operation = none;
  request_id = some 80;
  client_request_id = some 9;
  user_message_id = some 61;
  debug = none;
}

abbrev turn : Turn
turn = record { response = response; pending_operation_json = none }

-- A fingerprint is the text itself, after 100.
abbrev digest : FingerprintParts → Text
digest (FingerprintParts.message text conversation) = 100 + text

abbrev env : Environment ℕ ℕ
env = record {
  new_id = λ n. 1000 + n;
  clock = λ n. n;
  fails = λ n. false;
  digest = digest;
  strip = λ t. t;
  title_from_text = λ t. t;
  default_session = λ u. 0;
  stale_after_seconds = 120;
  engine = λ call session runs. (ok (ok turn, session), suc runs);
}

abbrev stored_row : IdempotencyRecord
stored_row = record {
  user_id = 7;
  client_request_id = 9;
  request_fingerprint = 142;
  conversation_id = some 50;
  status = known completed;
  response_json = some (dump response);
  created_at = at 0;
  updated_at = at 0;
}

abbrev world : World ℕ ℕ
world = record {
  tables = record {
    idempotency = stored_row ∷ [];
    conversations = [];
    messages = [];
    clarifications = [];
  };
  knowledge = 0;
  calls = 0;
}

abbrev request : ApiMessageRequest
request = record { text = 42; conversation_id = some 50; client_request_id = some 9 }

-- Another message of the same user, under another key.
abbrev other_request : ApiMessageRequest
other_request = record { text = 43; conversation_id = none; client_request_id = some 10 }

is_completed : IsCompleted 142 (dump response) (row_at env 7 9 world)
unfolding lookup
is_completed = (stored_row, refl, refl, refl, refl)

-- The other message runs the engine once.
other_runs : (send_message env 7 other_request world).1.knowledge ≡ 1
unfolding send_message
other_runs = refl

send_message-completed_example :
    send_message env 7 request world ≡ completed_answer env 7 request 142 response world
send_message-completed_example =
    send_message-completed env 7 request 142 response world refl is_completed

send_message-durable_example :
    row_at env 7 9 (send_message env 7 other_request world).1 ≡ row_at env 7 9 world
send_message-durable_example =
    send_message-durable env 7 other_request 7 9 142 response world is_completed

send_all-resend_example :
    send_message env 7 request (send_all env ((7, other_request) ∷ (8, request) ∷ []) world)
    ≡ completed_answer env 7 request 142 response
        (send_all env ((7, other_request) ∷ (8, request) ∷ []) world)
send_all-resend_example =
    send_all-resend env ((7, other_request) ∷ (8, request) ∷ []) 7 request 142 response world refl
      is_completed

claim-excludes_example :
    ((claim 7 10 143 none 5 (claim 7 10 143 none 4 []).1).0.0
      ≡ (if 143 == 143 then IdempotencyClaimResult.busy else IdempotencyClaimResult.conflict))
    × ((claim 7 10 143 none 5 (claim 7 10 143 none 4 []).1).1 ≡ (claim 7 10 143 none 4 []).1)
unfolding claim
claim-excludes_example = claim-excludes 7 10 143 none 4 [] 143 none 5 (λ e. cc) refl

-- The run of the other message, which makes a conversation and a message with new ids.
abbrev ran : World ℕ ℕ
ran = (run_message env 7 other_request world).1

abbrev shown : ApiMessageResponse
shown = with_user_message env 1005 response

runs : run_message env 7 other_request world ≡ (ok shown, ran)
unfolding run_message
runs = refl

run_message-IsCompleted_example :
    IsCompleted (message_fingerprint env 43 none) (dump shown) (row_at env 7 10 ran)
run_message-IsCompleted_example =
    run_message-IsCompleted env 7 other_request refl world ran shown runs

run_message-resend_example :
    send_message env 7 other_request (send_all env ((7, request) ∷ []) ran) ≡ (
      ok shown,
      after_calls env 7 other_request
          (suc (suc (suc (send_all env ((7, request) ∷ []) ran).calls)))
          (send_all env ((7, request) ∷ []) ran),
    )
run_message-resend_example =
    run_message-resend env 7 other_request ((7, request) ∷ []) world ran shown refl runs refl refl

-- The key 10 held since time 0 by a worker, and the same key of an operation whose outcome is not known.
abbrev held_row : IdempotencyStatus → IdempotencyRecord
held_row status = record {
  user_id = 7;
  client_request_id = 10;
  request_fingerprint = 143;
  conversation_id = none;
  status = known status;
  response_json = none;
  created_at = at 0;
  updated_at = at 0;
}

abbrev held : IdempotencyStatus → World ℕ ℕ
held status = record {
  tables = record {
    idempotency = held_row status ∷ [];
    conversations = [];
    messages = [];
    clarifications = [];
  };
  knowledge = 0;
  calls = 0;
}

send_message-needs_recovery_example :
    send_message env 7 other_request (held recovery_required)
    ≡ (err requires_reconciliation, after_calls env 7 other_request 3 (held recovery_required))
unfolding get_idempotency_record lookup read_record message_fingerprint
send_message-needs_recovery_example =
    send_message-needs_recovery env 7 other_request (held recovery_required)
      (held_row recovery_required) refl refl refl refl refl (λ e. cc) (λ e. cc) (λ e. cc)

send_message-in_flight_iff_example :
    (send_message env 7 other_request (held in_progress)
      ≡ (err idempotency_in_progress, after_calls env 7 other_request 4 (held in_progress)))
    ↔ IsYoung 3 120 (at 0)
unfolding get_idempotency_record lookup read_record message_fingerprint
send_message-in_flight_iff_example =
    send_message-in_flight_iff env 7 other_request (held in_progress) (held_row in_progress) refl
      refl refl refl refl refl
