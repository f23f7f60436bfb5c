-- ===== src/Interpretation/Interpreter.antt =====
-- The loop of `interpret` over the attempts of one request
-- (pke/src/pke/interpretation/deepseek_interpreter.py). What an attempt brings is asked of the model
-- and parsed by a parameter; logs, traces and the delay are left out.
pub mod Loop
pub mod Outcome
pub mod Final
pub mod Counts
use jamesbrain.Common.{
  ℕ, zero, suc, ◌+◌, Text, Bool, true, false, Option, none, some, List, [], ◌∷◌, ◌++◌,
  if◌then◌else◌, ltb, ◌==◌,
}
use jamesbrain.Interpretation.Messages.{Message, codes}
use jamesbrain.Interpretation.Retry.{
  LlmError, Cause, Failure, FailureClass, RetryPolicy, classify, is_retryable,
}

-- `LlmMetrics`, without the latency.
pub record LlmMetrics : Type 0 where
  pub interpret_attempts : ℕ
  pub calls : ℕ
  pub successes : ℕ
  pub schema_failures : ℕ
  pub provider_failures : ℕ
  pub provider_json_failures : ℕ
  pub wire_failures : ℕ
  pub canonical_failures : ℕ
  pub prompt_tokens : ℕ
  pub completion_tokens : ℕ

pub record InterpreterRetryMetrics : Type 0 where
  pub interpreter_requests : ℕ
  pub provider_attempts : ℕ
  pub retry_triggered : ℕ
  pub retry_succeeded : ℕ
  pub retry_exhausted : ℕ
  pub non_retryable_failures : ℕ
  pub invalid_json_responses : ℕ
  pub schema_invalid_responses : ℕ
  pub timeout_responses : ℕ
  pub temporary_provider_failures : ℕ
  pub first_attempt_success : ℕ
  pub recovered_requests : ℕ

pub data RetryDecision : Type 0 where
  retry fail accept : RetryDecision

pub record AttemptRecord : Type 0 where
  pub attempt_number : ℕ
  pub failure_class : Option FailureClass
  pub retry_decision : RetryDecision
  pub provider_request_id : Option Text
  pub success : Bool

pub record InterpreterRequestTrace : Type 0 where
  pub attempts : List AttemptRecord
  pub recovered : Bool
  pub exhausted : Bool

-- `LlmCallMetadata`, what the loop reads of it.
pub record LlmCallMetadata : Type 0 where
  pub request_id : Option Text
  pub prompt_tokens : Option ℕ
  pub completion_tokens : Option ℕ

pub record LlmResponse : Type 0 where
  pub content : Text
  pub metadata : LlmCallMetadata

-- What is raised while an attempt is made or its response is parsed: an exception of the client, a
-- `JSONDecodeError`, a `ValidationError` with the summary of its issues and whether the wire stage
-- failed, an `InterpretationError`.
pub data Raised : Type 0 where
  client : LlmError → Raised
  json_decode : Message → Raised
  validation : Message → Bool → Raised
  interpretation : Message → Cause → Raised

-- What an attempt brings: no response, or a response and what its parse returns or raises; `uncaught`
-- is an exception that no handler of `interpret` is for, after a response where one is given.
pub data Attempt (R : Type 0) : Type 0 where
  no_response : Raised → Attempt R
  unparsed : LlmResponse → Raised → Attempt R
  parsed : LlmResponse → R → Attempt R
  uncaught : Option LlmResponse → Attempt R

-- The interpreter, as far as the loop changes it.
pub record Interpreter : Type 0 where
  pub metrics : LlmMetrics
  pub retry_metrics : InterpreterRetryMetrics
  pub last_provider_attempts : ℕ
  pub last_raw_content : Option Text
  pub last_request_trace : InterpreterRequestTrace

-- The variables of one call of `interpret`, with the interpreter.
pub record Request : Type 0 where
  pub interpreter : Interpreter
  pub provider_attempts : ℕ
  pub last_error : Option Failure

-- `propagated` is an exception that was not caught; `assertion_failed` that of
-- `assert last_error is not None`.
pub data Interpretation (R : Type 0) : Type 0 where
  accepted : R → Interpretation R
  raised : Failure → Interpretation R
  assertion_failed : Interpretation R
  propagated : Interpretation R

abbrev with_metrics : (LlmMetrics → LlmMetrics) → Request → Request
with_metrics f s = record s {
  interpreter = record s.interpreter { metrics = f s.interpreter.metrics };
}

abbrev with_retry : (InterpreterRetryMetrics → InterpreterRetryMetrics) → Request → Request
with_retry f s = record s {
  interpreter = record s.interpreter { retry_metrics = f s.interpreter.retry_metrics };
}

abbrev with_trace : (InterpreterRequestTrace → InterpreterRequestTrace) → Request → Request
with_trace f s = record s {
  interpreter = record s.interpreter { last_request_trace = f s.interpreter.last_request_trace };
}

abbrev tokens : Option ℕ → ℕ
tokens none = 0
tokens (some n) = n

-- `record_call`
unfoldable pub record_call : LlmCallMetadata → LlmMetrics → LlmMetrics
record_call d m = record m {
  calls = m.calls + 1;
  prompt_tokens = m.prompt_tokens + tokens d.prompt_tokens;
  completion_tokens = m.completion_tokens + tokens d.completion_tokens;
}

-- `provider_attempts += 1`, in the call and in the metrics.
unfoldable pub count_attempt : Request → Request
count_attempt s =
    let t = with_retry (λ m. record m { provider_attempts = m.provider_attempts + 1 }) s in
    record t { provider_attempts = s.provider_attempts + 1 }

-- What is noted of a response before it is parsed.
unfoldable pub note_response : LlmResponse → Request → Request
unfolding count_attempt record_call
note_response r s =
    let t = with_metrics (record_call r.metadata) (count_attempt s) in
    record t { interpreter = record t.interpreter { last_raw_content = some r.content } }

-- `_note_failure_class`
unfoldable pub note_failure_class : FailureClass → InterpreterRetryMetrics → InterpreterRetryMetrics
note_failure_class FailureClass.timeout m = record m { timeout_responses = m.timeout_responses + 1 }
note_failure_class FailureClass.http_5xx m = record m {
  temporary_provider_failures = m.temporary_provider_failures + 1;
}
note_failure_class FailureClass.temporary_network m = record m {
  temporary_provider_failures = m.temporary_provider_failures + 1;
}
note_failure_class FailureClass.rate_limited m = record m {
  temporary_provider_failures = m.temporary_provider_failures + 1;
}
note_failure_class FailureClass.invalid_json m = record m {
  invalid_json_responses = m.invalid_json_responses + 1;
}
note_failure_class FailureClass.schema_invalid m = record m {
  schema_invalid_responses = m.schema_invalid_responses + 1;
}
note_failure_class FailureClass.empty_response m = record m {
  invalid_json_responses = m.invalid_json_responses + 1;
}
note_failure_class FailureClass.truncated m = record m {
  invalid_json_responses = m.invalid_json_responses + 1;
}
note_failure_class _ m = m

-- `_mark_exhausted`
unfoldable pub mark_exhausted : ℕ → Request → Request
mark_exhausted attempt s =
    if ltb 1 attempt
    then with_retry (λ m. record m { retry_exhausted = m.retry_exhausted + 1 })
        (with_trace (λ t. record t { exhausted = true }) s)
    else s
