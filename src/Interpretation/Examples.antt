-- ===== src/Interpretation/Examples.antt =====
-- Runs of the interpreter's retries (pke/src/pke/interpretation/retry.py and
-- pke/src/pke/interpretation/deepseek_interpreter.py).
use jamesbrain.Common.{ℕ, suc, false, ◌≡◌, ◌⊎◌, refl, none, some, List, []}
use jamesbrain.Interpretation.Messages.{
  Message, codes, starts_with, contains, contains_any, starts_with_any,
}
use jamesbrain.Interpretation.Retry.{
  LlmError, Cause, Failure, FailureClass, RetryPolicy, ℤ, clamp_attempts, retry_policy,
  retry_once_bounded, classify, classify_text, classify_provider_text, classify_llm, retries_class,
  is_retryable,
}
use jamesbrain.Interpretation.Interpreter.{
  LlmResponse, Raised, Attempt, Interpreter, Interpretation, count_attempt, note_response,
  note_failure_class,
}
use jamesbrain.Interpretation.Interpreter.Loop.{
  LlmMessage, messages_of, failure_of, class_of, note_raised, retried, accept_attempt, handle,
  run_attempt, or_continue, attempts_from, begin_request, interpret,
}
use jamesbrain.Interpretation.Interpreter.Final.{interpret-final}
use jamesbrain.Interpretation.Interpreter.Counts.{IsBalanced, interpret-IsBalanced}

abbrev lower : Message → Message
lower text = text

abbrev fresh : Interpreter
fresh = record {
  metrics = record {
    interpret_attempts = 0;
    calls = 0;
    successes = 0;
    schema_failures = 0;
    provider_failures = 0;
    provider_json_failures = 0;
    wire_failures = 0;
    canonical_failures = 0;
    prompt_tokens = 0;
    completion_tokens = 0;
  };
  retry_metrics = record {
    interpreter_requests = 0;
    provider_attempts = 0;
    retry_triggered = 0;
    retry_succeeded = 0;
    retry_exhausted = 0;
    non_retryable_failures = 0;
    invalid_json_responses = 0;
    schema_invalid_responses = 0;
    timeout_responses = 0;
    temporary_provider_failures = 0;
    first_attempt_success = 0;
    recovered_requests = 0;
  };
  last_provider_attempts = 0;
  last_raw_content = none;
  last_request_trace = record { attempts = []; recovered = false; exhausted = false };
}

abbrev answer : LlmResponse
answer = record {
  content = 5;
  metadata = record { request_id = some 9; prompt_tokens = some 7; completion_tokens = none };
}

-- A model that times out and then answers.
abbrev slow : List LlmMessage → ℕ → Attempt ℕ
slow messages (suc (suc n)) = Attempt.parsed answer 42
slow messages _ = Attempt.no_response (Raised.client (LlmError.timeout (codes "timeout")))

-- A model that refuses the credentials.
abbrev refusing : List LlmMessage → ℕ → Attempt ℕ
refusing messages n = Attempt.no_response (Raised.client (LlmError.authentication (codes "401")))

abbrev policy : RetryPolicy
policy = retry_policy (ℤ.pos 2) retry_once_bounded

slow_recovers : (interpret lower policy [] slow fresh).0 ≡ Interpretation.accepted 42
unfolding interpret attempts_from run_attempt or_continue handle is_retryable classify classify_llm
    retries_class failure_of retry_policy clamp_attempts messages_of
slow_recovers = refl

slow_counts : (interpret lower policy [] slow fresh).1.retry_metrics.recovered_requests ≡ 1
unfolding interpret attempts_from run_attempt or_continue handle is_retryable classify classify_llm
    retries_class failure_of retry_policy clamp_attempts messages_of note_raised retried
    accept_attempt note_response count_attempt class_of note_failure_class begin_request
slow_counts = refl

network_text :
    classify lower (Failure.interpretation_error (codes "provider: lost") Cause.no_cause)
    ≡ FailureClass.temporary_network
unfolding classify classify_text classify_provider_text contains contains_any starts_with
    starts_with_any
network_text = refl

interpret-final_example :
    (interpret lower (retry_policy (ℤ.pos 2) retry_once_bounded) [] refusing fresh).0
    ≡ Interpretation.raised (failure_of (Raised.client (LlmError.authentication (codes "401"))))
interpret-final_example =
    interpret-final lower [] refusing (ℤ.pos 2) retry_once_bounded fresh
      (LlmError.authentication (codes "401")) tt refl

interpret-IsBalanced_example :
    ((interpret lower (retry_policy (ℤ.pos 2) retry_once_bounded) [] slow fresh).0
      ≡ Interpretation.propagated)
    ⊎ IsBalanced
        (interpret lower (retry_policy (ℤ.pos 2) retry_once_bounded) [] slow fresh).1.retry_metrics
interpret-IsBalanced_example =
    interpret-IsBalanced lower [] slow (ℤ.pos 2) retry_once_bounded fresh (refl, refl, refl)
