-- ===== src/Interpretation/Interpreter/Loop.antt =====
-- One attempt of `interpret` and the loop over them
-- (pke/src/pke/interpretation/deepseek_interpreter.py). `lower` is `str.lower`.
use Prim.Native.String.{String}
use jamesbrain.Common.{
  ℕ, zero, suc, ◌+◌, Text, true, false, Option, none, some, List, [], ◌∷◌, ◌++◌, if◌then◌else◌, ltb,
  ◌==◌,
}
use jamesbrain.Interpretation.Messages.{Message, codes}
use jamesbrain.Interpretation.Retry.{
  LlmError, Cause, Failure, FailureClass, RetryPolicy, classify, is_retryable,
}
use jamesbrain.Interpretation.Interpreter.{
  LlmMetrics, RetryDecision, AttemptRecord, LlmResponse, Raised, Attempt, Interpreter, Request,
  Interpretation, with_metrics, with_retry, with_trace, count_attempt, note_response,
  note_failure_class, mark_exhausted,
}

pub record LlmMessage : Type 0 where
  pub role : String
  pub content : String

-- `RETRY_STRUCTURAL_REMINDER`
abbrev pub retry_structural_reminder : String
retry_structural_reminder =
    "Previous response did not satisfy the required structured-output contract. Return only a valid JSON response matching the schema. No markdown fences. Do not invent facts, IDs, times, primitives, or canonical concepts."

-- The messages of an attempt.
unfoldable pub messages_of : List LlmMessage → ℕ → List LlmMessage
messages_of base attempt =
    if ltb 1 attempt
    then base ++ (record { role = "user"; content = retry_structural_reminder } ∷ [])
    else base

-- `str(exc)`
abbrev message_of : LlmError → Message
message_of (LlmError.llm_error text) = text
message_of (LlmError.configuration text) = text
message_of (LlmError.authentication text) = text
message_of (LlmError.timeout text) = text
message_of (LlmError.rate_limit text) = text
message_of (LlmError.provider_error text _) = text
message_of (LlmError.invalid_response text) = text
message_of (LlmError.schema_validation text) = text

-- The `LlmSchemaValidationError` that stands for a response that does not fit.
abbrev schema_error : Cause
schema_error =
    Cause.llm_cause
      (LlmError.schema_validation (codes "proposta do modelo rejeitada pelo Pydantic"))

-- `wrapped`, and the exception itself where it is an `InterpretationError`.
unfoldable pub failure_of : Raised → Failure
failure_of (Raised.client e) =
    Failure.interpretation_error (codes "provider: " ++ message_of e) (Cause.llm_cause e)
failure_of (Raised.json_decode text) =
    Failure.interpretation_error (codes "path: ? reason: " ++ text) schema_error
failure_of (Raised.validation summary _) = Failure.interpretation_error summary schema_error
failure_of (Raised.interpretation text cause) = Failure.interpretation_error text cause

-- What is counted before the first attempt.
unfoldable pub begin_request : Interpreter → Request
begin_request i = record {
  interpreter = record i {
    metrics = record i.metrics { interpret_attempts = i.metrics.interpret_attempts + 1 };
    retry_metrics = record i.retry_metrics {
      interpreter_requests = i.retry_metrics.interpreter_requests + 1;
    };
    last_request_trace = record { attempts = []; recovered = false; exhausted = false };
  };
  provider_attempts = 0;
  last_error = none;
}

module _ (lower : Message → Message) where
  -- `klass`
  unfoldable pub class_of : Raised → FailureClass
  unfolding failure_of classify
  class_of (Raised.json_decode text) = FailureClass.invalid_json
  class_of (Raised.validation summary wire) = FailureClass.schema_invalid
  class_of x = classify lower (failure_of x)

  -- The provider's failures, and those of its JSON.
  abbrev note_client : LlmError → LlmMetrics → LlmMetrics
  note_client (LlmError.invalid_response text) m = record m {
    provider_json_failures = m.provider_json_failures + 1;
    provider_failures = m.provider_failures + 1;
  }
  note_client _ m = record m { provider_failures = m.provider_failures + 1 }

  -- What each handler counts before it decides.
  unfoldable pub note_raised : Raised → Request → Request
  unfolding count_attempt note_failure_class class_of
  note_raised (Raised.client e) s =
      with_retry (note_failure_class (class_of (Raised.client e)))
        (with_metrics (note_client e) (count_attempt s))
  note_raised (Raised.json_decode text) s =
      with_retry (λ m. record m { invalid_json_responses = m.invalid_json_responses + 1 })
        (with_metrics
          (λ m. record m {
            provider_json_failures = m.provider_json_failures + 1;
            schema_failures = m.schema_failures + 1;
          })
          s)
  note_raised (Raised.validation summary wire) s =
      with_retry (λ m. record m { schema_invalid_responses = m.schema_invalid_responses + 1 })
        (with_metrics
          (λ m.
            if wire
            then record m {
              schema_failures = m.schema_failures + 1;
              wire_failures = m.wire_failures + 1;
            }
            else record m {
              schema_failures = m.schema_failures + 1;
              canonical_failures = m.canonical_failures + 1;
            })
          s)
  note_raised (Raised.interpretation text cause) s =
      with_retry (note_failure_class (class_of (Raised.interpretation text cause))) s

  -- The schema failures of an `InterpretationError` are counted only when it is retried.
  abbrev note_retried : Raised → LlmMetrics → LlmMetrics
  note_retried (Raised.interpretation text cause) m =
      elim (class_of (Raised.interpretation text cause)) [
        | FailureClass.schema_invalid ↦ record m { schema_failures = m.schema_failures + 1 }
        | _ ↦ m
      ]
  note_retried _ m = m

  abbrev add_record : AttemptRecord → Request → Request
  add_record a s = with_trace (λ t. record t { attempts = t.attempts ++ (a ∷ []) }) s

  abbrev failed_record : ℕ → Option Text → Raised → RetryDecision → AttemptRecord
  failed_record attempt id x decision = record {
    attempt_number = attempt;
    failure_class = some (class_of x);
    retry_decision = decision;
    provider_request_id = id;
    success = false;
  }

  -- The end of a handler that retries.
  unfoldable pub retried : ℕ → Option Text → Raised → Request → Request
  unfolding class_of
  retried attempt id x s = add_record (failed_record attempt id x RetryDecision.retry) (
      with_retry (λ m. record m { retry_triggered = m.retry_triggered + 1 })
        (with_metrics (note_retried x) s))

  -- The end of a handler that gives up.
  unfoldable pub gave_up : ℕ → Option Text → Raised → Request → Request
  unfolding class_of mark_exhausted
  gave_up attempt id x s =
      let t = add_record (failed_record attempt id x RetryDecision.fail) (
        with_retry (λ m. record m { non_retryable_failures = m.non_retryable_failures + 1 })
          (mark_exhausted attempt s)) in
      record t {
        interpreter = record t.interpreter { last_provider_attempts = t.provider_attempts };
      }

  -- The lines after the `try`: the only place where an attempt is accepted.
  unfoldable pub accept_attempt : ℕ → LlmResponse → Request → Request
  accept_attempt attempt r s =
      let t =
        add_record
          record {
            attempt_number = attempt;
            failure_class = none;
            retry_decision = RetryDecision.accept;
            provider_request_id = r.metadata.request_id;
            success = true;
          }
          s in
      let u =
        if attempt == 1
        then with_retry (λ m. record m { first_attempt_success = m.first_attempt_success + 1 }) t
        else with_trace (λ x. record x { recovered = true })
            (with_retry
              (λ m. record m {
                retry_succeeded = m.retry_succeeded + 1;
                recovered_requests = m.recovered_requests + 1;
              })
              t) in
      with_metrics (λ m. record m { successes = m.successes + 1 })
        (record u {
          interpreter = record u.interpreter { last_provider_attempts = u.provider_attempts };
        })

  module _ {R : Type 0} (policy : RetryPolicy) where
    -- The handler of an exception, once it is counted.
    unfoldable pub handle : ℕ → Option Text → Raised → Request → Option (Interpretation R) × Request
    unfolding note_raised failure_of is_retryable retried gave_up
    handle attempt id x s =
        let t = record (note_raised x s) { last_error = some (failure_of x) } in
        if is_retryable lower policy (failure_of x) attempt
        then (none, retried attempt id x t)
        else (some (Interpretation.raised (failure_of x)), gave_up attempt id x t)

    -- One round of the loop: what it ends with, none where it continues.
    unfoldable pub run_attempt : ℕ → Attempt R → Request → Option (Interpretation R) × Request
    unfolding handle note_response accept_attempt
    run_attempt attempt (Attempt.no_response x) s = handle attempt none x s
    run_attempt attempt (Attempt.unparsed r x) s =
        handle attempt r.metadata.request_id x (note_response r s)
    run_attempt attempt (Attempt.parsed r v) s =
        (some (Interpretation.accepted v), accept_attempt attempt r (note_response r s))
    run_attempt attempt (Attempt.uncaught none) s = (some Interpretation.propagated, s)
    run_attempt attempt (Attempt.uncaught (some r)) s =
        (some Interpretation.propagated, note_response r s)

    -- `raise last_error` after the assertion.
    abbrev raise_last : Option Failure → Interpretation R
    raise_last none = Interpretation.assertion_failed
    raise_last (some e) = Interpretation.raised e

    -- The lines after the loop.
    unfoldable pub exhausted : Request → Interpretation R × Request
    exhausted s =
        let t =
          with_retry (λ m. record m { retry_exhausted = m.retry_exhausted + 1 })
            (with_trace (λ x. record x { exhausted = true }) s) in
        (
          raise_last s.last_error,
          record t {
            interpreter = record t.interpreter { last_provider_attempts = t.provider_attempts };
          },
        )

    -- A round that ended, or the rest of the loop.
    unfoldable pub or_continue :
        Option (Interpretation R) × Request
        → (Request → Interpretation R × Request)
        → Interpretation R × Request
    or_continue (none, s) rest = rest s
    or_continue (some i, s) rest = (i, s)

    module _ (base : List LlmMessage) (ask : List LlmMessage → ℕ → Attempt R) where
      -- The rounds that are left, from the number of the next attempt.
      unfoldable pub attempts_from : ℕ → ℕ → Request → Interpretation R × Request
      unfolding run_attempt exhausted or_continue messages_of
      attempts_from zero attempt s = exhausted s
      attempts_from (suc left) attempt s =
          or_continue (run_attempt attempt (ask (messages_of base attempt) attempt) s)
            (attempts_from left (suc attempt))

      unfoldable pub interpret : Interpreter → Interpretation R × Interpreter
      unfolding attempts_from begin_request
      interpret i =
          let (o, s) = attempts_from policy.max_attempts 1 (begin_request i) in (o, s.interpreter)
