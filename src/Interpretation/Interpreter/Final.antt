-- ===== src/Interpretation/Interpreter/Final.antt =====
-- The failures that `interpret` of pke/src/pke/interpretation/deepseek_interpreter.py does not retry.
use jamesbrain.Common.{
  ℕ, Text, Bool, true, false, ◌&&◌, ◌≡◌, refl, ap, ◌∙◌, Option, none, some, List, if◌then◌else◌,
  leb,
}
use jamesbrain.Interpretation.Messages.{Message}
use jamesbrain.Interpretation.Retry.{
  LlmError, classify_llm, RetryPolicy, ℤ, retry_policy, classify, retries_class,
}
use jamesbrain.Interpretation.Interpreter.{Raised, Attempt, Interpreter, Interpretation}
use jamesbrain.Interpretation.Interpreter.Loop.{LlmMessage, messages_of, failure_of, interpret}
use jamesbrain.Interpretation.Interpreter.Outcome.{settled, retries, wants_retry, interpret-outcome}

-- A failure that no second attempt mends.
abbrev pub IsFinal : LlmError → Type 0
IsFinal (LlmError.authentication text) = Unit
IsFinal (LlmError.configuration text) = Unit
IsFinal (LlmError.provider_error text false) = Unit
IsFinal _ = ⊥

-- What the attempt raises.
abbrev pub raised_by : {R : Type 0} → Attempt R → Option Raised
raised_by (Attempt.no_response x) = some x
raised_by (Attempt.unparsed r x) = some x
raised_by (Attempt.parsed r v) = none
raised_by (Attempt.uncaught r) = none

final-retries :
    (lower : Message → Message) (policy : RetryPolicy) (e : LlmError)
    → IsFinal e
    → retries lower policy (Raised.client e) ≡ false
unfolding failure_of classify classify_llm retries_class
final-retries lower policy (LlmError.authentication text) h = refl
final-retries lower policy (LlmError.configuration text) h = refl
final-retries lower policy (LlmError.provider_error text false) h = refl
final-retries lower policy (LlmError.provider_error text true) h = elim h [ ]
final-retries lower policy (LlmError.llm_error text) h = elim h [ ]
final-retries lower policy (LlmError.timeout text) h = elim h [ ]
final-retries lower policy (LlmError.rate_limit text) h = elim h [ ]
final-retries lower policy (LlmError.invalid_response text) h = elim h [ ]
final-retries lower policy (LlmError.schema_validation text) h = elim h [ ]

module _ (lower : Message → Message) {R : Type 0} (base : List LlmMessage)
    (ask : List LlmMessage → ℕ → Attempt R) where
  -- A request whose first attempt fails for the credentials, the configuration or for good is not
  -- tried again, however many attempts the policy is made with: that failure is raised.
  pub interpret-final :
      (n : ℤ) (limit : Text) (i : Interpreter) (e : LlmError)
      → IsFinal e
      → raised_by (ask (messages_of base 1) 1) ≡ some (Raised.client e)
      → (interpret lower (retry_policy n limit) base ask i).0
        ≡ Interpretation.raised (failure_of (Raised.client e))
  interpret-final n limit i e f h =
      interpret-outcome lower base ask n limit i
      ∙ final (ask (messages_of base 1) 1) h (leb 2 (retry_policy n limit).max_attempts)
    where
      no_retry : (x : Raised) → x ≡ Raised.client e → retries lower (retry_policy n limit) x ≡ false
      no_retry x same = rw same (final-retries lower (retry_policy n limit) e f)

      skip :
          (x : Raised) (two : Bool)
          → x ≡ Raised.client e
          → (if two && retries lower (retry_policy n limit) x
              then settled (ask (messages_of base 2) 2)
              else Interpretation.raised (failure_of x))
            ≡ Interpretation.raised (failure_of (Raised.client e))
      skip x true same = rw (no_retry x same) (ap (λ y. Interpretation.raised (failure_of y)) same)
      skip x false same = ap (λ y. Interpretation.raised (failure_of y)) same

      final :
          (a : Attempt R)
          → raised_by a ≡ some (Raised.client e)
          → (two : Bool)
          → (if two && wants_retry lower (retry_policy n limit) a
              then settled (ask (messages_of base 2) 2)
              else settled a)
            ≡ Interpretation.raised (failure_of (Raised.client e))
      final (Attempt.no_response x) g two = skip x two (cc)
      final (Attempt.unparsed r x) g two = skip x two (cc)
      final (Attempt.parsed r v) g two = cc
      final (Attempt.uncaught r) g two = cc
