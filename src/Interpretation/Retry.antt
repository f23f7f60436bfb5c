-- ===== src/Interpretation/Retry.antt =====
-- The exceptions of the language model clients, their classes, and the retry policy
-- (pke/src/pke/llm/errors.py, pke/src/pke/interpretation/retry.py). The delay between attempts, a
-- float, is left out. `lower` is `str.lower`.
use jamesbrain.Common.{
  ℕ, zero, suc, Text, Bool, true, false, not, ◌||◌, Option, none, some, List, [], ◌∷◌,
  if◌then◌else◌, ◌==◌, leb,
}
use jamesbrain.Interpretation.Messages.{
  Message, codes, starts_with, contains, contains_any, starts_with_any,
}

-- `LlmError` and its subclasses; of a provider error, whether it is marked as retryable.
pub data LlmError : Type 0 where
  llm_error configuration authentication timeout rate_limit : Message → LlmError
  provider_error : Message → Bool → LlmError
  invalid_response schema_validation : Message → LlmError

-- The cause of an `InterpretationError`, where one is set.
pub data Cause : Type 0 where
  no_cause other_cause : Cause
  llm_cause : LlmError → Cause

-- An exception that the policy is asked about.
pub data Failure : Type 0 where
  interpretation_error : Message → Cause → Failure
  llm_failure : LlmError → Failure
  other_failure : Failure

pub data FailureClass : Type 0 where
  timeout temporary_network http_5xx rate_limited empty_response invalid_json : FailureClass
  schema_invalid truncated auth config permanent_provider : FailureClass
  semantic_non_retryable client_input unknown : FailureClass

pub data ℤ : Type 0 where
  pos negsuc : ℕ → ℤ

pub record RetryPolicy : Type 0 where
  pub max_attempts : ℕ
  pub rate_limit_policy : Text

-- `RATE_LIMIT_POLICY`
abbrev pub retry_once_bounded : Text
retry_once_bounded = 1

-- `MAX_ATTEMPTS`
abbrev pub max_attempts_default : ℤ
max_attempts_default = ℤ.pos 2

-- `max(1, min(2, n))`
unfoldable pub clamp_attempts : ℤ → ℕ
clamp_attempts (ℤ.negsuc n) = 1
clamp_attempts (ℤ.pos zero) = 1
clamp_attempts (ℤ.pos (suc zero)) = 1
clamp_attempts (ℤ.pos (suc (suc n))) = 2

-- `RetryPolicy(...)`, with its `__post_init__`.
unfoldable pub retry_policy : ℤ → Text → RetryPolicy
unfolding clamp_attempts
retry_policy n limit = record { max_attempts = clamp_attempts n; rate_limit_policy = limit }

-- `from_env`, of what `int` makes of the variable: none where it raises.
unfoldable pub from_env : Option ℤ → RetryPolicy
unfolding retry_policy
from_env none = retry_policy max_attempts_default retry_once_bounded
from_env (some n) = retry_policy n retry_once_bounded

-- `_SEMANTIC_PREFIXES`
abbrev semantic_prefixes : List Message
semantic_prefixes =
    codes "proposal_semantics:" ∷ codes "semantic_resolution:" ∷ codes "acceptance_guard:" ∷ []

-- An `LlmError` that is not one of authentication or configuration.
abbrev is_other_llm : LlmError → Bool
is_other_llm (LlmError.authentication _) = false
is_other_llm (LlmError.configuration _) = false
is_other_llm _ = true

-- The root of the exception is such an error.
unfoldable pub is_llm_root : Failure → Bool
is_llm_root (Failure.interpretation_error text (Cause.llm_cause e)) = is_other_llm e
is_llm_root (Failure.llm_failure e) = is_other_llm e
is_llm_root _ = false

-- `is_retryable`, by the class, once an attempt is left.
unfoldable pub retries_class : RetryPolicy → FailureClass → Bool → Bool
retries_class p FailureClass.auth root = false
retries_class p FailureClass.config root = false
retries_class p FailureClass.permanent_provider root = false
retries_class p FailureClass.semantic_non_retryable root = false
retries_class p FailureClass.client_input root = false
retries_class p FailureClass.rate_limited root = p.rate_limit_policy == retry_once_bounded
retries_class p FailureClass.unknown root = root
retries_class p _ root = true

module _ (lower : Message → Message) where
  -- The part of `classify` on a root of the client's errors; none falls through.
  unfoldable pub classify_llm : LlmError → Option FailureClass
  unfolding contains
  classify_llm (LlmError.llm_error text) = none
  classify_llm (LlmError.timeout text) = some FailureClass.timeout
  classify_llm (LlmError.rate_limit text) = some FailureClass.rate_limited
  classify_llm (LlmError.authentication text) = some FailureClass.auth
  classify_llm (LlmError.configuration text) = some FailureClass.config
  classify_llm (LlmError.schema_validation text) = some FailureClass.schema_invalid
  classify_llm (LlmError.invalid_response text) =
      if contains (codes "vazio") (lower text) || contains (codes "empty") (lower text)
      then some FailureClass.empty_response
      else if contains (codes "truncat") (lower text) || contains (codes "length") (lower text)
      then some FailureClass.truncated
      else some FailureClass.invalid_json
  classify_llm (LlmError.provider_error text retryable) =
      if retryable
      then (if contains_any (codes "rede" ∷ codes "network" ∷ codes "connection" ∷ []) (lower text)
          then some FailureClass.temporary_network
          else some FailureClass.http_5xx)
      else some FailureClass.permanent_provider

  -- The part of `classify` on a wrapped provider message.
  unfoldable pub classify_provider_text : Message → FailureClass
  unfolding contains contains_any
  classify_provider_text text =
      if contains (codes "timeout") text
      then FailureClass.timeout
      else if contains_any (codes "401" ∷ codes "403" ∷ codes "autent" ∷ []) text
      then FailureClass.auth
      else if contains_any (codes "500" ∷ codes "502" ∷ codes "503" ∷ codes "504" ∷ []) text
      then FailureClass.http_5xx
      else if contains_any (codes "vazio" ∷ codes "empty" ∷ []) text
      then FailureClass.empty_response
      else if contains (codes "json") text
      then FailureClass.invalid_json
      else FailureClass.temporary_network

  -- The part of `classify` on the message of an `InterpretationError`.
  unfoldable pub classify_text : Message → FailureClass
  unfolding starts_with_any classify_provider_text
  classify_text text =
      if starts_with_any semantic_prefixes text || starts_with_any semantic_prefixes (lower text)
      then FailureClass.semantic_non_retryable
      else if contains (codes "proposal_transport:schema") (lower text)
          || contains (codes "schema") (lower text)
      then FailureClass.schema_invalid
      else if starts_with (codes "normalization:") (lower text)
          || contains_any (codes "json_invalid" ∷ codes "malformed" ∷ []) (lower text)
      then FailureClass.invalid_json
      else if starts_with (codes "provider:") (lower text)
      then classify_provider_text (lower text)
      else FailureClass.unknown

  abbrev or_class : Option FailureClass → FailureClass → FailureClass
  or_class none c = c
  or_class (some c) _ = c

  unfoldable pub classify : Failure → FailureClass
  unfolding classify_llm classify_text
  classify (Failure.interpretation_error text Cause.no_cause) = classify_text text
  classify (Failure.interpretation_error text Cause.other_cause) = classify_text text
  classify (Failure.interpretation_error text (Cause.llm_cause e)) =
      or_class (classify_llm e) (classify_text text)
  classify (Failure.llm_failure e) = or_class (classify_llm e) FailureClass.unknown
  classify Failure.other_failure = FailureClass.unknown

  unfoldable pub is_retryable : RetryPolicy → Failure → ℕ → Bool
  unfolding classify is_llm_root retries_class
  is_retryable p e attempt =
      if leb p.max_attempts attempt then false else retries_class p (classify e) (is_llm_root e)

  abbrev is_transient_class : Option FailureClass → Bool
  is_transient_class (some FailureClass.timeout) = true
  is_transient_class (some FailureClass.temporary_network) = true
  is_transient_class (some FailureClass.http_5xx) = true
  is_transient_class (some FailureClass.rate_limited) = true
  is_transient_class (some FailureClass.empty_response) = true
  is_transient_class (some FailureClass.invalid_json) = true
  is_transient_class (some FailureClass.schema_invalid) = true
  is_transient_class (some FailureClass.truncated) = true
  is_transient_class _ = false

  abbrev client_codes : List Message
  client_codes =
      codes "provider 400"
      ∷ codes "provider 401"
      ∷ codes "provider 403"
      ∷ codes "provider 404"
      ∷ codes "provider 409"
      ∷ codes "provider 422"
      ∷ []

  unfoldable pub is_transient_provider_failure : Option LlmError → Bool
  unfolding classify_llm contains_any
  is_transient_provider_failure none = false
  is_transient_provider_failure (some (LlmError.authentication _)) = false
  is_transient_provider_failure (some (LlmError.configuration _)) = false
  is_transient_provider_failure (some (LlmError.provider_error text _)) =
      not (contains_any client_codes text)
  is_transient_provider_failure (some e) = is_transient_class (classify_llm e)
