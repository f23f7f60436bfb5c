-- ===== src/Interpretation/Interpreter/Counts.antt =====
-- The counters of `InterpreterRetryMetrics` (pke/src/pke/interpretation/retry.py) over the requests of
-- pke/src/pke/interpretation/deepseek_interpreter.py.
use jamesbrain.Common.{
  ℕ, zero, suc, ◌+◌, Text, ◌≡◌, ◌⊎◌, inl, inr, refl, ap, ◌∙◌, Option, none, some, List, if-cases,
  arith,
}
use jamesbrain.Interpretation.Interpreter.Outcome.{refused, settled, run_attempt-settled}
use jamesbrain.Interpretation.Messages.{Message}
use jamesbrain.Interpretation.Retry.{
  FailureClass, RetryPolicy, ℤ, clamp_attempts, retry_policy, is_retryable,
}
use jamesbrain.Interpretation.Interpreter.{
  InterpreterRetryMetrics, LlmResponse, Raised, Attempt, Interpreter, Request, Interpretation,
  count_attempt, note_response, note_failure_class, mark_exhausted,
}
use jamesbrain.Interpretation.Interpreter.Loop.{
  LlmMessage, messages_of, failure_of, class_of, note_raised, retried, gave_up, accept_attempt,
  handle, run_attempt, or_continue, attempts_from, begin_request, interpret,
}

-- How requests ended and how often they were retried.
record Tally : Type 0 where
  requests : ℕ
  triggered : ℕ
  succeeded : ℕ
  exhausted : ℕ
  failed : ℕ
  first : ℕ
  recovered : ℕ

abbrev tally_of : InterpreterRetryMetrics → Tally
tally_of m = record {
  requests = m.interpreter_requests;
  triggered = m.retry_triggered;
  succeeded = m.retry_succeeded;
  exhausted = m.retry_exhausted;
  failed = m.non_retryable_failures;
  first = m.first_attempt_success;
  recovered = m.recovered_requests;
}

abbrev tally : Request → Tally
tally s = tally_of s.interpreter.retry_metrics

abbrev accept_first : Tally → Tally
accept_first t = record t { first = t.first + 1 }

abbrev fail_first : Tally → Tally
fail_first t = record t { failed = t.failed + 1 }

abbrev trigger : Tally → Tally
trigger t = record t { triggered = t.triggered + 1 }

abbrev accept_second : Tally → Tally
accept_second t = record t { succeeded = t.succeeded + 1; recovered = t.recovered + 1 }

abbrev fail_second : Tally → Tally
fail_second t = record t { exhausted = t.exhausted + 1; failed = t.failed + 1 }

note_failure_class-tally :
    (c : FailureClass) (m : InterpreterRetryMetrics)
    → tally_of (note_failure_class c m) ≡ tally_of m
unfolding note_failure_class
note_failure_class-tally FailureClass.timeout m = refl
note_failure_class-tally FailureClass.temporary_network m = refl
note_failure_class-tally FailureClass.http_5xx m = refl
note_failure_class-tally FailureClass.rate_limited m = refl
note_failure_class-tally FailureClass.empty_response m = refl
note_failure_class-tally FailureClass.invalid_json m = refl
note_failure_class-tally FailureClass.schema_invalid m = refl
note_failure_class-tally FailureClass.truncated m = refl
note_failure_class-tally FailureClass.auth m = refl
note_failure_class-tally FailureClass.config m = refl
note_failure_class-tally FailureClass.permanent_provider m = refl
note_failure_class-tally FailureClass.semantic_non_retryable m = refl
note_failure_class-tally FailureClass.client_input m = refl
note_failure_class-tally FailureClass.unknown m = refl

note_response-tally : (r : LlmResponse) (s : Request) → tally (note_response r s) ≡ tally s
unfolding note_response count_attempt
note_response-tally r s = refl

module _ (lower : Message → Message) where
  note_raised-tally : (x : Raised) (s : Request) → tally (note_raised lower x s) ≡ tally s
  unfolding note_raised count_attempt
  note_raised-tally (Raised.client e) s =
      note_failure_class-tally (class_of lower (Raised.client e))
        (count_attempt s).interpreter.retry_metrics
  note_raised-tally (Raised.json_decode text) s = refl
  note_raised-tally (Raised.validation summary wire) s = refl
  note_raised-tally (Raised.interpretation text cause) s =
      note_failure_class-tally _ s.interpreter.retry_metrics

  module _ {R : Type 0} (policy : RetryPolicy) where
    -- How a round of the first attempt ends, in what it counts.
    abbrev First : Tally → Option (Interpretation R) × Request → Type 0
    First t z =
        ((i : Interpretation R) × (z.0 ≡ some i)
          × ((i ≡ Interpretation.propagated)
              ⊎ ((tally z.1 ≡ accept_first t) ⊎ (tally z.1 ≡ fail_first t))))
        ⊎ ((z.0 ≡ none) × (tally z.1 ≡ trigger t))

    -- How a round of the second attempt ends, in what it counts.
    abbrev Second : Tally → Option (Interpretation R) × Request → Type 0
    Second t z =
        (i : Interpretation R) × (z.0 ≡ some i)
        × ((i ≡ Interpretation.propagated)
            ⊎ ((tally z.1 ≡ accept_second t) ⊎ (tally z.1 ≡ fail_second t)))

    handle-First :
        (id : Option Text) (x : Raised) (s : Request)
        → First (tally s) (handle lower policy 1 id x s)
    unfolding handle retried gave_up mark_exhausted
    handle-First id x s =
        if-cases (First (tally s)) (is_retryable lower policy (failure_of x) 1) _ _
          (λ e. inr (refl, ap trigger (note_raised-tally x s)))
          (λ e. inl (
            Interpretation.raised (failure_of x),
            refl,
            inr (inr (ap fail_first (note_raised-tally x s))),
          ))

    handle-Second :
        (id : Option Text) (x : Raised) (s : Request)
        → policy.max_attempts ≡ 2
        → Second (tally s) (handle lower policy 2 id x s)
    unfolding handle retried gave_up mark_exhausted is_retryable
    handle-Second id x s h = rw (refused lower policy 2 x (inl (rw h refl))) (
      Interpretation.raised (failure_of x),
      refl,
      inr (inr (ap fail_second (note_raised-tally x s))),
    )

    run_attempt-First :
        (a : Attempt R) (s : Request) → First (tally s) (run_attempt lower policy 1 a s)
    unfolding run_attempt accept_attempt note_response count_attempt
    run_attempt-First (Attempt.no_response x) s = handle-First none x s
    run_attempt-First (Attempt.unparsed r x) s =
        handle-First r.metadata.request_id x (note_response r s)
    run_attempt-First (Attempt.parsed r v) s = inl (Interpretation.accepted v, refl, inr (inl refl))
    run_attempt-First (Attempt.uncaught none) s = inl (Interpretation.propagated, refl, inl refl)
    run_attempt-First (Attempt.uncaught (some r)) s =
        inl (Interpretation.propagated, refl, inl refl)

    run_attempt-Second :
        (a : Attempt R) (s : Request)
        → policy.max_attempts ≡ 2
        → Second (tally s) (run_attempt lower policy 2 a s)
    unfolding run_attempt accept_attempt note_response count_attempt
    run_attempt-Second (Attempt.no_response x) s h = handle-Second none x s h
    run_attempt-Second (Attempt.unparsed r x) s h =
        handle-Second r.metadata.request_id x (note_response r s) h
    run_attempt-Second (Attempt.parsed r v) s h = (Interpretation.accepted v, refl, inr (inl refl))
    run_attempt-Second (Attempt.uncaught none) s h = (Interpretation.propagated, refl, inl refl)
    run_attempt-Second (Attempt.uncaught (some r)) s h = (Interpretation.propagated, refl, inl refl)

-- The counters of requests add up: each request was answered at once, recovered or failed; and each
-- retry recovered its request or used up its attempts.
abbrev pub IsBalanced : InterpreterRetryMetrics → Type 0
IsBalanced m =
    (m.interpreter_requests
      ≡ m.first_attempt_success + m.recovered_requests + m.non_retryable_failures)
    × (m.recovered_requests ≡ m.retry_succeeded)
    × (m.retry_triggered ≡ m.retry_succeeded + m.retry_exhausted)

-- The same of a tally.
abbrev Sums : Tally → Type 0
Sums t =
    (t.requests ≡ t.first + t.recovered + t.failed)
    × (t.recovered ≡ t.succeeded)
    × (t.triggered ≡ t.succeeded + t.exhausted)

-- A tally with one request more that has not ended.
abbrev Open : Tally → Type 0
Open t =
    (t.requests ≡ t.first + t.recovered + t.failed + 1)
    × (t.recovered ≡ t.succeeded)
    × (t.triggered ≡ t.succeeded + t.exhausted)

first-Sums : (t u : Tally) → Open t → (u ≡ accept_first t) ⊎ (u ≡ fail_first t) → Sums u
first-Sums t u (a, b, c) (inl e) = rw e (omega (arith, a), b, c)
first-Sums t u (a, b, c) (inr e) = rw e (omega (arith, a), b, c)

second-Sums :
    (t u : Tally)
    → Open t
    → (u ≡ accept_second (trigger t)) ⊎ (u ≡ fail_second (trigger t))
    → Sums u
second-Sums t u (a, b, c) (inl e) = rw e (omega (arith, a), omega (arith, b), omega (arith, c))
second-Sums t u (a, b, c) (inr e) = rw e (omega (arith, a), b, omega (arith, c))

begin_request-Open : (i : Interpreter) → IsBalanced i.retry_metrics → Open (tally (begin_request i))
unfolding begin_request
begin_request-Open i (a, b, c) = (omega (arith, a), b, c)

module _ (lower : Message → Message) {R : Type 0} (base : List LlmMessage)
    (ask : List LlmMessage → ℕ → Attempt R) where
  -- The request ended in an exception that was not caught, or its counters add up.
  abbrev Done : Interpretation R × Request → Type 0
  Done w = (w.0 ≡ Interpretation.propagated) ⊎ Sums (tally w.1)

  first-Done :
      (t : Tally) (i j : Interpretation R) (s : Request)
      → Open t
      → ◌≡◌ {A = Option (Interpretation R)} (some j) (some i)
      → (i ≡ Interpretation.propagated) ⊎ ((tally s ≡ accept_first t) ⊎ (tally s ≡ fail_first t))
      → Done (j, s)
  first-Done t i j s o e (inl p) = inl (cc)
  first-Done t i j s o e (inr c) = inr (first-Sums t (tally s) o c)

  module _ (policy : RetryPolicy) where
    or_continue-tally :
        (t : Tally) (z : Option (Interpretation R) × Request)
        (rest : Request → Interpretation R × Request)
        → Open t
        → First lower policy t z
        → ((s : Request) → tally s ≡ trigger t → Done (rest s))
        → Done (or_continue lower policy z rest)
    unfolding or_continue
    or_continue-tally t (some j, s) rest o (inl (i, e, c)) go = first-Done t i j s o e c
    or_continue-tally t (some j, s) rest o (inr (e, c)) go = cc
    or_continue-tally t (none, s) rest o (inl (i, e, c)) go = cc
    or_continue-tally t (none, s) rest o (inr (e, c)) go = go s c

    or_continue-First :
        (t : Tally) (z : Option (Interpretation R) × Request)
        (rest : Request → Interpretation R × Request) (i : Interpretation R)
        → Open t
        → First lower policy t z
        → z.0 ≡ some i
        → Done (or_continue lower policy z rest)
    unfolding or_continue
    or_continue-First t (some j, s) rest k o (inl (i, e, c)) h = first-Done t i j s o e c
    or_continue-First t (some j, s) rest k o (inr (e, c)) h = cc
    or_continue-First t (none, s) rest k o f h = cc

    or_continue-Second :
        (t u : Tally) (z : Option (Interpretation R) × Request)
        (rest : Request → Interpretation R × Request)
        → Open t
        → u ≡ trigger t
        → Second lower policy u z
        → Done (or_continue lower policy z rest)
    unfolding or_continue
    or_continue-Second t u (none, s) rest o v (i, e, c) = cc
    or_continue-Second t u (some j, s) rest o v (i, e, inl p) = inl (cc)
    or_continue-Second t u (some j, s) rest o v (i, e, inr (inl c)) =
        inr (second-Sums t (tally s) o (inl (c ∙ ap accept_second v)))
    or_continue-Second t u (some j, s) rest o v (i, e, inr (inr c)) =
        inr (second-Sums t (tally s) o (inr (c ∙ ap fail_second v)))

    two-Sums :
        (s : Request)
        → policy.max_attempts ≡ 2
        → Open (tally s)
        → Done (attempts_from lower policy base ask 2 1 s)
    unfolding attempts_from
    two-Sums s h o = or_continue-tally (tally s) _ _ o (run_attempt-First lower policy _ s) (λ u e.
        or_continue-Second (tally s) (tally u)
          (run_attempt lower policy 2 (ask (messages_of base 2) 2) u)
          (attempts_from lower policy base ask 0 3) o e
          (run_attempt-Second lower policy (ask (messages_of base 2) 2) u h))

    one-Sums :
        (s : Request)
        → policy.max_attempts ≡ 1
        → Open (tally s)
        → Done (attempts_from lower policy base ask 1 1 s)
    unfolding attempts_from
    one-Sums s h o =
        or_continue-First (tally s) (run_attempt lower policy 1 (ask (messages_of base 1) 1) s)
          (attempts_from lower policy base ask 0 2) (settled (ask (messages_of base 1) 1)) o
          (run_attempt-First lower policy (ask (messages_of base 1) 1) s)
          (run_attempt-settled lower policy 1 (ask (messages_of base 1) 1) s (inl (rw h refl)))

  -- A request keeps balanced counters balanced, whether it is answered or fails, unless it ends in an
  -- exception that no handler of `interpret` is for.
  pub interpret-IsBalanced :
      (n : ℤ) (limit : Text) (i : Interpreter)
      → IsBalanced i.retry_metrics
      → ((interpret lower (retry_policy n limit) base ask i).0 ≡ Interpretation.propagated)
        ⊎ IsBalanced (interpret lower (retry_policy n limit) base ask i).1.retry_metrics
  unfolding interpret retry_policy clamp_attempts begin_request
  interpret-IsBalanced (ℤ.negsuc n) limit i h =
      one-Sums (retry_policy (ℤ.negsuc n) limit) (begin_request i) refl (begin_request-Open i h)
  interpret-IsBalanced (ℤ.pos zero) limit i h =
      one-Sums (retry_policy (ℤ.pos zero) limit) (begin_request i) refl (begin_request-Open i h)
  interpret-IsBalanced (ℤ.pos (suc zero)) limit i h =
      one-Sums (retry_policy (ℤ.pos (suc zero)) limit) (begin_request i) refl
        (begin_request-Open i h)
  interpret-IsBalanced (ℤ.pos (suc (suc n))) limit i h =
      two-Sums (retry_policy (ℤ.pos (suc (suc n))) limit) (begin_request i) refl
        (begin_request-Open i h)
