-- ===== src/Interpretation/Interpreter/Outcome.antt =====
-- What `interpret` of pke/src/pke/interpretation/deepseek_interpreter.py returns, read off the
-- attempts without its loop.
use jamesbrain.Common.{
  ℕ, zero, suc, Text, Bool, true, false, ◌&&◌, ◌≡◌, ◌⊎◌, inl, inr, refl, ap, ◌∙◌, Option, none,
  some, List, if◌then◌else◌, if-cases, Bool-cases, leb,
}
use jamesbrain.Interpretation.Messages.{Message}
use jamesbrain.Interpretation.Retry.{
  RetryPolicy, ℤ, clamp_attempts, retry_policy, classify, is_llm_root, retries_class, is_retryable,
}
use jamesbrain.Interpretation.Interpreter.{
  Raised, Attempt, Interpreter, Request, Interpretation, note_response,
}
use jamesbrain.Interpretation.Interpreter.Loop.{
  LlmMessage, messages_of, failure_of, handle, run_attempt, or_continue, attempts_from, interpret,
}

module _ {R : Type 0} where
  -- The outcome of an attempt that is the last one.
  abbrev pub settled : Attempt R → Interpretation R
  settled (Attempt.no_response x) = Interpretation.raised (failure_of x)
  settled (Attempt.unparsed r x) = Interpretation.raised (failure_of x)
  settled (Attempt.parsed r v) = Interpretation.accepted v
  settled (Attempt.uncaught r) = Interpretation.propagated

module _ (lower : Message → Message) (policy : RetryPolicy) where
  -- The failure of the attempt is of a class that is retried.
  abbrev pub retries : Raised → Bool
  retries x = retries_class policy (classify lower (failure_of x)) (is_llm_root (failure_of x))

  pub refused :
      (attempt : ℕ) (x : Raised)
      → (leb policy.max_attempts attempt ≡ true) ⊎ (retries x ≡ false)
      → is_retryable lower policy (failure_of x) attempt ≡ false
  unfolding is_retryable
  refused attempt x (inl h) = rw h refl
  refused attempt x (inr h) =
      if-cases (λ b. b ≡ false) (leb policy.max_attempts attempt) _ _ (λ e. refl) (λ e. h)

  module _ {R : Type 0} where
    abbrev pub wants_retry : Attempt R → Bool
    wants_retry (Attempt.no_response x) = retries x
    wants_retry (Attempt.unparsed r x) = retries x
    wants_retry (Attempt.parsed r v) = false
    wants_retry (Attempt.uncaught r) = false

    handle-last :
        (attempt : ℕ) (id : Option Text) (x : Raised) (s : Request)
        → is_retryable lower policy (failure_of x) attempt ≡ false
        → (handle lower {R = R} policy attempt id x s).0
          ≡ some (Interpretation.raised (failure_of x))
    unfolding handle
    handle-last attempt id x s h = rw h refl

    handle-again :
        (attempt : ℕ) (id : Option Text) (x : Raised) (s : Request)
        → is_retryable lower policy (failure_of x) attempt ≡ true
        → (handle lower {R = R} policy attempt id x s).0 ≡ none
    unfolding handle
    handle-again attempt id x s h = rw h refl

    -- An attempt that is not retried settles the request.
    pub run_attempt-settled :
        (attempt : ℕ) (a : Attempt R) (s : Request)
        → (leb policy.max_attempts attempt ≡ true) ⊎ (wants_retry a ≡ false)
        → (run_attempt lower policy attempt a s).0 ≡ some (settled a)
    unfolding run_attempt
    run_attempt-settled attempt (Attempt.no_response x) s h =
        handle-last attempt none x s (refused attempt x h)
    run_attempt-settled attempt (Attempt.unparsed r x) s h =
        handle-last attempt _ x (note_response r s) (refused attempt x h)
    run_attempt-settled attempt (Attempt.parsed r v) s h = refl
    run_attempt-settled attempt (Attempt.uncaught none) s h = refl
    run_attempt-settled attempt (Attempt.uncaught (some r)) s h = refl

    run_attempt-again :
        (attempt : ℕ) (a : Attempt R) (s : Request)
        → leb policy.max_attempts attempt ≡ false
        → wants_retry a ≡ true
        → (run_attempt lower policy attempt a s).0 ≡ none
    unfolding run_attempt is_retryable
    run_attempt-again attempt (Attempt.no_response x) s l h =
        handle-again attempt none x s (rw (l, h) refl)
    run_attempt-again attempt (Attempt.unparsed r x) s l h =
        handle-again attempt _ x (note_response r s) (rw (l, h) refl)
    run_attempt-again attempt (Attempt.parsed r v) s l h = cc
    run_attempt-again attempt (Attempt.uncaught r) s l h = cc

    or_continue-stop :
        (z : Option (Interpretation R) × Request) (i : Interpretation R)
        (rest : Request → Interpretation R × Request)
        → z.0 ≡ some i
        → (or_continue lower policy z rest).0 ≡ i
    unfolding or_continue
    or_continue-stop (none, s) i rest h = cc
    or_continue-stop (some j, s) i rest h = cc

    or_continue-go :
        (z : Option (Interpretation R) × Request) (rest : Request → Interpretation R × Request)
        → z.0 ≡ none
        → or_continue lower policy z rest ≡ rest z.1
    unfolding or_continue
    or_continue-go (none, s) rest h = refl
    or_continue-go (some j, s) rest h = cc

    module _ (base : List LlmMessage) (ask : List LlmMessage → ℕ → Attempt R) where
      -- What the request comes to: the first attempt settles it, unless a second one is allowed and
      -- the first failed in a way that is retried; then the second one does, whatever it brings.
      abbrev pub outcome : Interpretation R
      outcome =
          if leb 2 policy.max_attempts && wants_retry (ask (messages_of base 1) 1)
          then settled (ask (messages_of base 2) 2)
          else settled (ask (messages_of base 1) 1)

      one_attempt :
          (s : Request)
          → policy.max_attempts ≡ 1
          → (attempts_from lower policy base ask 1 1 s).0 ≡ outcome
      unfolding attempts_from
      one_attempt s h =
          or_continue-stop (run_attempt lower policy 1 (ask (messages_of base 1) 1) s) _ _
            (run_attempt-settled 1 (ask (messages_of base 1) 1) s (inl (rw h refl)))
          ∙ rw h refl

      two_attempts :
          (s : Request)
          → policy.max_attempts ≡ 2
          → (attempts_from lower policy base ask 2 1 s).0 ≡ outcome
      unfolding attempts_from
      two_attempts s h = elim (Bool-cases (wants_retry (ask (messages_of base 1) 1))) [
        | inr n ↦
            or_continue-stop first _ _
              (run_attempt-settled 1 (ask (messages_of base 1) 1) s (inr n))
            ∙ rw (h, n) refl
        | inl y ↦
            ap (λ z. z.0)
              (or_continue-go first _
                (run_attempt-again 1 (ask (messages_of base 1) 1) s (rw h refl) y))
            ∙ or_continue-stop (run_attempt lower policy 2 (ask (messages_of base 2) 2) first.1) _ _
                (run_attempt-settled 2 (ask (messages_of base 2) 2) first.1 (inl (rw h refl)))
            ∙ rw (h, y) refl
      ]
        where
          first : Option (Interpretation R) × Request
          first = run_attempt lower policy 1 (ask (messages_of base 1) 1) s

module _ (lower : Message → Message) {R : Type 0} (base : List LlmMessage)
    (ask : List LlmMessage → ℕ → Attempt R) where
  pub interpret-outcome :
      (n : ℤ) (limit : Text) (i : Interpreter)
      → (interpret lower (retry_policy n limit) base ask i).0
        ≡ outcome lower (retry_policy n limit) base ask
  unfolding interpret retry_policy clamp_attempts
  interpret-outcome (ℤ.negsuc n) limit i =
      one_attempt lower (retry_policy (ℤ.negsuc n) limit) base ask _ refl
  interpret-outcome (ℤ.pos zero) limit i =
      one_attempt lower (retry_policy (ℤ.pos zero) limit) base ask _ refl
  interpret-outcome (ℤ.pos (suc zero)) limit i =
      one_attempt lower (retry_policy (ℤ.pos (suc zero)) limit) base ask _ refl
  interpret-outcome (ℤ.pos (suc (suc n))) limit i =
      two_attempts lower (retry_policy (ℤ.pos (suc (suc n))) limit) base ask _ refl
