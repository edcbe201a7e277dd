-- ===== src/Adapter/DelayLaws.antt =====
-- What the retry policy of the adapters promises.
use udyog_setu.Common.{
  ℕ, Option, String, Bool, true, false, ◌≡◌, ◌≤◌, refl, inl, inr, arith, Bool-cases, includes,
}
use udyog_setu.Adapter.Retry.{
  RetryPolicy, Override, Failure, adapter_error, get_retry_policy, should_retry_adapter_error,
  calculate_adapter_retry_delay, classify_retry_decision,
}

delay_bounded :
    (attempt : ℕ) (p : RetryPolicy) (random : ℕ)
    → calculate_adapter_retry_delay attempt p random ≤ p.max_delay_ms
unfolding calculate_adapter_retry_delay
delay_bounded attempt p random = omega arith

-- A decision never asks for a longer delay than the policy allows, and for none where it does not retry.
pub decision_delay_bounded :
    (e : Failure) (attempt : Option ℕ) (override : Option Override) (random : ℕ)
    → ((classify_retry_decision e attempt override random).delay_ms
        ≤ (get_retry_policy override).max_delay_ms)
      × ((classify_retry_decision e attempt override random).retry ≡ false
          → (classify_retry_decision e attempt override random).delay_ms ≡ 0)
unfolding classify_retry_decision
decision_delay_bounded e attempt override random =
    elim (Bool-cases (should_retry_adapter_error e override)) [
      | inl retried ↦ rw retried (delay_bounded _ _ _, λ h. ground arith)
      | inr given_up ↦ rw given_up (omega arith, λ h. refl)
    ]

-- A code that the policy lists as not retryable is never retried, whatever its error says and though the
-- other list names it too.
pub listed_code_is_not_retried :
    (code : String) (mark : Bool) (override : Option Override)
    → includes (get_retry_policy override).non_retryable_error_codes code ≡ true
    → should_retry_adapter_error (adapter_error code mark) override ≡ false
unfolding should_retry_adapter_error
listed_code_is_not_retried code mark override h = rw h refl
