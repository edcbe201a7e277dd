-- ===== src/Adapter/Retry.antt =====
-- services/adapter-runtime/src/retry/adapter-retry-policy.js. An override gives each field or leaves it
-- out; the jitter, a random number below 1000, is an argument. Delays and attempts are natural numbers.
use udyog_setu.Common.{
  ℕ, String, Option, none, some, Bool, true, false, List, [], ◌∷◌, ◌+◌, ◌*◌, ◌^◌, min, includes,
  if◌then◌else◌,
}

pub record RetryPolicy : Type 0 where
  pub max_attempts : ℕ
  pub base_delay_ms : ℕ
  pub max_delay_ms : ℕ
  pub backoff_multiplier : ℕ
  pub jitter_enabled : Bool
  pub retryable_error_codes : List String
  pub non_retryable_error_codes : List String
  pub retryable_http_statuses : List ℕ
  pub non_retryable_http_statuses : List ℕ

pub record Override : Type 0 where
  pub max_attempts : Option ℕ
  pub base_delay_ms : Option ℕ
  pub max_delay_ms : Option ℕ
  pub backoff_multiplier : Option ℕ
  pub jitter_enabled : Option Bool
  pub retryable_error_codes : Option (List String)
  pub non_retryable_error_codes : Option (List String)
  pub retryable_http_statuses : Option (List ℕ)
  pub non_retryable_http_statuses : Option (List ℕ)

abbrev pub default_retry_policy : RetryPolicy
default_retry_policy = record {
  max_attempts = 5;
  base_delay_ms = 5000;
  max_delay_ms = 300000;
  backoff_multiplier = 2;
  jitter_enabled = true;
  retryable_error_codes =
      "DEPARTMENT_TIMEOUT" ∷ "ADAPTER_UNAVAILABLE" ∷ "ADAPTER_RATE_LIMITED" ∷ [];
  non_retryable_error_codes =
      "ADAPTER_BAD_REQUEST" ∷ "ADAPTER_AUTHENTICATION_ERROR" ∷ "ADAPTER_AUTHORISATION_ERROR" ∷ [];
  retryable_http_statuses = 408 ∷ 429 ∷ 500 ∷ 502 ∷ 503 ∷ 504 ∷ [];
  non_retryable_http_statuses = 400 ∷ 401 ∷ 403 ∷ 404 ∷ 409 ∷ 422 ∷ [];
}

abbrev pub or_default {ℓ} : {A : Type ℓ} → Option A → A → A
or_default (some x) d = x
or_default none d = d

unfoldable pub get_retry_policy : Option Override → RetryPolicy
get_retry_policy none = default_retry_policy
get_retry_policy (some o) = record {
  max_attempts = or_default o.max_attempts default_retry_policy.max_attempts;
  base_delay_ms = or_default o.base_delay_ms default_retry_policy.base_delay_ms;
  max_delay_ms = or_default o.max_delay_ms default_retry_policy.max_delay_ms;
  backoff_multiplier = or_default o.backoff_multiplier default_retry_policy.backoff_multiplier;
  jitter_enabled = or_default o.jitter_enabled default_retry_policy.jitter_enabled;
  retryable_error_codes =
      or_default o.retryable_error_codes default_retry_policy.retryable_error_codes;
  non_retryable_error_codes =
      or_default o.non_retryable_error_codes default_retry_policy.non_retryable_error_codes;
  retryable_http_statuses =
      or_default o.retryable_http_statuses default_retry_policy.retryable_http_statuses;
  non_retryable_http_statuses =
      or_default o.non_retryable_http_statuses default_retry_policy.non_retryable_http_statuses;
}

-- An error of the adapter with its code and its own mark, or any other error.
pub data Failure : Type 0 where
  adapter_error : (code : String) (retryable : Bool) → Failure
  other_error : Failure

unfoldable pub should_retry_adapter_error : Failure → Option Override → Bool
should_retry_adapter_error (adapter_error code retryable) override =
    let policy = get_retry_policy override in
    if includes policy.non_retryable_error_codes code
    then false
    else if includes policy.retryable_error_codes code
    then true
    else retryable
should_retry_adapter_error other_error override = false

unfoldable pub calculate_adapter_retry_delay : ℕ → RetryPolicy → ℕ → ℕ
calculate_adapter_retry_delay attempt policy random =
    let jitter = if policy.jitter_enabled then random else 0 in
    min (policy.base_delay_ms * policy.backoff_multiplier ^ attempt + jitter) policy.max_delay_ms

pub data Classification : Type 0 where
  retryable non_retryable : Classification

pub record Decision : Type 0 where
  pub retry : Bool
  pub classification : Classification
  pub delay_ms : ℕ

unfoldable pub classify_retry_decision : Failure → Option ℕ → Option Override → ℕ → Decision
classify_retry_decision error attempt override random =
    let retry = should_retry_adapter_error error override in
    record {
      retry = retry;
      classification = if retry then retryable else non_retryable;
      delay_ms =
          if retry
          then calculate_adapter_retry_delay (or_default attempt 0) (get_retry_policy override)
              random
          else 0;
    }
