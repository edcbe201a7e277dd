-- ===== src/Outbox/RetryLaws.antt =====
-- The back-off of the publisher.
use native.Mathlib.Omega.{pow_step}
use udyog_setu.Common.{ℕ, suc, zero, ◌≡◌, ◌≤◌, ◌*◌, ◌^◌, ◌-◌, min, arith, refl}
use udyog_setu.Outbox.Publisher.{Settings, retry_delay}

doubled : (b n : ℕ) → b * 2 ^ (suc n) ≡ 2 * (b * 2 ^ n)
doubled b n = rw (pow_step 2 n) (grind arith)

pred : (n : ℕ) → suc n - 1 ≡ n
pred n = omega arith

min-doubled : (x y m : ℕ) → y ≡ 2 * x → (min x m ≤ min y m) × (min y m ≡ min (2 * min x m) m)
min-doubled x y m e = (omega arith, omega arith)

-- The delay of an attempt, the retries before it counted from 0.
delay_after :
    (settings : Settings) (n : ℕ)
    → retry_delay settings (suc n) ≡ min (settings.base_delay * 2 ^ n) settings.max_delay
unfolding retry_delay
delay_after settings n = rw (pred n) refl

delay_first : (settings : Settings) → retry_delay settings 0 ≡ retry_delay settings 1
unfolding retry_delay
delay_first settings = refl

delay_grows :
    (settings : Settings) (n : ℕ)
    → (retry_delay settings (suc n) ≤ retry_delay settings (suc (suc n)))
      × (retry_delay settings (suc (suc n))
          ≡ min (2 * retry_delay settings (suc n)) settings.max_delay)
delay_grows settings n =
    rw (delay_after settings n, delay_after settings (suc n))
      (min-doubled (settings.base_delay * 2 ^ n) (settings.base_delay * 2 ^ (suc n))
        settings.max_delay (doubled settings.base_delay n))

delay_bounded : (settings : Settings) (n : ℕ) → retry_delay settings n ≤ settings.max_delay
unfolding retry_delay
delay_bounded settings n = omega arith

delay_start :
    (settings : Settings) → retry_delay settings 1 ≡ min settings.base_delay settings.max_delay
unfolding retry_delay
delay_start settings = omega arith

-- The delay never exceeds the maximum, never shrinks from one attempt to the next, and starts at the base
-- delay; it doubles until it reaches the maximum.
pub retry_delay_backs_off :
    (settings : Settings) (n : ℕ)
    → (retry_delay settings n ≤ settings.max_delay)
      × (retry_delay settings n ≤ retry_delay settings (suc n))
      × (retry_delay settings 1 ≡ min settings.base_delay settings.max_delay)
      × (retry_delay settings (suc (suc n))
          ≡ min (2 * retry_delay settings (suc n)) settings.max_delay)
retry_delay_backs_off settings zero = (
  delay_bounded settings 0,
  rw (delay_first settings) (omega arith),
  delay_start settings,
  (delay_grows settings 0).1,
)
retry_delay_backs_off settings (suc n) = (
  delay_bounded settings (suc n),
  (delay_grows settings n).0,
  delay_start settings,
  (delay_grows settings (suc n)).1,
)
