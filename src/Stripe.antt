-- ===== src/Stripe.antt =====
-- src/image_process.h: a horizontal run of lit pixels, as the drivers hand it to the image processing.
use linux_track.Prelude.{ℕ}

-- `stripe_t`; the fields are `unsigned int`.
pub record Stripe : Type 0 where
  pub vline : ℕ
  pub hstart : ℕ
  pub hstop : ℕ
  pub sum_x : ℕ
  pub sum : ℕ
  pub points : ℕ
