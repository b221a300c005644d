-- ===== src/Espn/Backoff/Laws.antt =====
-- The timing that New establishes, and the delays that it leads to.
use native.Mathlib.Nat.{pow-suc}
use go_espn_api.Prelude.{ℕ, zero, suc, ◌-◌, ◌*◌, ◌^◌, ◌≤◌, ◌<◌, ◌≡◌, arith, if◌then◌else◌, ltb}
use go_espn_api.Espn.Backoff.{EspnConfig, Timing, new_timing, backoff_delay}

-- The durations are positive int64s, the backoff range is not empty, and there is an attempt.
pub record IsTiming (c : Timing) : Type 0 where
  pub timeout_pos : 0 < c.timeout
  pub timeout_fits : c.timeout < 2 ^ 63
  pub retries_pos : 1 ≤ c.max_retries
  pub retries_fits : c.max_retries < 2 ^ 63
  pub min_pos : 0 < c.backoff_min
  pub min-le-max : c.backoff_min ≤ c.backoff_max
  pub max_fits : c.backoff_max < 2 ^ 63

-- Whatever integers are configured, also where a product of seconds wraps around, New leaves a
-- positive timeout, at least one attempt, and a range of positive delays.
pub new_timing-IsTiming : (cfg : EspnConfig) → cfg.max_retries < 2 ^ 64 → IsTiming (new_timing cfg)
unfolding new_timing
new_timing-IsTiming cfg h = ground arith

-- Every delay lies between the two bounds, at every attempt: a shift that overflows int64 is caught.
pub backoff_delay_bounds :
    (c : Timing) (attempt : ℕ)
    → IsTiming c
    → (c.backoff_min ≤ backoff_delay c attempt) × (backoff_delay c attempt ≤ c.backoff_max)
unfolding backoff_delay
backoff_delay_bounds c attempt h = ground arith

one-le-pow : (k : ℕ) → 1 ≤ 2 ^ k
one-le-pow zero = omega arith
one-le-pow (suc k) = rw pow-suc (omega (arith, one-le-pow k))

le-mul_pow : (d k : ℕ) → d ≤ d * 2 ^ k
le-mul_pow d k = grind (arith, one-le-pow k)

-- As long as the doubled delay fits an int64 it is the exact power of two, capped at the maximum.
pub backoff_delay-exact :
    (c : Timing) (attempt : ℕ)
    → IsTiming c
    → c.backoff_min * 2 ^ (attempt - 1) < 2 ^ 63
    → backoff_delay c attempt ≡ (
        if ltb c.backoff_max (c.backoff_min * 2 ^ (attempt - 1))
        then c.backoff_max
        else c.backoff_min * 2 ^ (attempt - 1))
unfolding backoff_delay
backoff_delay-exact c attempt h b = ground (arith, le-mul_pow c.backoff_min (attempt - 1))
