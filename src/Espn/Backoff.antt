-- ===== src/Espn/Backoff.antt =====
-- The configuration of infras/espn/espn.go (New) and the delay of waitBackoff. A time.Duration is an
-- int64 of nanoseconds: a word below 2 ^ 64, negative from 2 ^ 63 on.
pub mod Laws
use go_espn_api.Prelude.{ℕ, ◌+◌, ◌-◌, ◌*◌, ◌%◌, ◌^◌, ◌<◌, Bool, ltb, ◌==◌, ◌||◌, if◌then◌else◌}

-- a < b on int64.
abbrev pub lt64 : ℕ → ℕ → Bool
lt64 a b = ltb ((a + 2 ^ 63) % 2 ^ 64) ((b + 2 ^ 63) % 2 ^ 64)

-- time.Second.
abbrev pub second : ℕ
second = 1000000000

-- time.Duration(n) * time.Second, for an int n.
unfoldable pub seconds64 : ℕ → ℕ
seconds64 n = n * second % 2 ^ 64

abbrev default_timeout_seconds : ℕ
default_timeout_seconds = 30

-- The integers of the configuration, as words.
pub record EspnConfig : Type 0 where
  pub timeout : ℕ
  pub max_retries : ℕ
  pub retry_backoff_min : ℕ
  pub retry_backoff_max : ℕ

pub record Timing : Type 0 where
  pub timeout : ℕ
  pub max_retries : ℕ
  pub backoff_min : ℕ
  pub backoff_max : ℕ

-- d <= 0 on int64.
abbrev not_pos64 : ℕ → Bool
not_pos64 d = lt64 d 0 || d == 0

clamp_timeout : ℕ → ℕ
clamp_timeout t = if not_pos64 t then default_timeout_seconds * second else t

clamp_retries : ℕ → ℕ
clamp_retries n = if lt64 n 1 then 1 else n

clamp_min : ℕ → ℕ
clamp_min d = if not_pos64 d then second else d

clamp_max : ℕ → ℕ → ℕ
clamp_max d min = if lt64 d min then min else d

-- New, up to the relays.
unfoldable pub new_timing : EspnConfig → Timing
unfolding seconds64 clamp_timeout clamp_retries clamp_min clamp_max
new_timing cfg =
    let min = clamp_min (seconds64 cfg.retry_backoff_min) in
    record {
      timeout = clamp_timeout (seconds64 cfg.timeout);
      max_retries = clamp_retries cfg.max_retries;
      backoff_min = min;
      backoff_max = clamp_max (seconds64 cfg.retry_backoff_max) min;
    }

-- d << k on int64.
unfoldable pub shl64 : ℕ → ℕ → ℕ
shl64 d k = d * 2 ^ k % 2 ^ 64

-- The delay before the attempt, which counts from 1 here.
unfoldable pub backoff_delay : Timing → ℕ → ℕ
unfolding shl64
backoff_delay c attempt =
    let shifted = shl64 c.backoff_min (attempt - 1) in
    let raised = (if lt64 shifted c.backoff_min then c.backoff_min else shifted) in
    if lt64 c.backoff_max raised then c.backoff_max else raised
