-- ===== src/Examples/Espn.antt =====
-- The ESPN client at concrete inputs.
use go_espn_api.Prelude.{
  ℕ, ◌≤◌, ◌*◌, ◌^◌, ◌-◌, ◌≡◌, refl, arith, true, Option, some, none, List, [], ◌∷◌, Bytes, codes,
  length, sum_of, ltb, if◌then◌else◌,
}
use go_espn_api.Espn.Backoff.{EspnConfig, Timing, new_timing, backoff_delay}
use go_espn_api.Espn.Backoff.Laws.{
  IsTiming, new_timing-IsTiming, backoff_delay_bounds, backoff_delay-exact,
}
use go_espn_api.Espn.Relay.{
  HttpResponse, Target, direct, relay, Net, Client, try_relays, send_via_relays,
}
use go_espn_api.Espn.Relay.Laws.{Accounts, relay_weight, send_via_relays-Accounts}
use go_espn_api.Espn.Relay.Rotation.{rotation, try_each, try_relays-rotation}
use go_espn_api.Espn.Request.{attempt, request_with_retry}
use go_espn_api.Espn.Request.Laws.{Explains, request_with_retry-Explains}

abbrev defaults : EspnConfig
defaults = record { timeout = 30; max_retries = 3; retry_backoff_min = 1; retry_backoff_max = 10 }

abbrev timing : Timing
timing = record {
  timeout = 30000000000;
  max_retries = 3;
  backoff_min = 1000000000;
  backoff_max = 10000000000;
}

timing-IsTiming : IsTiming timing
timing-IsTiming = record {
  timeout_pos = omega arith;
  timeout_fits = omega arith;
  retries_pos = omega arith;
  retries_fits = omega arith;
  min_pos = omega arith;
  min-le-max = omega arith;
  max_fits = omega arith;
}

new_timing-IsTiming_example : IsTiming (new_timing defaults)
new_timing-IsTiming_example = new_timing-IsTiming defaults (omega arith)

backoff_delay_bounds_example :
    (timing.backoff_min ≤ backoff_delay timing 70) × (backoff_delay timing 70 ≤ timing.backoff_max)
backoff_delay_bounds_example = backoff_delay_bounds timing 70 timing-IsTiming

backoff_delay-exact_example : backoff_delay timing 3 ≡ (
    if ltb timing.backoff_max (timing.backoff_min * 2 ^ (3 - 1))
    then timing.backoff_max
    else timing.backoff_min * 2 ^ (3 - 1))
backoff_delay-exact_example = backoff_delay-exact timing 3 timing-IsTiming (omega arith)

-- A net whose relays answer 503 and whose direct request is answered; the world counts the requests.
abbrev answer : Target → ℕ → Option HttpResponse × ℕ
answer direct n = (some (record { status = 200; body = some (codes "{}") }), n)
answer (relay url) n = (some (record { status = 503; body = none }), n)

abbrev net : Net ℕ
net = record { prepare = λ t. true; perform = answer; parses = true }

abbrev client : Client ℕ
client = record { cursor = 5; world = 0; sent = [] }

abbrev pool : List Bytes
pool = codes "a" ∷ codes "b" ∷ codes "c" ∷ []

abbrev one_each : Target → ℕ
one_each direct = 0
one_each (relay url) = 1

send_via_relays-Accounts_example :
    Accounts net one_each
      (sum_of (relay_weight net one_each) pool)
      client
      (send_via_relays net pool client)
send_via_relays-Accounts_example =
    send_via_relays-Accounts net one_each pool client (omega arith) refl

try_relays-rotation_example :
    try_relays net pool 2 (length pool) 0 client ≡ try_each net (rotation 2 pool) client
try_relays-rotation_example = try_relays-rotation net pool 2 client (omega arith)

request_with_retry-Explains_example :
    Explains 3
      (request_with_retry timing (λ d c. (true, c)) (attempt (λ b. true) net pool) client).0
      (request_with_retry timing
        (λ d c. (true, c))
        (attempt (λ b. true) net pool)
        client).1.attempts
request_with_retry-Explains_example =
    request_with_retry-Explains timing (λ d c. (true, c)) (attempt (λ b. true) net pool) client
      (omega arith)
