-- ===== src/Espn/Request.antt =====
-- requestWithRetry, attempt, handleResponse and waitBackoff of infras/espn/espn.go.
--
-- json.Valid is the parameter `valid`. Waiting is the parameter `sleep`: it is given the delay and
-- moves the world on, and is false where the context was done before the timer.
pub mod Laws
use go_espn_api.Prelude.{
  ℕ, zero, suc, ◌+◌, Bool, true, false, Option, none, some, List, [], ◌∷◌, Bytes, leb, ◌==◌,
  if◌then◌else◌,
}
use go_espn_api.Espn.Backoff.{Timing, backoff_delay}
use go_espn_api.Espn.Relay.{
  HttpResponse, Net, Client, Sent, response, transport_error, panicked, send,
}

pub record Response : Type 0 where
  pub body : Bytes
  pub status_code : ℕ

-- The sentinel errors, with what is wrapped in them.
pub data Error : Type 0 where
  not_found : Error
  rate_limit : Error
  server_error : ℕ → Error
  client_error : ℕ → Error
  transport : Error
  read_body : Error
  invalid_json : Error

-- The three results of attempt: a response, or an error with its retryable flag. A panic passes through.
pub data Attempt : Type 0 where
  success : Response → Attempt
  failure : Bool → Error → Attempt
  crash : Attempt

-- What requestWithRetry returns. `nothing` is the pair of nils of a loop that makes no round.
pub data Result : Type 0 where
  ok : Response → Result
  err : Error → Result
  context_done : Result
  panic : Result
  nothing : Result

module _ (valid : Bytes → Bool) where
  abbrev handle_body : ℕ → Option Bytes → Attempt
  handle_body status none = failure true read_body
  handle_body status (some body) =
      if valid body
      then success (record { body = body; status_code = status })
      else failure false invalid_json

  -- handleResponse.
  unfoldable pub handle_response : HttpResponse → Attempt
  handle_response r =
      if r.status == 404
      then failure false not_found
      else if r.status == 429
      then failure true rate_limit
      else if leb 500 r.status
      then failure true (server_error r.status)
      else if leb 400 r.status
      then failure false (client_error r.status)
      else handle_body r.status r.body

  abbrev handle_sent : Sent → Attempt
  handle_sent (response r) = handle_response r
  handle_sent transport_error = failure true transport
  handle_sent panicked = crash

  module _ {W : Type 0} (net : Net W) (relays : List Bytes) where
    -- attempt.
    unfoldable pub attempt : Client W → Attempt × Client W
    unfolding handle_response send
    attempt c = (handle_sent (send net relays c).0, (send net relays c).1)

-- What a run of requestWithRetry has done: the attempts and the delays, the last first.
pub record Trace : Type 0 where
  pub attempts : List Attempt
  pub delays : List ℕ

abbrev pub no_trace : Trace
no_trace = record { attempts = []; delays = [] }

module _ {S : Type 0} (timing : Timing) (sleep : ℕ → S → Bool × S) (try : S → Attempt × S) where
  -- waitBackoff before every attempt but the first.
  abbrev wait : ℕ → Trace → S → Bool × Trace × S
  wait zero t s = (true, t, s)
  wait (suc k) t s =
      let delay = backoff_delay timing (suc k) in
      let (on, s') = sleep delay s in (on, record t { delays = delay ∷ t.delays }, s')

  -- What follows an attempt: its return, or the next round.
  after : Attempt → Trace → S → (Error → Trace → S → Result × Trace × S) → Result × Trace × S
  after (success r) t s next = (ok r, t, s)
  after (failure true e) t s next = next e t s
  after (failure false e) t s next = (err e, t, s)
  after crash t s next = (panic, t, s)

  -- One round, once the wait is over.
  round : Bool × Trace × S → (Error → Trace → S → Result × Trace × S) → Result × Trace × S
  unfolding after
  round (true, t, s) next =
      let (a, s') = try s in after a (record t { attempts = a ∷ t.attempts }) s' next
  round (false, t, s) next = (context_done, t, s)

  abbrev last_error : Option Error → Result
  last_error none = nothing
  last_error (some e) = err e

  -- `for attempt := range c.maxRetries`, with `rounds` rounds to go.
  retry_loop : ℕ → ℕ → Option Error → Trace → S → Result × Trace × S
  unfolding round
  retry_loop zero n last t s = (last_error last, t, s)
  retry_loop (suc rounds) n last t s = round (wait n t s) (λ e. retry_loop rounds (suc n) (some e))

  -- requestWithRetry.
  unfoldable pub request_with_retry : S → Result × Trace × S
  unfolding retry_loop
  request_with_retry = retry_loop timing.max_retries 0 none no_trace
