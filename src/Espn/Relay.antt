-- ===== src/Espn/Relay.antt =====
-- send, sendViaRelays and newRequest of infras/espn/espn.go: a request goes through the relay pool,
-- round robin with failover, and straight to ESPN only if no relay answers with a 2xx status.
--
-- net/http is a parameter: `prepare` says whether a URL makes a request, and `perform` is
-- Client.Do, which moves the state of the world outside on.
pub mod Laws
pub mod Rotation
use go_espn_api.Prelude.{
  ℕ, zero, suc, ◌+◌, ◌-◌, ◌%◌, ◌^◌, Bool, true, false, ◌&&◌, Option, none, some, List, [], ◌∷◌,
  ◌++◌, Bytes, ltb, leb, ◌==◌, length, get_elem?, if◌then◌else◌,
}

-- A response: its status, and its body if that can be read.
pub record HttpResponse : Type 0 where
  pub status : ℕ
  pub body : Option Bytes

-- Where a request goes: to ESPN, or to a relay that is told what to fetch.
pub data Target : Type 0 where
  direct : Target
  relay : Bytes → Target

-- The answers of net/http. `W` is what lies outside of the program.
pub record Net (W : Type 0) : Type 0 where
  pub prepare : Target → Bool
  pub perform : Target → W → Option HttpResponse × W
  -- url.Parse of the full URL succeeds
  pub parses : Bool

-- The counter that the relays share, and the world; `sent` lists the requests made, the last first.
pub record Client (W : Type 0) : Type 0 where
  pub cursor : ℕ
  pub world : W
  pub sent : List Target

-- What comes of a request: a response, an error, or a panic.
pub data Sent : Type 0 where
  response : HttpResponse → Sent
  transport_error : Sent
  panicked : Sent

-- What comes of the pool: a response, a way past it, or an index out of range.
pub data Pooled : Type 0 where
  answered : HttpResponse → Pooled
  exhausted : Pooled
  out_of_range : Pooled

unfoldable pub is_2xx : ℕ → Bool
is_2xx status = leb 200 status && ltb status 300

-- int(atomic.AddUint64(&c.relayCursor, 1) - 1) % n. From 2 ^ 63 on the int is negative, and so is
-- the first index, unless n divides it.
unfoldable pub start_at : ℕ → ℕ → Option ℕ
start_at cursor n =
    if ltb cursor (2 ^ 63)
    then some (cursor % n)
    else if (2 ^ 64 - cursor) % n == 0
    then some 0
    else none

module _ {W : Type 0} (net : Net W) where
  -- httpClient.Do
  unfoldable pub deliver : Target → Client W → Option HttpResponse × Client W
  deliver t c =
      let (r, w) = net.perform t c.world in
      (r, record { cursor = c.cursor; world = w; sent = t ∷ c.sent })

  -- The checks on what came back from a relay: a response of 2xx ends the loop.
  abbrev settle :
      Option HttpResponse → Client W → (Client W → Pooled × Client W) → Pooled × Client W
  settle none c next = next c
  settle (some r) c next = if is_2xx r.status then (answered r, c) else next c

  -- One relay: newRequest, then Do; each failure goes on to the next relay.
  unfoldable pub try_relay : Bytes → Client W → (Client W → Pooled × Client W) → Pooled × Client W
  unfolding deliver is_2xx
  try_relay url c next =
      if net.prepare (relay url)
      then settle (deliver (relay url) c).0 (deliver (relay url) c).1 next
      else next c

  -- One round of the loop, on what the index gives.
  try_at : Option Bytes → Client W → (Client W → Pooled × Client W) → Pooled × Client W
  try_at none c next = (out_of_range, c)
  try_at (some url) c next = try_relay url c next

  -- `for i := range n`, with `rounds` rounds to go.
  pub try_relays : List Bytes → ℕ → ℕ → ℕ → Client W → Pooled × Client W
  unfolding try_at
  try_relays relays start zero i c = (exhausted, c)
  try_relays relays start (suc rounds) i c =
      try_at (get_elem? relays ((start + i) % length relays)) c
        (try_relays relays start rounds (i + 1))

  send_via_start : List Bytes → Option ℕ → Client W → Pooled × Client W
  send_via_start relays none c = (out_of_range, c)
  send_via_start relays (some start) c = try_relays relays start (length relays) 0 c

  -- sendViaRelays.
  unfoldable pub send_via_relays : List Bytes → Client W → Pooled × Client W
  unfolding try_relays start_at send_via_start
  send_via_relays [] c = (exhausted, c)
  send_via_relays (url ∷ relays) c =
      if net.parses
      then send_via_start (url ∷ relays) (start_at c.cursor (length (url ∷ relays)))
          (record { cursor = (c.cursor + 1) % 2 ^ 64; world = c.world; sent = c.sent })
      else (exhausted, c)

  abbrev outcome : Option HttpResponse → Sent
  outcome none = transport_error
  outcome (some r) = response r

  -- The request without a relay.
  abbrev send_direct : Client W → Sent × Client W
  send_direct c =
      if net.prepare direct
      then (outcome (deliver direct c).0, (deliver direct c).1)
      else (transport_error, c)

  abbrev after_pool : Pooled → Client W → Sent × Client W
  after_pool (answered r) c = (response r, c)
  after_pool exhausted c = send_direct c
  after_pool out_of_range c = (panicked, c)

  -- send.
  unfoldable pub send : List Bytes → Client W → Sent × Client W
  unfolding deliver send_via_relays
  send relays c = let (p, c') = send_via_relays relays c in after_pool p c'
