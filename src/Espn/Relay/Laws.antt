-- ===== src/Espn/Relay/Laws.antt =====
-- What comes of a pass through the relay pool.
use native.Mathlib.Nat.{mod-lt}
use go_espn_api.Prelude.{
  ℕ, zero, suc, ◌+◌, ◌%◌, ◌^◌, ◌≤◌, ◌<◌, ◌≡◌, refl, true, Option, none, some, List, [], ◌∷◌, Bytes,
  arith, length, take, drop, sum_of, sum_of-append, append-nil, Bool-cases, inl, inr, lt→ltb,
  if◌then◌else◌,
}
use go_espn_api.Espn.Relay.{
  HttpResponse, Target, relay, Net, Client, Pooled, answered, exhausted, out_of_range, is_2xx,
  deliver, try_relay, settle, send_via_relays, send_via_start, start_at,
}
use go_espn_api.Espn.Relay.Rotation.{try_each, rotation, try_relays-rotation}

-- What the requests of a client weigh.
abbrev pub sent_weight : {W : Type 0} → (Target → ℕ) → Client W → ℕ
sent_weight w c = sum_of w c.sent

module _ {W : Type 0} (net : Net W) (w : Target → ℕ) where
  -- What the request to a relay weighs; a URL that makes no request is passed over.
  abbrev pub relay_weight : Bytes → ℕ
  relay_weight url = if net.prepare (relay url) then w (relay url) else 0

  -- What is sent for an outcome, if the pool weighs `m`: all of it when it is exhausted, and no more
  -- than that when a relay answers, whose status is 2xx.
  abbrev pub Accounts : ℕ → Client W → Pooled × Client W → Type 0
  Accounts m c (answered r, d) = (is_2xx r.status ≡ true) × (sent_weight w d ≤ sent_weight w c + m)
  Accounts m c (exhausted, d) = sent_weight w d ≡ sent_weight w c + m
  Accounts m c (out_of_range, d) = ⊥

  Accounts-shift :
      (m k : ℕ) (c d : Client W) (x : Pooled × Client W)
      → sent_weight w d ≡ sent_weight w c + k
      → Accounts m d x
      → Accounts (k + m) c x
  Accounts-shift m k c d (answered r, x) e (y, h) = (y, omega arith)
  Accounts-shift m k c d (exhausted, x) e h = omega arith
  Accounts-shift m k c d (out_of_range, x) e h = h

  -- `Accounts` reads of a client only what it sent.
  Accounts-same :
      (m : ℕ) (c d : Client W) (x : Pooled × Client W)
      → sent_weight w d ≡ sent_weight w c
      → Accounts m d x
      → Accounts m c x
  Accounts-same m c d (answered r, x) e (y, h) = (y, omega arith)
  Accounts-same m c d (exhausted, x) e h = omega arith
  Accounts-same m c d (out_of_range, x) e h = h

  settle-Accounts :
      (m : ℕ) (c d : Client W) (url : Bytes) (r : Option HttpResponse)
      (next : Client W → Pooled × Client W)
      → sent_weight w d ≡ sent_weight w c + w (relay url)
      → ((x : Client W) → Accounts m x (next x))
      → Accounts (w (relay url) + m) c (settle net r d next)
  settle-Accounts m c d url none next e h = Accounts-shift m (w (relay url)) c d (next d) e (h d)
  settle-Accounts m c d url (some r) next e h = elim (Bool-cases (is_2xx r.status)) [
    | inl y ↦ rw y (y, omega arith)
    | inr n ↦ rw n (Accounts-shift m (w (relay url)) c d (next d) e (h d))
  ]

  try_relay-Accounts :
      (m : ℕ) (c : Client W) (url : Bytes) (next : Client W → Pooled × Client W)
      → ((x : Client W) → Accounts m x (next x))
      → Accounts (relay_weight url + m) c (try_relay net url c next)
  unfolding try_relay
  try_relay-Accounts m c url next h = elim (Bool-cases (net.prepare (relay url))) [
    | inl y ↦ rw y (
        settle-Accounts m c (deliver net (relay url) c).1 url (deliver net (relay url) c).0 next
          (omega arith) h)
    | inr n ↦ rw n (Accounts-shift m 0 c c (next c) (omega arith) (h c))
  ]

  try_each-Accounts :
      (relays : List Bytes) (c : Client W)
      → Accounts (sum_of relay_weight relays) c (try_each net relays c)
  unfolding try_each
  try_each-Accounts [] c = omega arith
  try_each-Accounts (url ∷ relays) c =
      try_relay-Accounts (sum_of relay_weight relays) c url (try_each net relays)
        (try_each-Accounts relays)

-- A rotation holds each relay as often as the pool does.
sum_of-rotation : (f : Bytes → ℕ) (k : ℕ) (xs : List Bytes) → sum_of f (rotation k xs) ≡ sum_of f xs
sum_of-rotation f zero xs = rw append-nil
sum_of-rotation f (suc k) [] = refl
sum_of-rotation f (suc k) (x ∷ xs) = omega (
  arith,
  sum_of-append f (drop k xs) (x ∷ take k xs),
  sum_of-append f (drop k xs) (take k xs),
  sum_of-rotation f k xs,
)

start_at-some : (cursor n : ℕ) → cursor < 2 ^ 63 → start_at cursor n ≡ some (cursor % n)
unfolding start_at
start_at-some cursor n h = rw (lt→ltb cursor (2 ^ 63) h)

send_via_start-Accounts :
    {W : Type 0} (net : Net W) (w : Target → ℕ) (relays : List Bytes) (start : ℕ) (c : Client W)
    → start < length relays
    → Accounts net w
        (sum_of (relay_weight net w) relays)
        c
        (send_via_start net relays (some start) c)
unfolding send_via_start
send_via_start-Accounts net w relays start c h =
    rw
      (
        try_relays-rotation net relays start c h,
        ← sum_of-rotation (relay_weight net w) start relays,
      )
      (try_each-Accounts net w (rotation start relays) c)

-- As long as the shared counter is below 2 ^ 63, a pass through the pool indexes no relay out of
-- range. A relay's answer is taken only if its status is 2xx; and the pass sends no relay more than
-- it stands in the pool, and gives up only after it has sent to each relay whose URL makes a request:
-- for every weight of requests, what was sent weighs at most what the pool weighs, and as much if the
-- pool is exhausted.
pub send_via_relays-Accounts :
    {W : Type 0} (net : Net W) (w : Target → ℕ) (relays : List Bytes) (c : Client W)
    → c.cursor < 2 ^ 63
    → net.parses ≡ true
    → Accounts net w (sum_of (relay_weight net w) relays) c (send_via_relays net relays c)
unfolding send_via_relays
send_via_relays-Accounts net w [] c b p = omega arith
send_via_relays-Accounts {W} net w (url ∷ relays) c b p =
    let d : Client W = record {
      cursor = (c.cursor + 1) % 2 ^ 64;
      world = c.world;
      sent = c.sent;
    } in
    let n = length (url ∷ relays) in
    simp p (
      rw (start_at-some c.cursor n b) (
        Accounts-same net w _ c d (send_via_start net (url ∷ relays) (some (c.cursor % n)) d) refl (
          send_via_start-Accounts net w (url ∷ relays) (c.cursor % n) d
            (mod-lt c.cursor (omega arith)))))
