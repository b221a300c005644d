-- ===== src/Espn/Relay/Rotation.antt =====
-- The order in which the relays are tried.
use mathlib.Core.Path.{fun_ext, sym}
use native.Mathlib.Decide.{dec_lt}
use native.Mathlib.Nat.{mod-eq_of_lt, add-mod_left}
use go_espn_api.Prelude.{
  ℕ, zero, suc, ◌+◌, ◌%◌, ◌≤◌, ◌<◌, ◌≡◌, refl, ap, ◌∙◌, some, List, [], ◌∷◌, ◌++◌, Bytes, arith,
  length, get_elem?, take, drop,
}
use go_espn_api.Espn.Relay.{Net, Client, Pooled, exhausted, try_relay, try_relays}

module _ {ℓ} {A : Type ℓ} where
  drop-step :
      (k : ℕ) (xs : List A)
      → k < length xs
      → (x : A) × (get_elem? xs k ≡ some x) × (drop k xs ≡ x ∷ drop (suc k) xs)
  drop-step k [] h = absurd (omega arith)
  drop-step zero (x ∷ xs) h = (x, refl, refl)
  drop-step (suc k) (x ∷ xs) h = drop-step k xs (omega arith)

  get_elem?-take : (m k : ℕ) (xs : List A) → k < m → get_elem? (take m xs) k ≡ get_elem? xs k
  get_elem?-take zero k xs h = absurd (omega arith)
  get_elem?-take (suc m) k [] h = refl
  get_elem?-take (suc m) zero (x ∷ xs) h = refl
  get_elem?-take (suc m) (suc k) (x ∷ xs) h = get_elem?-take m k xs (omega arith)

  length-take_le : (m : ℕ) (xs : List A) → m ≤ length xs → length (take m xs) ≡ m
  length-take_le zero xs h = refl
  length-take_le (suc m) [] h = absurd (omega arith)
  length-take_le (suc m) (x ∷ xs) h = ap suc (length-take_le m xs (omega arith))

  drop_all : (k : ℕ) (xs : List A) → length xs ≤ k → drop k xs ≡ []
  drop_all zero [] h = refl
  drop_all zero (x ∷ xs) h = absurd (omega arith)
  drop_all (suc k) [] h = refl
  drop_all (suc k) (x ∷ xs) h = drop_all k xs (omega arith)

-- The relays from the start to the end, and then those before it.
abbrev pub rotation : ℕ → List Bytes → List Bytes
rotation start relays = drop start relays ++ take start relays

mod-wrapped : (n j k : ℕ) → j ≡ n + k → k < n → j % n ≡ k
mod-wrapped n j k e h = rw (e, add-mod_left n k) (mod-eq_of_lt h)

module _ {W : Type 0} (net : Net W) where
  -- The specification: the relays are tried one after the other.
  unfoldable pub try_each : List Bytes → Client W → Pooled × Client W
  try_each [] c = (exhausted, c)
  try_each (url ∷ relays) c = try_relay net url c (try_each relays)

  module _ (relays : List Bytes) (start : ℕ) (b : start < length relays) where
    -- One round, at an index that is known.
    try_relays-step :
        (rounds i k : ℕ) (url : Bytes) (rest : List Bytes) (c : Client W)
        → (start + i) % length relays ≡ k
        → get_elem? relays k ≡ some url
        → ((d : Client W) → try_relays net relays start rounds (i + 1) d ≡ try_each rest d)
        → try_relays net relays start (suc rounds) i c ≡ try_each (url ∷ rest) c
    unfolding try_relays try_each
    try_relays-step rounds i k url rest c e f ih = rw (e, f, fun_ext ih)

    -- Behind the end of the list.
    try_relays-wrapped :
        (rounds i k : ℕ) (c : Client W)
        → start + i ≡ length relays + k
        → k + rounds ≡ start
        → try_relays net relays start rounds i c ≡ try_each (drop k (take start relays)) c
    try_relays-wrapped zero i k c e f =
        rw (drop_all k (take start relays) (omega (arith, length-take_le start relays)))
          (unfold try_relays try_each in refl)
    try_relays-wrapped (suc rounds) i k c e f =
        let (url, g, d) =
          drop-step k (take start relays) (omega (arith, length-take_le start relays)) in
        rw d (
          try_relays-step rounds i k url (drop (suc k) (take start relays)) c
            (mod-wrapped (length relays) (start + i) k e (omega arith))
            (sym (get_elem?-take start k relays (omega arith)) ∙ g)
            (λ c'. try_relays-wrapped rounds (i + 1) (suc k) c' (omega arith) (omega arith)))

    -- At the end of the list.
    try_relays-end :
        (rounds i k : ℕ) (c : Client W)
        → start + i ≡ k
        → i + rounds ≡ length relays
        → k ≡ length relays
        → try_relays net relays start rounds i c ≡ try_each (drop k relays ++ take start relays) c
    try_relays-end rounds i k c e f h =
        rw (drop_all k relays (omega arith))
          (try_relays-wrapped rounds i 0 c (omega arith) (omega arith))

    -- Up to the end of the list.
    try_relays-ahead :
        (rounds i k : ℕ) (c : Client W)
        → start + i ≡ k
        → i + rounds ≡ length relays
        → k ≤ length relays
        → try_relays net relays start rounds i c ≡ try_each (drop k relays ++ take start relays) c
    try_relays-ahead zero i k c e f h = try_relays-end zero i k c e f (omega arith)
    try_relays-ahead (suc rounds) i k c e f h = elim (dec_lt k (length relays)) [
      | yes p ↦
          (let (url, g, d) = drop-step k relays p in
            rw d (
              try_relays-step rounds i k url (drop (suc k) relays ++ take start relays) c
                (rw e (mod-eq_of_lt p)) g
                (λ c'. try_relays-ahead rounds (i + 1) (suc k) c' (omega arith) (omega arith) p)))
      | no p ↦ try_relays-end (suc rounds) i k c e f (omega arith)
    ]

-- The loop of sendViaRelays tries the relays in the order of the rotation that begins at `start`:
-- no index is out of range, and every relay has its turn once.
pub try_relays-rotation :
    {W : Type 0} (net : Net W) (relays : List Bytes) (start : ℕ) (c : Client W)
    → start < length relays
    → try_relays net relays start (length relays) 0 c ≡ try_each net (rotation start relays) c
try_relays-rotation net relays start c b =
    try_relays-ahead net relays start b (length relays) 0 start c (omega arith) (omega arith)
      (omega arith)
