-- ===== src/Espn/Request/Laws.antt =====
-- What requestWithRetry promises: how often it tries, and what its result says of the attempts.
use go_espn_api.Prelude.{
  ℕ, zero, suc, ◌+◌, ◌≤◌, ◌<◌, ◌≡◌, ◌⊎◌, refl, ap, ◌∙◌, Bool, true, false, Option, none, some, List,
  [], ◌∷◌, arith, length, All, inl, inr,
}
use go_espn_api.Espn.Backoff.{Timing, backoff_delay}
use go_espn_api.Espn.Request.{
  Error, Attempt, success, failure, crash, Result, ok, err, context_done, panic, nothing, Trace,
  after, round, last_error, retry_loop, request_with_retry,
}

-- The attempt failed with an error that is retried.
abbrev pub IsRetryable : Attempt → Type 0
IsRetryable (failure true e) = Unit
IsRetryable _ = ⊥

-- The last attempt is the one given, and each before it was retryable.
abbrev pub EndsIn : Attempt → List Attempt → Type 0
EndsIn a [] = ⊥
EndsIn a (b ∷ before) = (b ≡ a) × All IsRetryable before

-- What a result says of the attempts that were made, if `n` are allowed.
abbrev pub Explains : ℕ → Result → List Attempt → Type 0
Explains n (ok r) tried = EndsIn (success r) tried × (length tried ≤ n)
Explains n (err e) tried =
    (EndsIn (failure false e) tried × (length tried ≤ n))
    ⊎ (EndsIn (failure true e) tried × (length tried ≡ n))
Explains n context_done tried = All IsRetryable tried × (0 < length tried) × (length tried < n)
Explains n panic tried = EndsIn crash tried × (length tried ≤ n)
Explains n nothing tried = ⊥

-- The state of the loop before a round: after `n` attempts that were all retryable.
abbrev IsRunning : ℕ → Option Error → List Attempt → Type 0
IsRunning zero last tried = tried ≡ []
IsRunning (suc n) none tried = ⊥
IsRunning (suc n) (some e) tried =
    EndsIn (failure true e) tried × All IsRetryable tried × (length tried ≡ suc n)

module _ {S : Type 0} (timing : Timing) (sleep : ℕ → S → Bool × S) (try : S → Attempt × S)
    (m : ℕ) where
  abbrev Explained : Result × Trace × S → Type 0
  Explained (r, t, s) = Explains m r t.attempts

  after-Explains :
      (a : Attempt) (tried : List Attempt) (delays : List ℕ) (s : S)
      (next : Error → Trace → S → Result × Trace × S)
      → length tried < m
      → All IsRetryable tried
      → ((e : Error)
          → a ≡ failure true e
          → Explained (next e (record { attempts = failure true e ∷ tried; delays = delays }) s))
      → Explained
          (after timing sleep try a (record { attempts = a ∷ tried; delays = delays }) s next)
  unfolding after
  after-Explains (success r) tried delays s next b h k = ((refl, h), b)
  after-Explains (failure true e) tried delays s next b h k = k e refl
  after-Explains (failure false e) tried delays s next b h k = inl ((refl, h), b)
  after-Explains crash tried delays s next b h k = ((refl, h), b)

  round-Explains :
      (on : Bool) (tried : List Attempt) (delays : List ℕ) (s : S)
      (next : Error → Trace → S → Result × Trace × S)
      → length tried < m
      → All IsRetryable tried
      → (on ≡ false → 0 < length tried)
      → ((e : Error) (s' : S)
          → Explained (next e (record { attempts = failure true e ∷ tried; delays = delays }) s'))
      → Explained
          (round timing sleep try (on, record { attempts = tried; delays = delays }, s) next)
  unfolding round
  round-Explains true tried delays s next b h p k =
      after-Explains (try s).0 tried delays (try s).1 next b h (λ e _. k e (try s).1)
  round-Explains false tried delays s next b h p k = (h, p refl, b)

  IsRunning-IsRetryable :
      (n : ℕ) (last : Option Error) (tried : List Attempt)
      → IsRunning n last tried
      → All IsRetryable tried × (length tried ≡ n)
  IsRunning-IsRetryable zero last tried h = rw h (tt, refl)
  IsRunning-IsRetryable (suc n) none tried h = absurd h
  IsRunning-IsRetryable (suc n) (some e) tried h = (h.1, h.2)

  last_error-Explains :
      (n : ℕ) (last : Option Error) (tried : List Attempt)
      → 0 < n
      → n ≡ m
      → IsRunning n last tried
      → Explains m (last_error timing sleep try last) tried
  last_error-Explains zero last tried p e h = absurd (omega arith)
  last_error-Explains (suc n) none tried p e h = absurd h
  last_error-Explains (suc n) (some x) tried p e h = inr (h.0, h.2 ∙ e)

  retry_loop-Explains :
      (rounds n : ℕ) (last : Option Error) (tried : List Attempt) (delays : List ℕ) (s : S)
      → n + rounds ≡ m
      → 0 < m
      → IsRunning n last tried
      → Explained (
          retry_loop timing sleep try rounds n last
            (record { attempts = tried; delays = delays })
            s)
  unfolding retry_loop
  retry_loop-Explains zero n last tried delays s e p h =
      last_error-Explains n last tried (omega arith) (omega arith) h
  retry_loop-Explains (suc rounds) zero last tried delays s e p h = rw h (
      round-Explains true [] delays s _ (omega arith) tt (λ f. cc)
        (λ x s'.
          retry_loop-Explains rounds 1 (some x) (failure true x ∷ []) delays s' (omega arith) p
            ((refl, tt), (tt, tt), refl)))
  retry_loop-Explains (suc rounds) (suc n) last tried delays s e p h =
      let (r, l) = IsRunning-IsRetryable (suc n) last tried h in
      let d = backoff_delay timing (suc n) in
      round-Explains (sleep d s).0 tried (d ∷ delays) (sleep d s).1 _ (omega arith) r
        (λ f. omega arith)
        (λ x s'.
          retry_loop-Explains rounds (suc (suc n)) (some x) (failure true x ∷ tried) (d ∷ delays) s'
            (omega arith) p ((refl, r), (tt, r), ap suc l))

-- With at least one attempt allowed, the result of requestWithRetry says what the attempts were. A
-- response is that of the last attempt, and every attempt before it failed in a way that is retried.
-- An error that is not retried ends the loop at once; one that is retried is returned only after all
-- the attempts allowed; the context ends the loop only between two attempts. There is no other
-- result, and never the pair of nils.
pub request_with_retry-Explains :
    {S : Type 0} (timing : Timing) (sleep : ℕ → S → Bool × S) (try : S → Attempt × S) (s : S)
    → 1 ≤ timing.max_retries
    → Explains timing.max_retries
        (request_with_retry timing sleep try s).0
        (request_with_retry timing sleep try s).1.attempts
unfolding request_with_retry
request_with_retry-Explains timing sleep try s h =
    retry_loop-Explains timing sleep try timing.max_retries timing.max_retries 0 none [] [] s
      (omega arith) h refl
