-- ===== src/Scheduler/Fanout/Laws.antt =====
-- Invariants of `Step`, on the sums of what the calls end in, and weights of units.
use go_espn_api.Prelude.{
  ℕ, ◌+◌, ◌%◌, ◌^◌, ◌<◌, ◌≡◌, refl, ap, List, [], ◌∷◌, ◌++◌, arith, sum_of, sum_of-append,
}
use go_espn_api.Scheduler.Fanout.{
  WorkUnit, JobSummary, Outcome, returned, failed, panicked, Op, Goroutine, fresh, adds,
  add_created, add_updated, add_errors, after_call, apply_op, Pool, start_pool, Step, go, run, skip,
  add, exit, cancel, Run, here, next, IsDone,
}

-- The specification: what one outcome counts for.
abbrev pub created_of : WorkUnit × Outcome → ℕ
created_of (u, returned r) = r.created
created_of (u, failed) = 0
created_of (u, panicked) = 0

abbrev pub updated_of : WorkUnit × Outcome → ℕ
updated_of (u, returned r) = r.updated
updated_of (u, failed) = 0
updated_of (u, panicked) = 0

-- A call that returned counts for no error, whatever errors its result holds.
abbrev pub errors_of : WorkUnit × Outcome → ℕ
errors_of (u, returned r) = 0
errors_of (u, failed) = 1
errors_of (u, panicked) = 1

abbrev created_left : Op → ℕ
created_left (add_created n) = n
created_left _ = 0

abbrev updated_left : Op → ℕ
updated_left (add_updated n) = n
updated_left _ = 0

abbrev errors_left : Op → ℕ
errors_left (add_errors n) = n
errors_left _ = 0

-- What a goroutine has left of a counter, if `w` is what an addition adds to it.
abbrev pub adds_left : (Op → ℕ) → Goroutine → ℕ
adds_left w (fresh u) = 0
adds_left w (adds ops) = sum_of w ops

-- The sum of a weight over the active goroutines, kept shut.
unfoldable pub left : (Goroutine → ℕ) → List Goroutine → ℕ
left w = sum_of w

pub left-append :
    (w : Goroutine → ℕ) (before after : List Goroutine) (g : Goroutine)
    → left w (before ++ (g ∷ after)) ≡ left w before + w g + left w after
unfolding left
left-append w before after g = omega (arith, sum_of-append w before (g ∷ after))

pub left-append_two :
    (w : Goroutine → ℕ) (before after : List Goroutine)
    → left w (before ++ after) ≡ left w before + left w after
unfolding left
left-append_two w before after = sum_of-append w before after

after_call-left :
    (u : WorkUnit) (o : Outcome)
    → (sum_of created_left (after_call o) ≡ created_of (u, o))
      × (sum_of updated_left (after_call o) ≡ updated_of (u, o))
      × (sum_of errors_left (after_call o) ≡ errors_of (u, o))
unfolding after_call
after_call-left u (returned r) = omega arith
after_call-left u failed = omega arith
after_call-left u panicked = omega arith

-- What an operation adds to a counter moves from what is left to the sum, modulo 2 ^ 64.
apply_op-created :
    (op : Op) (s : JobSummary) (m : ℕ)
    → ((apply_op op s).created + m) % 2 ^ 64 ≡ (s.created + (created_left op + m)) % 2 ^ 64
unfolding apply_op
apply_op-created (add_created n) s m = omega arith
apply_op-created _ s m = omega arith

apply_op-updated :
    (op : Op) (s : JobSummary) (m : ℕ)
    → ((apply_op op s).updated + m) % 2 ^ 64 ≡ (s.updated + (updated_left op + m)) % 2 ^ 64
unfolding apply_op
apply_op-updated (add_updated n) s m = omega arith
apply_op-updated _ s m = omega arith

apply_op-errors :
    (op : Op) (s : JobSummary) (m : ℕ)
    → ((apply_op op s).errors + m) % 2 ^ 64 ≡ (s.errors + (errors_left op + m)) % 2 ^ 64
unfolding apply_op
apply_op-errors (add_errors n) s m = omega arith
apply_op-errors _ s m = omega arith

-- One counter of the invariant, for a counter that `sum` reads, an amount `w` left by an operation,
-- and an amount `v` that an outcome counts for.
module _ (sum : JobSummary → ℕ) (w : Op → ℕ) (v : WorkUnit × Outcome → ℕ)
    (w-after_call : (u : WorkUnit) (o : Outcome) → sum_of w (after_call o) ≡ v (u, o))
    (w-apply : (op : Op) (s : JobSummary) (m : ℕ)
      → (sum (apply_op op s) + m) % 2 ^ 64 ≡ (sum s + (w op + m)) % 2 ^ 64) where
  abbrev Counts : Pool → Type 0
  Counts p = (sum p.sum + left (adds_left w) p.active) % 2 ^ 64 ≡ sum_of v p.calls % 2 ^ 64

  Step-Counts : {limit : ℕ} {p q : Pool} → Step limit p q → Counts p → Counts q
  unfolding left
  Step-Counts {p = p} (go u rest e b f) h = rw f (omega arith)
  Step-Counts {p = p} (run before after u o e c f) h = rw (f) (
      omega (
        arith,
        w-after_call u o,
        ap (left (adds_left w)) e,
        left-append (adds_left w) before after (fresh u),
        left-append (adds_left w) before after (adds (after_call o)),
      ))
  Step-Counts {p = p} (skip before after u e c f) h = rw (f) (
      omega (
        arith,
        ap (left (adds_left w)) e,
        left-append (adds_left w) before after (fresh u),
        left-append (adds_left w) before after (adds []),
      ))
  Step-Counts {p = p} (add before after op ops e f) h = rw (f) (
      omega (
        arith,
        ap (left (adds_left w)) e,
        left-append (adds_left w) before after (adds (op ∷ ops)),
        left-append (adds_left w) before after (adds ops),
        w-apply op p.sum (left (adds_left w) (before ++ (adds ops ∷ after))),
      ))
  Step-Counts {p = p} (exit before after e f) h = rw (f) (
      omega (
        arith,
        ap (left (adds_left w)) e,
        left-append (adds_left w) before after (adds []),
        left-append_two (adds_left w) before after,
      ))
  Step-Counts {p = p} (cancel c f) h = rw f h

  Run-Counts : {limit : ℕ} {p q : Pool} → Run limit p q → Counts p → Counts q
  Run-Counts here h = h
  Run-Counts (next r s) h = Step-Counts s (Run-Counts r h)

  -- When `Wait` returns, the counter is the sum of what the outcomes count for.
  Run-sum :
      {limit : ℕ} {p q : Pool}
      → Run limit p q
      → Counts p
      → IsDone q
      → sum q.sum < 2 ^ 64
      → sum q.sum ≡ sum_of v q.calls % 2 ^ 64
  unfolding left
  Run-sum {q = q} r h d b =
      let e = Run-Counts r h in
      let e' : left (adds_left w) q.active ≡ 0 = rw d.no_active in omega arith

-- Every counter is a machine word.
abbrev IsWord : JobSummary → Type 0
IsWord s = (s.created < 2 ^ 64) × (s.updated < 2 ^ 64) × (s.errors < 2 ^ 64)

apply_op-IsWord : (op : Op) (s : JobSummary) → IsWord s → IsWord (apply_op op s)
unfolding apply_op
apply_op-IsWord (add_created n) s h = omega arith
apply_op-IsWord (add_updated n) s h = omega arith
apply_op-IsWord (add_errors n) s h = omega arith

Run-IsWord : {limit : ℕ} {p q : Pool} → Run limit p q → IsWord p.sum → IsWord q.sum
Run-IsWord here h = h
Run-IsWord (next r (go u rest e b f)) h = rw f (Run-IsWord r h)
Run-IsWord (next r (run before after u o e c f)) h = rw f (Run-IsWord r h)
Run-IsWord (next r (skip before after u e c f)) h = rw f (Run-IsWord r h)
Run-IsWord (next {q = m} r (add before after op ops e f)) h =
    rw f (apply_op-IsWord op m.sum (Run-IsWord r h))
Run-IsWord (next r (exit before after e f)) h = rw f (Run-IsWord r h)
Run-IsWord (next r (cancel c f)) h = rw f (Run-IsWord r h)

-- Whatever the order in which the goroutines and their atomic additions are interleaved, and whatever
-- each call ends in: when `Wait` has returned, the summary holds the sums of the created and of the
-- updated rows of the calls that returned, and one error for each call that failed or panicked,
-- modulo 2 ^ 64.
pub Run-summary :
    {limit : ℕ} (units : List WorkUnit) {q : Pool}
    → Run limit (start_pool units) q
    → IsDone q
    → (q.sum.created ≡ sum_of created_of q.calls % 2 ^ 64)
      × (q.sum.updated ≡ sum_of updated_of q.calls % 2 ^ 64)
      × (q.sum.errors ≡ sum_of errors_of q.calls % 2 ^ 64)
unfolding left
Run-summary units r d =
    let b = Run-IsWord r (omega arith) in
    (
      Run-sum (λ s. s.created) created_left created_of (λ u o. (after_call-left u o).0)
          apply_op-created r refl d b.0,
      Run-sum (λ s. s.updated) updated_left updated_of (λ u o. (after_call-left u o).1)
          apply_op-updated r refl d b.1,
      Run-sum (λ s. s.errors) errors_left errors_of (λ u o. (after_call-left u o).2) apply_op-errors
          r refl d b.2,
    )
