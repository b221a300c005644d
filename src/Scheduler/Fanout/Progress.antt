-- ===== src/Scheduler/Fanout/Progress.antt =====
-- The pool neither blocks nor runs on: a step is always possible before the end, and every step
-- comes nearer to it.
use go_espn_api.Prelude.{
  ℕ, zero, suc, ◌+◌, ◌*◌, ◌≤◌, ◌<◌, ◌≡◌, ◌⊎◌, inl, inr, refl, ap, ◌∙◌, All, Bool, true, false, List,
  [], ◌∷◌, arith, length, if◌then◌else◌,
}
use go_espn_api.Scheduler.Fanout.{
  WorkUnit, Outcome, returned, failed, panicked, Goroutine, fresh, adds, after_call, Pool,
  start_pool, Step, go, run, skip, add, exit, cancel, Run, here, next, IsDone,
}
use go_espn_api.Scheduler.Fanout.Laws.{left, left-append, left-append_two}

-- How many steps a goroutine has left at most.
abbrev cost : Goroutine → ℕ
cost (fresh u) = 4
cost (adds ops) = 1 + length ops

-- How many steps the pool has left at most.
abbrev pub measure : Pool → ℕ
measure p = 5 * length p.pending + left cost p.active + (if p.cancelled then 0 else 1)

after_call-cost : (o : Outcome) → length (after_call o) ≤ 2
unfolding after_call
after_call-cost (returned r) = omega arith
after_call-cost failed = omega arith
after_call-cost panicked = omega arith

Step-measure : {limit : ℕ} {p q : Pool} → Step limit p q → measure q < measure p
unfolding left
Step-measure {p = p} (go u rest e b f) = let n = ap length e in rw f (omega (arith, n))
Step-measure {p = p} (run before after u o e c f) = rw f (
    omega (
      arith,
      after_call-cost o,
      ap (left cost) e,
      left-append cost before after (fresh u),
      left-append cost before after (adds (after_call o)),
    ))
Step-measure (skip before after u e c f) = rw f (
    omega (
      arith,
      ap (left cost) e,
      left-append cost before after (fresh u),
      left-append cost before after (adds []),
    ))
Step-measure (add before after op ops e f) = rw f (
    omega (
      arith,
      ap (left cost) e,
      left-append cost before after (adds (op ∷ ops)),
      left-append cost before after (adds ops),
    ))
Step-measure (exit before after e f) = rw f (
    omega (
      arith,
      ap (left cost) e,
      left-append cost before after (adds []),
      left-append_two cost before after,
    ))
Step-measure (cancel c f) = rw (f, c) (omega arith)

abbrev pub steps : {limit : ℕ} {p q : Pool} → Run limit p q → ℕ
steps here = 0
steps (next r s) = suc (steps r)

Run-measure : {limit : ℕ} {p q : Pool} (r : Run limit p q) → steps r + measure q ≤ measure p
Run-measure here = omega arith
Run-measure (next r s) = omega (arith, Run-measure r, Step-measure s)

-- Every run of the pool over n units, however it is scheduled, ends within 5 n + 1 steps.
pub Run-steps :
    {limit : ℕ} (units : List WorkUnit) {q : Pool} (r : Run limit (start_pool units) q)
    → steps r ≤ 5 * length units + 1
unfolding left
Run-steps units r = omega (arith, Run-measure r)

-- A call ends in what is said of its unit.
abbrev pub EndsAs : (WorkUnit → Outcome) → WorkUnit × Outcome → Type 0
EndsAs ends c = ends c.0 ≡ c.1

-- A step that the pool makes of itself: it leaves the context as it is, a call that it makes ends in
-- what `ends` says of its unit, and no unit is skipped where the context is not cancelled.
abbrev OwnStep : (ends : WorkUnit → Outcome) → ℕ → Pool → Type 0
OwnStep ends limit p =
    (q : Pool) × Step limit p q
    × (q.cancelled ≡ p.cancelled)
    × (All (EndsAs ends) p.calls → All (EndsAs ends) q.calls)
    × (p.cancelled ≡ false → q.skipped ≡ p.skipped)

step_fresh :
    {limit : ℕ} (ends : WorkUnit → Outcome) (p : Pool) (u : WorkUnit) (after : List Goroutine)
    (c : Bool)
    → p.cancelled ≡ c
    → p.active ≡ fresh u ∷ after
    → OwnStep ends limit p
step_fresh ends p u after true c e =
    (_, skip [] after u e c refl, refl, (λ h. h), (λ n. absurd (grind (arith, c, n))))
step_fresh ends p u after false c e =
    (_, run [] after u (ends u) e c refl, refl, (λ h. (refl, h)), (λ n. refl))

-- The first goroutine can always make its step.
step_first :
    {limit : ℕ} (ends : WorkUnit → Outcome) (p : Pool) (g : Goroutine) (after : List Goroutine)
    → p.active ≡ g ∷ after
    → OwnStep ends limit p
step_first ends p (fresh u) after e = step_fresh ends p u after p.cancelled refl e
step_first ends p (adds []) after e = (_, exit [] after e refl, refl, (λ h. h), (λ n. refl))
step_first ends p (adds (op ∷ ops)) after e =
    (_, add [] after op ops e refl, refl, (λ h. h), (λ n. refl))

step_any :
    {limit : ℕ} (ends : WorkUnit → Outcome) (p : Pool) (pending : List WorkUnit)
    (active : List Goroutine)
    → 0 < limit
    → p.pending ≡ pending
    → p.active ≡ active
    → IsDone p ⊎ OwnStep ends limit p
step_any ends p [] [] b e f = inl (record { no_pending = e; no_active = f })
step_any ends p (u ∷ rest) [] b e f =
    inr (_, go u rest e (omega (arith, ap length f)) refl, refl, (λ h. h), (λ n. refl))
step_any ends p pending (g ∷ after) b e f = inr (step_first ends p g after f)

-- One run behind another.
Run-append : {limit : ℕ} {p q r : Pool} → Step limit p q → Run limit q r → Run limit p r
Run-append s here = next here s
Run-append s (next r t) = next (Run-append s r) t

-- A run to the end of the pool, which nobody cancels, whose calls end as they are said to, and which
-- skips no unit if the context was not cancelled before.
pub record Completes (ends : WorkUnit → Outcome) (limit : ℕ) (p : Pool) : Type 0 where
  pub last : Pool
  pub run_to : Run limit p last
  pub done : IsDone last
  pub context : last.cancelled ≡ p.cancelled
  pub called : All (EndsAs ends) p.calls → All (EndsAs ends) last.calls
  pub unskipped : p.cancelled ≡ false → last.skipped ≡ p.skipped

complete :
    {limit : ℕ} (ends : WorkUnit → Outcome) (fuel : ℕ) (p : Pool)
    → 0 < limit
    → measure p < fuel
    → Completes ends limit p
complete ends zero p b m = elim m [ ]
complete ends (suc fuel) p b m = elim (step_any ends p p.pending p.active b refl refl) [
  | inl d ↦ record {
    last = p;
    run_to = here;
    done = d;
    context = refl;
    called = λ h. h;
    unskipped = λ n. refl;
  }
  | inr (q, s, c, k, l) ↦
      let rest = complete ends fuel q b (omega (arith, Step-measure s)) in
      record {
        last = rest.last;
        run_to = Run-append s rest.run_to;
        done = rest.done;
        context = rest.context ∙ c;
        called = λ h. rest.called (k h);
        unskipped = λ n. rest.unskipped (c ∙ n) ∙ l n;
      }
]

-- With a concurrency of at least one there is no deadlock: from wherever the pool stands, and
-- whatever its calls of `do` end in, its own steps can bring it to the return of `Wait`, without the
-- caller cancelling the context, and without a unit skipped if it was not cancelled before.
pub Run-Completes :
    {limit : ℕ} (ends : WorkUnit → Outcome) (p : Pool) → 0 < limit → Completes ends limit p
Run-Completes ends p b = complete ends (suc (measure p)) p b (omega arith)
