-- ===== src/Scheduler/Fanout/Units.antt =====
-- What the pool does with the units: each goes to one goroutine.
use go_espn_api.Prelude.{
  ℕ, ◌+◌, ◌≡◌, ◌⊎◌, inl, inr, refl, ap, true, false, List, [], ◌∷◌, arith, sum_of,
}
use go_espn_api.Scheduler.Fanout.{
  WorkUnit, Goroutine, fresh, adds, after_call, Pool, start_pool, Step, go, run, skip, add, exit,
  cancel, Run, here, next, IsDone,
}
use go_espn_api.Scheduler.Fanout.Laws.{left, left-append, left-append_two}

-- The unit that a goroutine has still to call `do` on.
abbrev pub unit_left : (WorkUnit → ℕ) → Goroutine → ℕ
unit_left w (fresh u) = w u
unit_left w (adds ops) = 0

-- The weight of the units that are pending, held by a goroutine, called or skipped.
abbrev pub weight : (WorkUnit → ℕ) → Pool → ℕ
weight w p =
    sum_of w p.pending
    + left (unit_left w) p.active
    + sum_of (λ c. w c.0) p.calls
    + sum_of w p.skipped

module _ (w : WorkUnit → ℕ) where
  Step-weight : {limit : ℕ} {p q : Pool} → Step limit p q → weight w q ≡ weight w p
  unfolding left
  Step-weight (go u rest e b f) = rw f (omega (arith, ap (sum_of w) e))
  Step-weight (run before after u o e c f) = rw f (
      omega (
        arith,
        ap (left (unit_left w)) e,
        left-append (unit_left w) before after (fresh u),
        left-append (unit_left w) before after (adds (after_call o)),
      ))
  Step-weight (skip before after u e c f) = rw f (
      omega (
        arith,
        ap (left (unit_left w)) e,
        left-append (unit_left w) before after (fresh u),
        left-append (unit_left w) before after (adds []),
      ))
  Step-weight (add before after op ops e f) = rw f (
      omega (
        arith,
        ap (left (unit_left w)) e,
        left-append (unit_left w) before after (adds (op ∷ ops)),
        left-append (unit_left w) before after (adds ops),
      ))
  Step-weight (exit before after e f) = rw f (
      omega (
        arith,
        ap (left (unit_left w)) e,
        left-append (unit_left w) before after (adds []),
        left-append_two (unit_left w) before after,
      ))
  Step-weight (cancel c f) = rw f

  Run-weight : {limit : ℕ} {p q : Pool} → Run limit p q → weight w q ≡ weight w p
  Run-weight here = refl
  Run-weight (next r s) = omega (arith, Step-weight s, Run-weight r)

-- When `Wait` has returned, every unit was called once or skipped once, as often as it was given:
-- for every weight of units, the calls and the skips weigh together what the units weigh.
pub Run-units :
    {limit : ℕ} (units : List WorkUnit) {q : Pool} (w : WorkUnit → ℕ)
    → Run limit (start_pool units) q
    → IsDone q
    → sum_of (λ c. w c.0) q.calls + sum_of w q.skipped ≡ sum_of w units
unfolding left
Run-units units {q = q} w r d =
    omega (arith, Run-weight w r, ap (sum_of w) d.no_pending, ap (left (unit_left w)) d.no_active)

abbrev SkipsIfCancelled : Pool → Type 0
SkipsIfCancelled p = (p.cancelled ≡ true) ⊎ (p.skipped ≡ [])

Step-SkipsIfCancelled :
    {limit : ℕ} {p q : Pool} → Step limit p q → SkipsIfCancelled p → SkipsIfCancelled q
Step-SkipsIfCancelled (go u rest e b f) h = rw f h
Step-SkipsIfCancelled (run before after u o e c f) h = rw f h
Step-SkipsIfCancelled (skip before after u e c f) h = rw f (inl c)
Step-SkipsIfCancelled (add before after op ops e f) h = rw f h
Step-SkipsIfCancelled (exit before after e f) h = rw f h
Step-SkipsIfCancelled (cancel c f) h = rw f (inl refl)

Run-SkipsIfCancelled :
    {limit : ℕ} {p q : Pool} → Run limit p q → SkipsIfCancelled p → SkipsIfCancelled q
Run-SkipsIfCancelled here h = h
Run-SkipsIfCancelled (next r s) h = Step-SkipsIfCancelled s (Run-SkipsIfCancelled r h)

-- If the context was never cancelled, `do` has been called on the units exactly, each as often as it
-- was given, by the time that `Wait` returns.
pub Run-calls :
    {limit : ℕ} (units : List WorkUnit) {q : Pool} (w : WorkUnit → ℕ)
    → Run limit (start_pool units) q
    → IsDone q
    → q.cancelled ≡ false
    → sum_of (λ c. w c.0) q.calls ≡ sum_of w units
Run-calls units {q = q} w r d c = elim (Run-SkipsIfCancelled r (inr refl)) [
  | inl e ↦ cc
  | inr e ↦ omega (arith, Run-units units w r d, ap (sum_of w) e)
]
