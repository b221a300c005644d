-- ===== src/Examples/Scheduler.antt =====
-- Runs of the pool of internal/scheduler/fanout.go.
use go_espn_api.Prelude.{
  ℕ, ◌+◌, ◌*◌, ◌%◌, ◌^◌, ◌≤◌, ◌≡◌, refl, arith, false, List, [], ◌∷◌, codes, length, sum_of,
}
use go_espn_api.Scheduler.Fanout.{
  WorkUnit, Outcome, returned, panicked, fresh, adds, add_created, add_updated, add_errors,
  after_call, apply_op, add64, Pool, start_pool, go, run, add, exit, Run, here, next, IsDone,
}
use go_espn_api.Scheduler.Fanout.Laws.{created_of, updated_of, errors_of, Run-summary}
use go_espn_api.Scheduler.Fanout.Units.{Run-units, Run-calls}
use go_espn_api.Scheduler.Fanout.Progress.{steps, Run-steps, Completes, Run-Completes}

abbrev nfl : WorkUnit
nfl = record { sport = codes "football"; league = codes "nfl"; date = codes "20240101" }

abbrev nba : WorkUnit
nba = record { sport = codes "basketball"; league = codes "nba"; date = codes "20240101" }

abbrev two_units : List WorkUnit
two_units = nfl ∷ nba ∷ []

abbrev good : Outcome
good = returned (record { created = 2; updated = 1; errors = 3; details = [] })

abbrev end_pool : Pool
end_pool = record {
  pending = [];
  active = [];
  sum = record { created = 2; updated = 1; errors = 1 };
  cancelled = false;
  calls = (nba, panicked) ∷ (nfl, good) ∷ [];
  skipped = [];
}

-- Both units are handed out, the second call panics, and the additions interleave.
abbrev two_run : Run 2 (start_pool two_units) end_pool
unfolding after_call apply_op add64
two_run =
    next
      (next
        (next
          (next
            (next
              (next
                (next
                  (next (next here (go nfl (nba ∷ []) refl (omega arith) refl))
                    (go nba [] refl (omega arith) refl))
                  (run (fresh nba ∷ []) [] nfl good refl refl refl))
                (run [] (adds (after_call good) ∷ []) nba panicked refl refl refl))
              (add (adds (add_errors 1 ∷ []) ∷ []) [] (add_created 2) (add_updated 1 ∷ []) refl
                refl))
            (add [] (adds (add_updated 1 ∷ []) ∷ []) (add_errors 1) [] refl refl))
          (add (adds [] ∷ []) [] (add_updated 1) [] refl refl))
        (exit [] (adds [] ∷ []) refl refl))
      (exit [] [] refl refl)

abbrev two_done : IsDone end_pool
two_done = record { no_pending = refl; no_active = refl }

abbrev is_nfl : WorkUnit → ℕ
is_nfl u = length u.sport

Run-summary_example :
    (end_pool.sum.created ≡ sum_of created_of end_pool.calls % 2 ^ 64)
    × (end_pool.sum.updated ≡ sum_of updated_of end_pool.calls % 2 ^ 64)
    × (end_pool.sum.errors ≡ sum_of errors_of end_pool.calls % 2 ^ 64)
Run-summary_example = Run-summary two_units two_run two_done

Run-calls_example : sum_of (λ c. is_nfl c.0) end_pool.calls ≡ sum_of is_nfl two_units
Run-calls_example = Run-calls two_units is_nfl two_run two_done refl

Run-units_example :
    sum_of (λ c. is_nfl c.0) end_pool.calls + sum_of is_nfl end_pool.skipped
    ≡ sum_of is_nfl two_units
Run-units_example = Run-units two_units is_nfl two_run two_done

Run-steps_example : steps two_run ≤ 5 * length two_units + 1
Run-steps_example = Run-steps two_units two_run

Run-Completes_example : Completes (λ u. good) 2 (start_pool two_units)
Run-Completes_example = Run-Completes (λ u. good) (start_pool two_units) (omega arith)
