-- ===== src/Scheduler/Worker/Laws.antt =====
-- The worker's shutdown and its one-shot run.
use go_espn_api.Prelude.{
  ℕ, ◌<◌, ◌≡◌, Bool, false, ◌&&◌, ◌||◌, Option, none, some, List, arith, ◌==◌, ℤ, if◌then◌else◌,
  sum_of,
}
use go_espn_api.Scheduler.Jobs.{run_once_espn, run_once_nhl}
use go_espn_api.Scheduler.Worker.{
  Services, Connection, Action, run_job, close, close_db, run_once, drain_timeout,
}

-- The worker waits a positive time for the jobs in flight, whatever is configured.
pub drain_timeout_pos : (grace cleanup : ℤ) → 0 < drain_timeout grace cleanup
unfolding drain_timeout
drain_timeout_pos grace cleanup = ground arith

-- How often a connection is closed.
abbrev pub closings : ℕ → List Action → ℕ
closings a = sum_of (λ x. elim x [ run_job j ↦ 0 | close b ↦ if b == a then 1 else 0 ])

abbrev pub holds : Option ℕ → ℕ → Bool
holds none a = false
holds (some b) a = b == a

-- closeDB closes each connection that it holds exactly once, also where reads and writes share one,
-- and closes no other.
pub close_db-once :
    (c : Connection) (a : ℕ)
    → closings a (close_db (some c)) ≡ (if holds c.read a || holds c.write a then 1 else 0)
unfolding close_db
close_db-once c a = ground arith

-- A one-shot run with a service enabled closes each of its connections exactly once; with none
-- enabled it returns without closing any.
pub run_once-close :
    (s : Services) (c : Connection) (a : ℕ)
    → closings a (run_once s (some c))
      ≡ (if (s.espn || s.nhl) && (holds c.read a || holds c.write a) then 1 else 0)
unfolding run_once run_once_espn run_once_nhl
run_once-close s c a = ground arith
