-- ===== src/Scheduler/Worker.antt =====
-- The worker process of internal/scheduler/worker.go: which jobs it registers or runs, how long it
-- waits for jobs in flight, and which connections it closes.
pub mod Laws
use go_espn_api.Prelude.{
  ℕ, ◌+◌, ◌*◌, Bool, true, false, ◌&&◌, not, Option, none, some, List, [], ◌∷◌, ◌++◌, map, ◌==◌,
  ltb, ℤ, pos, ◌+ℤ◌, is_pos, pos_part, if◌then◌else◌,
}
use go_espn_api.Scheduler.Jobs.{Job, register, register_nhl, run_once_espn, run_once_nhl}

pub record Services : Type 0 where
  pub espn : Bool
  pub nhl : Bool

-- A connection is known by its address; `none` is nil.
pub record Connection : Type 0 where
  pub read : Option ℕ
  pub write : Option ℕ

-- What the worker does, in order.
pub data Action : Type 0 where
  run_job : Job → Action
  close : ℕ → Action

-- Run: the jobs on the cron when it starts.
unfoldable pub registered : Services → List (Job × ℕ)
registered s = (if s.espn then register else []) ++ (if s.nhl then register_nhl else [])

abbrev close_read : Option ℕ → List Action
close_read none = []
close_read (some r) = close r ∷ []

abbrev close_write : Option ℕ → Option ℕ → List Action
close_write none read = []
close_write (some w) none = close w ∷ []
close_write (some w) (some r) = if w == r then [] else close w ∷ []

-- closeDB.
unfoldable pub close_db : Option Connection → List Action
close_db none = []
close_db (some c) = close_read c.read ++ close_write c.write c.read

-- RunOnce.
unfoldable pub run_once : Services → Option Connection → List Action
unfolding close_db
run_once s db =
    if not s.espn && not s.nhl
    then []
    else (if s.espn then map run_job run_once_espn else [])
      ++ ((if s.nhl then map run_job run_once_nhl else []) ++ close_db db)

abbrev pub default_drain_seconds : ℕ
default_drain_seconds = 30

-- drainTimeout, in seconds; the periods are configured ints.
unfoldable pub drain_timeout : ℤ → ℤ → ℕ
unfolding ◌+ℤ◌
drain_timeout grace cleanup =
    let seconds = grace +ℤ cleanup in
    if is_pos seconds then pos_part seconds else default_drain_seconds
