-- ===== src/Scheduler/Jobs.antt =====
-- The jobs of internal/scheduler/scheduler.go: which units of work each job fans out over, which
-- ingest call each unit makes, and the order of the one-shot runs.
pub mod Laws
use go_espn_api.Prelude.{
  ℕ, zero, suc, ◌+◌, ◌*◌, Bool, true, false, ◌&&◌, not, Option, none, some, List, [], ◌∷◌, ◌++◌,
  Bytes, bytes_eq, ltb, length, if◌then◌else◌,
}
use go_espn_api.Calendar.{Date, day_before, format_compact}
use go_espn_api.Config.{IngestLeague}
use go_espn_api.Config
use go_espn_api.Ingest.Result.{IngestionResult}
use go_espn_api.Scheduler.Fanout.{WorkUnit, JobSummary, no_summary}

-- The constants of the file; the intervals in seconds.
abbrev pub job_timeout : ℕ
job_timeout = 25 * 60

abbrev pub news_limit : ℕ
news_limit = 50

abbrev pub unstick_lookback_days : ℕ
unstick_lookback_days = 7

abbrev pub unstick_max_events : ℕ
unstick_max_events = 200

pub data Job : Type 0 where
  scoreboards unstick news injuries transactions teams : Job
  nhl_teams nhl_rosters nhl_standings : Job

abbrev pub interval : Job → ℕ
interval scoreboards = 5 * 60
interval unstick = 10 * 60
interval news = 30 * 60
interval injuries = 4 * 3600
interval transactions = 6 * 3600
interval teams = 7 * 24 * 3600
interval nhl_teams = 7 * 24 * 3600
interval nhl_rosters = 24 * 3600
interval nhl_standings = 3600

pub record Scheduler : Type 0 where
  pub leagues : List IngestLeague
  pub concurrency : ℕ

-- newScheduler; the configured concurrency is an int, `none` stands for a negative one.
unfoldable pub new_scheduler : Option ℕ → List Bytes → Scheduler
new_scheduler none raw = record { leagues = Config.parse_ingest_leagues raw; concurrency = 1 }
new_scheduler (some c) raw = record {
  leagues = Config.parse_ingest_leagues raw;
  concurrency = if ltb c 1 then 1 else c;
}

-- Register and RegisterNHL: the entries that the cron gets, each with its interval.
abbrev entry : Job → Job × ℕ
entry j = (j, interval j)

unfoldable pub register : List (Job × ℕ)
register =
    entry scoreboards
    ∷ entry unstick
    ∷ entry news
    ∷ entry injuries
    ∷ entry transactions
    ∷ entry teams
    ∷ []

unfoldable pub register_nhl : List (Job × ℕ)
register_nhl = entry nhl_teams ∷ entry nhl_rosters ∷ entry nhl_standings ∷ []

-- RunOnceESPN and RunOnceNHL: the jobs in the order in which they are run.
unfoldable pub run_once_espn : List Job
run_once_espn = teams ∷ scoreboards ∷ news ∷ injuries ∷ transactions ∷ []

unfoldable pub run_once_nhl : List Job
run_once_nhl = nhl_teams ∷ nhl_rosters ∷ nhl_standings ∷ []

-- What the job's body does: it returns a summary, or it panics.
pub data Body : Type 0 where
  summary : JobSummary → Body
  panic : Body

-- What one tick does: nothing under a cancelled context, else the body with its panic recovered.
pub data Tick : Type 0 where
  not_started : Tick
  finished : Tick
  recovered : Tick

-- runJob. The summary is dropped.
unfoldable pub run_job : Bool → Body → Tick
run_job true b = not_started
run_job false (summary s) = finished
run_job false panic = recovered

-- The outer loop of runScoreboards, and the inner one over the dates.
for_dates : IngestLeague → List Bytes → List WorkUnit → List WorkUnit
for_dates lg [] units = units
for_dates lg (d ∷ dates) units =
    for_dates lg dates (units ++ record { sport = lg.sport; league = lg.league; date = d } ∷ [])

for_leagues : List IngestLeague → List Bytes → List WorkUnit → List WorkUnit
for_leagues [] dates units = units
for_leagues (lg ∷ leagues) dates units = for_leagues leagues dates (for_dates lg dates units)

-- The units of runScoreboards; `now` is the date of time.Now().UTC().
unfoldable pub scoreboard_units : Scheduler → Date → List WorkUnit
unfolding for_dates for_leagues
scoreboard_units s now =
    for_leagues s.leagues (format_compact now ∷ format_compact (day_before now) ∷ []) []

-- leagueUnits.
league_loop : List IngestLeague → List WorkUnit → List WorkUnit
league_loop [] units = units
league_loop (lg ∷ leagues) units =
    league_loop leagues (units ++ record { sport = lg.sport; league = lg.league; date = [] } ∷ [])

unfoldable pub league_units : Scheduler → List WorkUnit
unfolding league_loop
league_units s = league_loop s.leagues []

-- StuckEventRef of the event repository; its date is that of `r.Date.UTC()`.
pub record StuckEventRef : Type 0 where
  pub sport_slug : Bytes
  pub league_slug : Bytes
  pub date : Date

unfoldable pub unit_eq : WorkUnit → WorkUnit → Bool
unit_eq u v = bytes_eq u.sport v.sport && bytes_eq u.league v.league && bytes_eq u.date v.date

-- A read of the map `seen`.
unfoldable pub is_seen : WorkUnit → List WorkUnit → Bool
unfolding unit_eq
is_seen u [] = false
is_seen u (v ∷ seen) = if unit_eq v u then true else is_seen u seen

-- The variables of the loop of runUnstick.
pub record Buckets : Type 0 where
  pub seen : List WorkUnit
  pub units : List WorkUnit

unfoldable pub bucket : StuckEventRef → Date → WorkUnit
bucket r day = record { sport = r.sport_slug; league = r.league_slug; date = format_compact day }

-- One round of the inner loop.
add_bucket : StuckEventRef → Date → Buckets → Buckets
add_bucket r day b =
    if is_seen (bucket r day) b.seen
    then b
    else record { seen = bucket r day ∷ b.seen; units = b.units ++ bucket r day ∷ [] }

for_refs : List StuckEventRef → Buckets → Buckets
unfolding add_bucket
for_refs [] b = b
for_refs (r ∷ refs) b = for_refs refs (add_bucket r (day_before r.date) (add_bucket r r.date b))

-- The units of runUnstick.
unfoldable pub unstick_units : List StuckEventRef → List WorkUnit
unfolding for_refs
unstick_units refs = (for_refs refs (record { seen = []; units = [] })).units

-- A call of the ingest layer.
pub data IngestCall : Type 0 where
  ingest_scoreboard : Bytes → Bytes → Bytes → IngestCall
  ingest_news : Bytes → Bytes → ℕ → IngestCall
  ingest_injuries : Bytes → Bytes → IngestCall
  ingest_transactions : Bytes → Bytes → IngestCall
  ingest_teams : Bytes → Bytes → IngestCall

-- What a job gives to fanOut, or the summary with which it returns at once.
pub data Plan : Type 0 where
  fan_out : List WorkUnit → (WorkUnit → IngestCall) → Plan
  done : JobSummary → Plan

-- The result of one NHL sync, `none` if it returned an error.
abbrev pub SyncResult : Type 0
SyncResult = Option IngestionResult

-- runNHLJob; the syncer is nil, or it is called and gives its result.
unfoldable pub run_nhl_job : Option SyncResult → JobSummary
run_nhl_job none = no_summary
run_nhl_job (some none) = record { created = 0; updated = 0; errors = 1 }
run_nhl_job (some (some res)) = record {
  created = res.created;
  updated = res.updated;
  errors = res.errors;
}

-- runScoreboards, runUnstick, runNews, runInjuries, runTransactions, runTeams and the three runNHL
-- jobs. `refs` is what StuckEvents returns, `none` an error; `sync` is the result of the NHL syncer.
unfoldable pub run : Scheduler → Date → Option (List StuckEventRef) → Option SyncResult → Job → Plan
run s now refs sync scoreboards =
    fan_out (scoreboard_units s now) (λ u. ingest_scoreboard u.sport u.league u.date)
run s now none sync unstick = done (record { created = 0; updated = 0; errors = 1 })
run s now (some refs) sync unstick =
    fan_out (unstick_units refs) (λ u. ingest_scoreboard u.sport u.league u.date)
run s now refs sync news = fan_out (league_units s) (λ u. ingest_news u.sport u.league news_limit)
run s now refs sync injuries = fan_out (league_units s) (λ u. ingest_injuries u.sport u.league)
run s now refs sync transactions =
    fan_out (league_units s) (λ u. ingest_transactions u.sport u.league)
run s now refs sync teams = fan_out (league_units s) (λ u. ingest_teams u.sport u.league)
run s now refs sync nhl_teams = done (run_nhl_job sync)
run s now refs sync nhl_rosters = done (run_nhl_job sync)
run s now refs sync nhl_standings = done (run_nhl_job sync)
