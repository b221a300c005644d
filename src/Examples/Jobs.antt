-- ===== src/Examples/Jobs.antt =====
-- The jobs, the worker and the configuration at concrete inputs.
use go_espn_api.Prelude.{
  ℕ, ◌+◌, ◌≡◌, ◌≢◌, refl, arith, true, false, ◌&&◌, ◌||◌, some, List, [], ◌∷◌, ◌++◌, Bytes, codes,
  length, sum_of, if◌then◌else◌, trim_space,
}
use go_espn_api.Calendar.{Date, day_before}
use go_espn_api.Config.{parse_ingest_leagues}
use go_espn_api.Config.Laws.{Parsed, parse-entry, parse_ingest_leagues_lem}
use go_espn_api.Scheduler.Fanout.{WorkUnit}
use go_espn_api.Scheduler.Jobs.{Scheduler, StuckEventRef, scoreboard_units, unstick_units}
use go_espn_api.Scheduler.Jobs.Laws.{
  scoped, count, is_wanted, scoreboard_units-sum, unstick_units-once,
}
use go_espn_api.Scheduler.Worker.{Connection, run_once}
use go_espn_api.Scheduler.Worker.Laws.{closings, holds, run_once-close}

abbrev new_year : Date
new_year = record { year = 2024; month = 1; day = 1 }

abbrev one_league : Scheduler
one_league = record {
  leagues = record { sport = codes "football"; league = codes "nfl" } ∷ [];
  concurrency = 4;
}

abbrev league_size : WorkUnit → ℕ
league_size u = length u.league

scoreboard_units-sum_example :
    sum_of league_size (scoreboard_units one_league new_year)
    ≡ sum_of
        (λ lg. league_size (scoped lg new_year) + league_size (scoped lg (day_before new_year)))
        one_league.leagues
scoreboard_units-sum_example = scoreboard_units-sum league_size one_league new_year

abbrev stuck : StuckEventRef
stuck = record { sport_slug = codes "football"; league_slug = codes "nfl"; date = new_year }

abbrev wanted : WorkUnit
wanted = record { sport = codes "football"; league = codes "nfl"; date = codes "20231231" }

unstick_units-once_example :
    count wanted (unstick_units (stuck ∷ stuck ∷ []))
    ≡ (if is_wanted wanted (stuck ∷ stuck ∷ []) then 1 else 0)
unstick_units-once_example = unstick_units-once wanted (stuck ∷ stuck ∷ [])

abbrev raw_leagues : List Bytes
raw_leagues = codes " football : nfl " ∷ codes "soccer" ∷ []

parse_ingest_leagues_lem_example : Parsed raw_leagues (parse_ingest_leagues raw_leagues)
parse_ingest_leagues_lem_example = parse_ingest_leagues_lem raw_leagues

sport_not_empty : codes "mma" ≢ []
sport_not_empty e = cc

league_not_empty : codes "ufc" ≢ []
league_not_empty e = cc

parse-entry_example :
    parse_ingest_leagues (raw_leagues ++ (codes "mma" ++ b':' ∷ codes "ufc") ∷ [])
    ≡ parse_ingest_leagues raw_leagues
      ++ record { sport = codes "mma"; league = codes "ufc" } ∷ parse_ingest_leagues []
unfolding trim_space
parse-entry_example =
    parse-entry raw_leagues [] (codes "mma") (codes "ufc")
      ((λ e. omega arith), ((λ e. omega arith), ((λ e. omega arith), tt))) refl refl sport_not_empty
      league_not_empty

abbrev shared : Connection
shared = record { read = some 1; write = some 1 }

run_once-close_example :
    closings 1 (run_once (record { espn = true; nhl = false }) (some shared))
    ≡ (if (true || false) && (holds shared.read 1 || holds shared.write 1) then 1 else 0)
run_once-close_example = run_once-close (record { espn = true; nhl = false }) shared 1
