-- ===== src/Examples/Feeds.antt =====
-- The scoreboard and the NHL services at concrete inputs.
use go_espn_api.Prelude.{
  ℕ, ◌+◌, ◌%◌, ◌^◌, ◌≡◌, refl, true, some, none, List, [], ◌∷◌, Bytes, codes, bytes_eq, length, map,
}
use go_espn_api.Ingest.Result.{IngestionResult, total_processed}
use go_espn_api.Ingest.Json.{
  Value, Map, str, object, no_member, member, get, mmap, mslice, mstr, mid, nhl_team_abbrev,
}
use go_espn_api.Ingest.Store.{Row, ok, Session, statement, upsert, get_or_create}
use go_espn_api.Ingest.Store.Laws.{value_at}
use go_espn_api.Ingest.Store.Ids.{HasIds, IsExtended}
use go_espn_api.Ingest.Db.{scoped_eq, dated_eq, Db, Env, NhlTeam}
use go_espn_api.Ingest.Resolve.{resolve_sport_league}
use go_espn_api.Ingest.Resolve.Laws.{begun, decoded}
use go_espn_api.Ingest.Feed.{last_put}
use go_espn_api.Ingest.Nhl.{parse_nhl_team, parse_standings_date}
use go_espn_api.Ingest.Nhl.Teams.{nhl_team_put, sync_teams}
use go_espn_api.Ingest.Nhl.Teams.Laws.{Synced, sync_teams_lem}
use go_espn_api.Ingest.Nhl.Standings.{standing_put, sync_standings}
use go_espn_api.Ingest.Nhl.Standings.Laws.{standing_of, sync_standings_lem}
use go_espn_api.Ingest.Nhl.Rosters.{Turn, skipped, synced, panicked, sync_rosters}
use go_espn_api.Ingest.Nhl.Rosters.Laws.{sync_rosters-created}
use go_espn_api.Ingest.Scoreboard.{competition_of, ingest_event, ingest_scoreboard}
use go_espn_api.Ingest.Scoreboard.Competitors.{delete_by_event, create_competitor}
use go_espn_api.Ingest.Scoreboard.Laws.{Board, last_event, ingest_scoreboard_lem}
use go_espn_api.Examples.Ingest.{env, start, no_db, one, football, nfl}

abbrev with_id : Bytes → Value
with_id id = object (member "id" (str id) no_member)

-- A team, a row of the standings, a forward, and an event with a competitor.
abbrev feed : Map
feed = some (
    member "data" (one (with_id (codes "10"))) (
      member "standings" (one (object (member "teamAbbrev" (str (codes "TOR")) no_member))) (
        member "forwards" (one (with_id (codes "8"))) (
          member "events"
            (one (
              object (
                member "id" (str (codes "401")) (
                  member "competitions"
                    (one (
                      object (
                        member "competitors"
                          (one (object (member "team" (with_id (codes "7")) no_member)))
                          no_member)))
                    no_member))))
            no_member))))

abbrev feed_env : Env
feed_env = record env {
  unmarshal = λ body. some feed;
  get_nhl_teams = some [];
  get_standings = some [];
  get_roster = λ team. some [];
}

abbrev toronto : NhlTeam
toronto = record {
  team_id = codes "10";
  abbreviation = codes "TOR";
  name = [];
  full_name = [];
  franchise_id = [];
  is_active = true;
  raw_data = [];
}

abbrev nhl_start : Session Db
nhl_start = record {
  db = record no_db {
    nhl_teams = record {
      next = 2;
      rows = record { id = 1; key = codes "10"; value = toronto } ∷ [];
    };
  };
  clock = 0;
}

abbrev updated_one : IngestionResult
updated_one = record { created = 0; updated = 1; errors = 0; details = [] }

abbrev created_one : IngestionResult
created_one = record { created = 1; updated = 0; errors = 0; details = [] }

sync_teams_lem_example :
    (root : Map) × (decoded feed_env feed_env.get_nhl_teams ≡ some root)
    × Synced feed_env
        (mslice root "data")
        (codes "10")
        nhl_start.db
        updated_one
        (sync_teams feed_env nhl_start).1.db
unfolding sync_teams statement mslice get nhl_team_put parse_nhl_team mid upsert bytes_eq
sync_teams_lem_example = sync_teams_lem feed_env nhl_start updated_one (codes "10") refl

sync_standings_lem_example :
    let d' = (sync_standings feed_env nhl_start).1.db in
    (root : Map) × (decoded feed_env feed_env.get_standings ≡ some root)
    × let rows = mslice root "standings" in
      let date = parse_standings_date feed_env root in
      (total_processed created_one + created_one.errors ≡ length rows)
      × (length d'.nhl_standings.rows
          ≡ length nhl_start.db.nhl_standings.rows + created_one.created)
      × (value_at dated_eq (1, 0) d'.nhl_standings
          ≡ last_put dated_eq
              (1, 0)
              (map (standing_of feed_env nhl_start.db.nhl_teams date) rows)
              (value_at dated_eq (1, 0) nhl_start.db.nhl_standings))
      × (d'.nhl_teams ≡ nhl_start.db.nhl_teams)
unfolding sync_standings statement mslice get standing_put parse_standings_date nhl_team_abbrev
    upsert dated_eq bytes_eq mstr
sync_standings_lem_example = sync_standings_lem feed_env nhl_start created_one (1, 0) refl

abbrev mixed : List (Row Bytes NhlTeam) → List Turn
mixed [] = []
mixed (t ∷ ts) = panicked t ∷ synced t ∷ skipped t ∷ []

sync_rosters-created_example :
    (r : IngestionResult) × ((sync_rosters feed_env mixed nhl_start).0 ≡ ok r)
    × ((length nhl_start.db.nhl_players.rows + r.created) % 2 ^ 64
        ≡ length (sync_rosters feed_env mixed nhl_start).1.db.nhl_players.rows % 2 ^ 64)
sync_rosters-created_example = sync_rosters-created feed_env mixed nhl_start refl

no_events-HasIds : HasIds scoped_eq start.db.events
no_events-HasIds = record { below = λ j i h. cc; apart = λ j k i h g. cc }

ingest_scoreboard_lem_example :
    let d' = (ingest_scoreboard feed_env football nfl [] start).1.db in
    (l : ℕ) × (root : Map) × ((resolve_sport_league feed_env football nfl (begun start)).0 ≡ ok l)
    × (decoded feed_env (feed_env.get_scoreboard football nfl []) ≡ some root)
    × (total_processed created_one + created_one.errors ≡ length (mslice root "events"))
    × (length d'.events.rows ≡ length start.db.events.rows + created_one.created)
    × HasIds scoped_eq d'.events
    × IsExtended scoped_eq start.db.teams d'.teams
    × Board feed_env l
        (1, codes "401")
        (last_event l (1, codes "401") (mslice root "events") none)
        start.db
        d'
unfolding ingest_scoreboard statement mslice get mid mmap upsert get_or_create ingest_event
    competition_of delete_by_event create_competitor
ingest_scoreboard_lem_example =
    ingest_scoreboard_lem feed_env football nfl [] start created_one (1, codes "401")
      no_events-HasIds refl
