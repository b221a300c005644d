-- ===== src/Ingest/Db.antt =====
-- The rows that the ingest services write, and what lies outside of them.
--
-- Instants of package time are numbers. A bigint key is a number.
pub mod Keys
use go_espn_api.Prelude.{
  ℕ, Bool, ◌&&◌, Option, List, Bytes, ℤ, bytes_eq, ◌==◌, if◌then◌else◌, is_empty,
}
use go_espn_api.Ingest.Json.{Value, Map, Float}
use go_espn_api.Ingest.Parse.{LeagueMeta, Status}
use go_espn_api.Ingest.Store.{Table}

-- NewsArticle of internal/domains/news/model, without its id.
pub record NewsArticle : Type 0 where
  pub espn_id : Bytes
  pub headline : Bytes
  pub description : Bytes
  pub story : Bytes
  pub published : Option ℕ
  pub last_modified : Option ℕ
  pub type : Bytes
  pub league_id : ℕ
  pub categories : Bytes
  pub images : Bytes
  pub links : Bytes
  pub raw_data : Bytes

-- Injury of internal/domains/injury/model: the fields that parseInjury and IngestInjuries set.
pub record Injury : Type 0 where
  pub league_id : ℕ
  pub team_id : Option ℕ
  pub athlete_espn_id : Bytes
  pub athlete_name : Bytes
  pub position : Bytes
  pub status : Bytes
  pub status_display : Bytes
  pub description : Bytes
  pub injury_type : Bytes
  pub raw_data : Bytes

-- Transaction of internal/domains/transaction/model: the fields that are set.
pub record Transaction : Type 0 where
  pub league_id : ℕ
  pub team_id : Option ℕ
  pub espn_id : Bytes
  pub date : Option ℕ
  pub description : Bytes
  pub type : Bytes
  pub athlete_name : Bytes
  pub athlete_espn_id : Bytes
  pub raw_data : Bytes

-- Team of internal/domains/team/model: the fields that parseTeam sets, without those of its key.
pub record Team : Type 0 where
  pub uid : Bytes
  pub slug : Bytes
  pub abbreviation : Bytes
  pub display_name : Bytes
  pub short_display_name : Bytes
  pub name : Bytes
  pub nickname : Bytes
  pub location : Bytes
  pub color : Bytes
  pub alternate_color : Bytes
  pub is_active : Bool
  pub is_all_star : Bool
  pub logos : Bytes
  pub links : Bytes
  pub raw_data : Bytes

-- NHLTeam of internal/domains/nhlteam/model, without its id.
pub record NhlTeam : Type 0 where
  pub team_id : Bytes
  pub abbreviation : Bytes
  pub name : Bytes
  pub full_name : Bytes
  pub franchise_id : Bytes
  pub is_active : Bool
  pub raw_data : Bytes

-- Venue of internal/domains/venue/model, without its key.
pub record Venue : Type 0 where
  pub name : Bytes
  pub city : Bytes
  pub state : Bytes
  pub country : Bytes
  pub is_indoor : Bool
  pub capacity : Option ℤ
  pub raw_data : Bytes

-- Event of internal/domains/event/model, without the columns of its key.
pub record Event : Type 0 where
  pub venue_id : Option ℕ
  pub uid : Bytes
  pub date : ℕ
  pub name : Bytes
  pub short_name : Bytes
  pub season_year : ℤ
  pub season_type : ℤ
  pub season_slug : Bytes
  pub week : Option ℤ
  pub status : Status
  pub status_detail : Bytes
  pub clock : Bytes
  pub period : Option ℤ
  pub attendance : Option ℤ
  pub broadcasts : Bytes
  pub links : Bytes
  pub raw_data : Bytes

-- Competitor of internal/domains/competitor/model.
pub record Competitor : Type 0 where
  pub event_id : ℕ
  pub team_id : ℕ
  pub home_away : Bytes
  pub score : Bytes
  pub winner : Option Bool
  pub line_scores : Bytes
  pub records : Bytes
  pub statistics : Bytes
  pub leaders : Bytes
  pub order : ℕ
  pub raw_data : Bytes

-- NHLPlayer of internal/domains/nhlplayer/model: the fields that parseNHLPlayer sets.
pub record NhlPlayer : Type 0 where
  pub first_name : Bytes
  pub last_name : Bytes
  pub full_name : Bytes
  pub sweater_number : Bytes
  pub position : Bytes
  pub current_team_id : Option ℕ
  pub is_active : Bool
  pub headshot_url : Bytes
  pub raw_data : Bytes

-- NHLStanding of internal/domains/nhlstanding/model, without the columns of its key.
pub record NhlStanding : Type 0 where
  pub games_played : ℤ
  pub wins : ℤ
  pub losses : ℤ
  pub ot_losses : ℤ
  pub points : ℤ
  pub point_pct : Option Float
  pub division_name : Bytes
  pub conference_name : Bytes
  pub raw_data : Bytes

-- The keys of the unique indexes over two columns.
abbrev pub ScopedKey : Type 0
ScopedKey = ℕ × Bytes

unfoldable pub scoped_eq : ScopedKey → ScopedKey → Bool
scoped_eq (l, s) (m, t) = l == m && bytes_eq s t

-- The key of nhl_standings: a team and a date.
abbrev pub DatedKey : Type 0
DatedKey = ℕ × ℕ

unfoldable pub dated_eq : DatedKey → DatedKey → Bool
dated_eq (t, d) (u, e) = t == u && d == e

pub record Db : Type 0 where
  -- slug to name
  pub sports : Table Bytes Bytes
  -- sport and slug to name and abbreviation
  pub leagues : Table ScopedKey LeagueMeta
  -- league and ESPN id
  pub teams : Table ScopedKey Team
  -- ESPN id
  pub news : Table Bytes NewsArticle
  -- in the order of insertion
  pub injuries : List Injury
  -- the rows with their ids; the key is the league and the ESPN id, not unique where that is blank
  pub transactions : Table ScopedKey Transaction
  -- team id
  pub nhl_teams : Table Bytes NhlTeam
  -- ESPN id
  pub venues : Table Bytes Venue
  -- league and ESPN id
  pub events : Table ScopedKey Event
  -- in the order of insertion
  pub competitors : List Competitor
  -- player id
  pub nhl_players : Table Bytes NhlPlayer
  -- team and date
  pub nhl_standings : Table DatedKey NhlStanding

-- What the services call: the database's refusals, the API clients (`none` is an error), the
-- decoder into a map[string]any, json.Marshal, package time (the current instant,
-- midnight of its day in UTC, the year of an instant), the registries, and what LIMIT 1 without an
-- order gives of the ids that fit (`any_id`).
pub record Env : Type 0 where
  pub fails : ℕ → Bool
  pub get_news : Bytes → Bytes → ℕ → Option Bytes
  pub get_league_injuries : Bytes → Bytes → Option Bytes
  pub get_league_transactions : Bytes → Bytes → Option Bytes
  pub get_teams : Bytes → Bytes → Option Bytes
  pub get_nhl_teams : Option Bytes
  pub get_scoreboard : Bytes → Bytes → Bytes → Option Bytes
  pub get_standings : Option Bytes
  pub get_roster : Bytes → Option Bytes
  pub any_id : List ℕ → Option ℕ
  pub unmarshal : Bytes → Option Map
  pub marshal : Value → Option Bytes
  pub parse_time : Bytes → Bytes → Option ℕ
  pub now : ℕ
  pub today : ℕ
  pub year_of : ℕ → ℤ
  pub sport_names : Bytes → Option Bytes
  pub league_info : Bytes → Option LeagueMeta

-- dbx.JSONOrDefault.
unfoldable pub json_or_default : Bytes → Bytes → Bytes
json_or_default raw def = if is_empty raw then def else raw
