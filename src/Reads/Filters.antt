-- ===== src/Reads/Filters.antt =====
-- The ListFilter of each of internal/domains/*/repository/repository.go, and the conditions it
-- stands for. The lists of skater and of goalie statistics have the same filter.
pub mod Laws
use go_espn_api.Prelude.{
  ◌≡◌, Bool, true, false, ◌&&◌, Option, List, [], ◌∷◌, ◌++◌, Bytes, codes, ℤ, is_digit,
  if◌then◌else◌,
}
use go_espn_api.Reads.Sql.{
  Condition, plain, when_text, when_search, when_number, when_flag, sport_condition,
  league_condition,
}

-- leagueWhere: the list of leagues filters by the slug of the sport alone.
unfoldable pub league_list_conditions : Bytes → List Condition
league_list_conditions sport = sport_condition sport

pub record EventFilter : Type 0 where
  pub sport : Bytes
  pub league : Bytes
  pub date : Bytes
  pub date_from : Bytes
  pub date_to : Bytes
  pub status : Bytes
  pub season_year : Option ℤ
  pub season_type : Option ℤ
  pub team : Bytes
  pub search : Bytes
  pub ordering : Bytes

unfoldable pub event_conditions : EventFilter → List Condition
event_conditions f =
    sport_condition f.sport
    ++ (league_condition f.league
        ++ (when_text f.date (codes "date_eq") (codes "CAST(e.date AS date) = :date_eq")
            ++ (when_text f.date_from (codes "date_from")
                  (codes "CAST(e.date AS date) >= :date_from")
                ++ (when_text f.date_to (codes "date_to") (codes "CAST(e.date AS date) <= :date_to")
                    ++ (when_text f.status (codes "status") (codes "e.status = :status")
                        ++ (when_number f.season_year (codes "season_year")
                              (codes "e.season_year = :season_year")
                            ++ (when_number f.season_type (codes "season_type")
                                  (codes "e.season_type = :season_type")
                                ++ (when_text f.team (codes "team") (
                                      codes
                                        "EXISTS (\n\t\t\tSELECT 1 FROM competitors tc\n\t\t\tJOIN teams tt ON tt.id = tc.team_id\n\t\t\tWHERE tc.event_id = e.id\n\t\t\t  AND (tt.espn_id = :team OR LOWER(tt.abbreviation) = LOWER(:team)))")
                                    ++ (when_search f.search (
                                        codes
                                          "(e.name ILIKE :search OR e.short_name ILIKE :search)"))))))))))

pub record TeamFilter : Type 0 where
  pub sport : Bytes
  pub league : Bytes
  pub is_active : Option Bool
  pub abbreviation : Bytes
  pub search : Bytes
  pub ordering : Bytes

unfoldable pub team_conditions : TeamFilter → List Condition
team_conditions f =
    (plain (codes "t.is_active = TRUE") ∷ [])
    ++ (sport_condition f.sport
        ++ (league_condition f.league
            ++ (when_flag f.is_active (codes "is_active") (codes "t.is_active = :is_active")
                ++ (when_text f.abbreviation (codes "abbreviation")
                      (codes "LOWER(t.abbreviation) = LOWER(:abbreviation)")
                    ++ (when_search f.search (
                        codes
                          "(t.display_name ILIKE :search OR t.abbreviation ILIKE :search OR t.location ILIKE :search OR t.name ILIKE :search)"))))))

pub record NewsFilter : Type 0 where
  pub sport : Bytes
  pub league : Bytes
  pub date_from : Bytes
  pub search : Bytes
  pub ordering : Bytes

unfoldable pub news_conditions : NewsFilter → List Condition
news_conditions f =
    sport_condition f.sport
    ++ (league_condition f.league
        ++ (when_text f.date_from (codes "date_from") (codes "n.published::date >= :date_from")
            ++ (when_search f.search
                (codes "(n.headline ILIKE :search OR n.description ILIKE :search)"))))

pub record InjuryFilter : Type 0 where
  pub sport : Bytes
  pub league : Bytes
  pub status : Bytes
  pub team : Bytes
  pub search : Bytes
  pub ordering : Bytes

unfoldable pub injury_conditions : InjuryFilter → List Condition
injury_conditions f =
    sport_condition f.sport
    ++ (league_condition f.league
        ++ (when_text f.status (codes "status") (codes "LOWER(i.status) = LOWER(:status)")
            ++ (when_text f.team (codes "team") (codes "LOWER(t.abbreviation) = LOWER(:team)")
                ++ (when_search f.search (
                    codes
                      "(i.athlete_name ILIKE :search OR i.injury_type ILIKE :search OR i.description ILIKE :search)")))))

pub record TransactionFilter : Type 0 where
  pub sport : Bytes
  pub league : Bytes
  pub date_from : Bytes
  pub search : Bytes
  pub ordering : Bytes

unfoldable pub transaction_conditions : TransactionFilter → List Condition
transaction_conditions f =
    sport_condition f.sport
    ++ (league_condition f.league
        ++ (when_text f.date_from (codes "date_from") (codes "tr.date >= :date_from")
            ++ (when_search f.search (
                codes
                  "(tr.description ILIKE :search OR tr.athlete_name ILIKE :search OR tr.type ILIKE :search)"))))

pub record AthleteStatsFilter : Type 0 where
  pub sport : Bytes
  pub league : Bytes
  pub season : Bytes
  pub athlete_espn_id : Bytes
  pub search : Bytes
  pub ordering : Bytes

unfoldable pub all_digits : Bytes → Bool
all_digits [] = true
all_digits (c ∷ s) = is_digit c && all_digits s

-- isDigits.
abbrev pub is_digits : Bytes → Bool
unfolding all_digits
is_digits [] = false
is_digits (c ∷ s) = all_digits (c ∷ s)

-- The season counts only where it consists of digits.
abbrev pub season_condition : Bytes → List Condition
unfolding all_digits
season_condition s =
    if is_digits s then when_text s (codes "season") (codes "a.season_year = :season") else []

unfoldable pub athlete_stats_conditions : AthleteStatsFilter → List Condition
unfolding all_digits
athlete_stats_conditions f =
    sport_condition f.sport
    ++ (league_condition f.league
        ++ (season_condition f.season
            ++ (when_text f.athlete_espn_id (codes "athlete_espn_id")
                  (codes "a.athlete_espn_id = :athlete_espn_id")
                ++ (when_search f.search (codes "a.athlete_name ILIKE :search")))))

pub record GameFilter : Type 0 where
  pub season : Bytes
  pub game_type : Option ℤ
  pub status : Bytes
  pub ordering : Bytes

unfoldable pub game_conditions : GameFilter → List Condition
game_conditions f =
    when_text f.season (codes "season") (codes "season = :season")
    ++ (when_number f.game_type (codes "game_type") (codes "game_type = :game_type")
        ++ (when_text f.status (codes "status") (codes "status = :status")))

pub record StatsFilter : Type 0 where
  pub season : Bytes
  pub ordering : Bytes

unfoldable pub stats_conditions : StatsFilter → List Condition
stats_conditions f = when_text f.season (codes "season") (codes "season = :season")

pub record PlayerFilter : Type 0 where
  pub search : Bytes
  pub ordering : Bytes

unfoldable pub player_conditions : PlayerFilter → List Condition
player_conditions f =
    (plain (codes "is_active = TRUE") ∷ [])
    ++ (when_search f.search
        (codes "(first_name ILIKE :search OR last_name ILIKE :search OR full_name ILIKE :search)"))

pub record StandingFilter : Type 0 where
  pub date : Bytes
  pub ordering : Bytes

unfoldable pub standing_conditions : StandingFilter → List Condition
standing_conditions f = when_text f.date (codes "date") (codes "date = :date")

pub record NhlTeamFilter : Type 0 where
  pub search : Bytes
  pub ordering : Bytes

unfoldable pub nhl_team_conditions : NhlTeamFilter → List Condition
nhl_team_conditions f =
    (plain (codes "is_active = TRUE") ∷ [])
    ++ (when_search f.search
        (codes "(name ILIKE :search OR full_name ILIKE :search OR abbreviation ILIKE :search)"))
