-- ===== src/Reads/Requests.antt =====
-- The filters that the list handlers of internal/handlers read from the URL. The lists of skater and
-- of goalie statistics read the same one.
pub mod Laws
use go_espn_api.Prelude.{
  Bool, true, false, ◌||◌, Option, none, some, Bytes, codes, bytes_eq, if◌then◌else◌,
}
use go_espn_api.Http.Pages.{Query, query_get}
use go_espn_api.Reads.Events.{parse_int_ptr}
use go_espn_api.Reads.Filters.{
  TeamFilter, NewsFilter, InjuryFilter, TransactionFilter, AthleteStatsFilter, GameFilter,
  StatsFilter, PlayerFilter, StandingFilter, NhlTeamFilter,
}

-- parseBoolPtr.
unfoldable pub parse_bool_ptr : Bytes → Option Bool
unfolding bytes_eq
parse_bool_ptr raw =
    if bytes_eq raw (codes "true") || (bytes_eq raw (codes "True") || bytes_eq raw (codes "1"))
    then some true
    else if bytes_eq raw (codes "false")
        || (bytes_eq raw (codes "False") || bytes_eq raw (codes "0"))
    then some false
    else none

unfoldable pub team_filter : Query → TeamFilter
unfolding query_get parse_bool_ptr
team_filter q = record {
  sport = query_get (codes "sport") q;
  league = query_get (codes "league") q;
  is_active = parse_bool_ptr (query_get (codes "is_active") q);
  abbreviation = query_get (codes "abbreviation") q;
  search = query_get (codes "search") q;
  ordering = query_get (codes "ordering") q;
}

unfoldable pub news_filter : Query → NewsFilter
unfolding query_get
news_filter q = record {
  sport = query_get (codes "sport") q;
  league = query_get (codes "league") q;
  date_from = query_get (codes "date_from") q;
  search = query_get (codes "search") q;
  ordering = query_get (codes "ordering") q;
}

unfoldable pub injury_filter : Query → InjuryFilter
unfolding query_get
injury_filter q = record {
  sport = query_get (codes "sport") q;
  league = query_get (codes "league") q;
  status = query_get (codes "status") q;
  team = query_get (codes "team") q;
  search = query_get (codes "search") q;
  ordering = query_get (codes "ordering") q;
}

unfoldable pub transaction_filter : Query → TransactionFilter
unfolding query_get
transaction_filter q = record {
  sport = query_get (codes "sport") q;
  league = query_get (codes "league") q;
  date_from = query_get (codes "date_from") q;
  search = query_get (codes "search") q;
  ordering = query_get (codes "ordering") q;
}

unfoldable pub athlete_stats_filter : Query → AthleteStatsFilter
unfolding query_get
athlete_stats_filter q = record {
  sport = query_get (codes "sport") q;
  league = query_get (codes "league") q;
  season = query_get (codes "season") q;
  athlete_espn_id = query_get (codes "athlete_espn_id") q;
  search = query_get (codes "search") q;
  ordering = query_get (codes "ordering") q;
}

unfoldable pub game_filter : Query → GameFilter
unfolding query_get parse_int_ptr
game_filter q = record {
  season = query_get (codes "season") q;
  game_type = parse_int_ptr (query_get (codes "game_type") q);
  status = query_get (codes "status") q;
  ordering = query_get (codes "ordering") q;
}

unfoldable pub stats_filter : Query → StatsFilter
unfolding query_get
stats_filter q = record {
  season = query_get (codes "season") q;
  ordering = query_get (codes "ordering") q;
}

unfoldable pub player_filter : Query → PlayerFilter
unfolding query_get
player_filter q = record {
  search = query_get (codes "search") q;
  ordering = query_get (codes "ordering") q;
}

unfoldable pub standing_filter : Query → StandingFilter
unfolding query_get
standing_filter q = record {
  date = query_get (codes "date") q;
  ordering = query_get (codes "ordering") q;
}

unfoldable pub nhl_team_filter : Query → NhlTeamFilter
unfolding query_get
nhl_team_filter q = record {
  search = query_get (codes "search") q;
  ordering = query_get (codes "ordering") q;
}
