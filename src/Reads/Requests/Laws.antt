-- ===== src/Reads/Requests/Laws.antt =====
-- Behind the links of a list its filter stays.
use go_espn_api.Prelude.{◌≡◌, refl, false, Bytes, codes, bytes_eq, bytes_eq_iff, ℤ, arith}
use go_espn_api.Http.Pages.{Query, PageRequest, query_get, page_url, page_param}
use go_espn_api.Http.Pages.Laws.{follow, page_url-get}
use go_espn_api.Reads.Events.{event_filter}
use go_espn_api.Reads.Filters.Laws.{
  ListFilter, events, teams, news, injuries, transactions, athlete_stats, games, stats, players,
  standings, nhl_teams,
}
use go_espn_api.Reads.Requests.{
  team_filter, news_filter, injury_filter, transaction_filter, athlete_stats_filter, game_filter,
  stats_filter, player_filter, standing_filter, nhl_team_filter,
}

-- The lists.
pub data Listed : Type 0 where
  of_events : Listed
  of_teams : Listed
  of_news : Listed
  of_injuries : Listed
  of_transactions : Listed
  of_athlete_stats : Listed
  of_games : Listed
  of_stats : Listed
  of_players : Listed
  of_standings : Listed
  of_nhl_teams : Listed

-- The filter that a list reads from a URL.
abbrev pub filter_of : Listed → Query → ListFilter
unfolding event_filter team_filter news_filter injury_filter transaction_filter athlete_stats_filter
    game_filter stats_filter player_filter standing_filter nhl_team_filter
filter_of of_events q = events (event_filter q)
filter_of of_teams q = teams (team_filter q)
filter_of of_news q = news (news_filter q)
filter_of of_injuries q = injuries (injury_filter q)
filter_of of_transactions q = transactions (transaction_filter q)
filter_of of_athlete_stats q = athlete_stats (athlete_stats_filter q)
filter_of of_games q = games (game_filter q)
filter_of of_stats q = stats (stats_filter q)
filter_of of_players q = players (player_filter q)
filter_of of_standings q = standings (standing_filter q)
filter_of of_nhl_teams q = nhl_teams (nhl_team_filter q)

module _ (r : PageRequest) (n : ℤ) where
  kept :
      (j : Bytes)
      → bytes_eq page_param j ≡ false
      → query_get j (follow (page_url r n)).query ≡ query_get j r.query
  unfolding follow
  kept j e = page_url-get r n j (ground (arith, bytes_eq_iff page_param j))

  -- Whatever page a link of a list leads to, the list has the filter there that it has here.
  pub filter_of-page_url :
      (k : Listed) → filter_of k (follow (page_url r n)).query ≡ filter_of k r.query
  unfolding filter_of event_filter team_filter news_filter injury_filter transaction_filter
      athlete_stats_filter game_filter stats_filter player_filter standing_filter nhl_team_filter
      bytes_eq
  filter_of-page_url of_events =
      rw
        (
          kept (codes "sport") refl,
          kept (codes "league") refl,
          kept (codes "date") refl,
          kept (codes "date_from") refl,
          kept (codes "date_to") refl,
          kept (codes "status") refl,
          kept (codes "season_year") refl,
          kept (codes "season_type") refl,
          kept (codes "team") refl,
          kept (codes "search") refl,
          kept (codes "ordering") refl,
        )
        refl
  filter_of-page_url of_teams =
      rw
        (
          kept (codes "sport") refl,
          kept (codes "league") refl,
          kept (codes "is_active") refl,
          kept (codes "abbreviation") refl,
          kept (codes "search") refl,
          kept (codes "ordering") refl,
        )
        refl
  filter_of-page_url of_news =
      rw
        (
          kept (codes "sport") refl,
          kept (codes "league") refl,
          kept (codes "date_from") refl,
          kept (codes "search") refl,
          kept (codes "ordering") refl,
        )
        refl
  filter_of-page_url of_injuries =
      rw
        (
          kept (codes "sport") refl,
          kept (codes "league") refl,
          kept (codes "status") refl,
          kept (codes "team") refl,
          kept (codes "search") refl,
          kept (codes "ordering") refl,
        )
        refl
  filter_of-page_url of_transactions =
      rw
        (
          kept (codes "sport") refl,
          kept (codes "league") refl,
          kept (codes "date_from") refl,
          kept (codes "search") refl,
          kept (codes "ordering") refl,
        )
        refl
  filter_of-page_url of_athlete_stats =
      rw
        (
          kept (codes "sport") refl,
          kept (codes "league") refl,
          kept (codes "season") refl,
          kept (codes "athlete_espn_id") refl,
          kept (codes "search") refl,
          kept (codes "ordering") refl,
        )
        refl
  filter_of-page_url of_games =
      rw
        (
          kept (codes "season") refl,
          kept (codes "game_type") refl,
          kept (codes "status") refl,
          kept (codes "ordering") refl,
        )
        refl
  filter_of-page_url of_stats = rw (kept (codes "season") refl, kept (codes "ordering") refl) refl
  filter_of-page_url of_players = rw (kept (codes "search") refl, kept (codes "ordering") refl) refl
  filter_of-page_url of_standings = rw (kept (codes "date") refl, kept (codes "ordering") refl) refl
  filter_of-page_url of_nhl_teams =
      rw (kept (codes "search") refl, kept (codes "ordering") refl) refl
