-- ===== src/Reads/Filters/Laws.antt =====
-- Whatever a client filters by, the WHERE clause names no parameter that the query has no value for.
use go_espn_api.Prelude.{◌≡◌, refl, List, [], Bytes, codes, All, Bool-cases, inl, inr}
use go_espn_api.Reads.Sql.{Condition, where_text, args_of}
use go_espn_api.Reads.Sql.Laws.{
  IsNamed, IsBound, params, names, All-append, where_text-IsBound, when_text-IsNamed,
  when_search-IsNamed, when_number-IsNamed, when_flag-IsNamed,
}
use go_espn_api.Reads.Filters.{
  EventFilter, event_conditions, league_list_conditions, TeamFilter, team_conditions, NewsFilter,
  news_conditions, InjuryFilter, injury_conditions, TransactionFilter, transaction_conditions,
  AthleteStatsFilter, athlete_stats_conditions, GameFilter, game_conditions, StatsFilter,
  stats_conditions, PlayerFilter, player_conditions, StandingFilter, standing_conditions,
  NhlTeamFilter, nhl_team_conditions, is_digits, all_digits, season_condition,
}

-- A filter of one of the lists.
pub data ListFilter : Type 0 where
  leagues : Bytes → ListFilter
  events : EventFilter → ListFilter
  teams : TeamFilter → ListFilter
  news : NewsFilter → ListFilter
  injuries : InjuryFilter → ListFilter
  transactions : TransactionFilter → ListFilter
  athlete_stats : AthleteStatsFilter → ListFilter
  games : GameFilter → ListFilter
  stats : StatsFilter → ListFilter
  players : PlayerFilter → ListFilter
  standings : StandingFilter → ListFilter
  nhl_teams : NhlTeamFilter → ListFilter

-- Its conditions.
abbrev pub conditions : ListFilter → List Condition
conditions (leagues sport) = league_list_conditions sport
conditions (events f) = event_conditions f
conditions (teams f) = team_conditions f
conditions (news f) = news_conditions f
conditions (injuries f) = injury_conditions f
conditions (transactions f) = transaction_conditions f
conditions (athlete_stats f) = athlete_stats_conditions f
conditions (games f) = game_conditions f
conditions (stats f) = stats_conditions f
conditions (players f) = player_conditions f
conditions (standings f) = standing_conditions f
conditions (nhl_teams f) = nhl_team_conditions f

-- Not a filter of the news by their first day, whose clause has a cast written with two colons.
abbrev pub HasNoCast : ListFilter → Type 0
HasNoCast (news f) = f.date_from ≡ []
HasNoCast _ = Unit

season_condition-IsNamed : (s : Bytes) → All IsNamed (season_condition s)
unfolding all_digits names
season_condition-IsNamed s = elim (Bool-cases (is_digits s)) [
  | inl y ↦ rw y (when_text-IsNamed s (codes "season") (codes "a.season_year = :season") (refl, tt))
  | inr n ↦ rw n tt
]

league_list_conditions-IsNamed : (sport : Bytes) → All IsNamed (league_list_conditions sport)
unfolding league_list_conditions names
league_list_conditions-IsNamed sport = when_text-IsNamed sport _ _ (refl, tt)

event_conditions-IsNamed : (f : EventFilter) → All IsNamed (event_conditions f)
unfolding event_conditions names
event_conditions-IsNamed f = All-append IsNamed _ _ (when_text-IsNamed f.sport _ _ (refl, tt)) (
    All-append IsNamed _ _ (when_text-IsNamed f.league _ _ (refl, tt)) (
      All-append IsNamed _ _ (when_text-IsNamed f.date _ _ (refl, tt)) (
        All-append IsNamed _ _ (when_text-IsNamed f.date_from _ _ (refl, tt)) (
          All-append IsNamed _ _ (when_text-IsNamed f.date_to _ _ (refl, tt)) (
            All-append IsNamed _ _ (when_text-IsNamed f.status _ _ (refl, tt)) (
              All-append IsNamed _ _ (when_number-IsNamed f.season_year _ _ (refl, tt)) (
                All-append IsNamed _ _ (when_number-IsNamed f.season_type _ _ (refl, tt)) (
                  All-append IsNamed _ _ (when_text-IsNamed f.team _ _ (refl, (refl, tt)))
                    (when_search-IsNamed f.search _ (refl, (refl, tt)))))))))))

team_conditions-IsNamed : (f : TeamFilter) → All IsNamed (team_conditions f)
unfolding team_conditions names
team_conditions-IsNamed f = (
  refl,
  All-append IsNamed _ _ (when_text-IsNamed f.sport _ _ (refl, tt)) (
      All-append IsNamed _ _ (when_text-IsNamed f.league _ _ (refl, tt)) (
        All-append IsNamed _ _ (when_flag-IsNamed f.is_active _ _ (refl, tt)) (
          All-append IsNamed _ _ (when_text-IsNamed f.abbreviation _ _ (refl, tt))
            (when_search-IsNamed f.search _ (refl, (refl, (refl, (refl, tt)))))))),
)

news_conditions-IsNamed : (f : NewsFilter) → f.date_from ≡ [] → All IsNamed (news_conditions f)
unfolding news_conditions names
news_conditions-IsNamed f h = All-append IsNamed _ _ (when_text-IsNamed f.sport _ _ (refl, tt)) (
    All-append IsNamed _ _ (when_text-IsNamed f.league _ _ (refl, tt))
      (All-append IsNamed _ _ (rw h tt) (when_search-IsNamed f.search _ (refl, (refl, tt)))))

injury_conditions-IsNamed : (f : InjuryFilter) → All IsNamed (injury_conditions f)
unfolding injury_conditions names
injury_conditions-IsNamed f = All-append IsNamed _ _ (when_text-IsNamed f.sport _ _ (refl, tt)) (
    All-append IsNamed _ _ (when_text-IsNamed f.league _ _ (refl, tt)) (
      All-append IsNamed _ _ (when_text-IsNamed f.status _ _ (refl, tt)) (
        All-append IsNamed _ _ (when_text-IsNamed f.team _ _ (refl, tt))
          (when_search-IsNamed f.search _ (refl, (refl, (refl, tt)))))))

transaction_conditions-IsNamed : (f : TransactionFilter) → All IsNamed (transaction_conditions f)
unfolding transaction_conditions names
transaction_conditions-IsNamed f =
    All-append IsNamed _ _ (when_text-IsNamed f.sport _ _ (refl, tt)) (
      All-append IsNamed _ _ (when_text-IsNamed f.league _ _ (refl, tt)) (
        All-append IsNamed _ _ (when_text-IsNamed f.date_from _ _ (refl, tt))
          (when_search-IsNamed f.search _ (refl, (refl, (refl, tt))))))

athlete_stats_conditions-IsNamed :
    (f : AthleteStatsFilter) → All IsNamed (athlete_stats_conditions f)
unfolding athlete_stats_conditions names all_digits
athlete_stats_conditions-IsNamed f =
    All-append IsNamed _ _ (when_text-IsNamed f.sport _ _ (refl, tt)) (
      All-append IsNamed _ _ (when_text-IsNamed f.league _ _ (refl, tt)) (
        All-append IsNamed _ _ (season_condition-IsNamed f.season) (
          All-append IsNamed _ _ (when_text-IsNamed f.athlete_espn_id _ _ (refl, tt))
            (when_search-IsNamed f.search _ (refl, tt)))))

game_conditions-IsNamed : (f : GameFilter) → All IsNamed (game_conditions f)
unfolding game_conditions names
game_conditions-IsNamed f = All-append IsNamed _ _ (when_text-IsNamed f.season _ _ (refl, tt)) (
    All-append IsNamed _ _ (when_number-IsNamed f.game_type _ _ (refl, tt))
      (when_text-IsNamed f.status _ _ (refl, tt)))

stats_conditions-IsNamed : (f : StatsFilter) → All IsNamed (stats_conditions f)
unfolding stats_conditions names
stats_conditions-IsNamed f = when_text-IsNamed f.season _ _ (refl, tt)

player_conditions-IsNamed : (f : PlayerFilter) → All IsNamed (player_conditions f)
unfolding player_conditions names
player_conditions-IsNamed f = (refl, when_search-IsNamed f.search _ (refl, (refl, (refl, tt))))

standing_conditions-IsNamed : (f : StandingFilter) → All IsNamed (standing_conditions f)
unfolding standing_conditions names
standing_conditions-IsNamed f = when_text-IsNamed f.date _ _ (refl, tt)

nhl_team_conditions-IsNamed : (f : NhlTeamFilter) → All IsNamed (nhl_team_conditions f)
unfolding nhl_team_conditions names
nhl_team_conditions-IsNamed f = (refl, when_search-IsNamed f.search _ (refl, (refl, (refl, tt))))

conditions-IsNamed : (f : ListFilter) → HasNoCast f → All IsNamed (conditions f)
conditions-IsNamed (leagues sport) h = league_list_conditions-IsNamed sport
conditions-IsNamed (events f) h = event_conditions-IsNamed f
conditions-IsNamed (teams f) h = team_conditions-IsNamed f
conditions-IsNamed (news f) h = news_conditions-IsNamed f h
conditions-IsNamed (injuries f) h = injury_conditions-IsNamed f
conditions-IsNamed (transactions f) h = transaction_conditions-IsNamed f
conditions-IsNamed (athlete_stats f) h = athlete_stats_conditions-IsNamed f
conditions-IsNamed (games f) h = game_conditions-IsNamed f
conditions-IsNamed (stats f) h = stats_conditions-IsNamed f
conditions-IsNamed (players f) h = player_conditions-IsNamed f
conditions-IsNamed (standings f) h = standing_conditions-IsNamed f
conditions-IsNamed (nhl_teams f) h = nhl_team_conditions-IsNamed f

-- Of each of the lists that have filters, whatever a client filters by, but for the news filtered by
-- their first day: every parameter that the text of the WHERE clause names has a value among the
-- arguments.
pub conditions-IsBound :
    (f : ListFilter)
    → HasNoCast f
    → All (IsBound (args_of (conditions f))) (params (where_text (conditions f)))
conditions-IsBound f h = where_text-IsBound (conditions f) (conditions-IsNamed f h)
