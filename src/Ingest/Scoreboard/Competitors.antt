-- ===== src/Ingest/Scoreboard/Competitors.antt =====
-- createCompetitor of internal/ingest/scoreboard.go, over GetOrCreateMinimalTx of the team repository
-- and the statements of the competitor repository.
use go_espn_api.Prelude.{
  ℕ, ◌+◌, ◌==◌, true, false, not, [], ◌∷◌, ◌++◌, Bytes, codes, is_empty, keep_if, if◌then◌else◌,
}
use go_espn_api.Ingest.Json.{
  Value, Map, as_map, get, mid, mstr, mstr_or, mbool_ptr, mscalar_str, mmap, raw_obj, raw_map,
}
use go_espn_api.Ingest.Parse.{home_away_fallback}
use go_espn_api.Ingest.Store.{Tx, statement, get_or_create, ◌>>=◌, pure}
use go_espn_api.Ingest.Db.{Team, Competitor, Db, Env, json_or_default, scoped_eq}

-- The ESPN id of the team of a competitor.
abbrev pub team_espn_id : Map → Bytes
team_espn_id comp = mid (mmap comp "team") "id"

module _ (env : Env) where
  -- The row that GetOrCreateMinimalTx inserts: the columns it does not set have the defaults of the
  -- migration that creates the table.
  unfoldable pub minimal_team : Map → Team
  minimal_team team = record {
    uid = [];
    slug = [];
    abbreviation = mstr team "abbreviation";
    display_name = mstr_or team ("displayName" ∷ "name" ∷ []);
    short_display_name = mstr team "shortDisplayName";
    name = mstr team "name";
    nickname = [];
    location = mstr team "location";
    color = [];
    alternate_color = [];
    is_active = true;
    is_all_star = false;
    logos = json_or_default (raw_obj env.marshal (get team "logo") (codes "[]")) (codes "[]");
    links = codes "[]";
    raw_data = codes "{}";
  }

  -- GetOrCreateMinimalTx of the team repository.
  unfoldable pub team_get_or_create : ℕ → Map → Tx Db ℕ
  team_get_or_create league_id team = statement env.fails λ db.
      let (u, t) =
        get_or_create scoped_eq (league_id, mid team "id") (minimal_team team) db.teams in
      (u.id, record db { teams = t })

  -- The model that createCompetitor builds.
  unfoldable pub parse_competitor : ℕ → ℕ → ℕ → Map → Competitor
  parse_competitor event_id team_id idx comp = record {
    event_id = event_id;
    team_id = team_id;
    home_away = home_away_fallback (mstr comp "homeAway") idx;
    score = mscalar_str comp "score";
    winner = mbool_ptr comp "winner";
    line_scores = raw_obj env.marshal (get comp "linescores") (codes "[]");
    records = raw_obj env.marshal (get comp "records") (codes "[]");
    statistics = raw_obj env.marshal (get comp "statistics") (codes "[]");
    leaders = raw_obj env.marshal (get comp "leaders") (codes "[]");
    order = idx;
    raw_data = raw_map env.marshal comp (codes "{}");
  }

  -- The arguments of the insertion.
  abbrev pub competitor_row : Competitor → Competitor
  competitor_row m = record m {
    line_scores = json_or_default m.line_scores (codes "[]");
    records = json_or_default m.records (codes "[]");
    statistics = json_or_default m.statistics (codes "[]");
    leaders = json_or_default m.leaders (codes "[]");
    raw_data = json_or_default m.raw_data (codes "{}");
  }

  -- InsertTx of the competitor repository.
  unfoldable pub competitor_insert : Competitor → Tx Db Unit
  competitor_insert m =
      statement env.fails
        λ db. (tt, record db { competitors = db.competitors ++ competitor_row m ∷ [] })

  -- DeleteByEventTx of the competitor repository.
  unfoldable pub delete_by_event : ℕ → Tx Db Unit
  delete_by_event event_id = statement env.fails λ db.
      (tt, record db { competitors = keep_if (λ c. not (c.event_id == event_id)) db.competitors })

  -- createCompetitor, and the next index of the loop.
  unfoldable pub create_competitor : ℕ → ℕ → Value → ℕ → Tx Db ℕ
  unfolding team_get_or_create competitor_insert ◌>>=◌
  create_competitor league_id event_id raw idx =
      let comp = as_map raw in
      if is_empty (team_espn_id comp)
      then pure (idx + 1)
      else (team_get_or_create league_id (mmap comp "team") >>= λ team_id.
          competitor_insert (parse_competitor event_id team_id idx comp) >>= λ u. pure (idx + 1))
