-- ===== src/Ingest/Teams.antt =====
-- IngestTeams, teamsFromResponse and parseTeam of internal/ingest/teams.go, over UpsertTx of the team
-- repository.
pub mod Laws
use go_espn_api.Prelude.{
  ℕ, ◌+◌, Bool, true, false, Option, none, some, List, [], ◌∷◌, Bytes, codes, is_empty,
  if◌then◌else◌,
}
use go_espn_api.Ingest.Result.{IngestionResult, new_result, tally}
use go_espn_api.Ingest.Json.{
  Value, Map, as_map, get, mid, mstr, mbool, mslice, mmap, raw_obj, raw_map,
}
use go_espn_api.Ingest.Store.{Tx, statement, upsert, with_tx, for_each, ◌>>=◌, pure}
use go_espn_api.Ingest.Db.{Team, ScopedKey, Db, Env, json_or_default, scoped_eq}
use go_espn_api.Ingest.Resolve.{resolve_sport_league, load}

abbrev leagues_of : List Value → List Value
leagues_of [] = []
leagues_of (sport ∷ sports) = mslice (as_map sport) "leagues"

abbrev teams_of : List Value → List Value
teams_of [] = []
teams_of (league ∷ leagues) = mslice (as_map league) "teams"

-- teamsFromResponse.
unfoldable pub teams_from_response : Map → List Value
teams_from_response root = teams_of (leagues_of (mslice root "sports"))

-- The object under "team" where it is one, else the item itself.
abbrev or_self : Map → Map → Map
or_self none item = item
or_self (some nested) item = some nested

module _ (env : Env) where
  abbrev team_fields : Map → Team
  team_fields info = record {
    uid = mstr info "uid";
    slug = mstr info "slug";
    abbreviation = mstr info "abbreviation";
    display_name = mstr info "displayName";
    short_display_name = mstr info "shortDisplayName";
    name = mstr info "name";
    nickname = mstr info "nickname";
    location = mstr info "location";
    color = mstr info "color";
    alternate_color = mstr info "alternateColor";
    is_active = mbool info "isActive" true;
    is_all_star = mbool info "isAllStar" false;
    logos = raw_obj env.marshal (get info "logos") (codes "[]");
    links = raw_obj env.marshal (get info "links") (codes "[]");
    raw_data = raw_map env.marshal info (codes "{}");
  }

  -- parseTeam, with the ESPN id as the second part.
  unfoldable pub parse_team : Map → Team × Bytes
  parse_team item = let info = or_self (mmap item "team") item in (team_fields info, mid info "id")

  -- The arguments of the upsert.
  unfoldable pub team_row : Team → Team
  team_row m = record m {
    logos = json_or_default m.logos (codes "[]");
    links = json_or_default m.links (codes "[]");
    raw_data = json_or_default m.raw_data (codes "{}");
  }

  -- UpsertTx of the team repository.
  unfoldable pub team_upsert : ℕ → Bytes → Team → Tx Db Bool
  team_upsert league_id espn_id m = statement env.fails λ db.
      let (u, t) = upsert scoped_eq (league_id, espn_id) (team_row m) db.teams in
      (u.inserted, record db { teams = t })

  -- The body of the loop: an item without an id is counted.
  unfoldable pub store_team : ℕ → Team × Bytes → IngestionResult → Tx Db IngestionResult
  unfolding team_upsert ◌>>=◌
  store_team league_id (m, espn_id) r =
      if is_empty espn_id
      then pure (record r { errors = r.errors + 1 })
      else (team_upsert league_id espn_id m >>= λ created. pure (tally created r))

  unfoldable pub team_item : ℕ → Value → IngestionResult → Tx Db IngestionResult
  team_item league_id raw = store_team league_id (parse_team (as_map raw))

  -- IngestTeams.
  unfoldable pub ingest_teams : Bytes → Bytes → Tx Db IngestionResult
  unfolding team_item for_each resolve_sport_league load with_tx ◌>>=◌
  ingest_teams sport league = with_tx env.fails do
    league_id ← resolve_sport_league env sport league
    root ← load env (env.get_teams sport league)
    for_each (team_item league_id) (teams_from_response root) new_result
