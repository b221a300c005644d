-- ===== src/Ingest/Nhl/Standings.antt =====
-- SyncStandings of internal/ingest/nhl_standings.go, over IDByAbbrevTx of the repository of the NHL
-- teams and UpsertTx of that of the standings.
pub mod Laws
use go_espn_api.Prelude.{
  ℕ, Bool, Option, none, some, List, [], ◌∷◌, Bytes, codes, bytes_eq, is_empty, if◌then◌else◌,
}
use go_espn_api.Ingest.Result.{IngestionResult, new_result}
use go_espn_api.Ingest.Json.{Value, Map, as_map, mslice, nhl_team_abbrev}
use go_espn_api.Ingest.Nhl.{parse_nhl_standing, parse_standings_date}
use go_espn_api.Ingest.Store.{Row, Table, Tx, statement, with_tx, for_each, ◌>>=◌, pure}
use go_espn_api.Ingest.Db.{NhlTeam, NhlStanding, DatedKey, Db, Env, dated_eq, json_or_default}
use go_espn_api.Ingest.Feed.{upsert_item}
use go_espn_api.Ingest.Resolve.{load}

-- The ids of the teams with an abbreviation.
abbrev pub ids_with : Bytes → List (Row Bytes NhlTeam) → List ℕ
ids_with a [] = []
ids_with a (r ∷ rs) =
    let ids = ids_with a rs in if bytes_eq r.value.abbreviation a then r.id ∷ ids else ids

abbrev pub standings_of : Db → Table DatedKey NhlStanding
standings_of db = db.nhl_standings

abbrev pub set_standings : Table DatedKey NhlStanding → Db → Db
set_standings t db = record db { nhl_standings = t }

module _ (env : Env) where
  -- IDByAbbrevTx of the repository of the NHL teams: a blank abbreviation is not looked up.
  unfoldable pub id_by_abbrev : Bytes → Tx Db (Option ℕ)
  id_by_abbrev abbreviation =
      if is_empty abbreviation
      then pure none
      else statement env.fails λ db. (env.any_id (ids_with abbreviation db.nhl_teams.rows), db)

  -- The arguments of the upsert.
  abbrev pub standing_row : NhlStanding → NhlStanding
  standing_row m = record m { raw_data = json_or_default m.raw_data (codes "{}") }

  -- What is upserted for a row, under which key: nothing for one without a team.
  unfoldable pub standing_put : ℕ → Map → Option ℕ → Option (DatedKey × NhlStanding)
  standing_put date row none = none
  standing_put date row (some team_id) =
      some ((team_id, date), standing_row (parse_nhl_standing env row))

  -- The body of the loop.
  unfoldable pub standing_item : ℕ → Value → IngestionResult → Tx Db IngestionResult
  unfolding upsert_item id_by_abbrev ◌>>=◌
  standing_item date raw r = do
    team_id ← id_by_abbrev (nhl_team_abbrev (as_map raw))
    upsert_item env.fails dated_eq standings_of set_standings
        (standing_put date (as_map raw) team_id) r

  -- SyncStandings. No row is no error.
  unfoldable pub sync_standings : Tx Db IngestionResult
  unfolding standing_item for_each load with_tx ◌>>=◌
  sync_standings = with_tx env.fails do
    root ← load env env.get_standings
    for_each (standing_item (parse_standings_date env root)) (mslice root "standings") new_result
