-- ===== src/Ingest/Nhl/Teams.antt =====
-- SyncTeams of internal/ingest/nhl_teams.go, over DeactivateAllTx and UpsertTx of the repository of
-- the NHL teams.
pub mod Laws
use go_espn_api.Prelude.{
  Bool, false, Option, none, some, List, [], ◌∷◌, Bytes, codes, bytes_eq, is_empty, map,
  if◌then◌else◌,
}
use go_espn_api.Ingest.Result.{IngestionResult, new_result}
use go_espn_api.Ingest.Json.{Value, Map, as_map, mslice}
use go_espn_api.Ingest.Nhl.{parse_nhl_team}
use go_espn_api.Ingest.Store.{
  Row, Table, Tx, Session, statement, with_tx, for_each, ◌>>=◌, ◌>>◌, pure,
}
use go_espn_api.Ingest.Db.{NhlTeam, Db, Env, json_or_default}
use go_espn_api.Ingest.Feed.{upsert_item}
use go_espn_api.Ingest.Resolve.{load}

abbrev pub deactivated : NhlTeam → NhlTeam
deactivated m = record m { is_active = false }

abbrev pub deactivate_row : Row Bytes NhlTeam → Row Bytes NhlTeam
deactivate_row r = record r { value = deactivated r.value }

abbrev pub deactivate_table : Table Bytes NhlTeam → Table Bytes NhlTeam
deactivate_table t = record t { rows = map deactivate_row t.rows }

abbrev pub nhl_teams_of : Db → Table Bytes NhlTeam
nhl_teams_of db = db.nhl_teams

abbrev pub set_nhl_teams : Table Bytes NhlTeam → Db → Db
set_nhl_teams t db = record db { nhl_teams = t }

module _ (env : Env) where
  -- DeactivateAllTx of the repository of the NHL teams.
  unfoldable pub deactivate_all : Tx Db Unit
  deactivate_all =
      statement env.fails λ db. (tt, record db { nhl_teams = deactivate_table db.nhl_teams })

  -- The arguments of the upsert.
  abbrev nhl_team_row : NhlTeam → NhlTeam
  nhl_team_row m = record m { raw_data = json_or_default m.raw_data (codes "{}") }

  -- What is upserted for an item, under which key: nothing for an item without an id.
  unfoldable pub nhl_team_put : NhlTeam → Option (Bytes × NhlTeam)
  nhl_team_put m = if is_empty m.team_id then none else some (m.team_id, nhl_team_row m)

  -- The body of the loop.
  unfoldable pub nhl_team_item : Value → IngestionResult → Tx Db IngestionResult
  unfolding upsert_item
  nhl_team_item raw =
      upsert_item env.fails bytes_eq nhl_teams_of set_nhl_teams
        (nhl_team_put (parse_nhl_team env (as_map raw)))

  -- Behind the fetch: no team leaves the table alone.
  unfoldable pub sync_items : List Value → Tx Db IngestionResult
  unfolding nhl_team_item deactivate_all for_each ◌>>=◌
  sync_items [] = pure new_result
  sync_items (x ∷ xs) = deactivate_all >> for_each nhl_team_item (x ∷ xs) new_result

  -- SyncTeams.
  unfoldable pub sync_teams : Tx Db IngestionResult
  unfolding sync_items load with_tx ◌>>=◌
  sync_teams =
      with_tx env.fails do root ← load env env.get_nhl_teams; sync_items (mslice root "data")
