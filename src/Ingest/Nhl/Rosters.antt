-- ===== src/Ingest/Nhl/Rosters.antt =====
-- SyncRosters and syncTeamRoster of internal/ingest/nhl_rosters.go, over UpsertTx of the repository
-- of the NHL players.
pub mod Laws
use go_espn_api.Prelude.{
  ℕ, Bool, Option, none, some, List, [], ◌∷◌, ◌++◌, Bytes, codes, bytes_eq, is_empty, if◌then◌else◌,
}
use go_espn_api.Ingest.Result.{IngestionResult, new_result}
use go_espn_api.Ingest.Json.{Value, Map, as_map, mid, mslice}
use go_espn_api.Ingest.Nhl.{parse_nhl_player}
use go_espn_api.Ingest.Store.{
  Row, Table, Tx, Result, ok, err, statement, with_tx, for_each, ◌>>=◌, pure,
}
use go_espn_api.Scheduler.Fanout.{add64}
use go_espn_api.Ingest.Db.{NhlTeam, NhlPlayer, Db, Env, json_or_default}
use go_espn_api.Ingest.Feed.{upsert_item}
use go_espn_api.Ingest.Resolve.{load}

abbrev pub players_of : Db → Table Bytes NhlPlayer
players_of db = db.nhl_players

abbrev pub set_players : Table Bytes NhlPlayer → Db → Db
set_players t db = record db { nhl_players = t }

-- The players of a roster: the forwards, the defensemen, the goalies.
unfoldable pub roster_of : Map → List Value
roster_of root = mslice root "forwards" ++ (mslice root "defensemen" ++ mslice root "goalies")

-- The rows of ListActive, in the order of their ids.
abbrev pub active_rows : List (Row Bytes NhlTeam) → List (Row Bytes NhlTeam)
active_rows [] = []
active_rows (r ∷ rs) = let rest = active_rows rs in if r.value.is_active then r ∷ rest else rest

-- What the goroutine of a team does: it finds the context cancelled, syncs the roster, or panics.
pub data Turn : Type 0 where
  skipped : Row Bytes NhlTeam → Turn
  synced : Row Bytes NhlTeam → Turn
  panicked : Row Bytes NhlTeam → Turn

-- The atomic additions of a goroutine once its team is done.
unfoldable pub count_team : Result IngestionResult → IngestionResult → IngestionResult
unfolding add64
count_team (ok res) r = record r {
  created = add64 r.created res.created;
  updated = add64 r.updated res.updated;
  errors = add64 r.errors res.errors;
}
count_team (err e) r = record r { errors = add64 r.errors 1 }

module _ (env : Env) where
  -- The arguments of the upsert.
  abbrev player_row : NhlPlayer → NhlPlayer
  player_row m = record m { raw_data = json_or_default m.raw_data (codes "{}") }

  -- What is upserted for a player, under which key: nothing for one without an id.
  unfoldable pub player_put : ℕ → Map → Option (Bytes × NhlPlayer)
  player_put team_id p =
      if is_empty (mid p "id")
      then none
      else some (mid p "id", player_row (parse_nhl_player env p team_id))

  -- The body of the loop.
  unfoldable pub player_item : ℕ → Value → IngestionResult → Tx Db IngestionResult
  unfolding upsert_item
  player_item team_id raw =
      upsert_item env.fails bytes_eq players_of set_players (player_put team_id (as_map raw))

  -- syncTeamRoster: the fetch stands before the transaction.
  unfoldable pub sync_team_roster : Row Bytes NhlTeam → Tx Db IngestionResult
  unfolding player_item for_each load with_tx ◌>>=◌
  sync_team_roster team = do
    root ← load env (env.get_roster team.value.abbreviation)
    with_tx env.fails (for_each (player_item team.id) (roster_of root) new_result)

  -- A goroutine. A transaction that a panic interrupts is not committed.
  unfoldable pub team_turn : Turn → IngestionResult → Tx Db IngestionResult
  unfolding sync_team_roster count_team add64
  team_turn (skipped team) r s = pure r s
  team_turn (synced team) r s = let (o, s') = sync_team_roster team s in (ok (count_team o r), s')
  team_turn (panicked team) r s = pure (record r { errors = add64 r.errors 1 }) s

  -- ListActive of the repository of the NHL teams.
  unfoldable pub list_active : Tx Db (List (Row Bytes NhlTeam))
  list_active = statement env.fails λ db. (active_rows db.nhl_teams.rows, db)

  -- SyncRosters, with the goroutines in the order in which their transactions end.
  unfoldable pub sync_rosters : (List (Row Bytes NhlTeam) → List Turn) → Tx Db IngestionResult
  unfolding list_active team_turn for_each ◌>>=◌
  sync_rosters schedule = do teams ← list_active; for_each team_turn (schedule teams) new_result
