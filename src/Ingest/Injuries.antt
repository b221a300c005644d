-- ===== src/Ingest/Injuries.antt =====
-- IngestInjuries and parseInjury of internal/ingest/injuries.go, over the statements of the injury
-- repository and IDByESPNInLeagueTx of the team repository.
pub mod Laws
use go_espn_api.Prelude.{
  ℕ, ◌+◌, Bool, true, false, Option, none, some, List, [], ◌∷◌, ◌++◌, Bytes, codes, is_empty,
  if◌then◌else◌, ◌==◌, not, keep_if,
}
use go_espn_api.Ingest.Result.{IngestionResult, new_result}
use go_espn_api.Ingest.Json.{Value, Map, as_map, get, mid, mstr, mstr_or, mslice, mmap, raw_map}
use go_espn_api.Ingest.Parse.{normalize_injury_status}
use go_espn_api.Ingest.Store.{Row, Tx, statement, find_row, with_tx, for_each, ◌>>=◌, ◌>>◌, pure}
use go_espn_api.Ingest.Db.{Injury, ScopedKey, Team, Db, Env, json_or_default, scoped_eq}
use go_espn_api.Ingest.Resolve.{resolve_sport_league, load}

abbrev pub id_of : Option (Row ScopedKey Team) → Option ℕ
id_of none = none
id_of (some t) = some t.id

-- The list under the first key, or that under the second where it is empty.
unfoldable pub or_items : List Value → List Value → List Value
or_items [] items = items
or_items (x ∷ xs) items = x ∷ xs

module _ (env : Env) where
  -- IDByESPNInLeagueTx of the team repository.
  unfoldable pub id_by_espn_in_league : ℕ → Bytes → Tx Db (Option ℕ)
  id_by_espn_in_league league_id espn_id =
      if is_empty espn_id
      then pure none
      else statement env.fails
          λ db. (id_of (find_row scoped_eq (league_id, espn_id) db.teams.rows), db)

  -- parseInjury. The second part is the ESPN id of the team.
  unfoldable pub parse_injury : ℕ → Map → Option (Injury × Bytes)
  parse_injury league_id item =
      let athlete = mmap item "athlete" in
      let athlete_name = mstr_or athlete ("displayName" ∷ "fullName" ∷ []) in
      let raw_status = mstr item "status" in
      let position = mstr (mmap athlete "position") "abbreviation" in
      if is_empty athlete_name
      then none
      else some (
        record {
          league_id = league_id;
          team_id = none;
          athlete_espn_id = mid athlete "id";
          athlete_name = athlete_name;
          position = position;
          status = normalize_injury_status raw_status;
          status_display = raw_status;
          description = mstr_or item ("description" ∷ "shortComment" ∷ []);
          injury_type = mstr item "type";
          raw_data = raw_map env.marshal item (codes "{}");
        },
        mid (mmap item "team") "id",
      )

  -- DeleteByLeagueTx of the injury repository.
  unfoldable pub delete_by_league : ℕ → Tx Db Unit
  delete_by_league league_id =
      statement env.fails λ db.
        (tt, record db { injuries = keep_if (λ m. not (m.league_id == league_id)) db.injuries })

  abbrev pub injury_row : Injury → Injury
  injury_row m = record m { raw_data = json_or_default m.raw_data (codes "{}") }

  -- InsertTx of the injury repository.
  unfoldable pub injury_insert : Injury → Tx Db Unit
  injury_insert m =
      statement env.fails λ db. (tt, record db { injuries = db.injuries ++ injury_row m ∷ [] })

  -- The body of the loop over the report.
  unfoldable pub store_injury :
      ℕ → Option (Injury × Bytes) → IngestionResult → Tx Db IngestionResult
  unfolding id_by_espn_in_league injury_insert ◌>>=◌
  store_injury league_id none r = pure (record r { errors = r.errors + 1 })
  store_injury league_id (some (m, team)) r = do
    team_id ← id_by_espn_in_league league_id team
    injury_insert (record m { team_id = team_id })
    pure (record r { created = r.created + 1 })

  unfoldable pub injury_item : ℕ → Value → IngestionResult → Tx Db IngestionResult
  injury_item league_id raw = store_injury league_id (parse_injury league_id (as_map raw))

  -- A report without an item is no error, and no change.
  unfoldable pub store_injuries : ℕ → List Value → Tx Db IngestionResult
  unfolding delete_by_league injury_item for_each ◌>>=◌
  store_injuries league_id [] = pure new_result
  store_injuries league_id (x ∷ xs) = do
    delete_by_league league_id
    for_each (injury_item league_id) (x ∷ xs) new_result

  -- IngestInjuries.
  unfoldable pub ingest_injuries : Bytes → Bytes → Tx Db IngestionResult
  unfolding store_injuries resolve_sport_league load with_tx ◌>>=◌
  ingest_injuries sport league = with_tx env.fails do
    league_id ← resolve_sport_league env sport league
    root ← load env (env.get_league_injuries sport league)
    store_injuries league_id (or_items (mslice root "items") (mslice root "injuries"))
