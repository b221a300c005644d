-- ===== src/Ingest/Transactions.antt =====
-- IngestTransactions and parseTransaction of internal/ingest/transactions.go, over the statements of
-- the transaction repository.
pub mod Laws
use go_espn_api.Prelude.{
  ℕ, ◌+◌, ◌==◌, Bool, true, false, Option, none, some, List, [], ◌∷◌, ◌++◌, map, Bytes, codes,
  is_empty, if◌then◌else◌,
}
use go_espn_api.Ingest.Result.{IngestionResult, new_result, tally}
use go_espn_api.Ingest.Json.{Value, Map, as_map, mid, mstr, mstr_or, mslice, mmap, raw_map}
use go_espn_api.Ingest.Parse.{parse_date_only}
use go_espn_api.Ingest.Store.{
  Row, Table, Tx, statement, find_row, with_tx, for_each, ◌>>=◌, ◌>>◌, pure,
}
use go_espn_api.Ingest.Db.{Transaction, ScopedKey, Db, Env, json_or_default, scoped_eq}
use go_espn_api.Ingest.Resolve.{resolve_sport_league, load}
use go_espn_api.Ingest.Injuries.{id_by_espn_in_league, or_items}

-- UPDATE … WHERE id = :id.
abbrev update_by_id {ℓ} : {K V : Type ℓ} → ℕ → (V → V) → List (Row K V) → List (Row K V)
update_by_id id f = map (λ r. if r.id == id then record r { value = f r.value } else r)

module _ (env : Env) where
  -- parseTransaction. The second part is the ESPN id of the team.
  unfoldable pub parse_transaction : ℕ → Map → Option (Transaction × Bytes)
  parse_transaction league_id item =
      let description = mstr_or item ("description" ∷ "text" ∷ []) in
      let athlete = mmap item "athlete" in
      if is_empty description
      then none
      else some (
        record {
          league_id = league_id;
          team_id = none;
          espn_id = mid item "id";
          date = parse_date_only env.parse_time (mstr item "date");
          description = description;
          type = mstr item "type";
          athlete_name = mstr athlete "displayName";
          athlete_espn_id = mid athlete "id";
          raw_data = raw_map env.marshal item (codes "{}");
        },
        mid (mmap item "team") "id",
      )

  -- transactionArgs.
  abbrev transaction_args : Transaction → Transaction
  transaction_args m = record m { raw_data = json_or_default m.raw_data (codes "{}") }

  abbrev add_row : Transaction → Table ScopedKey Transaction → Table ScopedKey Transaction
  add_row m t = record {
    next = t.next + 1;
    rows =
        t.rows
        ++ record { id = t.next; key = (m.league_id, m.espn_id); value = transaction_args m } ∷ [];
  }

  -- INSERT, as InsertTx and UpsertByESPNTx make it; a creation is reported.
  unfoldable pub transaction_insert : Transaction → Tx Db Bool
  transaction_insert m =
      statement env.fails λ db. (true, record db { transactions = add_row m db.transactions })

  -- The columns that the update sets; the league and the ESPN id stay.
  abbrev updated_row : Transaction → Transaction → Transaction
  updated_row m old = record (transaction_args m) {
    league_id = old.league_id;
    espn_id = old.espn_id;
  }

  abbrev change_row : ℕ → Transaction → Table ScopedKey Transaction → Table ScopedKey Transaction
  change_row id m t = record t { rows = update_by_id id (updated_row m) t.rows }

  unfoldable pub transaction_update : ℕ → Transaction → Tx Db Bool
  transaction_update id m =
      statement env.fails
        λ db. (false, record db { transactions = change_row id m db.transactions })

  -- The switch on the result of the SELECT.
  abbrev pub write_found : Transaction → Option (Row ScopedKey Transaction) → Tx Db Bool
  write_found m none = transaction_insert m
  write_found m (some row) = transaction_update row.id m

  -- UpsertByESPNTx.
  unfoldable pub upsert_by_espn : Transaction → Tx Db Bool
  unfolding transaction_insert transaction_update ◌>>=◌
  upsert_by_espn m = do
    found ←
        statement env.fails
          λ db. (find_row scoped_eq (m.league_id, m.espn_id) db.transactions.rows, db)
    write_found m found

  -- A transaction without an ESPN id is inserted, any other is inserted or updated.
  unfoldable pub save_transaction : Transaction → Tx Db Bool
  save_transaction m = if is_empty m.espn_id then transaction_insert m else upsert_by_espn m

  -- The body of the loop.
  unfoldable pub store_transaction :
      ℕ → Option (Transaction × Bytes) → IngestionResult → Tx Db IngestionResult
  unfolding id_by_espn_in_league save_transaction ◌>>=◌
  store_transaction league_id none r = pure (record r { errors = r.errors + 1 })
  store_transaction league_id (some (m, team)) r = do
    team_id ← id_by_espn_in_league env league_id team
    created ← save_transaction (record m { team_id = team_id })
    pure (tally created r)

  unfoldable pub transaction_item : ℕ → Value → IngestionResult → Tx Db IngestionResult
  transaction_item league_id raw =
      store_transaction league_id (parse_transaction league_id (as_map raw))

  -- IngestTransactions.
  unfoldable pub ingest_transactions : Bytes → Bytes → Tx Db IngestionResult
  unfolding transaction_item resolve_sport_league load for_each with_tx ◌>>=◌
  ingest_transactions sport league = with_tx env.fails do
    league_id ← resolve_sport_league env sport league
    root ← load env (env.get_league_transactions sport league)
    for_each (transaction_item league_id)
        (or_items (mslice root "items") (mslice root "transactions")) new_result
