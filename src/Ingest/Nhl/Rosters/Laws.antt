-- ===== src/Ingest/Nhl/Rosters/Laws.antt =====
-- What the syncs of the rosters do, whichever of them fail.
use go_espn_api.Prelude.{
  ℕ, ◌+◌, ◌%◌, ◌^◌, ◌≡◌, refl, ap, ◌∙◌, false, List, [], Bytes, bytes_eq, bytes_eq_iff, arith,
  length, map, inl, inr,
}
use go_espn_api.Ingest.Result.{IngestionResult, new_result}
use go_espn_api.Ingest.Json.{Map, as_map}
use go_espn_api.Ingest.Store.{Row, Tx, Result, Session, ok, err, for_each, with_tx}
use go_espn_api.Ingest.Store.Laws.{
  with_tx-ok, with_tx-rollback, bind-cases, Result-cases, ok-inj, for_each-Keeps, statement-run,
}
use go_espn_api.Ingest.Store.Success.{Succeeds, for_each-Succeeds}
use go_espn_api.Ingest.Resolve.{load}
use go_espn_api.Ingest.Resolve.Laws.{load-db, begun}
use go_espn_api.Ingest.Feed.{Fed, feed_lem, upsert_item-Effect}
use go_espn_api.Ingest.Db.{NhlTeam, Db, Env}
use go_espn_api.Ingest.Nhl.Rosters.{
  active_rows, players_of, set_players, roster_of, player_put, player_item, sync_team_roster, Turn,
  skipped, synced, panicked, count_team, team_turn, list_active, sync_rosters,
}

module _ (env : Env) where
  abbrev store_roster : Row Bytes NhlTeam → Map → Tx Db IngestionResult
  store_roster team root =
      with_tx env.fails (for_each (player_item env team.id) (roster_of root) new_result)

  store_roster-ok :
      (team : Row Bytes NhlTeam) (root : Map) (s : Session Db) (r : IngestionResult) (k : Bytes)
      → (store_roster team root s).0 ≡ ok r
      → Fed bytes_eq players_of k
          (map (λ x. player_put env team.id (as_map x)) (roster_of root))
          new_result
          s.db
          r
          (store_roster team root s).1.db
  unfolding player_item
  store_roster-ok team root s r k h =
      let (e, d) =
        with_tx-ok env.fails (for_each (player_item env team.id) (roster_of root) new_result) s r
          h in
      let (f, u) =
        feed_lem bytes_eq players_of (λ x. player_put env team.id (as_map x)) (λ d. Unit {0})
          (player_item env team.id)
          (λ j y t v v' e c.
            let (f, o) =
              upsert_item-Effect env.fails bytes_eq bytes_eq_iff players_of set_players
                (λ b d. refl) (λ d. d.teams) (λ b d. refl) j (player_put env team.id (as_map y)) t v
                v' e in
            (f, tt))
          k (roster_of root) (begun s) r e tt in
      rw d f

  -- The rows that a result counts as created.
  abbrev created_by : Result IngestionResult → ℕ
  created_by (ok r) = r.created
  created_by (err e) = 0

  -- A roster grows the table by what it counts, and a failing one not at all.
  sync_team_roster-length :
      (team : Row Bytes NhlTeam) (s : Session Db)
      → length (sync_team_roster env team s).1.db.nhl_players.rows
        ≡ length s.db.nhl_players.rows + created_by (sync_team_roster env team s).0
  unfolding sync_team_roster
  sync_team_roster-length team s =
      let response = env.get_roster team.value.abbreviation in
      let same = load-db env response s in
      elim (bind-cases (load env response) (store_roster team) s) [
        | inl (e, h, q) ↦ rw q (omega (arith, ap (λ z. length z.db.nhl_players.rows) same))
        | inr (root, h, q) ↦
            elim (Result-cases (store_roster team root (load env response s).1).0) [
              | inl (r, o) ↦
                  let (a, b, c) = store_roster-ok team root (load env response s).1 r [] o in
                  rw (q, o) (omega (arith, b, ap (λ z. length z.db.nhl_players.rows) same))
              | inr (e, o) ↦
                  let back =
                    with_tx-rollback env.fails
                      (for_each (player_item env team.id) (roster_of root) new_result)
                      (load env response s).1 e o in
                  rw (q, o, back) (omega (arith, ap (λ z. length z.db.nhl_players.rows) same))
            ]
      ]

  -- The counter of the created rows keeps up with the table, modulo 2 ^ 64.
  abbrev Accounts : ℕ → IngestionResult → Db → Type 0
  Accounts rows r d = (rows + r.created) % 2 ^ 64 ≡ length d.nhl_players.rows % 2 ^ 64

  count_team-created :
      (o : Result IngestionResult) (r : IngestionResult) (rows before after : ℕ)
      → (rows + r.created) % 2 ^ 64 ≡ before % 2 ^ 64
      → after ≡ before + created_by o
      → (rows + (count_team o r).created) % 2 ^ 64 ≡ after % 2 ^ 64
  unfolding count_team
  count_team-created (ok x) r rows before after p q = omega arith
  count_team-created (err e) r rows before after p q = omega arith

  team_turn-Accounts :
      (rows : ℕ) (x : Turn) (xs : List Turn) (r : IngestionResult) (s : Session Db)
      (r' : IngestionResult)
      → (team_turn env x r s).0 ≡ ok r'
      → Accounts rows r s.db
      → Accounts rows r' (team_turn env x r s).1.db
  unfolding team_turn
  team_turn-Accounts rows (skipped team) xs r s r' h p = let e : r ≡ r' = ok-inj h in rw (← e) p
  team_turn-Accounts rows (synced team) xs r s r' h p = rw (← ok-inj h) (
      count_team-created (sync_team_roster env team s).0 r rows _ _ p
        (sync_team_roster-length team s))
  team_turn-Accounts rows (panicked team) xs r s r' h p = rw (← ok-inj h) p

  team_turn-Succeeds : (x : Turn) (r : IngestionResult) → Succeeds (team_turn env x r)
  unfolding team_turn
  team_turn-Succeeds (skipped team) r s = (r, refl)
  team_turn-Succeeds (synced team) r s = (count_team (sync_team_roster env team s).0 r, refl)
  team_turn-Succeeds (panicked team) r s = (_, refl)

-- If the list of the active teams can be read, SyncRosters returns a result, whichever teams are
-- skipped, fail or panic, in whatever order they end; and the table of the players has grown by what
-- the result counts as created, modulo 2 ^ 64.
pub sync_rosters-created :
    (env : Env) (schedule : List (Row Bytes NhlTeam) → List Turn) (s : Session Db)
    → env.fails s.clock ≡ false
    → (r : IngestionResult) × ((sync_rosters env schedule s).0 ≡ ok r)
      × ((length s.db.nhl_players.rows + r.created) % 2 ^ 64
          ≡ length (sync_rosters env schedule s).1.db.nhl_players.rows % 2 ^ 64)
unfolding sync_rosters list_active
sync_rosters-created env schedule s n =
    let teams = active_rows s.db.nhl_teams.rows in
    let t : Session Db = record s { clock = s.clock + 1 } in
    let (r, h) =
      for_each-Succeeds (team_turn env) (team_turn-Succeeds env) (schedule teams) new_result t in
    let q =
      statement-run env.fails (λ (db : Db). (active_rows db.nhl_teams.rows, db))
        (λ z. for_each (team_turn env) (schedule z) new_result) s n in
    (
      r,
      ap (λ z. z.0) q ∙ h,
      rw (ap (λ z. z.1.db) q) (
          for_each-Keeps (team_turn env) (λ xs. Accounts env (length s.db.nhl_players.rows))
            (team_turn-Accounts env (length s.db.nhl_players.rows)) (schedule teams) new_result t r
            h (omega arith)),
    )
