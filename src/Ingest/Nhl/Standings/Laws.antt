-- ===== src/Ingest/Nhl/Standings/Laws.antt =====
-- What a run of SyncStandings has done when it succeeds.
use mathlib.Core.Option
use mathlib.Core.Path.{subst}
use go_espn_api.Prelude.{
  ℕ, ◌+◌, ◌≡◌, refl, ap, sym, ◌∙◌, Option, none, some, Bytes, is_empty, arith, length, length-map,
  map, if◌then◌else◌, Bool-cases, inl, inr,
}
use go_espn_api.Ingest.Result.{IngestionResult, new_result, total_processed}
use go_espn_api.Ingest.Json.{Value, Map, as_map, mslice, nhl_team_abbrev}
use go_espn_api.Ingest.Nhl.{parse_nhl_standing, parse_standings_date}
use go_espn_api.Ingest.Store.{Table, Tx, Session, ok, for_each, ◌>>=◌}
use go_espn_api.Ingest.Store.Laws.{value_at, with_tx-ok, bind-ok, statement-effect, ok-inj}
use go_espn_api.Ingest.Resolve.{load}
use go_espn_api.Ingest.Resolve.Laws.{decoded, loaded-ok, begun}
use go_espn_api.Ingest.Feed.{upsert_item, Effect, last_put, feed_lem, upsert_item-Effect}
use go_espn_api.Ingest.Db.{NhlTeam, NhlStanding, DatedKey, Db, Env, dated_eq}
use go_espn_api.Ingest.Db.Keys.{dated_eq_iff}
use go_espn_api.Ingest.Nhl.Standings.{
  ids_with, standings_of, set_standings, id_by_abbrev, standing_row, standing_put, standing_item,
  sync_standings,
}

module _ (env : Env) where
  -- The team that an abbreviation stands for.
  abbrev pub team_with : Table Bytes NhlTeam → Bytes → Option ℕ
  team_with teams a = if is_empty a then none else env.any_id (ids_with a teams.rows)

  -- A row of the response under the key of its team and the date.
  abbrev dated : ℕ → Value → ℕ → DatedKey × NhlStanding
  dated date x team_id = ((team_id, date), standing_row env (parse_nhl_standing env (as_map x)))

  -- What a row of the response writes: nothing if its team is not there.
  abbrev pub standing_of : Table Bytes NhlTeam → ℕ → Value → Option (DatedKey × NhlStanding)
  standing_of teams date x =
      Option.map (dated date x) (team_with teams (nhl_team_abbrev (as_map x)))

  standing_put_lem :
      (date : ℕ) (x : Value) (o : Option ℕ)
      → standing_put env date (as_map x) o ≡ Option.map (dated date x) o
  unfolding standing_put
  standing_put_lem date x none = refl
  standing_put_lem date x (some team_id) = refl

  id_by_abbrev-ok :
      (a : Bytes) (s : Session Db) (o : Option ℕ)
      → (id_by_abbrev env a s).0 ≡ ok o
      → (o ≡ team_with s.db.nhl_teams a) × ((id_by_abbrev env a s).1.db ≡ s.db)
  unfolding id_by_abbrev
  id_by_abbrev-ok a s o h = elim (Bool-cases (is_empty a)) [
    | inl y ↦ let e : none ≡ o = ok-inj (rw y at h) in rw (y, ← e) (refl, refl)
    | inr n ↦ rw n (
        statement-effect env.fails (λ (db : Db). (env.any_id (ids_with a db.nhl_teams.rows), db)) s
          o (rw n at h))
  ]

  abbrev Reads : Table Bytes NhlTeam → Db → Type 0
  Reads teams d = d.nhl_teams ≡ teams

  standing_item-Effect :
      (teams : Table Bytes NhlTeam) (date : ℕ) (j : DatedKey) (x : Value) (r : IngestionResult)
      (s : Session Db) (r' : IngestionResult)
      → (standing_item env date x r s).0 ≡ ok r'
      → Reads teams s.db
      → Effect dated_eq standings_of j
          (standing_of teams date x)
          r
          s.db
          r'
          (standing_item env date x r s).1.db
        × Reads teams (standing_item env date x r s).1.db
  unfolding standing_item
  standing_item-Effect teams date j x r s r' h w =
      let a = nhl_team_abbrev (as_map x) in
      let store : Option ℕ → Tx Db IngestionResult = λ o.
        upsert_item env.fails dated_eq standings_of set_standings
          (standing_put env date (as_map x) o) r in
      let (o, e, q) = bind-ok (id_by_abbrev env a) store s r' h in
      let (t, b) = id_by_abbrev-ok a s o e in
      let s1 = (id_by_abbrev env a s).1 in
      let (f, g) =
        upsert_item-Effect env.fails dated_eq dated_eq_iff standings_of set_standings (λ b d. refl)
          (λ d. d.nhl_teams) (λ b d. refl) j (standing_put env date (as_map x) o) r s1 r'
          (sym (ap (λ z. z.0) q) ∙ h) in
      let same =
        standing_put_lem date x o
        ∙ ap (λ z. Option.map (dated date x) z) (t ∙ ap (λ z. team_with z a) w) in
      rw (ap (λ z. z.1.db) q) (
        subst (λ z. Effect dated_eq standings_of j z r s.db r' (store o s1).1.db) same
            (subst
              (λ z.
                Effect dated_eq standings_of j (standing_put env date (as_map x) o) r z r'
                  (store o s1).1.db)
              b f),
        g ∙ ap (λ z. z.nhl_teams) b ∙ w,
      )

-- A run of SyncStandings that succeeds has counted every row of the response once, as created, as
-- updated or as an error; the table has grown by the rows created; and for every team and date it has
-- the last row of the response with that team, as its abbreviation is looked up, if the date is that of
-- the response, or what it had. The teams are left alone.
pub sync_standings_lem :
    (env : Env) (s : Session Db) (r : IngestionResult) (k : DatedKey)
    → (sync_standings env s).0 ≡ ok r
    → let d' = (sync_standings env s).1.db in
      (root : Map) × (decoded env env.get_standings ≡ some root)
      × let rows = mslice root "standings" in
        let date = parse_standings_date env root in
        (total_processed r + r.errors ≡ length rows)
        × (length d'.nhl_standings.rows ≡ length s.db.nhl_standings.rows + r.created)
        × (value_at dated_eq k d'.nhl_standings
            ≡ last_put dated_eq k
                (map (standing_of env s.db.nhl_teams date) rows)
                (value_at dated_eq k s.db.nhl_standings))
        × (d'.nhl_teams ≡ s.db.nhl_teams)
unfolding sync_standings
sync_standings_lem env s r k h =
    let body : Map → Tx Db IngestionResult = λ root.
      for_each (standing_item env (parse_standings_date env root)) (mslice root "standings")
        new_result in
    let (e, d) = with_tx-ok env.fails (load env env.get_standings >>= body) s r h in
    let (root, f, q) = loaded-ok env env.get_standings body (begun s) r e in
    let rows = mslice root "standings" in
    let date = parse_standings_date env root in
    let teams = s.db.nhl_teams in
    let ((a, b, c), t) =
      feed_lem dated_eq standings_of (standing_of env teams date) (Reads env teams)
        (standing_item env date) (standing_item-Effect env teams date) k rows (begun s) r
        (sym (ap (λ z. z.0) q) ∙ e) refl in
    (
      root,
      f,
      rw (d ∙ ap (λ z. z.1.db) q)
          (omega (arith, a, length-map (standing_of env teams date) rows), omega (arith, b), c, t),
    )
