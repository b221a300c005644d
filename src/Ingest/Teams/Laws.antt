-- ===== src/Ingest/Teams/Laws.antt =====
-- What a run of IngestTeams has done when it succeeds.
use go_espn_api.Prelude.{
  ℕ, ◌+◌, ◌≡◌, refl, ap, sym, ◌∙◌, Bool, true, false, Option, some, List, [], ◌∷◌, Bytes, is_empty,
  arith, if◌then◌else◌, inl, inr, Bool-cases, length,
}
use go_espn_api.Ingest.Result.{IngestionResult, new_result, total_processed, tally, tally-counts}
use go_espn_api.Ingest.Json.{Value, Map, as_map}
use go_espn_api.Ingest.Store.{ok, Session, ◌>>=◌, for_each, pure, upsert}
use go_espn_api.Ingest.Store.Laws.{
  upsert-length, upsert-value, value_at, for_each-Keeps, statement-ok, ok-inj,
}
use go_espn_api.Ingest.Resolve.{resolve_sport_league}
use go_espn_api.Ingest.Resolve.Laws.{service-ok, begun, decoded}
use go_espn_api.Ingest.Db.{Team, ScopedKey, Db, Env, scoped_eq}
use go_espn_api.Ingest.Db.Keys.{scoped_eq_iff}
use go_espn_api.Ingest.Teams.{
  teams_from_response, parse_team, team_row, team_upsert, store_team, team_item, ingest_teams,
}

-- The value that an item leaves under a key whose value was `old`.
unfoldable put_team : Env → ℕ → ScopedKey → Team × Bytes → Option Team → Option Team
put_team env l k (m, espn_id) old =
    if is_empty espn_id
    then old
    else if scoped_eq (l, espn_id) k
    then some (team_row env m)
    else old

-- The value under a key after a feed: that of the last item in it with the key, if there is one.
unfoldable pub last_team : Env → ℕ → ScopedKey → List Value → Option Team → Option Team
unfolding put_team
last_team env l k [] old = old
last_team env l k (raw ∷ items) old =
    last_team env l k items (put_team env l k (parse_team env (as_map raw)) old)

module _ (env : Env) where
  abbrev Effect :
      ℕ → ScopedKey → Team × Bytes → IngestionResult → Db → IngestionResult → Db → Type 0
  Effect l k o r d r' d' =
      (total_processed r' + r'.errors ≡ total_processed r + r.errors + 1)
      × (length d'.teams.rows + r.created ≡ length d.teams.rows + r'.created)
      × (value_at scoped_eq k d'.teams ≡ put_team env l k o (value_at scoped_eq k d.teams))

  team_upsert-Effect :
      (l : ℕ) (k : ScopedKey) (m : Team) (e : Bytes) (r : IngestionResult) (s : Session Db)
      (r' : IngestionResult)
      → is_empty e ≡ false
      → ((team_upsert env l e m >>= λ created. pure (tally created r)) s).0 ≡ ok r'
      → Effect l k
          (m, e)
          r
          s.db
          r'
          ((team_upsert env l e m >>= λ created. pure (tally created r)) s).1.db
  unfolding team_upsert put_team
  team_upsert-Effect l k m e r s r' n h =
      let turn : Db → Bool × Db = λ db. (
        (upsert scoped_eq (l, e) (team_row env m) db.teams).0.inserted,
        record db { teams = (upsert scoped_eq (l, e) (team_row env m) db.teams).1 },
      ) in
      let q = statement-ok env.fails turn (λ created. pure (tally created r)) s r' h in
      let f : tally (turn s.db).0 r ≡ r' = ok-inj (sym (ap (λ z. z.0) q) ∙ h) in
      rw (ap (λ z. z.1.db) q, ← f)
        (
          (tally-counts (turn s.db).0 r).0,
          omega (
            arith,
            (tally-counts (turn s.db).0 r).1,
            upsert-length scoped_eq scoped_eq_iff (l, e) (team_row env m) s.db.teams,
          ),
          rw n (upsert-value scoped_eq scoped_eq_iff (l, e) k (team_row env m) s.db.teams),
        )

  skip-Effect :
      (l : ℕ) (k : ScopedKey) (m : Team) (e : Bytes) (r : IngestionResult) (d : Db)
      → is_empty e ≡ true
      → Effect l k (m, e) r d (record r { errors = r.errors + 1 }) d
  unfolding put_team
  skip-Effect l k m e r d y = (omega arith, refl, rw y)

  store_team-Effect :
      (l : ℕ) (k : ScopedKey) (o : Team × Bytes) (r : IngestionResult) (s : Session Db)
      (r' : IngestionResult)
      → (store_team env l o r s).0 ≡ ok r'
      → Effect l k o r s.db r' (store_team env l o r s).1.db
  unfolding store_team
  store_team-Effect l k (m, e) r s r' h = elim (Bool-cases (is_empty e)) [
    | inl y ↦
        let f : record r { errors = r.errors + 1 } ≡ r' = ok-inj (rw y at h) in
        rw (y, ← f) (skip-Effect l k m e r s.db y)
    | inr n ↦ rw n (team_upsert-Effect l k m e r s r' n (rw n at h))
  ]

  -- The state of the loop, against what it ends in.
  abbrev Progress : ℕ → ScopedKey → ℕ → ℕ → Option Team → List Value → IngestionResult → Db → Type 0
  Progress l k items rows v xs r db =
      (total_processed r + r.errors + length xs ≡ items)
      × (length db.teams.rows ≡ rows + r.created)
      × (last_team env l k xs (value_at scoped_eq k db.teams) ≡ v)

  team_item-Progress :
      (l : ℕ) (k : ScopedKey) (items rows : ℕ) (v : Option Team) (x : Value) (xs : List Value)
      (r : IngestionResult) (s : Session Db) (r' : IngestionResult)
      → (team_item env l x r s).0 ≡ ok r'
      → Progress l k items rows v (x ∷ xs) r s.db
      → Progress l k items rows v xs r' (team_item env l x r s).1.db
  unfolding team_item last_team
  team_item-Progress l k items rows v x xs r s r' h (p, q, e) =
      let (a, b, c) = store_team-Effect l k (parse_team env (as_map x)) r s r' h in
      (omega arith, omega arith, ap (last_team env l k xs) c ∙ e)

-- A run of IngestTeams that succeeds has counted every item of the response once, as created, as
-- updated or as an error; the table has grown by the rows created; and for every league and ESPN id
-- the table has the last item with that id in the response, if the league is the resolved one and the
-- id is not blank, or what it had.
pub ingest_teams_lem :
    (env : Env) (sport league : Bytes) (s : Session Db) (r : IngestionResult) (k : ScopedKey)
    → (ingest_teams env sport league s).0 ≡ ok r
    → let teams' = (ingest_teams env sport league s).1.db.teams in
      (l : ℕ) × (root : Map) × ((resolve_sport_league env sport league (begun s)).0 ≡ ok l)
      × (decoded env (env.get_teams sport league) ≡ some root)
      × (total_processed r + r.errors ≡ length (teams_from_response root))
      × (length teams'.rows ≡ length s.db.teams.rows + r.created)
      × (value_at scoped_eq k teams'
          ≡ last_team env l k (teams_from_response root) (value_at scoped_eq k s.db.teams))
unfolding ingest_teams last_team
ingest_teams_lem env sport league s r k h =
    let (l, root, s', e, d, c, b, f) =
      service-ok env (env.get_teams sport league)
        (λ l root. for_each (team_item env l) (teams_from_response root) new_result) sport league s
        r h in
    let items = teams_from_response root in
    let rows = length s.db.teams.rows in
    let v = last_team env l k items (value_at scoped_eq k s.db.teams) in
    let n : s'.db.teams ≡ s.db.teams = ap (λ z. z.0) c in
    let (p, q, w) =
      for_each-Keeps (team_item env l) (Progress env l k (length items) rows v)
        (team_item-Progress env l k (length items) rows v) items new_result s' r b
        (
          omega arith,
          omega (arith, ap (λ z. length z.rows) n),
          ap (λ z. last_team env l k items (value_at scoped_eq k z)) n,
        ) in
    let m = ap (λ z. z.teams) f in
    (l, root, e, d, omega arith, ap (λ z. length z.rows) m ∙ q, ap (value_at scoped_eq k) m ∙ w)
