-- ===== src/Ingest/Nhl/Teams/Laws.antt =====
-- What a run of SyncTeams has done when it succeeds.
use mathlib.Core.Option
use mathlib.Core.Path.{subst}
use go_espn_api.Prelude.{
  ℕ, ◌+◌, ◌≡◌, refl, ap, sym, ◌∙◌, Bool, true, false, not, ◌&&◌, ◌||◌, Option, none, some, List, [],
  ◌∷◌, Bytes, bytes_eq, bytes_eq_iff, is_empty, arith, length, length-map, map, if◌then◌else◌,
  Bool-cases, inl, inr,
}
use go_espn_api.Ingest.Result.{IngestionResult, new_result, total_processed}
use go_espn_api.Ingest.Json.{Value, Map, as_map, mid, mslice}
use go_espn_api.Ingest.Nhl.{parse_nhl_team}
use go_espn_api.Ingest.Store.{Row, Table, Tx, Session, ok, for_each, ◌>>=◌}
use go_espn_api.Ingest.Store.Laws.{value_at, with_tx-ok, statement-ok, ok-inj}
use go_espn_api.Ingest.Resolve.{load}
use go_espn_api.Ingest.Resolve.Laws.{decoded, loaded-ok, begun}
use go_espn_api.Ingest.Feed.{last_put, feed_lem, upsert_item-Effect}
use go_espn_api.Ingest.Db.{NhlTeam, Db, Env}
use go_espn_api.Ingest.Nhl.Teams.{
  deactivated, deactivate_row, deactivate_table, nhl_teams_of, set_nhl_teams, deactivate_all,
  nhl_team_put, nhl_team_item, sync_items, sync_teams,
}

-- Whether the team with an id is active, if there is one.
abbrev pub active_at : Bytes → Table Bytes NhlTeam → Option Bool
active_at k t = Option.map (λ m. m.is_active) (value_at bytes_eq k t)

-- An item of the feed bears the id.
abbrev names : Bytes → Value → Bool
names k x = not (is_empty (mid (as_map x) "id")) && bytes_eq (mid (as_map x) "id") k

pub listed : Bytes → List Value → Bool
listed k [] = false
listed k (x ∷ xs) = names k x || listed k xs

value_at-deactivate_table :
    (k : Bytes) (rs : List (Row Bytes NhlTeam)) (n : ℕ)
    → value_at bytes_eq k (deactivate_table (record { next = n; rows = rs }))
      ≡ Option.map deactivated (value_at bytes_eq k (record { next = n; rows = rs }))
value_at-deactivate_table k [] n = refl
value_at-deactivate_table k (r ∷ rs) n = elim (Bool-cases (bytes_eq r.key k)) [
  | inl y ↦ rw y refl
  | inr e ↦ rw e (value_at-deactivate_table k rs n)
]

active-deactivated :
    (o : Option NhlTeam)
    → Option.map (λ (m : NhlTeam). m.is_active) (Option.map deactivated o)
      ≡ Option.map (λ a. false) (Option.map (λ (m : NhlTeam). m.is_active) o)
active-deactivated none = refl
active-deactivated (some m) = refl

if_same {ℓ} : {A : Type ℓ} (b : Bool) (a : A) → (if b then a else a) ≡ a
if_same true a = refl
if_same false a = refl

module _ (env : Env) where
  abbrev puts : List Value → List (Option (Bytes × NhlTeam))
  puts xs = map (λ x. nhl_team_put env (parse_nhl_team env (as_map x))) xs

  -- A feed makes the teams that it lists active, and says nothing of the others.
  active-last_put :
      (k : Bytes) (xs : List Value) (old : Option NhlTeam)
      → Option.map (λ (m : NhlTeam). m.is_active) (last_put bytes_eq k (puts xs) old)
        ≡ (if listed k xs then some true else Option.map (λ (m : NhlTeam). m.is_active) old)
  unfolding last_put listed nhl_team_put parse_nhl_team
  active-last_put k [] old = refl
  active-last_put k (x ∷ xs) old = elim (Bool-cases (is_empty (mid (as_map x) "id"))) [
    | inl y ↦ rw (y, nhl_team_put) (active-last_put k xs old)
    | inr n ↦ elim (Bool-cases (bytes_eq (mid (as_map x) "id") k)) [
      | inl e ↦ rw (n, e) (active-last_put k xs _ ∙ if_same (listed k xs) (some true))
      | inr o ↦ rw (n, o) (active-last_put k xs old)
    ]
  ]

  -- What a run has done with the items of a feed, seen from a key.
  abbrev pub Synced : List Value → Bytes → Db → IngestionResult → Db → Type 0
  Synced [] k d r d' = (r ≡ new_result) × (d'.nhl_teams ≡ d.nhl_teams)
  Synced (x ∷ xs) k d r d' =
      (total_processed r + r.errors ≡ length (x ∷ xs))
      × (length d'.nhl_teams.rows ≡ length d.nhl_teams.rows + r.created)
      × (value_at bytes_eq k d'.nhl_teams
          ≡ last_put bytes_eq k (puts (x ∷ xs))
              (Option.map deactivated (value_at bytes_eq k d.nhl_teams)))
      × (active_at k d'.nhl_teams ≡ (
          if listed k (x ∷ xs)
          then some true
          else Option.map (λ a. false) (active_at k d.nhl_teams)))

  sync_items-Synced :
      (xs : List Value) (k : Bytes) (s : Session Db) (r : IngestionResult)
      → (sync_items env xs s).0 ≡ ok r
      → Synced xs k s.db r (sync_items env xs s).1.db
  unfolding sync_items deactivate_all nhl_team_item
  sync_items-Synced [] k s r h = (sym (ok-inj h), refl)
  sync_items-Synced (x ∷ xs) k s r h =
      let turn : Db → Unit × Db =
        λ d. (tt, record d { nhl_teams = deactivate_table d.nhl_teams }) in
      let q =
        statement-ok env.fails turn (λ u. for_each (nhl_team_item env) (x ∷ xs) new_result) s r h in
      let s' : Session Db = record { db = (turn s.db).1; clock = s.clock + 1 } in
      let ((p, g, v), z) =
        feed_lem bytes_eq nhl_teams_of (λ y. nhl_team_put env (parse_nhl_team env (as_map y)))
          (λ d. Unit {0}) (nhl_team_item env)
          (λ j y t u t' e c.
            let (f, o) =
              upsert_item-Effect env.fails bytes_eq bytes_eq_iff nhl_teams_of set_nhl_teams
                (λ b d. refl) (λ d. d.teams) (λ b d. refl) j
                (nhl_team_put env (parse_nhl_team env (as_map y))) t u t' e in
            (f, tt))
          k (x ∷ xs) s' r (sym (ap (λ z. z.0) q) ∙ h) tt in
      let was = value_at-deactivate_table k s.db.nhl_teams.rows s.db.nhl_teams.next in
      let feed = puts (x ∷ xs) in
      let now = v ∙ ap (last_put bytes_eq k feed) was in
      rw (ap (λ z. z.1.db) q) (
        omega
            (arith, p, length-map (λ y. nhl_team_put env (parse_nhl_team env (as_map y))) (x ∷ xs)),
        omega (arith, g, length-map deactivate_row s.db.nhl_teams.rows),
        now,
        ap (Option.map (λ (m : NhlTeam). m.is_active)) now
            ∙ active-last_put k (x ∷ xs) _
            ∙ ap (λ o. if listed k (x ∷ xs) then some true else o)
                (active-deactivated (value_at bytes_eq k s.db.nhl_teams)),
      )

-- A run of SyncTeams that succeeds has, where the response has an item, counted every item once, as
-- created, as updated or as an error; the table has grown by the rows created; for every team id it
-- has the last item with that id, or what it had, made inactive; and the active teams are those that
-- the response lists. Where the response has no item it has left the teams as they were.
pub sync_teams_lem :
    (env : Env) (s : Session Db) (r : IngestionResult) (k : Bytes)
    → (sync_teams env s).0 ≡ ok r
    → (root : Map) × (decoded env env.get_nhl_teams ≡ some root)
      × Synced env (mslice root "data") k s.db r (sync_teams env s).1.db
unfolding sync_teams
sync_teams_lem env s r k h =
    let body : Map → Tx Db IngestionResult = λ root. sync_items env (mslice root "data") in
    let (e, d) = with_tx-ok env.fails (load env env.get_nhl_teams >>= body) s r h in
    let (root, f, q) = loaded-ok env env.get_nhl_teams body (begun s) r e in
    let t = sync_items-Synced env (mslice root "data") k (begun s) r (sym (ap (λ z. z.0) q) ∙ e) in
    (root, f, subst (Synced env (mslice root "data") k s.db r) (sym (d ∙ ap (λ z. z.1.db) q)) t)
