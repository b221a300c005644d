-- ===== src/Ingest/Injuries/Laws.antt =====
-- A run of IngestInjuries replaces the injuries of its league.
use go_espn_api.Prelude.{
  ℕ, ◌+◌, ◌≡◌, refl, ap, sym, ◌∙◌, not, ◌==◌, Option, none, some, List, [], ◌∷◌, ◌++◌, append_assoc,
  append-nil, Bytes, is_empty, arith, if◌then◌else◌, inl, inr, Bool-cases, length, length-append,
  keep_if,
}
use go_espn_api.Ingest.Result.{IngestionResult, new_result}
use go_espn_api.Ingest.Json.{Value, Map, as_map, mslice}
use go_espn_api.Ingest.Store.{Table, find_row, ok, Session, Tx, ◌>>=◌, ◌>>◌, for_each, pure}
use go_espn_api.Ingest.Store.Laws.{for_each-Keeps, statement-ok, ok-inj, pure-bind}
use go_espn_api.Ingest.Resolve.{resolve_sport_league}
use go_espn_api.Ingest.Resolve.Laws.{service-ok, begun, decoded}
use go_espn_api.Ingest.Db.{Injury, Team, ScopedKey, Db, Env, scoped_eq}
use go_espn_api.Ingest.Injuries.{
  id_of, or_items, id_by_espn_in_league, parse_injury, delete_by_league, injury_row, injury_insert,
  store_injury, injury_item, store_injuries, ingest_injuries,
}

-- The id of the team with an ESPN id in a league, where there is one.
abbrev pub team_of : ℕ → Bytes → Table ScopedKey Team → Option ℕ
team_of l espn_id teams =
    if is_empty espn_id then none else id_of (find_row scoped_eq (l, espn_id) teams.rows)

-- The rows of an item, and of a report: one for each item that has the name of an athlete, in order.
abbrev injury_of : Env → ℕ → Table ScopedKey Team → Option (Injury × Bytes) → List Injury
injury_of env l teams none = []
injury_of env l teams (some (m, team)) =
    injury_row env (record m { team_id = team_of l team teams }) ∷ []

unfoldable pub report : Env → ℕ → Table ScopedKey Team → List Value → List Injury
report env l teams [] = []
report env l teams (x ∷ xs) =
    injury_of env l teams (parse_injury env l (as_map x)) ++ report env l teams xs

report-nil : (env : Env) (l : ℕ) (teams : Table ScopedKey Team) → 0 ≡ length (report env l teams [])
unfolding report
report-nil env l teams = refl

report-end :
    (env : Env) (l : ℕ) (teams : Table ScopedKey Team) (xs : List Injury)
    → xs ++ report env l teams [] ≡ xs
unfolding report
report-end env l teams xs = append-nil xs

-- The injuries after a report: that of no item leaves them, any other replaces those of the league.
unfoldable pub replaced : Env → ℕ → Table ScopedKey Team → List Value → List Injury → List Injury
replaced env l teams [] old = old
replaced env l teams (x ∷ xs) old =
    keep_if (λ m. not (m.league_id == l)) old ++ report env l teams (x ∷ xs)

module _ (env : Env) where
  pub id_by_espn-ok :
      {B : Type 0} (l : ℕ) (e : Bytes) (k : Option ℕ → Tx Db B) (s : Session Db) (b : B)
      → ((id_by_espn_in_league env l e >>= k) s).0 ≡ ok b
      → (s' : Session Db) × (s'.db ≡ s.db)
        × ((id_by_espn_in_league env l e >>= k) s ≡ k (team_of l e s.db.teams) s')
  unfolding id_by_espn_in_league
  id_by_espn-ok l e k s b h = elim (Bool-cases (is_empty e)) [
    | inl y ↦ (s, refl, rw y (pure-bind none k s))
    | inr n ↦ (
      record s { clock = s.clock + 1 },
      refl,
      rw n (
          statement-ok env.fails (λ db. (id_of (find_row scoped_eq (l, e) db.teams.rows), db)) k s b
            (rw n at h)),
    )
  ]

  store_injury-effect :
      (l : ℕ) (o : Option (Injury × Bytes)) (r : IngestionResult) (s : Session Db)
      (r' : IngestionResult)
      → (store_injury env l o r s).0 ≡ ok r'
      → let d' = (store_injury env l o r s).1.db in
        (r'.created ≡ r.created + length (injury_of env l s.db.teams o))
        × (r'.created + r'.errors ≡ r.created + r.errors + 1)
        × (r'.updated ≡ r.updated)
        × (d'.injuries ≡ s.db.injuries ++ injury_of env l s.db.teams o)
        × (d'.teams ≡ s.db.teams)
  unfolding store_injury injury_insert
  store_injury-effect l none r s r' h =
      let e : record r { errors = r.errors + 1 } ≡ r' = ok-inj h in
      rw (← e) (omega arith, omega arith, refl, sym (append-nil s.db.injuries), refl)
  store_injury-effect l (some (m, team)) r s r' h =
      let rest : Option ℕ → Tx Db IngestionResult = λ team_id.
        injury_insert env (record m { team_id = team_id })
        >> pure (record r { created = r.created + 1 }) in
      let (t, d, q) = id_by_espn-ok l team rest s r' h in
      let w = record m { team_id = team_of l team s.db.teams } in
      let q2 =
        statement-ok env.fails
          (λ db. (tt, record db { injuries = db.injuries ++ injury_row env w ∷ [] }))
          (λ x. pure (record r { created = r.created + 1 })) t r' (sym (ap (λ z. z.0) q) ∙ h) in
      let q3 = q ∙ q2 in
      let e : record r { created = r.created + 1 } ≡ r' = ok-inj (sym (ap (λ z. z.0) q3) ∙ h) in
      rw (← e) (
        omega arith,
        omega arith,
        refl,
        ap (λ z. z.1.db.injuries) q3 ∙ ap (λ z. z.injuries ++ injury_row env w ∷ []) d,
        ap (λ z. z.1.db.teams) q3 ∙ ap (λ z. z.teams) d,
      )

  -- The state of the loop, against what it ends in.
  abbrev Progress :
      ℕ → Table ScopedKey Team → List Injury → ℕ → ℕ → List Value → IngestionResult → Db → Type 0
  Progress l teams final rows items xs r db =
      (db.injuries ++ report env l teams xs ≡ final)
      × (r.created + length (report env l teams xs) ≡ rows)
      × (r.created + r.errors + length xs ≡ items)
      × (r.updated ≡ 0)
      × (db.teams ≡ teams)

  injury_item-Progress :
      (l : ℕ) (teams : Table ScopedKey Team) (final : List Injury) (rows items : ℕ) (x : Value)
      (xs : List Value) (r : IngestionResult) (s : Session Db) (r' : IngestionResult)
      → (injury_item env l x r s).0 ≡ ok r'
      → Progress l teams final rows items (x ∷ xs) r s.db
      → Progress l teams final rows items xs r' (injury_item env l x r s).1.db
  unfolding injury_item report
  injury_item-Progress l teams final rows items x xs r s r' h (p, q, n, u, t) =
      let o = parse_injury env l (as_map x) in
      let (a, b, c, d, e) = store_injury-effect l o r s r' h in
      let same : injury_of env l s.db.teams o ≡ injury_of env l teams o =
        ap (λ z. injury_of env l z o) t in
      (
        ap (λ z. z ++ report env l teams xs) (d ∙ ap (λ z. s.db.injuries ++ z) same)
            ∙ append_assoc s.db.injuries (injury_of env l teams o) (report env l teams xs)
            ∙ p,
        omega (
          arith,
          a,
          ap length same,
          length-append (injury_of env l teams o) (report env l teams xs),
          q,
        ),
        omega arith,
        c ∙ u,
        e ∙ t,
      )

  store_injuries-effect :
      (l : ℕ) (xs : List Value) (s : Session Db) (r : IngestionResult)
      → (store_injuries env l xs s).0 ≡ ok r
      → let d' = (store_injuries env l xs s).1.db in
        (d'.injuries ≡ replaced env l s.db.teams xs s.db.injuries)
        × (r.created ≡ length (report env l s.db.teams xs))
        × (r.created + r.errors ≡ length xs)
        × (r.updated ≡ 0)
  unfolding store_injuries delete_by_league replaced
  store_injuries-effect l [] s r h =
      let e : new_result ≡ r = ok-inj h in rw (← e) (refl, report-nil env l s.db.teams, refl, refl)
  store_injuries-effect l (x ∷ xs) s r h =
      let kept = keep_if (λ m. not (m.league_id == l)) s.db.injuries in
      let q =
        statement-ok env.fails
          (λ db. (tt, record db { injuries = keep_if (λ m. not (m.league_id == l)) db.injuries }))
          (λ z. for_each (injury_item env l) (x ∷ xs) new_result) s r h in
      let t : Session Db = record { db = record s.db { injuries = kept }; clock = s.clock + 1 } in
      let teams = s.db.teams in
      let rows = report env l teams (x ∷ xs) in
      let (a, b, c, d, e) =
        for_each-Keeps (injury_item env l)
          (Progress l teams (kept ++ rows) (length rows) (length (x ∷ xs)))
          (injury_item-Progress l teams (kept ++ rows) (length rows) (length (x ∷ xs))) (x ∷ xs)
          new_result t r (sym (ap (λ z. z.0) q) ∙ h) (refl, omega arith, omega arith, refl, refl) in
      (
        ap (λ z. z.1.db.injuries) q ∙ sym (report-end env l teams _) ∙ a,
        omega (arith, b, report-nil env l teams),
        omega arith,
        d,
      )

-- A run of IngestInjuries that succeeds has, where the response has an item, replaced the injuries
-- of the resolved league by one row for each item with an athlete's name, in their order, with the
-- team looked up by its ESPN id in the league, and has kept those of the other leagues; where the
-- response has no item, it has left the injuries as they were. It counts the rows as created and
-- the other items as errors, and nothing as updated.
pub ingest_injuries_lem :
    (env : Env) (sport league : Bytes) (s : Session Db) (r : IngestionResult)
    → (ingest_injuries env sport league s).0 ≡ ok r
    → (l : ℕ) × (root : Map) × ((resolve_sport_league env sport league (begun s)).0 ≡ ok l)
      × (decoded env (env.get_league_injuries sport league) ≡ some root)
      × let items = or_items (mslice root "items") (mslice root "injuries") in
        ((ingest_injuries env sport league s).1.db.injuries
          ≡ replaced env l s.db.teams items s.db.injuries)
        × (r.created ≡ length (report env l s.db.teams items))
        × (r.created + r.errors ≡ length items)
        × (r.updated ≡ 0)
unfolding ingest_injuries
ingest_injuries_lem env sport league s r h =
    let items : Map → List Value =
      λ root. or_items (mslice root "items") (mslice root "injuries") in
    let (l, root, s', e, d, c, b, f) =
      service-ok env (env.get_league_injuries sport league)
        (λ l root. store_injuries env l (items root)) sport league s r h in
    let (i, n, m, u) = store_injuries-effect env l (items root) s' r b in
    let teams : s'.db.teams ≡ s.db.teams = ap (λ z. z.0) c in
    let injuries : s'.db.injuries ≡ s.db.injuries = ap (λ z. z.2) c in
    (
      l,
      root,
      e,
      d,
      (
        ap (λ z. z.injuries) f
            ∙ i
            ∙ ap (λ z. replaced env l z (items root) s'.db.injuries) teams
            ∙ ap (replaced env l s.db.teams (items root)) injuries,
        n ∙ ap (λ z. length (report env l z (items root))) teams,
        m,
        u,
      ),
    )
