-- ===== src/Ingest/Scoreboard/Rebuild.antt =====
-- What the loop over the competitors of an event does when it succeeds.
use go_espn_api.Prelude.{
  ℕ, ◌+◌, ◌≡◌, refl, ap, sym, ◌∙◌, true, false, some, List, [], ◌∷◌, ◌++◌, append_assoc, append-nil,
  is_empty, inl, inr, Bool-cases, ◌⊎◌,
}
use mathlib.Core.Path.{subst}
use go_espn_api.Ingest.Json.{Value, as_map, mmap, mid}
use go_espn_api.Ingest.Store.{Table, ok, Session, ◌>>=◌, for_each, pure, get_or_create}
use go_espn_api.Ingest.Store.Laws.{statement-ok, bind-ok, ok-inj}
use go_espn_api.Ingest.Store.Ids.{
  id_at, IsExtended, IsGrown, extended-IsGrown, get_or_create-keeps, get_or_create-id_at,
}
use go_espn_api.Ingest.Db.{Team, Competitor, ScopedKey, Db, Env, scoped_eq}
use go_espn_api.Ingest.Db.Keys.{scoped_eq_iff}
use go_espn_api.Ingest.Scoreboard.Competitors.{
  team_espn_id, minimal_team, team_get_or_create, parse_competitor, competitor_row,
  competitor_insert, create_competitor,
}

module _ (env : Env) (l e : ℕ) where
  -- The rows of the competitors from an index on: those without a team id are left out, and the
  -- others have the id of their team in the table.
  pub data Lineup (teams : Table ScopedKey Team) : ℕ → List Value → List Competitor → Type 0 where
    nobody : (idx : ℕ) → Lineup teams idx [] []
    skipped :
        (idx : ℕ) (c : Value) (cs : List Value) (rows : List Competitor)
        → is_empty (team_espn_id (as_map c)) ≡ true
        → Lineup teams (idx + 1) cs rows
        → Lineup teams idx (c ∷ cs) rows
    placed :
        (idx : ℕ) (c : Value) (cs : List Value) (rows : List Competitor) (t : ℕ)
        → is_empty (team_espn_id (as_map c)) ≡ false
        → id_at scoped_eq (l, team_espn_id (as_map c)) teams ≡ some t
        → Lineup teams (idx + 1) cs rows
        → Lineup teams idx
            (c ∷ cs)
            (competitor_row env (parse_competitor env e t idx (as_map c)) ∷ rows)

  pub lineup-grown :
      (teams teams' : Table ScopedKey Team) (idx : ℕ) (cs : List Value) (rows : List Competitor)
      → IsGrown scoped_eq teams teams'
      → Lineup teams idx cs rows
      → Lineup teams' idx cs rows
  lineup-grown teams teams' idx cs rows g (nobody i) = nobody i
  lineup-grown teams teams' idx cs rows g (skipped i c ds ys y p) =
      skipped i c ds ys y (lineup-grown teams teams' (i + 1) ds ys g p)
  lineup-grown teams teams' idx cs rows g (placed i c ds ys t n h p) =
      placed i c ds ys t n (g _ t h) (lineup-grown teams teams' (i + 1) ds ys g p)

  -- What else the loop leaves.
  abbrev pub Frame : Db → Db → Type 0
  Frame d d' =
      IsExtended scoped_eq d.teams d'.teams × (d'.events ≡ d.events) × (d'.venues ≡ d.venues)

  -- What one turn leaves.
  abbrev Turn : Value → ℕ → Db → Db → Type 0
  Turn c idx d d' =
      ((is_empty (team_espn_id (as_map c)) ≡ true) × (d' ≡ d))
      ⊎ ((t : ℕ) × (is_empty (team_espn_id (as_map c)) ≡ false)
          × (id_at scoped_eq (l, team_espn_id (as_map c)) d'.teams ≡ some t)
          × (d'.competitors
              ≡ d.competitors ++ competitor_row env (parse_competitor env e t idx (as_map c)) ∷ [])
          × Frame d d')

  create_competitor-Turn :
      (c : Value) (idx : ℕ) (s : Session Db) (next : ℕ)
      → (create_competitor env l e c idx s).0 ≡ ok next
      → (next ≡ idx + 1) × Turn c idx s.db (create_competitor env l e c idx s).1.db
  unfolding create_competitor team_get_or_create competitor_insert
  create_competitor-Turn c idx s next h = elim (Bool-cases (is_empty (team_espn_id (as_map c)))) [
    | inl y ↦ (sym (ok-inj (rw y at h)), inl (y, rw y refl))
    | inr n ↦
        let o = mmap (as_map c) "team" in
        let key : ScopedKey = (l, mid o "id") in
        let made = λ (d : Db). get_or_create scoped_eq key (minimal_team env o) d.teams in
        let turn : Db → ℕ × Db = λ d. ((made d).0.id, record d { teams = (made d).1 }) in
        let row = λ (t : ℕ). competitor_row env (parse_competitor env e t idx (as_map c)) in
        let add : ℕ → Db → Unit × Db =
          λ t d. (tt, record d { competitors = d.competitors ++ row t ∷ [] }) in
        let q =
          statement-ok env.fails turn
            (λ t. competitor_insert env (parse_competitor env e t idx (as_map c)) >>= λ u.
              pure (idx + 1))
            s next (rw n at h) in
        let s1 : Session Db = record { db = (turn s.db).1; clock = s.clock + 1 } in
        let t = (turn s.db).0 in
        let p =
          statement-ok env.fails (add t) (λ u. pure (idx + 1)) s1 next
            (sym (ap (λ z. z.0) q) ∙ rw n at h) in
        let a = q ∙ p in
        let f = sym (ap (λ z. z.0) a) ∙ rw n at h in
        (
          sym (ok-inj f),
          inr (
            t,
            n,
            rw (n, ap (λ z. z.1.db) a)
                (get_or_create-id_at scoped_eq scoped_eq_iff key (minimal_team env o) s.db.teams),
            rw (n, ap (λ z. z.1.db) a) refl,
            (
              rw (n, ap (λ z. z.1.db) a)
                  (λ j r g.
                    get_or_create-keeps scoped_eq scoped_eq_iff key j (minimal_team env o)
                      s.db.teams r g),
              rw (n, ap (λ z. z.1.db) a) refl,
              rw (n, ap (λ z. z.1.db) a) refl,
            ),
          ),
        )
  ]

  -- What the loop leaves of a database.
  abbrev pub Rebuilt : List Value → ℕ → Db → Db → Type 0
  Rebuilt cs idx d d' =
      (rows : List Competitor) × Lineup d'.teams idx cs rows
      × (d'.competitors ≡ d.competitors ++ rows)
      × Frame d d'

  turn-Rebuilt :
      (c : Value) (cs : List Value) (idx : ℕ) (d d1 d' : Db)
      → Turn c idx d d1
      → Rebuilt cs (idx + 1) d1 d'
      → Rebuilt (c ∷ cs) idx d d'
  turn-Rebuilt c cs idx d d1 d' (inl (y, e)) (rows, p, m, f) = (
    rows,
    skipped idx c cs rows y p,
    subst (λ z. d'.competitors ≡ z.competitors ++ rows) e m,
    subst (λ z. Frame z d') e f,
  )
  turn-Rebuilt c cs idx d d1 d' (inr (t, n, i, a, (x, u, v))) (rows, p, m, (x', u', v')) =
      let row = competitor_row env (parse_competitor env e t idx (as_map c)) in
      (
        row ∷ rows,
        placed idx c cs rows t n
            (extended-IsGrown scoped_eq scoped_eq_iff d1.teams d'.teams x' _ t i) p,
        m ∙ ap (λ z. z ++ rows) a ∙ append_assoc d.competitors (row ∷ []) rows,
        ((λ j r g. x' j r (x j r g)), u' ∙ u, v' ∙ v),
      )

  pub competitors_lem :
      (cs : List Value) (idx : ℕ) (s : Session Db) (n : ℕ)
      → (for_each (create_competitor env l e) cs idx s).0 ≡ ok n
      → Rebuilt cs idx s.db (for_each (create_competitor env l e) cs idx s).1.db
  unfolding for_each
  competitors_lem [] idx s n h =
      ([], nobody idx, sym (append-nil s.db.competitors), ((λ j r g. g), refl, refl))
  competitors_lem (c ∷ cs) idx s n h =
      let (next, h1, q) =
        bind-ok (create_competitor env l e c idx) (for_each (create_competitor env l e) cs) s n h in
      let s1 = (create_competitor env l e c idx s).1 in
      let (a, b) = create_competitor-Turn c idx s next h1 in
      let ih = competitors_lem cs next s1 n (sym (ap (λ z. z.0) q) ∙ h) in
      rw (ap (λ z. z.1.db) q) (
        turn-Rebuilt c cs idx s.db s1.db (for_each (create_competitor env l e) cs next s1).1.db b (
          subst (λ i. Rebuilt cs i s1.db (for_each (create_competitor env l e) cs next s1).1.db) a
            ih))
