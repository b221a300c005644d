-- ===== src/Ingest/Transactions/Laws.antt =====
-- A run of IngestTransactions counts what it has written.
use go_espn_api.Prelude.{
  ℕ, ◌+◌, ◌≡◌, refl, ap, sym, ◌∙◌, Bool, true, false, Option, none, some, List, [], ◌∷◌, Bytes,
  is_empty, arith, if◌then◌else◌, inl, inr, Bool-cases, length, length-append,
}
use go_espn_api.Ingest.Result.{IngestionResult, new_result, total_processed, tally, tally-counts}
use go_espn_api.Ingest.Json.{Value, Map, as_map, mslice}
use go_espn_api.Ingest.Store.{Row, find_row, ok, Session, Tx, ◌>>=◌, for_each, pure}
use go_espn_api.Ingest.Store.Laws.{for_each-Keeps, statement-ok, statement-effect, bind-ok, ok-inj}
use go_espn_api.Ingest.Resolve.Laws.{service-ok, decoded}
use go_espn_api.Ingest.Db.{Transaction, ScopedKey, Db, Env, scoped_eq}
use go_espn_api.Ingest.Injuries.{or_items}
use go_espn_api.Ingest.Injuries.Laws.{id_by_espn-ok, team_of}
use go_espn_api.Ingest.Transactions.{
  update_by_id, parse_transaction, add_row, change_row, updated_row, transaction_insert,
  transaction_update, write_found, upsert_by_espn, save_transaction, store_transaction,
  transaction_item, ingest_transactions,
}

length-update_by_id {ℓ} :
    {K V : Type ℓ} (id : ℕ) (f : V → V) (rows : List (Row K V))
    → length (update_by_id id f rows) ≡ length rows
length-update_by_id id f [] = refl
length-update_by_id id f (r ∷ rows) = omega (arith, length-update_by_id id f rows)

module _ (env : Env) where
  -- The rows grow exactly when a creation is reported.
  abbrev Grows : Bool → Db → Db → Type 0
  Grows b d d' = length d'.transactions.rows ≡ length d.transactions.rows + (if b then 1 else 0)

  insert-Grows :
      (m : Transaction) (s : Session Db) (b : Bool)
      → (transaction_insert env m s).0 ≡ ok b
      → Grows b s.db (transaction_insert env m s).1.db
  unfolding transaction_insert
  insert-Grows m s b h =
      let (e, d) =
        statement-effect env.fails
          (λ db. (true, record db { transactions = add_row env m db.transactions })) s b h in
      rw (e, d) (length-append s.db.transactions.rows _)

  update-Grows :
      (id : ℕ) (m : Transaction) (s : Session Db) (b : Bool)
      → (transaction_update env id m s).0 ≡ ok b
      → Grows b s.db (transaction_update env id m s).1.db
  unfolding transaction_update
  update-Grows id m s b h =
      let (e, d) =
        statement-effect env.fails
          (λ db. (false, record db { transactions = change_row env id m db.transactions })) s b h in
      rw (e, d) (omega (arith, length-update_by_id id (updated_row env m) s.db.transactions.rows))

  write_found-Grows :
      (m : Transaction) (o : Option (Row ScopedKey Transaction)) (s : Session Db) (b : Bool)
      → (write_found env m o s).0 ≡ ok b
      → Grows b s.db (write_found env m o s).1.db
  write_found-Grows m none s b h = insert-Grows m s b h
  write_found-Grows m (some row) s b h = update-Grows row.id m s b h

  upsert_by_espn-Grows :
      (m : Transaction) (s : Session Db) (b : Bool)
      → (upsert_by_espn env m s).0 ≡ ok b
      → Grows b s.db (upsert_by_espn env m s).1.db
  unfolding upsert_by_espn
  upsert_by_espn-Grows m s b h =
      let q =
        statement-ok env.fails
          (λ db. (find_row scoped_eq (m.league_id, m.espn_id) db.transactions.rows, db))
          (write_found env m) s b h in
      let t : Session Db = record s { clock = s.clock + 1 } in
      rw (ap (λ z. z.1.db) q) (
        write_found-Grows m (find_row scoped_eq (m.league_id, m.espn_id) s.db.transactions.rows) t b
          (sym (ap (λ z. z.0) q) ∙ h))

  save-Grows :
      (m : Transaction) (s : Session Db) (b : Bool)
      → (save_transaction env m s).0 ≡ ok b
      → Grows b s.db (save_transaction env m s).1.db
  unfolding save_transaction
  save-Grows m s b h = elim (Bool-cases (is_empty m.espn_id)) [
    | inl y ↦ rw y (insert-Grows m s b (rw y at h))
    | inr n ↦ rw n (upsert_by_espn-Grows m s b (rw n at h))
  ]

  store_transaction-effect :
      (l : ℕ) (o : Option (Transaction × Bytes)) (r : IngestionResult) (s : Session Db)
      (r' : IngestionResult)
      → (store_transaction env l o r s).0 ≡ ok r'
      → (total_processed r' + r'.errors ≡ total_processed r + r.errors + 1)
        × (length (store_transaction env l o r s).1.db.transactions.rows + r.created
            ≡ length s.db.transactions.rows + r'.created)
  unfolding store_transaction
  store_transaction-effect l none r s r' h =
      let e : record r { errors = r.errors + 1 } ≡ r' = ok-inj h in rw (← e) (omega arith, refl)
  store_transaction-effect l (some (m, team)) r s r' h =
      let save : Option ℕ → Tx Db Bool =
        λ team_id. save_transaction env (record m { team_id = team_id }) in
      let (t, d, q) =
        id_by_espn-ok env l team (λ team_id. save team_id >>= λ created. pure (tally created r)) s
          r' h in
      let w = save (team_of l team s.db.teams) in
      let (b, g, p) =
        bind-ok w (λ created. pure (tally created r)) t r' (sym (ap (λ z. z.0) q) ∙ h) in
      let e : tally b r ≡ r' = ok-inj (sym (ap (λ z. z.0) (q ∙ p)) ∙ h) in
      let grown = save-Grows (record m { team_id = team_of l team s.db.teams }) t b g in
      let (n, c) = tally-counts b r in
      rw (← e) (
        n,
        omega (
          arith,
          ap (λ z. length z.1.db.transactions.rows) (q ∙ p),
          ap (λ z. length z.transactions.rows) d,
          grown,
          c,
        ),
      )

  -- The state of the loop, against what it ends in.
  abbrev Progress : ℕ → ℕ → List Value → IngestionResult → Db → Type 0
  Progress rows items xs r db =
      (total_processed r + r.errors + length xs ≡ items)
      × (length db.transactions.rows ≡ rows + r.created)

  transaction_item-Progress :
      (l rows items : ℕ) (x : Value) (xs : List Value) (r : IngestionResult) (s : Session Db)
      (r' : IngestionResult)
      → (transaction_item env l x r s).0 ≡ ok r'
      → Progress rows items (x ∷ xs) r s.db
      → Progress rows items xs r' (transaction_item env l x r s).1.db
  unfolding transaction_item
  transaction_item-Progress l rows items x xs r s r' h (p, q) =
      let (a, b) = store_transaction-effect l (parse_transaction env l (as_map x)) r s r' h in
      (omega arith, omega arith)

-- A run of IngestTransactions that succeeds has counted every item of the response once, as created,
-- as updated or as an error, and the table has grown by exactly as many rows as it counts as created.
pub ingest_transactions_lem :
    (env : Env) (sport league : Bytes) (s : Session Db) (r : IngestionResult)
    → (ingest_transactions env sport league s).0 ≡ ok r
    → (root : Map) × (decoded env (env.get_league_transactions sport league) ≡ some root)
      × (total_processed r + r.errors
          ≡ length (or_items (mslice root "items") (mslice root "transactions")))
      × (length (ingest_transactions env sport league s).1.db.transactions.rows
          ≡ length s.db.transactions.rows + r.created)
unfolding ingest_transactions
ingest_transactions_lem env sport league s r h =
    let items : Map → List Value =
      λ root. or_items (mslice root "items") (mslice root "transactions") in
    let (l, root, s', e, d, c, b, f) =
      service-ok env (env.get_league_transactions sport league)
        (λ l root. for_each (transaction_item env l) (items root) new_result) sport league s r h in
    let rows = length s.db.transactions.rows in
    let n : s'.db.transactions ≡ s.db.transactions = ap (λ z. z.3) c in
    let (p, q) =
      for_each-Keeps (transaction_item env l) (Progress env rows (length (items root)))
        (transaction_item-Progress env l rows (length (items root))) (items root) new_result s' r b
        (omega arith, omega (arith, ap (λ z. length z.rows) n)) in
    (root, d, omega arith, ap (λ z. length z.transactions.rows) f ∙ q)
