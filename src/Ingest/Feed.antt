-- ===== src/Ingest/Feed.antt =====
-- The loop that the NHL services share: each item of a feed is an upsert, or is counted as an error.
use go_espn_api.Prelude.{
  ℕ, ◌+◌, ◌≡◌, ◌↔◌, refl, ap, sym, ◌∙◌, Bool, true, false, Option, none, some, List, [], ◌∷◌, arith,
  length, map, if◌then◌else◌,
}
use go_espn_api.Ingest.Result.{IngestionResult, new_result, total_processed, tally, tally-counts}
use go_espn_api.Ingest.Store.{Table, Tx, Session, ok, statement, upsert, ◌>>=◌, pure, for_each}
use go_espn_api.Ingest.Store.Laws.{
  upsert-length, upsert-value, value_at, for_each-Keeps, statement-ok, ok-inj,
}
use go_espn_api.Ingest.Store.Success.{Succeeds, pure-Succeeds, bind-Succeeds, statement-Succeeds}

module _ (fails : ℕ → Bool) {D K V : Type 0} (eq : K → K → Bool) (table : D → Table K V)
    (set : Table K V → D → D) where
  -- Upsert and count.
  unfoldable pub upsert_row : K → V → Tx D Bool
  upsert_row k v =
      statement fails λ d. let (u, t) = upsert eq k v (table d) in (u.inserted, set t d)

  -- The body of the loop: an item that has no key is counted.
  unfoldable pub upsert_item : Option (K × V) → IngestionResult → Tx D IngestionResult
  unfolding upsert_row ◌>>=◌
  upsert_item none r = pure (record r { errors = r.errors + 1 })
  upsert_item (some (k, v)) r = upsert_row k v >>= λ created. pure (tally created r)

  pub upsert_item-Succeeds :
      ((n : ℕ) → fails n ≡ false)
      → (o : Option (K × V)) (r : IngestionResult) → Succeeds (upsert_item o r)
  unfolding upsert_item upsert_row
  upsert_item-Succeeds never none r = pure-Succeeds _
  upsert_item-Succeeds never (some (k, v)) r =
      bind-Succeeds (upsert_row k v) _ (statement-Succeeds fails never _) (λ b. pure-Succeeds _)

-- What an item leaves under a key.
abbrev put : {K V : Type 0} → (K → K → Bool) → K → Option (K × V) → Option V → Option V
put eq j none old = old
put eq j (some (k, v)) old = if eq k j then some v else old

-- The last value with the key in a feed, or the one before it.
unfoldable pub last_put :
    {K V : Type 0} → (K → K → Bool) → K → List (Option (K × V)) → Option V → Option V
last_put eq j [] old = old
last_put eq j (o ∷ os) old = last_put eq j os (put eq j o old)

module _ {D K V : Type 0} (eq : K → K → Bool) (table : D → Table K V) where
  -- What one item leaves of the counts, of the number of rows and of the value under a key.
  abbrev pub Effect : K → Option (K × V) → IngestionResult → D → IngestionResult → D → Type 0
  Effect j o r d r' d' =
      (total_processed r' + r'.errors ≡ total_processed r + r.errors + 1)
      × (length (table d').rows + r.created ≡ length (table d).rows + r'.created)
      × (value_at eq j (table d') ≡ put eq j o (value_at eq j (table d)))

  -- What the loop has done when it succeeds: every item is counted once, the table has grown by the
  -- rows created, and has under every key the last value with it.
  abbrev pub Fed : K → List (Option (K × V)) → IngestionResult → D → IngestionResult → D → Type 0
  Fed j os r d r' d' =
      (total_processed r' + r'.errors ≡ total_processed r + r.errors + length os)
      × (length (table d').rows + r.created ≡ length (table d).rows + r'.created)
      × (value_at eq j (table d') ≡ last_put eq j os (value_at eq j (table d)))

  -- A loop each turn of which has the effect of an item, as long as what it reads stays.
  module _ {A : Type 0} (parse : A → Option (K × V)) (Reads : D → Type 0)
      (body : A → IngestionResult → Tx D IngestionResult)
      (turn : (j : K) (x : A) (r : IngestionResult) (s : Session D) (r' : IngestionResult)
        → (body x r s).0 ≡ ok r'
        → Reads s.db
        → Effect j (parse x) r s.db r' (body x r s).1.db × Reads (body x r s).1.db) where
    abbrev Progress : K → ℕ → ℕ → Option V → List A → IngestionResult → D → Type 0
    Progress j items rows w xs r d =
        (total_processed r + r.errors + length (map parse xs) ≡ items)
        × (length (table d).rows ≡ rows + r.created)
        × (last_put eq j (map parse xs) (value_at eq j (table d)) ≡ w)
        × Reads d

    item-Progress :
        (j : K) (items rows : ℕ) (w : Option V) (x : A) (xs : List A) (r : IngestionResult)
        (s : Session D) (r' : IngestionResult)
        → (body x r s).0 ≡ ok r'
        → Progress j items rows w (x ∷ xs) r s.db
        → Progress j items rows w xs r' (body x r s).1.db
    unfolding last_put
    item-Progress j items rows w x xs r s r' h (p, q, e, d) =
        let ((a, b, c), f) = turn j x r s r' h d in
        (omega arith, omega arith, ap (last_put eq j (map parse xs)) c ∙ e, f)

    pub feed_lem :
        (j : K) (xs : List A) (s : Session D) (r' : IngestionResult)
        → (for_each body xs new_result s).0 ≡ ok r'
        → Reads s.db
        → Fed j (map parse xs) new_result s.db r' (for_each body xs new_result s).1.db
          × Reads (for_each body xs new_result s).1.db
    unfolding last_put
    feed_lem j xs s r' h d =
        let items = length (map parse xs) in
        let rows = length (table s.db).rows in
        let w = last_put eq j (map parse xs) (value_at eq j (table s.db)) in
        let (p, q, e, f) =
          for_each-Keeps body (Progress j items rows w) (item-Progress j items rows w) xs new_result
            s r' h (omega arith, omega arith, refl, d) in
        ((omega arith, omega arith, e), f)

module _ (fails : ℕ → Bool) {D K V : Type 0} (eq : K → K → Bool)
    (eq_iff : (a b : K) → (eq a b ≡ true) ↔ (a ≡ b)) (table : D → Table K V)
    (set : Table K V → D → D) (table-set : (t : Table K V) (d : D) → table (set t d) ≡ t)
    {X : Type 0} (other : D → X)
    (other-set : (t : Table K V) (d : D) → other (set t d) ≡ other d) where
  pub upsert_item-Effect :
      (j : K) (o : Option (K × V)) (r : IngestionResult) (s : Session D) (r' : IngestionResult)
      → (upsert_item fails eq table set o r s).0 ≡ ok r'
      → Effect eq table j o r s.db r' (upsert_item fails eq table set o r s).1.db
        × (other (upsert_item fails eq table set o r s).1.db ≡ other s.db)
  unfolding upsert_item upsert_row
  upsert_item-Effect j none r s r' h =
      let f : record r { errors = r.errors + 1 } ≡ r' = ok-inj h in
      rw (← f) ((omega arith, refl, refl), refl)
  upsert_item-Effect j (some (k, v)) r s r' h =
      let t = upsert eq k v (table s.db) in
      let turn : D → Bool × D =
        λ d. ((upsert eq k v (table d)).0.inserted, set (upsert eq k v (table d)).1 d) in
      let q = statement-ok fails turn (λ created. pure (tally created r)) s r' h in
      let f : tally t.0.inserted r ≡ r' = ok-inj (sym (ap (λ z. z.0) q) ∙ h) in
      let (c1, c2) = tally-counts t.0.inserted r in
      rw (ap (λ z. z.1.db) q, ← f, table-set t.1 s.db)
        (
          (
            c1,
            omega (arith, c2, upsert-length eq eq_iff k v (table s.db)),
            upsert-value eq eq_iff k j v (table s.db),
          ),
          other-set t.1 s.db,
        )
