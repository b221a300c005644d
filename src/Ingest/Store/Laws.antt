-- ===== src/Ingest/Store/Laws.antt =====
-- Transactions are atomic, and upserts keep one row for each key.
use go_espn_api.Prelude.{
  length, length-append, ℕ, ◌+◌, ◌≡◌, ◌↔◌, refl, sym, ◌∙◌, ap, Bool, true, false, Option, none,
  some, List, [], ◌∷◌, ◌++◌, arith, if◌then◌else◌, ◌⊎◌, inl, inr, Bool-cases, Option-cases,
}
use go_espn_api.Ingest.Store.{
  pure, Row, Table, find_row, write_row, upsert, upsert_found, Error, Result, ok, err, Session, Tx,
  with_tx, statement, finish, continue, ◌>>=◌, for_each,
}

finish-rollback :
    {D A : Type 0} (fails : ℕ → Bool) (before : D) (r : Result A) (s : Session D) (e : Error)
    → (finish fails before r s).0 ≡ err e
    → (finish fails before r s).1.db ≡ before
finish-rollback fails before (ok a) s e h = ground arith
finish-rollback fails before (err x) s e h = refl

-- Whatever the body did, a transaction that ends in an error, also in that of its BEGIN or COMMIT,
-- leaves the database as it was.
pub with_tx-rollback :
    {D A : Type 0} (fails : ℕ → Bool) (body : Tx D A) (s : Session D) (e : Error)
    → (with_tx fails body s).0 ≡ err e
    → (with_tx fails body s).1.db ≡ s.db
unfolding with_tx
with_tx-rollback fails body s e h = elim (Bool-cases (fails s.clock)) [
  | inl y ↦ rw y
  | inr n ↦ rw n (
      finish-rollback fails s.db (body (record s { clock = s.clock + 1 })).0
        (body (record s { clock = s.clock + 1 })).1 e (rw n at h))
]

module _ {D : Type 0} where
  continue-ok :
      {A B : Type 0} (o : Result A) (f : A → Tx D B) (s : Session D) (b : B)
      → (continue o f s).0 ≡ ok b
      → (a : A) × (o ≡ ok a) × (continue o f s ≡ f a s)
  continue-ok (ok a) f s b h = (a, refl, refl)
  continue-ok (err e) f s b h = ground arith

  -- A sequence that succeeds, succeeds in both of its parts.
  pub bind-ok :
      {A B : Type 0} (m : Tx D A) (f : A → Tx D B) (s : Session D) (b : B)
      → ((m >>= f) s).0 ≡ ok b
      → (a : A) × ((m s).0 ≡ ok a) × ((m >>= f) s ≡ f a (m s).1)
  unfolding ◌>>=◌
  bind-ok m f s b h = continue-ok (m s).0 f (m s).1 b h

  continue-err :
      {A B : Type 0} (o : Result A) (f : A → Tx D B) (s : Session D)
      → ((e : Error) × (o ≡ err e) × (continue o f s ≡ (err e, s)))
        ⊎ ((a : A) × (o ≡ ok a) × (continue o f s ≡ f a s))
  continue-err (ok a) f s = inr (a, refl, refl)
  continue-err (err e) f s = inl (e, refl, refl)

  -- A sequence ends with its first part, or goes on to its second.
  pub bind-cases :
      {A B : Type 0} (m : Tx D A) (f : A → Tx D B) (s : Session D)
      → ((e : Error) × ((m s).0 ≡ err e) × ((m >>= f) s ≡ (err e, (m s).1)))
        ⊎ ((a : A) × ((m s).0 ≡ ok a) × ((m >>= f) s ≡ f a (m s).1))
  unfolding ◌>>=◌
  bind-cases m f s = continue-err (m s).0 f (m s).1

  pub pure-bind : {A B : Type 0} (a : A) (f : A → Tx D B) (s : Session D) → (pure a >>= f) s ≡ f a s
  unfolding ◌>>=◌
  pure-bind a f s = refl

  -- What each turn of a loop takes from the items ahead to the items after it, the loop that
  -- succeeds takes to no item.
  pub for_each-Keeps :
      {A R : Type 0} (body : A → R → Tx D R) (P : List A → R → D → Type 0)
      → ((x : A) (xs : List A) (r : R) (s : Session D) (r' : R)
          → (body x r s).0 ≡ ok r'
          → P (x ∷ xs) r s.db
          → P xs r' (body x r s).1.db)
      → (xs : List A) (r : R) (s : Session D) (r' : R) → (for_each body xs r s).0 ≡ ok r'
      → P xs r s.db
      → P [] r' (for_each body xs r s).1.db
  unfolding for_each
  for_each-Keeps body P turn [] r s r' h p = let e : r' ≡ r = cc in rw e p
  for_each-Keeps body P turn (x ∷ xs) r s r' h p =
      let (a, e, q) = bind-ok (body x r) (for_each body xs) s r' h in
      rw (ap (λ z. z.1.db) q) (
        for_each-Keeps body P turn xs a (body x r s).1 r' (sym (ap (λ z. z.0) q) ∙ h)
          (turn x xs r s a e p))

pub Result-cases :
    {A : Type 0} (o : Result A) → ((a : A) × (o ≡ ok a)) ⊎ ((e : Error) × (o ≡ err e))
Result-cases (ok a) = inl (a, refl)
Result-cases (err e) = inr (e, refl)

pub ok-inj : {A : Type 0} {a b : A} → ok a ≡ ok b → a ≡ b
ok-inj h = cc

-- A statement that the run gets past has been executed.
pub statement-ok :
    {D A B : Type 0} (fails : ℕ → Bool) (f : D → A × D) (k : A → Tx D B) (s : Session D) (b : B)
    → ((statement fails f >>= k) s).0 ≡ ok b
    → (statement fails f >>= k) s ≡ k (f s.db).0 (record { db = (f s.db).1; clock = s.clock + 1 })
unfolding statement ◌>>=◌
statement-ok fails f k s b h = elim (Bool-cases (fails s.clock)) [
  | inl y ↦ ground arith
  | inr n ↦ rw n
]

-- A statement that is not refused is executed.
pub statement-run :
    {D A B : Type 0} (fails : ℕ → Bool) (f : D → A × D) (k : A → Tx D B) (s : Session D)
    → fails s.clock ≡ false
    → (statement fails f >>= k) s ≡ k (f s.db).0 (record { db = (f s.db).1; clock = s.clock + 1 })
unfolding statement ◌>>=◌
statement-run fails f k s n = rw n

-- What a statement that succeeds gives and leaves.
pub statement-effect :
    {D A : Type 0} (fails : ℕ → Bool) (f : D → A × D) (s : Session D) (a : A)
    → (statement fails f s).0 ≡ ok a
    → (a ≡ (f s.db).0) × ((statement fails f s).1.db ≡ (f s.db).1)
unfolding statement
statement-effect fails f s a h = elim (Bool-cases (fails s.clock)) [
  | inl y ↦ ground arith
  | inr n ↦ let e : (f s.db).0 ≡ a = ok-inj (rw n at h) in (sym e, rw n)
]

-- What a statement does not touch, it keeps, whether it is executed or refused.
pub statement-Keeps :
    {D A X : Type 0} (fails : ℕ → Bool) (f : D → A × D) (g : D → X)
    → ((db : D) → g (f db).1 ≡ g db)
    → (s : Session D) → g (statement fails f s).1.db ≡ g s.db
unfolding statement
statement-Keeps fails f g keep s = elim (Bool-cases (fails s.clock)) [
  | inl y ↦ rw y
  | inr n ↦ rw n (keep s.db)
]

pub bind-Keeps :
    {D A B X : Type 0} (m : Tx D A) (k : A → Tx D B) (g : D → X)
    → ((s : Session D) → g (m s).1.db ≡ g s.db)
    → ((a : A) (s : Session D) → g (k a s).1.db ≡ g s.db)
    → (s : Session D) → g ((m >>= k) s).1.db ≡ g s.db
unfolding ◌>>=◌
bind-Keeps {D} {A} {B} m k g p q s = go (m s).0 (m s).1 ∙ p s
  where
    go : (o : Result A) (t : Session D) → g (continue o k t).1.db ≡ g t.db
    go (ok a) t = q a t
    go (err e) t = refl

finish-ok :
    {D A : Type 0} (fails : ℕ → Bool) (before : D) (r : Result A) (s : Session D) (a : A)
    → (finish fails before r s).0 ≡ ok a
    → (r ≡ ok a) × ((finish fails before r s).1.db ≡ s.db)
finish-ok fails before (ok a) s b h = ground arith
finish-ok fails before (err x) s b h = ground arith

-- A transaction that succeeds has the effect of its body.
pub with_tx-ok :
    {D A : Type 0} (fails : ℕ → Bool) (body : Tx D A) (s : Session D) (a : A)
    → (with_tx fails body s).0 ≡ ok a
    → let s' = record s { clock = s.clock + 1 } in
      ((body s').0 ≡ ok a) × ((with_tx fails body s).1.db ≡ (body s').1.db)
unfolding with_tx
with_tx-ok fails body s a h = elim (Bool-cases (fails s.clock)) [
  | inl y ↦ ground arith
  | inr n ↦
      let (e, d) =
        finish-ok fails s.db (body (record s { clock = s.clock + 1 })).0
          (body (record s { clock = s.clock + 1 })).1 a (rw n at h) in
      (e, rw n d)
]

abbrev value_of {ℓ} : {K V : Type ℓ} → Option (Row K V) → Option V
value_of none = none
value_of (some r) = some r.value

value_of-if {ℓ} :
    {K V : Type ℓ} (b : Bool) (r : Row K V) (o : Option (Row K V))
    → value_of (if b then some r else o) ≡ (if b then some r.value else value_of o)
value_of-if true r o = refl
value_of-if false r o = refl

-- The value under a key.
abbrev pub value_at {ℓ} : {K V : Type ℓ} → (K → K → Bool) → K → Table K V → Option V
value_at eq k t = value_of (find_row eq k t.rows)

module _ {ℓ} {K V : Type ℓ} (eq : K → K → Bool)
    (eq_iff : (a b : K) → (eq a b ≡ true) ↔ (a ≡ b)) where
  pub find-write :
      (k j : K) (v : V) (rs : List (Row K V)) (r : Row K V)
      → find_row eq k rs ≡ some r
      → find_row eq j (write_row eq k v rs)
        ≡ (if eq k j then some (record r { value = v }) else find_row eq j rs)
  find-write k j v [] r h = cc
  find-write k j v (x ∷ rs) r h =
      ground (arith, eq_iff x.key k, eq_iff x.key j, eq_iff k j, find-write k j v rs r)

  pub find-append :
      (k j : K) (v : V) (i : ℕ) (rs : List (Row K V))
      → find_row eq k rs ≡ none
      → find_row eq j (rs ++ record { id = i; key = k; value = v } ∷ [])
        ≡ (if eq k j then some (record { id = i; key = k; value = v }) else find_row eq j rs)
  find-append k j v i [] h = refl
  find-append k j v i (x ∷ rs) h =
      ground (arith, eq_iff x.key k, eq_iff x.key j, eq_iff k j, find-append k j v i rs)

  pub upsert-none :
      (k : K) (v : V) (t : Table K V)
      → find_row eq k t.rows ≡ none
      → upsert eq k v t ≡ (
        record { id = t.next; inserted = true },
        record {
          next = t.next + 1;
          rows = t.rows ++ record { id = t.next; key = k; value = v } ∷ [];
        },
      )
  unfolding upsert
  upsert-none k v t h = ap (upsert_found eq (λ old. v) k v t) h

  pub upsert-some :
      (k : K) (v : V) (t : Table K V) (r : Row K V)
      → find_row eq k t.rows ≡ some r
      → upsert eq k v t ≡ (
        record { id = r.id; inserted = false },
        record { next = t.next + 1; rows = write_row eq k v t.rows },
      )
  unfolding upsert
  upsert-some k v t r h = ap (upsert_found eq (λ old. v) k v t) h

  -- An upsert sets the value under its key, and no other.
  pub upsert-value :
      (k j : K) (v : V) (t : Table K V)
      → value_at eq j (upsert eq k v t).1 ≡ (if eq k j then some v else value_at eq j t)
  upsert-value k j v t = elim (Option-cases (find_row eq k t.rows)) [
    | inl h ↦ rw (upsert-none k v t h, find-append k j v t.next t.rows h, value_of-if (eq k j))
    | inr (r, h) ↦ rw (upsert-some k v t r h, find-write k j v t.rows r h, value_of-if (eq k j))
  ]

  length-write : (k : K) (v : V) (rs : List (Row K V)) → length (write_row eq k v rs) ≡ length rs
  length-write k v [] = refl
  length-write k v (x ∷ rs) = ground (arith, length-write k v rs)

  -- An upsert reports an insertion when, and only when, the table grows by a row.
  pub upsert-length :
      (k : K) (v : V) (t : Table K V)
      → length (upsert eq k v t).1.rows
        ≡ length t.rows + (if (upsert eq k v t).0.inserted then 1 else 0)
  upsert-length k v t = elim (Option-cases (find_row eq k t.rows)) [
    | inl h ↦ rw (upsert-none k v t h, length-append) refl
    | inr (r, h) ↦ rw (upsert-some k v t r h, length-write k v t.rows) (omega arith)
  ]
