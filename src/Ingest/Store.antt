-- ===== src/Ingest/Store.antt =====
-- The transactions of internal/ingest/result.go (withTx) over the database, and the statements of
-- the repositories.
--
-- A statement works on rows with a key, as the unique index of its ON CONFLICT clause, and with an
-- id that the database gives out. Whether the database refuses a statement, a BEGIN or a COMMIT is
-- the parameter `fails`, asked at a counter that goes on through rollbacks. A rollback restores the
-- rows and the next ids, though a sequence of Postgres goes on; a COMMIT that fails is taken to have
-- written nothing, though where its acknowledgement is lost the code cannot know; and a panic in the
-- body, behind which the code does not roll back, is not modelled. The columns created_at and
-- updated_at are left out.
pub mod Laws
pub mod Success
pub mod Ids
use go_espn_api.Prelude.{
  ℕ, ◌+◌, Bool, true, false, Option, none, some, List, [], ◌∷◌, ◌++◌, if◌then◌else◌,
}

pub record Row {ℓ} (K V : Type ℓ) : Type ℓ where
  pub id : ℕ
  pub key : K
  pub value : V

pub record Table {ℓ} (K V : Type ℓ) : Type ℓ where
  pub next : ℕ
  pub rows : List (Row K V)

-- What an upsert reports: the id of the row, and whether it was inserted.
pub record Upserted : Type 0 where
  pub id : ℕ
  pub inserted : Bool

module _ {ℓ} {K V : Type ℓ} (eq : K → K → Bool) where
  abbrev pub find_row : K → List (Row K V) → Option (Row K V)
  find_row k [] = none
  find_row k (r ∷ rs) = if eq r.key k then some r else find_row k rs

  -- The row with the key gets the new value.
  abbrev pub write_row : K → V → List (Row K V) → List (Row K V)
  write_row k v [] = []
  write_row k v (r ∷ rs) = if eq r.key k then record r { value = v } ∷ rs else r ∷ write_row k v rs

  abbrev upsert_found : (V → V) → K → V → Table K V → Option (Row K V) → Upserted × Table K V
  upsert_found keep k v t none = (
    record { id = t.next; inserted = true },
    record { next = t.next + 1; rows = t.rows ++ record { id = t.next; key = k; value = v } ∷ [] },
  )
  upsert_found keep k v t (some r) = (
    record { id = r.id; inserted = false },
    record { next = t.next + 1; rows = write_row k (keep r.value) t.rows },
  )

  -- INSERT … ON CONFLICT (key) DO UPDATE SET every column = EXCLUDED … RETURNING id, (xmax = 0).
  unfoldable pub upsert : K → V → Table K V → Upserted × Table K V
  upsert k v t = upsert_found (λ old. v) k v t (find_row k t.rows)

  -- INSERT … ON CONFLICT (key) DO UPDATE that changes nothing … RETURNING id.
  unfoldable pub get_or_create : K → V → Table K V → Upserted × Table K V
  get_or_create k v t = upsert_found (λ old. old) k v t (find_row k t.rows)

-- Why a run ends early.
pub data Error : Type 0 where
  database : Error
  fetch : Error
  decode : Error

pub data Result {ℓ} (A : Type ℓ) : Type ℓ where
  ok : A → Result A
  err : Error → Result A

-- The database as the code sees it, and the counter of the calls to it.
pub record Session (D : Type 0) : Type 0 where
  pub db : D
  pub clock : ℕ

abbrev pub Tx : Type 0 → Type 0 → Type 0
Tx D A = Session D → Result A × Session D

module _ {D : Type 0} where
  abbrev pub pure : {A : Type 0} → A → Tx D A
  pure a s = (ok a, s)

  abbrev pub raise : {A : Type 0} → Error → Tx D A
  raise e s = (err e, s)

  abbrev pub continue : {A B : Type 0} → Result A → (A → Tx D B) → Tx D B
  continue (ok a) f s = f a s
  continue (err e) f s = (err e, s)

  infixl 5 ◌>>=◌ ◌>>◌
  unfoldable pub ◌>>=◌ : {A B : Type 0} → Tx D A → (A → Tx D B) → Tx D B
  ◌>>=◌ m f s = continue (m s).0 f (m s).1

  abbrev pub ◌>>◌ : {A B : Type 0} → Tx D A → Tx D B → Tx D B
  m >> n = m >>= λ _. n

  -- What a call outside of the database gives, or the error.
  abbrev pub require : {A : Type 0} → Error → Option A → Tx D A
  require e none = raise e
  require e (some a) = pure a

  -- A range loop whose body can end the run, over the result so far.
  unfoldable pub for_each : {A R : Type 0} → (A → R → Tx D R) → List A → R → Tx D R
  unfolding ◌>>=◌
  for_each body [] r = pure r
  for_each body (x ∷ xs) r = body x r >>= for_each body xs

module _ (fails : ℕ → Bool) {D : Type 0} where
  -- One statement.
  unfoldable pub statement : {A : Type 0} → (D → A × D) → Tx D A
  statement f s =
      if fails s.clock
      then (err database, record s { clock = s.clock + 1 })
      else (ok (f s.db).0, record { db = (f s.db).1; clock = s.clock + 1 })

  -- Commit, from the database `before` the transaction: a commit that fails has written nothing.
  abbrev commit : {A : Type 0} → D → A → Tx D A
  commit before a s =
      if fails s.clock
      then (err database, record { db = before; clock = s.clock + 1 })
      else (ok a, record s { clock = s.clock + 1 })

  abbrev finish : {A : Type 0} → D → Result A → Tx D A
  finish before (ok a) s = commit before a s
  finish before (err e) s = (err e, record s { db = before })

  -- withTx.
  unfoldable pub with_tx : {A : Type 0} → Tx D A → Tx D A
  with_tx body s =
      if fails s.clock
      then (err database, record s { clock = s.clock + 1 })
      else (let s' = record s { clock = s.clock + 1 } in finish s.db (body s').0 (body s').1)
