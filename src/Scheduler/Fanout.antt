-- ===== src/Scheduler/Fanout.antt =====
-- fanOut of internal/scheduler/fanout.go: units of work on a bounded pool of goroutines.
--
-- The group of golang.org/x/sync/errgroup enters by what it documents: `Go` blocks until fewer
-- than `limit` goroutines are active, and `Wait` returns when none is left. `Step` is one step of
-- any of them, in any order.
pub mod Laws
pub mod Units
pub mod Progress
use go_espn_api.Prelude.{
  ℕ, ◌+◌, ◌%◌, ◌^◌, ◌<◌, ◌≡◌, Bool, true, false, List, [], ◌∷◌, ◌++◌, Bytes, length,
}
use go_espn_api.Ingest.Result.{IngestionResult}

-- workUnit of scheduler.go.
pub record WorkUnit : Type 0 where
  pub sport : Bytes
  pub league : Bytes
  pub date : Bytes

pub record JobSummary : Type 0 where
  pub created : ℕ
  pub updated : ℕ
  pub errors : ℕ

abbrev pub no_summary : JobSummary
no_summary = record { created = 0; updated = 0; errors = 0 }

-- What one call of `do` ends in.
pub data Outcome : Type 0 where
  returned : IngestionResult → Outcome
  failed : Outcome
  panicked : Outcome

-- An atomic addition to the summary.
pub data Op : Type 0 where
  add_created : ℕ → Op
  add_updated : ℕ → Op
  add_errors : ℕ → Op

-- A goroutine has its unit to call `do` on, or additions to make.
pub data Goroutine : Type 0 where
  fresh : WorkUnit → Goroutine
  adds : List Op → Goroutine

-- atomic.AddInt64.
unfoldable pub add64 : ℕ → ℕ → ℕ
add64 a b = (a + b) % 2 ^ 64

-- What is left to do once `do` is back: the errors of a returned result are not added.
unfoldable pub after_call : Outcome → List Op
after_call (returned r) = add_created r.created ∷ add_updated r.updated ∷ []
after_call failed = add_errors 1 ∷ []
after_call panicked = add_errors 1 ∷ []

unfoldable pub apply_op : Op → JobSummary → JobSummary
unfolding add64
apply_op (add_created n) s = record s { created = add64 s.created n }
apply_op (add_updated n) s = record s { updated = add64 s.updated n }
apply_op (add_errors n) s = record s { errors = add64 s.errors n }

pub record Pool : Type 0 where
  -- the units that the loop has not handed to the group
  pub pending : List WorkUnit
  -- the active goroutines
  pub active : List Goroutine
  pub sum : JobSummary
  pub cancelled : Bool
  -- the calls of `do` that were made, each with what it ended in
  pub calls : List (WorkUnit × Outcome)
  -- the units whose goroutine found the context cancelled
  pub skipped : List WorkUnit

abbrev pub start_pool : List WorkUnit → Pool
start_pool units = record {
  pending = units;
  active = [];
  sum = no_summary;
  cancelled = false;
  calls = [];
  skipped = [];
}

-- One step of the loop, of a goroutine, or of the caller, who may cancel the context.
pub data Step (limit : ℕ) (p q : Pool) : Type 0 where
  go :
      (u : WorkUnit) (rest : List WorkUnit)
      → p.pending ≡ u ∷ rest
      → length p.active < limit
      → q ≡ record p { pending = rest; active = fresh u ∷ p.active }
      → Step limit p q
  run :
      (before after : List Goroutine) (u : WorkUnit) (o : Outcome)
      → p.active ≡ before ++ (fresh u ∷ after)
      → p.cancelled ≡ false
      → q ≡ record p { active = before ++ (adds (after_call o) ∷ after); calls = (u, o) ∷ p.calls }
      → Step limit p q
  skip :
      (before after : List Goroutine) (u : WorkUnit)
      → p.active ≡ before ++ (fresh u ∷ after)
      → p.cancelled ≡ true
      → q ≡ record p { active = before ++ (adds [] ∷ after); skipped = u ∷ p.skipped }
      → Step limit p q
  add :
      (before after : List Goroutine) (op : Op) (ops : List Op)
      → p.active ≡ before ++ (adds (op ∷ ops) ∷ after)
      → q ≡ record p { active = before ++ (adds ops ∷ after); sum = apply_op op p.sum }
      → Step limit p q
  exit :
      (before after : List Goroutine)
      → p.active ≡ before ++ (adds [] ∷ after)
      → q ≡ record p { active = before ++ after }
      → Step limit p q
  cancel : p.cancelled ≡ false → q ≡ record p { cancelled = true } → Step limit p q

pub data Run (limit : ℕ) (p : Pool) : Pool → Type 0 where
  here : Run limit p p
  next : {q r : Pool} → Run limit p q → Step limit q r → Run limit p r

-- `Wait` returns: nothing is left to hand over, and no goroutine is active.
pub record IsDone (p : Pool) : Type 0 where
  pub no_pending : p.pending ≡ []
  pub no_active : p.active ≡ []
