-- ===== src/Ingest/Result.antt =====
-- IngestionResult of internal/ingest/result.go.
use go_espn_api.Prelude.{
  ℕ, ◌+◌, ◌≡◌, refl, arith, Bool, true, false, if◌then◌else◌, List, [], Bytes,
}

pub record IngestionResult : Type 0 where
  pub created : ℕ
  pub updated : ℕ
  pub errors : ℕ
  pub details : List Bytes

-- newResult.
abbrev pub new_result : IngestionResult
new_result = record { created = 0; updated = 0; errors = 0; details = [] }

-- TotalProcessed.
abbrev pub total_processed : IngestionResult → ℕ
total_processed r = r.created + r.updated

-- Count a row as created or as updated.
abbrev pub tally : Bool → IngestionResult → IngestionResult
tally true r = record r { created = r.created + 1 }
tally false r = record r { updated = r.updated + 1 }

pub tally-counts :
    (b : Bool) (r : IngestionResult)
    → (total_processed (tally b r) + (tally b r).errors ≡ total_processed r + r.errors + 1)
      × ((tally b r).created ≡ r.created + (if b then 1 else 0))
tally-counts true r = (omega arith, refl)
tally-counts false r = (omega arith, omega arith)
