-- ===== src/Config.antt =====
-- config/ingest.go: the "sport:league" pairs that the periodic jobs fan out over.
pub mod Laws
use go_espn_api.Prelude.{
  Bool, true, false, ◌&&◌, not, List, [], ◌∷◌, ◌++◌, Bytes, is_empty, trim_space, cut_before,
  cut_after, if◌then◌else◌,
}

pub record IngestLeague : Type 0 where
  pub sport : Bytes
  pub league : Bytes

-- The two halves of an entry, trimmed.
unfoldable pub halves : Bytes → IngestLeague
halves item = record {
  sport = trim_space (cut_before b':' item);
  league = trim_space (cut_after b':' item);
}

parse_loop : List Bytes → List IngestLeague → List IngestLeague
parse_loop [] pairs = pairs
parse_loop (item ∷ raw) pairs =
    let p = halves item in
    parse_loop raw
      (if not (is_empty p.sport) && not (is_empty p.league) then pairs ++ p ∷ [] else pairs)

-- ParseIngestLeagues.
unfoldable pub parse_ingest_leagues : List Bytes → List IngestLeague
unfolding parse_loop halves
parse_ingest_leagues raw = parse_loop raw []
