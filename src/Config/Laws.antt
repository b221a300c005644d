-- ===== src/Config/Laws.antt =====
-- What ParseIngestLeagues keeps: the entries with two halves, in order, and nothing else.
use go_espn_api.Prelude.{
  ℕ, ◌≡◌, ◌≢◌, sym, Bool, true, ◌&&◌, not, List, [], ◌∷◌, ◌++◌, append_assoc, append-nil, arith,
  Bytes, is_empty, trim_space, cut_before, cut_after, keep_if, keep_if-append, map, Bool-cases, inl,
  inr, Lacks, Trims, trim_space-Trims, Cuts, cut-Cuts,
}
use mathlib.Core.List.{map-append}
use go_espn_api.Config.{IngestLeague, halves, parse_loop, parse_ingest_leagues}

abbrev pub has_both : IngestLeague → Bool
has_both p = not (is_empty p.sport) && not (is_empty p.league)

parse_loop-eq :
    (raw : List Bytes) (pairs : List IngestLeague)
    → parse_loop raw pairs ≡ pairs ++ keep_if has_both (map halves raw)
unfolding parse_loop
parse_loop-eq [] pairs = sym (append-nil pairs)
parse_loop-eq (item ∷ raw) pairs = grind (arith, parse_loop-eq raw, append_assoc)

cut_before-append : (sep : ℕ) (s t : Bytes) → Lacks sep s → cut_before sep (s ++ sep ∷ t) ≡ s
unfolding cut_before
cut_before-append sep [] t h = ground arith
cut_before-append sep (c ∷ s) t h = ground (arith, cut_before-append sep s t h.1)

cut_after-append : (sep : ℕ) (s t : Bytes) → Lacks sep s → cut_after sep (s ++ sep ∷ t) ≡ t
unfolding cut_after
cut_after-append sep [] t h = ground arith
cut_after-append sep (c ∷ s) t h = ground (arith, cut_after-append sep s t h.1)

halves-entry :
    (sport league : Bytes)
    → Lacks b':' sport
    → trim_space sport ≡ sport
    → trim_space league ≡ league
    → halves (sport ++ b':' ∷ league) ≡ record { sport = sport; league = league }
unfolding halves
halves-entry sport league h ts tl =
    rw (cut_before-append b':' sport league h, cut_after-append b':' sport league h, ts, tl)

has_both-entry : (p : IngestLeague) → p.sport ≢ [] → p.league ≢ [] → has_both p ≡ true
has_both-entry p ns nl = ground arith

-- Each "sport:league" entry whose sport holds no colon gives its pair, if the halves are trimmed and
-- not empty, wherever it stands in the list.
pub parse-entry :
    (before after : List Bytes) (sport league : Bytes)
    → Lacks b':' sport
    → trim_space sport ≡ sport
    → trim_space league ≡ league
    → sport ≢ []
    → league ≢ []
    → parse_ingest_leagues (before ++ (sport ++ b':' ∷ league) ∷ after)
      ≡ parse_ingest_leagues before
        ++ record { sport = sport; league = league } ∷ parse_ingest_leagues after
unfolding parse_ingest_leagues
parse-entry before after sport league h ts tl ns nl = simp (
  parse_loop-eq,
  map-append,
  keep_if-append,
  halves-entry sport league h ts tl,
  has_both-entry (record { sport = sport; league = league }) ns nl,
)

abbrev pub HasBoth : IngestLeague → Type 0
HasBoth p = (p.sport ≢ []) × (p.league ≢ [])

has_both_sound : (p : IngestLeague) → has_both p ≡ true → HasBoth p
has_both_sound p h = (λ e. grind arith, λ e. grind arith)

-- A pair without white space around its halves, of the two sides of the first colon of an entry.
pub record Reads (item : Bytes) (p : IngestLeague) : Type 0 where
  pub left : Bytes
  pub right : Bytes
  pub sides : Cuts b':' item left right
  pub sport : Trims left p.sport
  pub league : Trims right p.league

-- The pairs of some entries, in their order, without those that miss a half.
pub data Parsed : List Bytes → List IngestLeague → Type 0 where
  nothing : Parsed [] []
  kept :
      (item : Bytes) (raw : List Bytes) (p : IngestLeague) (ps : List IngestLeague)
      → Reads item p
      → HasBoth p
      → Parsed raw ps
      → Parsed (item ∷ raw) (p ∷ ps)
  dropped :
      (item : Bytes) (raw : List Bytes) (p : IngestLeague) (ps : List IngestLeague)
      → Reads item p
      → ¬ HasBoth p
      → Parsed raw ps
      → Parsed (item ∷ raw) ps

halves-Reads : (item : Bytes) → Reads item (halves item)
unfolding halves
halves-Reads item = record {
  left = cut_before b':' item;
  right = cut_after b':' item;
  sides = cut-Cuts b':' item;
  sport = trim_space-Trims (cut_before b':' item);
  league = trim_space-Trims (cut_after b':' item);
}

keep_if-Parsed : (raw : List Bytes) → Parsed raw (keep_if has_both (map halves raw))
keep_if-Parsed [] = nothing
keep_if-Parsed (item ∷ raw) =
    let rest = keep_if has_both (map halves raw) in
    elim (Bool-cases (has_both (halves item))) [
      | inl e ↦ rw e (
          kept item raw (halves item) rest (halves-Reads item) (has_both_sound (halves item) e)
            (keep_if-Parsed raw))
      | inr e ↦
          let lost : ¬ HasBoth (halves item) =
            λ h. grind (arith, has_both-entry (halves item) h.0 h.1) in
          rw e (dropped item raw (halves item) rest (halves-Reads item) lost (keep_if-Parsed raw))
    ]

-- The result is the pairs of the entries in their order, without those that miss a half: a pair has
-- what stands before and behind the first colon of its entry, or the whole entry and nothing where
-- there is no colon, each without the white space around it.
pub parse_ingest_leagues_lem : (raw : List Bytes) → Parsed raw (parse_ingest_leagues raw)
unfolding parse_ingest_leagues
parse_ingest_leagues_lem raw = rw parse_loop-eq (keep_if-Parsed raw)
