-- ===== src/Ingest/Parse/Laws.antt =====
-- What the parsers of parse.go and common.go return.
use go_espn_api.Prelude.{
  ◌∙◌, sym, ℕ, zero, suc, ◌≤◌, ◌≡◌, ◌↔◌, ◌⊎◌, inl, inr, refl, ap, Bool, true, false, ◌||◌, Option,
  none, List, [], ◌∷◌, ◌++◌, String, Bytes, codes, bytes_eq, bytes_eq_iff, take, drop, length,
  arith, Bool-cases, trim_space, to_lower, leb, sym, leb→le, All, to_upper,
}
use go_espn_api.Ingest.Json.{Map, mmap, mstr, mbool}
use go_espn_api.Ingest.Parse.{
  final, parse_event_status, status_of, state_or_pre, home_away_fallback, normalize_injury_status,
  find_status, injury_status_map, truncate, LeagueMeta, league_defaults, is_str,
  max_abbreviation_len,
}

status_of-final :
    (completed : Bool) (raw : Bytes)
    → (status_of completed (state_or_pre raw) ≡ final)
      ↔ ((completed || bytes_eq raw (codes "post")) ≡ true)
unfolding status_of bytes_eq
status_of-final true raw = (λ h. refl, λ h. refl)
status_of-final false [] = (λ h. cc, λ h. cc)
status_of-final false (c ∷ s) =
    let raw : Bytes = c ∷ s in
    ground (
      arith,
      bytes_eq_iff raw (codes "pre"),
      bytes_eq_iff raw (codes "in"),
      bytes_eq_iff raw (codes "post"),
    )

-- An event is final exactly if its status type is marked completed or its state is "post".
pub parse_event_status-final :
    (m : Map)
    → ((parse_event_status m).0 ≡ final) ↔ (
        (mbool (mmap m "type") "completed" false
          || bytes_eq (mstr (mmap m "type") "state") (codes "post"))
        ≡ true)
unfolding parse_event_status
parse_event_status-final m =
    status_of-final (mbool (mmap m "type") "completed" false) (mstr (mmap m "type") "state")

-- The flag of a competitor is "home" or "away", whatever the feed says.
pub home_away_fallback_range :
    (raw : Bytes) (idx : ℕ)
    → (home_away_fallback raw idx ≡ codes "home") ⊎ (home_away_fallback raw idx ≡ codes "away")
unfolding home_away_fallback
home_away_fallback_range raw idx =
    ground (arith, bytes_eq_iff raw (codes "home"), bytes_eq_iff raw (codes "away"))

module _ {ℓ} {A : Type ℓ} where
  take-append : (n : ℕ) (xs : List A) → take n xs ++ drop n xs ≡ xs
  take-append zero xs = refl
  take-append (suc n) [] = refl
  take-append (suc n) (x ∷ xs) = ap (λ t. x ∷ t) (take-append n xs)

  length-take_le : (n : ℕ) (xs : List A) → length (take n xs) ≤ n
  length-take_le zero xs = omega arith
  length-take_le (suc n) [] = omega arith
  length-take_le (suc n) (x ∷ xs) = omega (arith, length-take_le n xs)

  take_all : (limit : ℕ) (text : List A) → length text ≤ limit → take limit text ≡ text
  take_all zero [] h = refl
  take_all zero (x ∷ xs) h = absurd (omega arith)
  take_all (suc n) [] h = refl
  take_all (suc n) (x ∷ xs) h = ap (λ t. x ∷ t) (take_all n xs (omega arith))

-- A truncated text has at most n bytes, and is what comes before the bytes from the n-th on.
pub truncate_lem :
    (s : Bytes) (n : ℕ) → (length (truncate s n) ≤ n) × (truncate s n ++ drop n s ≡ s)
unfolding truncate
truncate_lem s n = elim (Bool-cases (leb (length s) n)) [
  | inl y ↦ rw y (
    leb→le (length s) n y,
    ap (λ t. t ++ drop n s) (sym (take_all n s (leb→le (length s) n y))) ∙ take-append n s,
  )
  | inr y ↦ rw y (length-take_le n s, take-append n s)
]

abbrev pub statuses : List String
statuses = "out" ∷ "doubtful" ∷ "questionable" ∷ "ir" ∷ "day_to_day" ∷ "other" ∷ []

abbrev pub IsOneOf : Bytes → List String → Type 0
IsOneOf s [] = ⊥
IsOneOf s (t ∷ ts) = (s ≡ codes t) ⊎ IsOneOf s ts

find_status-range :
    (P : Bytes → Type 0) (s : Bytes) (table : List (String × String))
    → P (codes "other")
    → All (λ kv. P (codes kv.1)) table
    → P (find_status s table)
unfolding find_status
find_status-range P s [] o h = o
find_status-range P s ((k, v) ∷ rest) o (p, h) = elim (Bool-cases (is_str s k)) [
  | inl y ↦ rw y p
  | inr y ↦ rw y (find_status-range P s rest o h)
]

-- Every raw status is normalised to one of the six statuses of an injury.
pub normalize_injury_status_range : (raw : Bytes) → IsOneOf (normalize_injury_status raw) statuses
unfolding normalize_injury_status
normalize_injury_status_range raw =
    find_status-range (λ s. IsOneOf s statuses) (to_lower (trim_space raw)) injury_status_map
      (inr (inr (inr (inr (inr (inl refl))))))
      (
        inl refl,
        (
          inr (inl refl),
          (
            inr (inr (inl refl)),
            (
              inr (inr (inr (inl refl))),
              (
                inr (inr (inr (inl refl))),
                (inr (inr (inr (inr (inl refl)))), (inr (inr (inr (inr (inl refl)))), tt)),
              ),
            ),
          ),
        ),
      )

-- The fallback abbreviation of a league that the registry does not know has at most ten bytes.
pub league_defaults-abbreviation :
    (info : Bytes → Option LeagueMeta) (slug : Bytes)
    → info slug ≡ none
    → length (league_defaults info slug).abbreviation ≤ max_abbreviation_len
unfolding league_defaults
league_defaults-abbreviation info slug h =
    rw (h, length) (ground (arith, length-take_le max_abbreviation_len (to_upper slug)))
