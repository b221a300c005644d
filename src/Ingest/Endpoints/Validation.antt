-- ===== src/Ingest/Endpoints/Validation.antt =====
-- What the validations of internal/handlers/ingest/handler.go accept, said of the texts of a request.
use go_espn_api.Prelude.{
  ℕ, ◌≤◌, ◌<◌, ◌≡◌, ◌≢◌, refl, ◌⊎◌, inl, inr, true, false, Option, none, some, [], ◌∷◌, Bytes,
  is_empty, trim_space, to_lower, ltb, length, ℤ, pos, negsuc, arith, Bool-cases, All, Trims,
  IsBlank, trim_space-Trims, Trims-IsBlank, ltb→lt, ltb→le,
}
use go_espn_api.Ingest.Endpoints.{
  require_sport_league, only_digits, is_date, validate_date, validate_limit,
}

-- A name as a service gets it, of the text in a request: in lower case, without the white space around
-- it, and with something left.
pub record IsName (raw name : Bytes) : Type 0 where
  pub core : Bytes
  pub trimmed : Trims raw core
  pub lowered : name ≡ to_lower core
  pub given : core ≢ []

-- A date has eight digits, or is left out.
abbrev pub IsDate : Bytes → Type 0
IsDate s = (s ≡ []) ⊎ ((length s ≡ 8) × All (λ c. (48 ≤ c) × (c ≤ 57)) s)

-- The limit of a request, from 1 to 200, or 50 where it is left out.
pub data IsLimit : Option ℤ → ℕ → Type 0 where
  left_out : IsLimit none 50
  stated : (n : ℕ) → 1 ≤ n → n ≤ 200 → IsLimit (some (pos n)) n

only_digits-All : (s : Bytes) → only_digits s ≡ true → All (λ c. (48 ≤ c) × (c ≤ 57)) s
unfolding only_digits
only_digits-All [] h = tt
only_digits-All (c ∷ s) h = (ground arith, only_digits-All s (ground arith))

All-only_digits : (s : Bytes) → All (λ c. (48 ≤ c) × (c ≤ 57)) s → only_digits s ≡ true
unfolding only_digits
All-only_digits [] h = refl
All-only_digits (c ∷ s) (h, hs) = ground (arith, All-only_digits s hs)

is_date-IsDate : (s : Bytes) → is_date s ≡ true → IsDate s
unfolding is_date
is_date-IsDate [] h = inl refl
is_date-IsDate (c ∷ s) h = inr (ground arith, only_digits-All (c ∷ s) (ground arith))

IsDate-is_date : (s : Bytes) → IsDate s → is_date s ≡ true
unfolding is_date
IsDate-is_date s (inl e) = rw e refl
IsDate-is_date s (inr (n, d)) = ground (arith, All-only_digits s d)

-- The outcome of requireSportLeague for a pair of texts.
pub data Names (sport league : Bytes) : Option (Bytes × Bytes) → Type 0 where
  named : (a b : Bytes) → IsName sport a → IsName league b → Names sport league (some (a, b))
  unnamed : IsBlank sport ⊎ IsBlank league → Names sport league none

empty-nil : (s : Bytes) → is_empty (to_lower s) ≡ true → s ≡ []
unfolding to_lower
empty-nil [] h = refl
empty-nil (c ∷ s) h = absurd (ground arith)

not_empty-given : (s : Bytes) → is_empty (to_lower s) ≡ false → s ≢ []
unfolding to_lower
not_empty-given [] h e = absurd (ground arith)
not_empty-given (c ∷ s) h e = cc

trim-IsName :
    (raw : Bytes)
    → is_empty (to_lower (trim_space raw)) ≡ false
    → IsName raw (to_lower (trim_space raw))
trim-IsName raw h = record {
  core = trim_space raw;
  trimmed = trim_space-Trims raw;
  lowered = refl;
  given = not_empty-given (trim_space raw) h;
}

trim-IsBlank : (raw : Bytes) → is_empty (to_lower (trim_space raw)) ≡ true → IsBlank raw
trim-IsBlank raw h =
    Trims-IsBlank raw (trim_space raw) (trim_space-Trims raw) (empty-nil (trim_space raw) h)

pub require_sport_league-Names :
    (sport league : Bytes) → Names sport league (require_sport_league sport league)
unfolding require_sport_league
require_sport_league-Names sport league =
    let a = to_lower (trim_space sport) in
    let b = to_lower (trim_space league) in
    elim (Bool-cases (is_empty a)) [
      | inl y ↦ rw y (unnamed (inl (trim-IsBlank sport y)))
      | inr m ↦ elim (Bool-cases (is_empty b)) [
        | inl y ↦ rw (m, y) (unnamed (inr (trim-IsBlank league y)))
        | inr n ↦ rw (m, n) (named a b (trim-IsName sport m) (trim-IsName league n))
      ]
    ]

-- The outcome of validateDate and of validateLimit.
pub data Dated (raw : Bytes) : Option Bytes → Type 0 where
  dated : (date : Bytes) → Trims raw date → IsDate date → Dated raw (some date)
  misdated : (date : Bytes) → Trims raw date → ¬ IsDate date → Dated raw none

pub validate_date-Dated : (raw : Bytes) → Dated raw (validate_date raw)
unfolding validate_date
validate_date-Dated raw =
    let date = trim_space raw in
    elim (Bool-cases (is_date date)) [
      | inl y ↦ rw y (dated date (trim_space-Trims raw) (is_date-IsDate date y))
      | inr n ↦
          rw n (misdated date (trim_space-Trims raw) (λ d. grind (arith, IsDate-is_date date d, n)))
    ]

-- A limit out of its range.
abbrev pub IsOut : ℤ → Type 0
IsOut (pos n) = (n < 1) ⊎ (200 < n)
IsOut (negsuc n) = Unit

pub data Within : Option ℤ → Option ℕ → Type 0 where
  within : (raw : Option ℤ) (n : ℕ) → IsLimit raw n → Within raw (some n)
  beyond : (n : ℤ) → IsOut n → Within (some n) none

pub validate_limit-Within : (raw : Option ℤ) → Within raw (validate_limit raw)
unfolding validate_limit
validate_limit-Within none = within none 50 left_out
validate_limit-Within (some (negsuc n)) = beyond (negsuc n) tt
validate_limit-Within (some (pos n)) = elim (Bool-cases (ltb n 1)) [
  | inl y ↦ rw y (beyond (pos n) (inl (ltb→lt n 1 y)))
  | inr m ↦ elim (Bool-cases (ltb 200 n)) [
    | inl y ↦ rw (m, y) (beyond (pos n) (inr (ltb→lt 200 n y)))
    | inr k ↦ rw (m, k) (within (some (pos n)) n (stated n (ltb→le n 1 m) (ltb→le 200 n k)))
  ]
]
