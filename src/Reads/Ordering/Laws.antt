-- ===== src/Reads/Ordering/Laws.antt =====
-- What an ordering is resolved to.
use go_espn_api.Prelude.{
  ◌≡◌, ◌⊎◌, inl, inr, refl, Bool, true, false, some, [], ◌∷◌, Bytes, bytes_eq, ◌==◌, Bool-cases,
  Option-cases, arith,
}
use go_espn_api.Reads.Ordering.{Whitelist, column_of, directed, order_by, resolve_ordering}

-- A column is one of a whitelist.
pub data IsAllowed (column : Bytes) : Whitelist → Type 0 where
  first : (k : Bytes) (rest : Whitelist) → IsAllowed column ((k, column) ∷ rest)
  later :
      (k c : Bytes) (rest : Whitelist) → IsAllowed column rest → IsAllowed column ((k, c) ∷ rest)

column_of-IsAllowed :
    (field : Bytes) (allowed : Whitelist) (column : Bytes)
    → column_of field allowed ≡ some column
    → IsAllowed column allowed
unfolding column_of
column_of-IsAllowed field [] column h = absurd (ground arith)
column_of-IsAllowed field ((k, c) ∷ rest) column h = elim (Bool-cases (bytes_eq k field)) [
  | inl y ↦ let e : c ≡ column = cc (rw y at h) in rw (← e) (first k rest)
  | inr n ↦ later k c rest (column_of-IsAllowed field rest column (rw n at h))
]

order_by-Allowed :
    (desc : Bool) (def : Bytes) (field : Bytes) (allowed : Whitelist)
    → (order_by desc def (column_of field allowed) ≡ def)
      ⊎ ((column : Bytes) × (d : Bool) × IsAllowed column allowed
          × (order_by desc def (column_of field allowed) ≡ directed d column))
order_by-Allowed desc def field allowed = elim (Option-cases (column_of field allowed)) [
  | inl n ↦ inl (rw n refl)
  | inr (column, e) ↦ inr (column, desc, column_of-IsAllowed field allowed column e, rw e refl)
]

-- Whatever text a client sends, the ORDER BY body is the default of the list, or a column of its
-- whitelist with a direction.
pub resolve_ordering-Allowed :
    (ordering : Bytes) (allowed : Whitelist) (def : Bytes)
    → (resolve_ordering ordering allowed def ≡ def)
      ⊎ ((column : Bytes) × (d : Bool) × IsAllowed column allowed
          × (resolve_ordering ordering allowed def ≡ directed d column))
unfolding resolve_ordering
resolve_ordering-Allowed [] allowed def = inl refl
resolve_ordering-Allowed (c ∷ s) allowed def = elim (Bool-cases (c == 45)) [
  | inl y ↦ rw y (order_by-Allowed true def s allowed)
  | inr n ↦ rw n (order_by-Allowed false def (c ∷ s) allowed)
]
