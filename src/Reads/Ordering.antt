-- ===== src/Reads/Ordering.antt =====
-- ResolveOrdering of shared/drf/drf.go: the ?ordering parameter against a whitelist.
pub mod Laws
use go_espn_api.Prelude.{
  Bool, true, false, Option, none, some, List, [], ◌∷◌, ◌++◌, Bytes, codes, bytes_eq, ◌==◌,
  if◌then◌else◌,
}

-- A map[string]string, as the code writes it down.
abbrev pub Whitelist : Type 0
Whitelist = List (Bytes × Bytes)

unfoldable pub column_of : Bytes → Whitelist → Option Bytes
column_of field [] = none
column_of field ((k, column) ∷ allowed) =
    if bytes_eq k field then some column else column_of field allowed

abbrev pub directed : Bool → Bytes → Bytes
directed true column = column ++ codes " DESC"
directed false column = column ++ codes " ASC"

abbrev order_by : Bool → Bytes → Option Bytes → Bytes
order_by desc def none = def
order_by desc def (some column) = directed desc column

-- ResolveOrdering.
unfoldable pub resolve_ordering : Bytes → Whitelist → Bytes → Bytes
unfolding column_of
resolve_ordering [] allowed def = def
resolve_ordering (c ∷ s) allowed def =
    if c == b'-'
    then order_by true def (column_of s allowed)
    else order_by false def (column_of (c ∷ s) allowed)
