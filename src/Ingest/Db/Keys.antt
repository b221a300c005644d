-- ===== src/Ingest/Db/Keys.antt =====
-- The keys of the indexes over two columns are compared column by column.
use go_espn_api.Prelude.{==_iff, ◌≡◌, ◌↔◌, true, arith, bytes_eq_iff}
use go_espn_api.Ingest.Db.{ScopedKey, DatedKey, scoped_eq, dated_eq}

pub scoped_eq_iff : (a b : ScopedKey) → (scoped_eq a b ≡ true) ↔ (a ≡ b)
unfolding scoped_eq
scoped_eq_iff (l, s) (m, t) = ground (arith, bytes_eq_iff s t, ==_iff l m)

pub dated_eq_iff : (a b : DatedKey) → (dated_eq a b ≡ true) ↔ (a ≡ b)
unfolding dated_eq
dated_eq_iff (t, d) (u, e) = ground (arith, ==_iff t u, ==_iff d e)
