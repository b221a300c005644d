-- ===== src/Reads/Sql.antt =====
-- The filters of the list queries in internal/domains/*/repository/repository.go: the conditions a
-- filter stands for, the WHERE clause they make up, and the arguments that go with it.
pub mod Laws
use go_espn_api.Prelude.{
  ◌≡◌, Bool, true, false, Option, none, some, List, [], ◌∷◌, ◌++◌, Bytes, codes, bytes_eq, ℤ,
}

-- A value of the map[string]any that goes with a query.
pub data Arg : Type 0 where
  text : Bytes → Arg
  number : ℤ → Arg
  flag : Bool → Arg

-- A condition as it stands, or one with the argument it adds.
pub data Condition : Type 0 where
  plain : Bytes → Condition
  bound : Bytes → Arg → Bytes → Condition

-- if f.X != "" { args[name] = f.X; conds = append(conds, clause) }
abbrev pub when_text : Bytes → Bytes → Bytes → List Condition
when_text [] name clause = []
when_text (c ∷ s) name clause = bound name (text (c ∷ s)) clause ∷ []

-- The same of a search, which is for a part of the text.
abbrev pub when_search : Bytes → Bytes → List Condition
when_search [] clause = []
when_search (c ∷ s) clause =
    bound (codes "search") (text (codes "%" ++ ((c ∷ s) ++ codes "%"))) clause ∷ []

-- if f.X != nil { args[name] = *f.X; conds = append(conds, clause) }
abbrev pub when_number : Option ℤ → Bytes → Bytes → List Condition
when_number none name clause = []
when_number (some n) name clause = bound name (number n) clause ∷ []

abbrev pub when_flag : Option Bool → Bytes → Bytes → List Condition
when_flag none name clause = []
when_flag (some b) name clause = bound name (flag b) clause ∷ []

abbrev pub clause_of : Condition → Bytes
clause_of (plain clause) = clause
clause_of (bound name value clause) = clause

-- strings.Join(conds, " AND ").
unfoldable pub join_and : List Condition → Bytes
join_and [] = []
join_and (c ∷ []) = clause_of c
join_and (c ∷ d ∷ cs) = clause_of c ++ (codes " AND " ++ join_and (d ∷ cs))

-- The text behind the FROM of a query: none without a condition.
unfoldable pub where_text : List Condition → Bytes
unfolding join_and
where_text [] = []
where_text (c ∷ cs) = codes " WHERE " ++ join_and (c ∷ cs)

unfoldable pub args_of : List Condition → List (Bytes × Arg)
args_of [] = []
args_of (plain clause ∷ cs) = args_of cs
args_of (bound name value clause ∷ cs) = (name, value) ∷ args_of cs

-- The slugs of a sport and of a league, by which most lists filter.
abbrev pub sport_condition : Bytes → List Condition
sport_condition sport = when_text sport (codes "sport") (codes "LOWER(s.slug) = LOWER(:sport)")

abbrev pub league_condition : Bytes → List Condition
league_condition league = when_text league (codes "league") (codes "LOWER(l.slug) = LOWER(:league)")
