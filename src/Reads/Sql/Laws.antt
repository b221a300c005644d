-- ===== src/Reads/Sql/Laws.antt =====
-- The named parameters of a WHERE clause have arguments.
use go_espn_api.Prelude.{
  ◌≡◌, refl, ap, Bool, true, false, ◌&&◌, ◌||◌, Option, none, some, List, [], ◌∷◌, ◌++◌, Bytes,
  codes, bytes_eq, bytes_eq_iff, ℕ, ◌==◌, leb, if◌then◌else◌, arith, All, ℤ, Bool-cases, inl, inr,
}
use go_espn_api.Reads.Sql.{
  Arg, Condition, plain, bound, clause_of, join_and, where_text, args_of, when_text, when_search,
  when_number, when_flag,
}

-- What the name of a parameter consists of.
abbrev pub is_name : ℕ → Bool
is_name c =
    (leb b'a' c && leb c b'z')
    || (leb b'A' c && leb c b'Z')
    || (leb b'0' c && leb c b'9')
    || c == b'_'
    || c == b'.'

-- The names behind the colons of a text, given the one that is read. A colon behind a colon ends a
-- name without a letter.
unfoldable pub names : Option Bytes → Bytes → List Bytes
names none [] = []
names (some n) [] = n ∷ []
names none (c ∷ s) = if c == b':' then names (some []) s else names none s
names (some n) (c ∷ s) =
    let more = names (some (n ++ (c ∷ []))) s in
    let next = names (some []) s in
    let rest = names none s in if is_name c then more else (n ∷ (if c == b':' then next else rest))

-- The parameters that a query names.
abbrev pub params : Bytes → List Bytes
params s = names none s

abbrev pub binds : List (Bytes × Arg) → Bytes → Bool
binds [] name = false
binds ((k, v) ∷ args) name = bytes_eq k name || binds args name

-- A name that the arguments have a value for.
abbrev pub IsBound : List (Bytes × Arg) → Bytes → Type 0
IsBound args name = binds args name ≡ true

-- A condition names its own parameter and no other.
abbrev pub IsNamed : Condition → Type 0
IsNamed (plain clause) = params clause ≡ []
IsNamed (bound name value clause) = All (λ n. name ≡ n) (params clause)

names-blank :
    (st : Option Bytes) (s t : Bytes) → names st (s ++ (b' ' ∷ t)) ≡ names st s ++ names none t
unfolding names
names-blank none [] t = refl
names-blank (some n) [] t = refl
names-blank none (c ∷ s) t = elim (Bool-cases (c == 58)) [
  | inl y ↦ rw y (names-blank (some []) s t)
  | inr m ↦ rw m (names-blank none s t)
]
names-blank (some n) (c ∷ s) t = elim (Bool-cases (is_name c)) [
  | inl y ↦ rw y (names-blank (some (n ++ (c ∷ []))) s t)
  | inr m ↦ elim (Bool-cases (c == 58)) [
    | inl z ↦ rw (m, z) (ap (λ l. n ∷ l) (names-blank (some []) s t))
    | inr z ↦ rw (m, z) (ap (λ l. n ∷ l) (names-blank none s t))
  ]
]

params-join_and :
    (c d : Condition) (cs : List Condition)
    → params (join_and (c ∷ d ∷ cs)) ≡ params (clause_of c) ++ params (join_and (d ∷ cs))
unfolding join_and names
params-join_and c d cs = names-blank none (clause_of c) (codes "AND " ++ join_and (d ∷ cs))

params-where_text :
    (c : Condition) (cs : List Condition)
    → params (where_text (c ∷ cs)) ≡ params (join_and (c ∷ cs))
unfolding where_text names
params-where_text c cs = refl

module _ {A : Type 0} where
  All-map : {P Q : A → Type 0} → ((x : A) → P x → Q x) → (xs : List A) → All P xs → All Q xs
  All-map f [] h = h
  All-map f (x ∷ xs) (h, hs) = (f x h, All-map f xs hs)

  pub All-append : (P : A → Type 0) (xs ys : List A) → All P xs → All P ys → All P (xs ++ ys)
  All-append P [] ys h k = k
  All-append P (x ∷ xs) ys (h, hs) k = (h, All-append P xs ys hs k)

binds-cons :
    (c : Condition) (cs : List Condition) (name : Bytes)
    → IsBound (args_of cs) name
    → IsBound (args_of (c ∷ cs)) name
unfolding args_of
binds-cons (plain clause) cs name h = h
binds-cons (bound k v clause) cs name h = ground (arith, h)

own-IsBound :
    (c : Condition) (cs : List Condition)
    → IsNamed c
    → All (IsBound (args_of (c ∷ cs))) (params (clause_of c))
unfolding args_of
own-IsBound (plain clause) cs h = rw h tt
own-IsBound (bound k v clause) cs h =
    All-map (λ n e. let y : bytes_eq k n ≡ true = (bytes_eq_iff k n).1 e in rw y refl)
      (params clause) h

join_and-IsBound :
    (cs : List Condition) → All IsNamed cs → All (IsBound (args_of cs)) (params (join_and cs))
unfolding join_and names
join_and-IsBound [] h = tt
join_and-IsBound (c ∷ []) (h, hs) = own-IsBound c [] h
join_and-IsBound (c ∷ d ∷ cs) (h, hs) = rw (params-join_and c d cs) (
    All-append _ (params (clause_of c)) (params (join_and (d ∷ cs))) (own-IsBound c (d ∷ cs) h)
      (All-map (binds-cons c (d ∷ cs)) (params (join_and (d ∷ cs))) (join_and-IsBound (d ∷ cs) hs)))

pub where_text-IsBound :
    (cs : List Condition) → All IsNamed cs → All (IsBound (args_of cs)) (params (where_text cs))
unfolding where_text names
where_text-IsBound [] h = tt
where_text-IsBound (c ∷ cs) h = rw (params-where_text c cs) (join_and-IsBound (c ∷ cs) h)

-- The optional conditions name their parameter where the clause does.
pub when_text-IsNamed :
    (s name clause : Bytes)
    → All (λ n. name ≡ n) (params clause)
    → All IsNamed (when_text s name clause)
when_text-IsNamed [] name clause h = tt
when_text-IsNamed (c ∷ s) name clause h = (h, tt)

pub when_search-IsNamed :
    (s clause : Bytes)
    → All (λ n. codes "search" ≡ n) (params clause)
    → All IsNamed (when_search s clause)
when_search-IsNamed [] clause h = tt
when_search-IsNamed (c ∷ s) clause h = (h, tt)

pub when_number-IsNamed :
    (s : Option ℤ) (name clause : Bytes)
    → All (λ n. name ≡ n) (params clause)
    → All IsNamed (when_number s name clause)
when_number-IsNamed none name clause h = tt
when_number-IsNamed (some n) name clause h = (h, tt)

pub when_flag-IsNamed :
    (s : Option Bool) (name clause : Bytes)
    → All (λ n. name ≡ n) (params clause)
    → All IsNamed (when_flag s name clause)
when_flag-IsNamed none name clause h = tt
when_flag-IsNamed (some b) name clause h = (h, tt)
