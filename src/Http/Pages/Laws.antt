-- ===== src/Http/Pages/Laws.antt =====
-- The links of a page lead to its neighbours.
use go_espn_api.Prelude.{
  ℕ, ◌%◌, ◌^◌, ◌<◌, ◌≡◌, ◌≢◌, refl, true, false, [], ◌∷◌, Bytes, bytes_eq, bytes_eq_iff, ltb, leb,
  ℤ, pos, negsuc, int_of_word, itoa, atoi-itoa, itoa-not_empty, lt→ltb, if◌then◌else◌, arith,
  Bool-cases, inl, inr,
}
use go_espn_api.Http.Pages.{
  Query, query_get, query_del, query_set, PageRequest, Link, page_param, parse_page, page_url,
  page_query,
}

-- The request of a client that follows a link.
unfoldable pub follow : Link → PageRequest
follow l = record {
  tls = false;
  forwarded_proto = l.scheme;
  host = l.host;
  path = l.path;
  query = l.query;
}

get-del_self : (k : Bytes) (q : Query) → query_get k (query_del k q) ≡ []
unfolding query_get query_del
get-del_self k [] = refl
get-del_self k ((j, v) ∷ q) = ground (arith, get-del_self k q)

get-del : (k j : Bytes) (q : Query) → j ≢ k → query_get j (query_del k q) ≡ query_get j q
unfolding query_get query_del
get-del k j [] n = refl
get-del k j ((i, v) ∷ q) n = ground (arith, get-del k j q n, bytes_eq_iff i k, bytes_eq_iff i j)

get-set_self : (k v : Bytes) (q : Query) → query_get k (query_set k v q) ≡ v
unfolding query_get query_set
get-set_self k v q = let e : bytes_eq k k ≡ true = (bytes_eq_iff k k).1 refl in rw e refl

get-set : (k j v : Bytes) (q : Query) → j ≢ k → query_get j (query_set k v q) ≡ query_get j q
unfolding query_set query_get
get-set k j v q n =
    let e : bytes_eq k j ≡ false = ground (arith, bytes_eq_iff k j) in rw e (get-del k j q n)

page_query-get :
    (page : ℤ) (j : Bytes) (q : Query)
    → j ≢ page_param
    → query_get j (page_query page q) ≡ query_get j q
page_query-get (pos n) j q ne = elim (Bool-cases (leb n 1)) [
  | inl y ↦ rw y (get-del page_param j q ne)
  | inr m ↦ rw m (get-set page_param j (itoa n) q ne)
]
page_query-get (negsuc n) j q ne = get-del page_param j q ne

-- Every parameter but the page stays in a link.
pub page_url-get :
    (r : PageRequest) (page : ℤ) (j : Bytes)
    → j ≢ page_param
    → query_get j (page_url r page).query ≡ query_get j r.query
unfolding page_url
page_url-get r page j ne = page_query-get page j r.query ne

parse_page_first : (r : PageRequest) → query_get page_param r.query ≡ [] → parse_page r ≡ 1
unfolding parse_page
parse_page_first r e = rw e refl

parse_page_text :
    (r : PageRequest) (n : ℕ)
    → 1 < n
    → n < 2 ^ 63
    → query_get page_param r.query ≡ itoa n
    → parse_page r ≡ n
unfolding parse_page
parse_page_text r n l h e =
    let big : ltb n 1 ≡ false = ground arith in rw (e, itoa-not_empty n, atoi-itoa n h, big) refl

-- A link to a page below 2 ^ 63 asks for that page, or for the first one where the number is smaller.
pub parse_page-page_url :
    (r : PageRequest) (n : ℕ)
    → n < 2 ^ 63
    → parse_page (follow (page_url r (pos n))) ≡ (if leb n 1 then 1 else n)
unfolding page_url follow
parse_page-page_url r n h = elim (Bool-cases (leb n 1)) [
  | inl y ↦ rw y (parse_page_first _ (get-del_self page_param r.query))
  | inr m ↦ rw m (parse_page_text _ n (ground arith) h (get-set_self page_param (itoa n) r.query))
]

pub int_of_word-small : (n : ℕ) → n < 2 ^ 63 → int_of_word (n % 2 ^ 64) ≡ pos n
int_of_word-small n h = let e : n % 2 ^ 64 ≡ n = omega arith in rw (e, lt→ltb n (2 ^ 63) h) refl
