-- ===== src/Http/Pages.antt =====
-- The pages of transport/http/response/drf.go: which page a request asks for, and the envelope of a
-- list with the links to its neighbours.
--
-- A URL stands as its parts; their text, and that a client sends the parts back, is net/url's.
pub mod Laws
use go_espn_api.Prelude.{
  ℕ, ◌+◌, ◌-◌, ◌*◌, ◌%◌, ◌^◌, Bool, true, false, ◌||◌, not, Option, none, some, List, [], ◌∷◌,
  Bytes, codes, bytes_eq, is_empty, ltb, leb, ℤ, pos, negsuc, ltb_ℤ, int_of_word, atoi, itoa,
  if◌then◌else◌,
}

-- url.Values, of which the code reads the first value of a key.
abbrev pub Query : Type 0
Query = List (Bytes × Bytes)

-- Get: blank where the key is absent.
unfoldable pub query_get : Bytes → Query → Bytes
query_get key [] = []
query_get key ((k, v) ∷ q) = if bytes_eq k key then v else query_get key q

unfoldable pub query_del : Bytes → Query → Query
query_del key [] = []
query_del key ((k, v) ∷ q) =
    let rest = query_del key q in if bytes_eq k key then rest else (k, v) ∷ rest

unfoldable pub query_set : Bytes → Bytes → Query → Query
unfolding query_del
query_set key v q = (key, v) ∷ query_del key q

-- What the pages read of a request.
pub record PageRequest : Type 0 where
  pub tls : Bool
  pub forwarded_proto : Bytes
  pub host : Bytes
  pub path : Bytes
  pub query : Query

pub record Link : Type 0 where
  pub scheme : Bytes
  pub host : Bytes
  pub path : Bytes
  pub query : Query

pub record Paginated (A : Type 0) : Type 0 where
  pub count : ℕ
  pub next : Option Link
  pub previous : Option Link
  pub results : List A

abbrev pub page_param : Bytes
page_param = codes "page"

-- constant.DefaultValuePage.
abbrev pub default_page : ℕ
default_page = 1

abbrev page_or_default : Option ℤ → ℕ
page_or_default none = default_page
page_or_default (some (pos n)) = if ltb n 1 then default_page else n
page_or_default (some (negsuc n)) = default_page

-- ParsePage.
unfoldable pub parse_page : PageRequest → ℕ
unfolding query_get atoi
parse_page r =
    let raw = query_get page_param r.query in
    if is_empty raw then default_page else page_or_default (atoi raw)

abbrev scheme_of : PageRequest → Bytes
scheme_of r =
    if is_empty r.forwarded_proto
    then (if r.tls then codes "https" else codes "http")
    else r.forwarded_proto

abbrev page_query : ℤ → Query → Query
page_query (pos n) q = if leb n 1 then query_del page_param q else query_set page_param (itoa n) q
page_query (negsuc n) q = query_del page_param q

-- pageURL.
unfoldable pub page_url : PageRequest → ℤ → Link
unfolding query_set itoa
page_url r page = record {
  scheme = scheme_of r;
  host = r.host;
  path = r.path;
  query = page_query page r.query;
}

-- DRFList: the envelope. The arithmetic on the page is that of int.
unfoldable pub drf_list : {A : Type 0} → PageRequest → ℕ → ℕ → ℕ → List A → Paginated A
unfolding page_url
drf_list r count page page_size results = record {
  count = count;
  next =
      if ltb_ℤ (int_of_word ((page * page_size) % 2 ^ 64)) (pos count)
      then some (page_url r (int_of_word ((page + 1) % 2 ^ 64)))
      else none;
  previous = if ltb 1 page then some (page_url r (pos (page - 1))) else none;
  results = results;
}
