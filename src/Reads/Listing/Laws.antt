-- ===== src/Reads/Listing/Laws.antt =====
-- Following the links of a list from its first page.
use mathlib.Core.Option
use mathlib.Core.Path.{subst}
use go_espn_api.Prelude.{
  ℕ, zero, suc, ◌+◌, ◌-◌, ◌*◌, ◌%◌, ◌^◌, ◌<◌, ◌≤◌, ◌≡◌, refl, ap, sym, ◌∙◌, false, Option, none,
  some, List, [], ◌∷◌, ◌++◌, map, length, take, drop, take-drop, take_all, drop-drop, length-drop,
  ltb, leb, ℤ, pos, int_of_word, if◌then◌else◌, arith, Bool-cases, inl, inr, ltb→lt, ltb→le,
}
use go_espn_api.Http.Pages.{Query, PageRequest, Link, Paginated, parse_page, page_url, drf_list}
use go_espn_api.Http.Pages.Laws.{follow, parse_page-page_url, int_of_word-small}
use go_espn_api.Reads.Listing.{ListReply, failed, listed, list_service, list_handler, offset_of}

-- The results of a page, and of the pages behind it.
abbrev gather : {R : Type 0} → (Link → Option (List R)) → ListReply R → Option (List R)
gather next (failed e) = none
gather next (listed p) = elim (p.next) [
  | none ↦ some p.results
  | some l ↦ Option.map (λ rest. p.results ++ rest) (next l)
]

-- What a client collects that follows the links to the next page, with as many requests as the fuel.
unfoldable pub visit :
    {R : Type 0} → (PageRequest → ListReply R) → ℕ → PageRequest → Option (List R)
unfolding follow
visit handler zero r = none
visit handler (suc fuel) r = gather (λ l. visit handler fuel (follow l)) (handler r)

map-append_lem :
    {A R : Type 0} (f : A → R) (xs ys : List A) → map f xs ++ map f ys ≡ map f (xs ++ ys)
map-append_lem f [] ys = refl
map-append_lem f (x ∷ xs) ys = ap (λ z. f x ∷ z) (map-append_lem f xs ys)

module _ {R : Type 0} (next : Link → Option (List R)) (p : Paginated R) where
  gather-more :
      (l : Link)
      → p.next ≡ some l
      → gather next (listed p) ≡ Option.map (λ rest. p.results ++ rest) (next l)
  gather-more l e = rw e refl

  gather-last : p.next ≡ none → gather next (listed p) ≡ some p.results
  gather-last e = rw e refl

module _ {F A R : Type 0} (count_rows : F → Option ℕ) (select : F → ℕ → ℤ → Option (List A))
    (render : List A → Option (List R)) (filter_of : Query → F) (rows : F → List A) (one : A → R)
    (counts : (f : F) → count_rows f ≡ some (length (rows f)))
    (selects : (f : F) (n k : ℕ) → select f n (pos k) ≡ some (take n (drop k (rows f))))
    (renders : (xs : List A) → render xs ≡ some (map one xs))
    (stays : (r : PageRequest) (n : ℤ)
      → filter_of (follow (page_url r n)).query ≡ filter_of r.query) where
  abbrev pub handler : PageRequest → ListReply R
  handler = list_handler count_rows select render filter_of

  -- The reply to a request for a page that can be counted to.
  handler-page :
      (r : PageRequest) (page : ℕ)
      → parse_page r ≡ suc page
      → page * 25 < 2 ^ 63
      → handler r
        ≡ listed (
            drf_list r
              (length (rows (filter_of r.query)))
              (suc page)
              25
              (map one (take 25 (drop (page * 25) (rows (filter_of r.query))))))
  unfolding list_handler list_service offset_of Option.bind
  handler-page r page e h =
      let f = filter_of r.query in
      let o : int_of_word (((suc page - 1) * 25) % 2 ^ 64) ≡ pos (page * 25) =
        ap (λ z. int_of_word ((z * 25) % 2 ^ 64)) (omega arith) ∙ int_of_word-small (page * 25) h in
      rw (e, counts f, o, selects f 25 (page * 25), renders (take 25 (drop (page * 25) (rows f))))
        refl

  drf_list-next :
      (r : PageRequest) (count page : ℕ) (xs : List R)
      → suc page * 25 < 2 ^ 63
      → (drf_list r count (suc page) 25 xs).next
        ≡ (if ltb (suc page * 25) count then some (page_url r (pos (suc (suc page)))) else none)
  unfolding drf_list
  drf_list-next r count page xs h =
      let e = int_of_word-small (suc page * 25) h in
      let n : int_of_word ((suc page + 1) % 2 ^ 64) ≡ pos (suc (suc page)) =
        ap (λ z. int_of_word (z % 2 ^ 64)) (omega arith)
        ∙ int_of_word-small (suc (suc page)) (omega arith) in
      let z : suc page * 25 + 0 ≡ suc page * 25 = omega arith in
      let w : count + 0 ≡ count = omega arith in rw (e, n, z, w) refl

  pages-append :
      (page : ℕ) (all : List A)
      → map one (take 25 (drop (page * 25) all)) ++ map one (drop (suc page * 25) all)
        ≡ map one (drop (page * 25) all)
  pages-append page all =
      let next : drop (suc page * 25) all ≡ drop 25 (drop (page * 25) all) =
        ap (λ z. drop z all) (omega arith) ∙ sym (drop-drop 25 (page * 25) all) in
      ap (λ z. map one (take 25 (drop (page * 25) all)) ++ map one z) next
      ∙ map-append_lem one (take 25 (drop (page * 25) all)) (drop 25 (drop (page * 25) all))
      ∙ ap (map one) (take-drop 25 (drop (page * 25) all))

  -- The page behind the link of a page.
  next_page :
      (r : PageRequest) (page : ℕ)
      → suc (suc page) < 2 ^ 63
      → parse_page (follow (page_url r (pos (suc (suc page))))) ≡ suc (suc page)
  next_page r page h =
      let big : leb (suc (suc page)) 1 ≡ false = ground arith in
      parse_page-page_url r (suc (suc page)) h ∙ rw big refl

  visit-next :
      (fuel page : ℕ) (r : PageRequest) (q : Link) (p : Paginated R)
      → handler r ≡ listed p
      → p.next ≡ some q
      → visit handler (suc fuel) r
        ≡ Option.map (λ rest. p.results ++ rest) (visit handler fuel (follow q))
  unfolding visit
  visit-next fuel page r q p e h =
      ap (gather (λ l'. visit handler fuel (follow l'))) e
      ∙ gather-more (λ l'. visit handler fuel (follow l')) p q h

  visit-last :
      (fuel page : ℕ) (r : PageRequest)
      → parse_page r ≡ suc page
      → length (rows (filter_of r.query)) + 50 < 2 ^ 63
      → page * 25 ≤ length (rows (filter_of r.query))
      → ltb (suc page * 25) (length (rows (filter_of r.query))) ≡ false
      → visit handler (suc fuel) r ≡ some (map one (drop (page * 25) (rows (filter_of r.query))))
  unfolding visit drf_list
  visit-last fuel page r e b l n =
      let all = rows (filter_of r.query) in
      let xs = map one (take 25 (drop (page * 25) all)) in
      let p = drf_list r (length all) (suc page) 25 xs in
      let none_left : p.next ≡ none =
        drf_list-next r (length all) page xs (omega arith) ∙ rw n refl in
      let short : length (drop (page * 25) all) ≤ 25 =
        omega (arith, length-drop (page * 25) all, ltb→le (suc page * 25) (length all) n) in
      ap (gather (λ l'. visit handler fuel (follow l'))) (handler-page r page e (omega arith))
      ∙ gather-last (λ l'. visit handler fuel (follow l')) p none_left
      ∙ ap (λ z. some (map one z)) (take_all 25 (drop (page * 25) all) short)

  visit-page :
      (fuel page : ℕ) (r : PageRequest)
      → parse_page r ≡ suc page
      → length (rows (filter_of r.query)) + 50 < 2 ^ 63
      → page * 25 ≤ length (rows (filter_of r.query))
      → length (rows (filter_of r.query)) ≤ (page + fuel) * 25
      → visit handler (suc fuel) r ≡ some (map one (drop (page * 25) (rows (filter_of r.query))))
  unfolding drf_list
  visit-page zero page r e b l m = visit-last zero page r e b l (ground arith)
  visit-page (suc fuel) page r e b l m =
      elim (Bool-cases (ltb (suc page * 25) (length (rows (filter_of r.query))))) [
        | inl y ↦
            let f = filter_of r.query in
            let all = rows f in
            let xs = map one (take 25 (drop (page * 25) all)) in
            let p = drf_list r (length all) (suc page) 25 xs in
            let more = ltb→lt (suc page * 25) (length all) y in
            let q = page_url r (pos (suc (suc page))) in
            let st = stays r (pos (suc (suc page))) in
            let link : p.next ≡ some q =
              drf_list-next r (length all) page xs (omega arith) ∙ rw y refl in
            let rest : visit handler (suc fuel) (follow q)
                ≡ some (map one (drop (suc page * 25) all)) =
              visit-page fuel (suc page) (follow q) (next_page r page (omega arith))
                (subst (λ z. length (rows z) + 50 < 2 ^ 63) (sym st) b)
                (subst (λ z. suc page * 25 ≤ length (rows z)) (sym st) (omega arith))
                (subst (λ z. length (rows z) ≤ (suc page + fuel) * 25) (sym st) (omega arith))
              ∙ ap (λ z. some (map one (drop (suc page * 25) (rows z)))) st in
            visit-next (suc fuel) page r q p (handler-page r page e (omega arith)) link
            ∙ ap (Option.map (λ z. xs ++ z)) rest
            ∙ ap some (pages-append page all)
        | inr n ↦ visit-last (suc fuel) page r e b l n
      ]

  -- A client that starts at the first page and follows the links collects the responses of all the
  -- rows, each once and in their order, with at most one request more than there are rows. What it
  -- takes of the repository: its count is that of the rows, its pages are taken from one order of
  -- them, and the links keep the filter.
  pub visit-rows :
      (r : PageRequest)
      → parse_page r ≡ 1
      → length (rows (filter_of r.query)) + 50 < 2 ^ 63
      → visit handler (suc (length (rows (filter_of r.query)))) r
        ≡ some (map one (rows (filter_of r.query)))
  visit-rows r e b =
      visit-page (length (rows (filter_of r.query))) 0 r e b (omega arith) (omega arith)
