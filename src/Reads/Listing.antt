-- ===== src/Reads/Listing.antt =====
-- The list endpoints: List of the services in internal/domains and of the handlers in
-- internal/handlers, which have one shape.
--
-- What the repository answers, and how its rows are made into responses, are parameters; each is
-- `none` where a query fails.
pub mod Laws
use mathlib.Core.Option
use go_espn_api.Prelude.{ℕ, ◌-◌, ◌*◌, ◌%◌, ◌^◌, Option, none, some, List, codes, ℤ, int_of_word}
use go_espn_api.Http.Failure.{Reply, with_error, failure}
use go_espn_api.Http.Pages.{Query, PageRequest, Paginated, parse_page, drf_list}

-- constant.DefaultPageSize.
abbrev pub default_page_size : ℕ
default_page_size = 25

-- (page - 1) * pageSize, of a page that is at least one.
unfoldable pub offset_of : ℕ → ℕ → ℤ
offset_of page page_size = int_of_word (((page - 1) * page_size) % 2 ^ 64)

pub data ListReply (R : Type 0) : Type 0 where
  failed : Reply → ListReply R
  listed : Paginated R → ListReply R

-- What the service answers when a query fails: InternalErrorWithKey(ErrDatabaseQuery).
abbrev pub query_failed : Reply
query_failed = with_error (failure 500 (codes "database.query_failed"))

module _ {F A R : Type 0} (count_rows : F → Option ℕ) (select : F → ℕ → ℤ → Option (List A))
    (render : List A → Option (List R)) (filter_of : Query → F) where
  -- List of a service: the count, the rows of the page, their responses.
  unfoldable pub list_service : F → ℕ → ℕ → Option (List R × ℕ)
  unfolding offset_of
  list_service f page page_size = Option.bind (count_rows f) λ total.
      Option.bind (select f page_size (offset_of page page_size))
        λ rows. Option.bind (render rows) λ items. some (items, total)

  abbrev reply_with : PageRequest → ℕ → Option (List R × ℕ) → ListReply R
  reply_with r page none = failed query_failed
  reply_with r page (some (items, total)) = listed (drf_list r total page default_page_size items)

  -- List of a handler.
  unfoldable pub list_handler : PageRequest → ListReply R
  unfolding list_service parse_page drf_list
  list_handler r =
      let page = parse_page r in
      reply_with r page (list_service (filter_of r.query) page default_page_size)
