-- ===== src/Paging.antt =====
-- pkg/metadata/interface.go (ListOptions, ListResult) and pkg/metadata/paging.go.
pub mod Walk
use lilio.Prelude.{
  Bool, List, Text, [], false, has_prefix, if◌then◌else◌, int_eq, leb, length, nat_eq, negsuc, pos,
  select, take, text_eq, true, ℕ, ℤ, ◌&&◌, ◌==◌, ◌||◌, ◌∷◌,
}
use lilio.Prelude.Sorting.{sort_strings, text_less}

abbrev pub default_list_limit : ℕ
default_list_limit = 1000

abbrev pub max_list_limit : ℕ
max_list_limit = 10000

pub record ListOptions : Type 0 where
  pub prefix : Text
  pub after : Text
  pub limit : ℤ

-- ListOptions.limit
unfoldable pub page_limit : ListOptions → ℕ
page_limit o = elim (o.limit) [
  | pos n ↦
      if n == 0 then default_list_limit else if leb n max_list_limit then n else max_list_limit
  | negsuc n ↦ default_list_limit
]

pub record ListResult : Type 0 where
  pub page_keys : List Text
  pub next_after : Text
  pub truncated : Bool

-- `page[len(page)-1]`; the page of `paginate` is never empty, since its limit is not 0.
unfoldable pub last_key : List Text → Text
last_key [] = []
last_key (k ∷ []) = k
last_key (k ∷ j ∷ ks) = last_key (j ∷ ks)

unfoldable pub paginate : List Text → ℕ → ListResult
unfolding last_key
paginate ks limit =
    if leb (length ks) limit
    then record { page_keys = ks; next_after = []; truncated = false }
    else record {
      page_keys = take limit ks;
      next_after = last_key (take limit ks);
      truncated = true;
    }

-- The tests on one key that every store's ListObjects makes: the prefix, then `after`.
-- `key <= opts.After` is the negation of `opts.After < key`.
unfoldable pub is_listed : ListOptions → Text → Bool
unfolding has_prefix
is_listed o key =
    (o.prefix == [] || has_prefix key o.prefix) && (o.after == [] || text_less o.after key)

-- The end of every store's ListObjects: keys filtered, sorted and cut to one page.
unfoldable pub list_page : ListOptions → List Text → ListResult
unfolding is_listed page_limit sort_strings paginate
list_page o ks = paginate (sort_strings (select (is_listed o) ks)) (page_limit o)
