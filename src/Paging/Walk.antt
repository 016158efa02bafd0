-- ===== src/Paging/Walk.antt =====
-- A client of pkg/metadata/interface.go that reads one page of a listing after the other.
use lilio.Prelude.{
  All, Bool, Bool-cases, List, Option, Result, err, ok, Text, [], ap, arith, contains, drop, false,
  if◌then◌else◌, inl, inr, int_eq, leb, length, length-drop, nat_eq, none, refl, select, some, suc,
  sym, take, take-append-drop, text_eq, true, zero, ◌⊎◌, ℕ, ◌&&◌, ◌++◌, ◌<◌, ◌==◌, ◌∙◌, ◌∷◌, ◌≡◌,
  ◌≤◌,
}
use lilio.Prelude.Distinct.{Distinct}
use lilio.Prelude.Sorting.{sort_strings, text_less}
use lilio.Prelude.StrictOrder.{Rising, select-sort_slice}
use lilio.Prelude.TextOrder.{contains-sort_strings, sort_strings-Rising, text_less-StrictOrder}
use lilio.Paging.{ListOptions, ListResult, is_listed, last_key, list_page, page_limit, paginate}

-- The pages from some options on, each asked for behind the last key of the one before: the loop
-- that Truncated and NextAfter are for. `none` says that more pages were left when the fuel ran
-- out, and so does an error.
unfoldable pub all_pages :
    {E : Type 0} → (ListOptions → Result E ListResult) → ℕ → ListOptions → Option (List Text)
all_pages list zero o = none
all_pages list (suc fuel) o = elim (list o) [
  | err e ↦ none
  | ok page ↦
      let rest = all_pages list fuel (record o { after = page.next_after }) in
      if page.truncated
      then elim rest [ none ↦ none | some keys ↦ some (page.page_keys ++ keys) ]
      else some page.page_keys
]

All-last_key :
    (P : Text → Type 0) (n : ℕ) (y : Text) (ys : List Text)
    → All P (y ∷ ys)
    → P (last_key (take (suc n) (y ∷ ys)))
unfolding last_key
All-last_key P zero y ys (p, all) = p
All-last_key P (suc n) y [] (p, all) = p
All-last_key P (suc n) y (z ∷ ys) (p, all) = All-last_key P n z ys all

select-All :
    (keep : Text → Bool) (xs : List Text) → All (λ x. keep x ≡ true) xs → select keep xs ≡ xs
select-All keep [] all = refl
select-All keep (x ∷ xs) (h, all) = ground (arith, select-All keep xs all)

-- Behind the last key of a page come exactly the keys that are not on it.
select-last_key :
    (n : ℕ) (xs : List Text)
    → Rising text_less xs
    → suc n ≤ length xs
    → select (text_less (last_key (take (suc n) xs))) xs ≡ drop (suc n) xs
unfolding last_key
select-last_key n [] h le = absurd (omega arith)
select-last_key zero (x ∷ xs) (all, h) le =
    let self : text_less x x ≡ false = ground (arith, text_less-StrictOrder.asym x x) in
    rw self (select-All (text_less x) xs all)
select-last_key (suc n) (x ∷ []) h le = absurd (omega arith)
select-last_key (suc n) (x ∷ y ∷ ys) (all, h) le =
    let last = last_key (take (suc n) (y ∷ ys)) in
    let under : text_less x last ≡ true = All-last_key (λ z. text_less x z ≡ true) n y ys all in
    let not_over = text_less-StrictOrder.asym x last under in
    rw not_over (select-last_key n (y ∷ ys) h (omega arith))

pub contains-select :
    (keep : Text → Bool) (xs : List Text) (a : Text)
    → contains (select keep xs) a ≡ (keep a && contains xs a)
contains-select keep [] a = ground arith
contains-select keep (x ∷ xs) a = ground (arith, contains-select keep xs a)

select_both :
    (p q r : Text → Bool) (xs : List Text)
    → ((x : Text) → r x ≡ (p x && q x))
    → select r xs ≡ select q (select p xs)
select_both p q r [] h = refl
select_both p q r (x ∷ xs) h = ground (arith, h x, select_both p q r xs h)

All-contains :
    (xs ys : List Text)
    → ((x : Text) → contains xs x ≡ true → contains ys x ≡ true)
    → All (λ x. contains ys x ≡ true) xs
All-contains [] ys h = tt
All-contains (x ∷ xs) ys h = (h x (ground arith), All-contains xs ys (λ z k. h z (ground arith)))

pub select-Distinct :
    (keep : Text → Bool) (xs : List Text) → Distinct xs → Distinct (select keep xs)
select-Distinct keep [] h = tt
select-Distinct keep (x ∷ xs) (new, h) =
    ground (arith, select-Distinct keep xs h, contains-select keep xs x)

page_limit_positive : (o : ListOptions) → 0 < page_limit o
unfolding page_limit
page_limit_positive o = ground arith

module _ (ks : List Text) where
  -- All that the options ask for, in order.
  abbrev pub listing : ListOptions → List Text
  listing o = sort_strings (select (is_listed o) ks)

  last_listed :
      (o : ListOptions) (n : ℕ)
      → suc n ≤ length (listing o)
      → contains (listing o) (last_key (take (suc n) (listing o))) ≡ true
  last_listed o n le =
      elim (listing o) as (λ l. suc n ≤ length l → contains l (last_key (take (suc n) l)) ≡ true) [
        | [] ↦ λ short. absurd (omega arith)
        | y ∷ ys ↦ λ short.
            All-last_key (λ z. contains (y ∷ ys) z ≡ true) n y ys
              (All-contains (y ∷ ys) (y ∷ ys) (λ x h. h))
      ]
        le

  -- Asking for the keys behind one that was listed.
  listed_behind :
      (o : ListOptions) (a k : Text)
      → is_listed o a ≡ true
      → (a == []) ≡ false
      → is_listed (record o { after = a }) k ≡ (is_listed o k && text_less a k)
  unfolding is_listed
  listed_behind o a k h some_key =
      ground (arith, text_less-StrictOrder.asym a k, text_less-StrictOrder.below o.after a k)

  -- The listing behind the last key of a page is the rest of the listing.
  pub listing_behind :
      (o : ListOptions) (n : ℕ)
      → Distinct ks
      → contains ks [] ≡ false
      → suc n ≤ length (listing o)
      → listing (record o { after = last_key (take (suc n) (listing o)) })
        ≡ drop (suc n) (listing o)
  unfolding sort_strings
  listing_behind o n distinct named le =
      let a = last_key (take (suc n) (listing o)) in
      let chosen = select (is_listed o) ks in
      let there : contains chosen a ≡ true =
        sym (contains-sort_strings chosen a) ∙ last_listed o n le in
      let both : (is_listed o a && contains ks a) ≡ true =
        sym (contains-select (is_listed o) ks a) ∙ there in
      let listed : is_listed o a ≡ true = ground arith in
      let some_key : (a == []) ≡ false = ground arith in
      let split =
        select_both (is_listed o) (text_less a) (is_listed (record o { after = a })) ks
          (λ x. listed_behind o a x listed some_key) in
      ap sort_strings split
      ∙ sym (select-sort_slice text_less-StrictOrder (text_less a) chosen)
      ∙ select-last_key n (listing o)
          (sort_strings-Rising chosen (select-Distinct (is_listed o) ks distinct)) le

  -- One page of the listing: all of it, or its first keys.
  abbrev pub Pages : ListOptions → ListResult → Type 0
  Pages o page =
      (page ≡ record { page_keys = listing o; next_after = []; truncated = false })
      ⊎ ((n : ℕ) × (suc n ≤ length (listing o))
          × (page ≡ record {
            page_keys = take (suc n) (listing o);
            next_after = last_key (take (suc n) (listing o));
            truncated = true;
          }))

  paginate-Pages : (o : ListOptions) (limit : ℕ) → 0 < limit → Pages o (paginate (listing o) limit)
  unfolding paginate
  paginate-Pages o zero positive = absurd (omega arith)
  paginate-Pages o (suc n) positive = elim (Bool-cases (leb (length (listing o)) (suc n))) [
    | inl fits ↦ inl (rw fits refl)
    | inr more ↦ inr (n, ground arith, rw more refl)
  ]

  pub list_page-Pages : (o : ListOptions) → Pages o (list_page o ks)
  unfolding list_page
  list_page-Pages o = paginate-Pages o (page_limit o) (page_limit_positive o)

  -- Reading on behind each page gives the whole listing, on fuel for one page more than there
  -- are keys.
  pub all_pages-list_page :
      {E : Type 0} (list : ListOptions → Result E ListResult) (fuel : ℕ) (o : ListOptions)
      → ((o' : ListOptions) → list o' ≡ ok (list_page o' ks))
      → Distinct ks
      → contains ks [] ≡ false
      → length (listing o) < fuel
      → all_pages list fuel o ≡ some (listing o)
  unfolding all_pages
  all_pages-list_page list zero o pages distinct named less = absurd (omega arith)
  all_pages-list_page list (suc fuel) o pages distinct named less = elim (list_page-Pages o) [
    | inl all ↦ rw (pages o ∙ ap ok all, all_pages) refl
    | inr (n, le, page) ↦
        let L = listing o in
        let o' : ListOptions = record o { after = last_key (take (suc n) L) } in
        let rest = listing_behind o n distinct named le in
        let shorter : length (listing o') < fuel = rw rest (omega (arith, length-drop (suc n) L)) in
        let later = all_pages-list_page list fuel o' pages distinct named shorter in
        rw (pages o ∙ ap ok page, all_pages, later, rest) (ap some (take-append-drop (suc n) L))
  ]
