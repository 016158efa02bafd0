-- ===== src/Metadata/Memory/Listing.antt =====
-- What ListObjects of pkg/metadata/memory.go lists.
use mathlib.Core.List.{append_assoc}
use lilio.Prelude.{
  Bool, List, Text, [], arith, append-strip, contains, false, has_prefix, has_prefix-append, int_eq,
  is_ok, length, nat_eq, ok, refl, select, some, strip-append, suc, sym, text_eq, trim_prefix, true,
  ◌&&◌, ◌++◌, ◌<◌, ◌==◌, ◌∙◌, ◌∷◌, ◌≡◌, ◌≤◌, ap,
}
use lilio.Prelude.Dict.{NodupKeys, has_key, has_key-eq-lookup, keys}
use lilio.Prelude.Distinct.{Distinct, contains-keys, keys-Distinct}
use lilio.Prelude.Sorting.{length-sort_slice, sort_strings, text_less}
use lilio.Prelude.StrictOrder.{Rising}
use lilio.Prelude.TextOrder.{contains-sort_strings, sort_strings-Rising}
use lilio.Paging.{ListOptions, is_listed, list_page}
use lilio.Paging.Walk.{all_pages, all_pages-list_page, contains-select, listing, select-Distinct}
use lilio.Metadata.Listed.{IsListed}
use lilio.Metadata.Memory.{
  MemoryStore, bucket_keys, full_key, get_object, list_buckets, list_objects, memory_store,
}

stripped : (p k j : Text) → has_prefix j p ≡ true → (k == trim_prefix j p) ≡ (p ++ k == j)
unfolding trim_prefix
stripped p k j h = ground (arith, append-strip p j h, strip-append p k)

unprefixed : (p k j : Text) → has_prefix j p ≡ false → (p ++ k == j) ≡ false
unprefixed p k j h = ground (arith, has_prefix-append p k)

-- The keys of a bucket are those whose full keys are in the map.
contains-bucket_keys :
    (p k : Text) (ks : List Text) → contains (bucket_keys p ks) k ≡ contains ks (p ++ k)
unfolding bucket_keys
contains-bucket_keys p k [] = refl
contains-bucket_keys p k (j ∷ ks) =
    ground (arith, stripped p k j, unprefixed p k j, contains-bucket_keys p k ks)

bucket_keys-Distinct : (p : Text) (ks : List Text) → Distinct ks → Distinct (bucket_keys p ks)
unfolding bucket_keys
bucket_keys-Distinct p [] h = tt
bucket_keys-Distinct p (j ∷ ks) (new, h) = ground (
  arith,
  contains-bucket_keys p (trim_prefix j p) ks,
  stripped p (trim_prefix j p) j,
  bucket_keys-Distinct p ks h,
)

module _ (s : MemoryStore) where
  abbrev pub keys_of : Text → List Text
  keys_of b = bucket_keys (full_key b []) (keys s.objects)

  -- The bucket has a key exactly where it has an object.
  contains-keys_of : (b k : Text) → contains (keys_of b) k ≡ is_ok (get_object s b k)
  unfolding full_key get_object
  contains-keys_of b k =
      let e : (b ++ b'/' ∷ []) ++ k ≡ b ++ b'/' ∷ k = append_assoc b (b'/' ∷ []) k in
      ground (
        arith,
        contains-bucket_keys (full_key b []) k (keys s.objects),
        contains-keys (full_key b k) s.objects,
        has_key-eq-lookup (full_key b k) s.objects,
        e,
      )

  keys_of-Distinct : (b : Text) → NodupKeys s.objects → Distinct (keys_of b)
  keys_of-Distinct b once =
      bucket_keys-Distinct (full_key b []) (keys s.objects) (keys-Distinct s.objects once)

  listed_as :
      (b : Text) (o : ListOptions)
      → has_key b s.buckets ≡ true
      → list_objects s b o ≡ ok (list_page o (keys_of b))
  unfolding list_objects
  listed_as b o there = rw (there, list_objects) refl

  -- The memory store's listings are as a walk over it relies on, if its map has each full key once
  -- and no bucket has an object with the empty key.
  pub memory_store-IsListed :
      NodupKeys s.objects
      → ((b : Text) → has_key b s.buckets ≡ true → is_ok (get_object s b []) ≡ false)
      → (unfold memory_store in IsListed memory_store s (keys s.buckets) keys_of)
  unfolding memory_store list_buckets
  memory_store-IsListed once named = record {
    list_buckets-eq = refl;
    list_objects-eq = λ b o there. listed_as b o (sym (contains-keys b s.buckets) ∙ there);
    distinct = λ b. keys_of-Distinct b once;
    named = λ b there. contains-keys_of b [] ∙ named b (sym (contains-keys b s.buckets) ∙ there);
    found = λ b k h. sym (contains-keys_of b k) ∙ h;
  }

  length-bucket_keys : (p : Text) (ks : List Text) → length (bucket_keys p ks) ≤ length ks
  unfolding bucket_keys
  length-bucket_keys p [] = omega arith
  length-bucket_keys p (k ∷ ks) = ground (arith, length-bucket_keys p ks)

  length-select : (keep : Text → Bool) (ks : List Text) → length (select keep ks) ≤ length ks
  length-select keep [] = omega arith
  length-select keep (k ∷ ks) = ground (arith, length-select keep ks)

  -- Reading a bucket page by page, each behind the NextAfter of the one before, ends, and gives
  -- each key that has an object in the bucket, is behind After and has the Prefix, once and in
  -- order, and nothing else. For a bucket that exists in a memory store whose map has each full
  -- key once, and no object with the empty key.
  pub all_pages-list_objects :
      (b : Text) (o : ListOptions)
      → NodupKeys s.objects
      → has_key b s.buckets ≡ true
      → is_ok (get_object s b []) ≡ false
      → (found : List Text) × (all_pages (list_objects s b) (suc (length (keys s.objects))) o
          ≡ some found)
        × Rising text_less found
        × ((k : Text) → contains found k ≡ (is_listed o k && is_ok (get_object s b k)))
  unfolding sort_strings
  all_pages-list_objects b o once there named =
      let ks = keys_of b in
      let chosen = select (is_listed o) ks in
      let distinct = keys_of-Distinct b once in
      let few : length (listing ks o) < suc (length (keys s.objects)) = omega (
        arith,
        length-sort_slice text_less chosen,
        length-select (is_listed o) ks,
        length-bucket_keys (full_key b []) (keys s.objects),
      ) in
      (
        listing ks o,
        all_pages-list_page ks (list_objects s b) (suc (length (keys s.objects))) o
            (λ o'. listed_as b o' there) distinct (contains-keys_of b [] ∙ named) few,
        sort_strings-Rising chosen (select-Distinct (is_listed o) ks distinct),
        λ k.
            contains-sort_strings chosen k
            ∙ contains-select (is_listed o) ks k
            ∙ ap (λ x. is_listed o k && x) (contains-keys_of b k),
      )
