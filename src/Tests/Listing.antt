-- ===== src/Tests/Listing.antt =====
-- Tests of listings and of a scrub pass that walks over them.
use lilio.Prelude.{
  All, List, Text, [], arith, bytes, contains, false, is_ok, length, pos, refl, some, suc, text_eq,
  true, ℕ, ◌&&◌, ◌∷◌, ◌≡◌, ◌<◌,
}
use lilio.Prelude.Dict.{NodupKeys, has_key, keys}
use lilio.Prelude.Sorting.{text_less}
use lilio.Prelude.StrictOrder.{Rising}
use lilio.Paging.{ListOptions, is_listed}
use lilio.Paging.Walk.{all_pages}
use lilio.Metadata.Listed.{IsListed, objects_in}
use lilio.Metadata.Memory.{MemoryStore, get_object, list_objects}
use lilio.Metadata.Memory.Listing.{all_pages-list_objects, keys_of, memory_store-IsListed}
use lilio.Coordinator.{Lilio}
use lilio.Coordinator.Scrub.{ScrubOptions, ScrubReport}
use lilio.Coordinator.Scrub.Pass.{finished, scrub}
use lilio.Coordinator.Scrub.Covers.{scrub_covers}
use lilio.Tests.Stores.{object}
use lilio.Tests.Platforms.{small}
use lilio.Tests.Objects.{demo}

abbrev three_objects : MemoryStore
three_objects = record {
  buckets =
      (
        bytes "a",
        record {
          name = bytes "a";
          created_at = 1;
          encryption = record { enabled = false; algorithm = []; salt = []; key_hash = [] };
        },
      )
      ∷ [];
  objects =
      (bytes "a/x", object (bytes "a") (bytes "x") 1)
      ∷ (bytes "b/x", object (bytes "b") (bytes "x") 1)
      ∷ (bytes "a/d", object (bytes "a") (bytes "d") 1)
      ∷ [];
}

-- Pages of one key.
abbrev one_by_one : ListOptions
one_by_one = record { prefix = []; after = []; limit = pos 1 }

once : NodupKeys three_objects.objects
unfolding lilio.Prelude.Dict.lookup text_eq
once = (refl, (refl, (refl, tt)))

all_pages-list_objects_example :
    (found : List Text) × (all_pages
        (list_objects three_objects (bytes "a"))
        (suc (length (keys three_objects.objects)))
        one_by_one
      ≡ some found)
    × Rising text_less found
    × ((k : Text)
        → contains found k
          ≡ (is_listed one_by_one k && is_ok (get_object three_objects (bytes "a") k)))
unfolding has_key text_eq get_object lilio.Prelude.Dict.lookup lilio.Metadata.Memory.full_key
all_pages-list_objects_example =
    all_pages-list_objects three_objects (bytes "a") one_by_one once refl refl

two_pages :
    all_pages (list_objects three_objects (bytes "a")) 3 one_by_one
    ≡ some (bytes "d" ∷ bytes "x" ∷ [])
unfolding all_pages list_objects has_key text_eq lilio.Metadata.Memory.full_key lilio.Prelude.nat_eq
two_pages = refl

abbrev stocked : Lilio small
unfolding lilio.Metadata.Memory.memory_store
stocked = record demo { metadata = three_objects }

all_named :
    (b : Text)
    → has_key b three_objects.buckets ≡ true
    → is_ok (get_object three_objects b []) ≡ false
unfolding has_key get_object lilio.Metadata.Memory.full_key lilio.Prelude.Dict.lookup
all_named b h = ground arith

stocked-IsListed :
    IsListed small.store stocked.metadata (keys three_objects.buckets) (keys_of three_objects)
unfolding lilio.Metadata.Memory.memory_store stocked
stocked-IsListed = memory_store-IsListed three_objects once all_named

thorough : ScrubOptions
thorough = record { deep = true; dry_run = false }

scrub_covers_example :
    (report : ScrubReport) × ((scrub 4 (λ j. true) stocked thorough).0 ≡ some (finished, report))
    × (report.objects_scanned ≡ objects_in (keys_of three_objects) (keys three_objects.buckets))
unfolding lilio.Metadata.Memory.bucket_keys lilio.Metadata.Memory.full_key lilio.Prelude.nat_eq
scrub_covers_example =
    scrub_covers thorough (λ j. true) (λ j. refl) 4 stocked (keys three_objects.buckets)
      (keys_of three_objects) stocked-IsListed (omega arith, tt)
