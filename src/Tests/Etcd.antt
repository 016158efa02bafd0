-- ===== src/Tests/Etcd.antt =====
-- A test of pkg/metadata/etcd.go.
use lilio.Prelude.{[], bytes, int_eq, is_ok, length, ok, pos, refl, text_eq, true, ◌≡◌}
use lilio.Metadata.Etcd.{EtcdStore, compare_and_save, get_object, object_key, save_object}
use lilio.Metadata.Etcd.Updates.{compare_and_save-Reach, here, next, saves}
use lilio.Tests.Stores.{object}
use lilio.Tests.Codecs.{codec, entry, revised, server, server-EtcdIsLawful}

abbrev empty : EtcdStore server codec
empty = record { client = []; prefix = bytes "/lilio"; timeout = 5 }

abbrev once : EtcdStore server codec
once = (compare_and_save server codec empty (revised (pos 0)) (pos 0)).1

-- Another object is saved meanwhile.
abbrev meanwhile : EtcdStore server codec
meanwhile = (save_object server codec once (object (bytes "a") (bytes "other") 3)).1

saved_once : get_object server codec once (bytes "a") (bytes "k") ≡ ok (revised (pos 1))
unfolding get_object compare_and_save int_eq text_eq
saved_once = refl

saves_again : is_ok (compare_and_save server codec meanwhile (revised (pos 7)) (pos 1)).0 ≡ true
unfolding compare_and_save int_eq save_object text_eq
saves_again = refl

compare_and_save-Reach_example :
    entry meanwhile.client (object_key server codec meanwhile (bytes "a") (bytes "k"))
    ≡ entry once.client (object_key server codec once (bytes "a") (bytes "k"))
compare_and_save-Reach_example =
    compare_and_save-Reach server codec entry length server-EtcdIsLawful once meanwhile
      (revised (pos 1)) (revised (pos 7)) saved_once
      (next here (saves once (object (bytes "a") (bytes "other") 3))) saves_again
