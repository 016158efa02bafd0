-- ===== src/Tests/Platforms.antt =====
-- The parts that the program takes from elsewhere, as concrete functions that keep their laws.
use lilio.Prelude.{
  Bool, Text, [], ap, arith, drop, false, if◌then◌else◌, int_eq, leb, length, length-drop,
  length-take, nat_eq, negsuc, none, pos, refl, some, suc, take, take-append-drop, text_eq, zero, ℕ,
  ◌++◌, ◌∷◌, ◌≡◌, ◌≤◌,
}
use lilio.Prelude.Dict.{Dict, erase, has_key, insert, keys, lookup}
use lilio.Metadata.Memory.{memory_store}
use lilio.Storage.{Bytes, StorageBackend, local, offline, online}
use lilio.Crypto.{Cipher}
use lilio.Crypto.RoundTrip.{CipherIsLawful}
use lilio.Coordinator.{Platform}
use lilio.Chunking.{Reader, eof, more}
use lilio.Chunking.Reading.{ReaderIsLawful}

pub record Disk : Type 0 where
  pub label : Text
  pub up : Bool
  pub held : Dict Text Bytes

abbrev pub disk_backend : StorageBackend
disk_backend = record {
  State = Disk;
  info = λ s. record {
    name = s.label;
    backend_type = local;
    status = if s.up then online else offline;
    priority = 0;
  };
  health = λ s. s.up;
  store_chunk = λ s c d. (s.up, if s.up then record s { held = insert c d s.held } else s);
  retrieve_chunk = λ s c. if s.up then lookup c s.held else none;
  delete_chunk = λ s c. (s.up, if s.up then record s { held = erase c s.held } else s);
  has_chunk = λ s c. if s.up then has_key c s.held else false;
  list_chunks = λ s. if s.up then some (keys s.held) else none;
  stats = λ s.
      if s.up
      then some (record {
        bytes_used = pos 0;
        bytes_free = negsuc 0;
        chunks_stored = pos (length s.held);
      })
      else none;
}

abbrev pub zeros : ℕ → Bytes
zeros zero = []
zeros (suc n) = 0 ∷ zeros n

abbrev pub tagging : Cipher
tagging = record {
  seal = λ k n p. zeros 16 ++ p;
  unseal = λ k n c. some (drop 16 c);
  pbkdf2 = λ password salt. zeros 32;
}

length-zeros : (n : ℕ) → length (zeros n) ≡ n
length-zeros zero = omega arith
length-zeros (suc n) = omega (arith, length-zeros n)

pub tagging-IsLawful : CipherIsLawful tagging
tagging-IsLawful = record {
  unseal-seal = λ k n p. refl;
  length-seal = λ k n p. omega arith;
  length-pbkdf2 = λ password salt. length-zeros 32;
}

abbrev pub quick_hash : Text → Bytes
quick_hash t = 0 ∷ 0 ∷ 0 ∷ length t ∷ []

abbrev pub small : Platform
small = record {
  store = memory_store;
  backend = disk_backend;
  cipher = tagging;
  sha256 = quick_hash;
  md5 = λ d. d;
}

-- A reader over bytes in memory.
abbrev pub in_memory : Reader
in_memory = record {
  State = Bytes;
  read = λ s n. (take n s, if leb (length s) n then eof else more, drop n s);
}

abbrev pub all_of : Bytes → Bytes
all_of s = s

take_all : (n : ℕ) (s : Bytes) → length s ≤ n → take n s ≡ s
take_all zero [] h = refl
take_all zero (x ∷ s) h = absurd (omega arith)
take_all (suc n) [] h = refl
take_all (suc n) (x ∷ s) h = ap (◌∷◌ x) (take_all n s (omega arith))

pub in_memory-IsLawful : ReaderIsLawful in_memory all_of length
in_memory-IsLawful = record {
  fits = λ s n h. omega (arith, length-take n s);
  never_fails = λ s n h. ground arith;
  at_more = λ s n h e. (take-append-drop n s, ground (arith, length-drop n s));
  at_eof = λ s n h e. take_all n s (ground arith);
}
