-- ===== src/Tests/Codecs.antt =====
-- A codec for the metadata of one object, and an etcd server in memory.
use lilio.Prelude.{
  Bool, Bool-cases, List, Option, Option-cases, Text, [], ap, arith, bytes, contains, false,
  has_prefix, if◌then◌else◌, inl, inr, int_eq, length, nat_eq, negsuc, none, not, pos, refl, some,
  suc, sym, take, text_eq, true, ℕ, ℤ, ◌&&◌, ◌++◌, ◌<◌, ◌==◌, ◌∙◌, ◌∷◌, ◌≡◌, ◌≤◌,
}
use lilio.Prelude.Sorting.{sort_strings, text_less}
use lilio.Storage.{Bytes}
use lilio.Metadata.{ObjectMetadata}
use lilio.Metadata.Codec.{Codec, CodecIsLawful}
use lilio.Metadata.Etcd.{Compare, EtcdClient, KeyValue, mod_revision_is, version_is_zero}
use lilio.Metadata.Etcd.Updates.{Advances, EtcdIsLawful, HoldsOf}
use lilio.Tests.Stores.{object}

-- The metadata with a revision.
abbrev pub revised : ℤ → ObjectMetadata
revised r = record (object (bytes "a") (bytes "k") 0) { revision = r }

abbrev encode : ℤ → Option Bytes
encode (pos n) = some (n ∷ [])
encode (negsuc n) = some (n ∷ n ∷ [])

abbrev decode : Bytes → Option ObjectMetadata
decode [] = none
decode (n ∷ []) = some (revised (pos n))
decode (n ∷ d) = some (revised (negsuc n))

abbrev pub codec : Codec
codec = record {
  encode_bucket = λ b. none;
  decode_bucket = λ d. none;
  encode_object = λ m. encode m.revision;
  decode_object = decode;
}

abbrev pub Representable : ObjectMetadata → Type 0
Representable m = m ≡ revised m.revision

decode-encode : (r : ℤ) (d : Bytes) → encode r ≡ some d → decode d ≡ some (revised r)
decode-encode (pos n) d h = ground arith
decode-encode (negsuc n) d h = ground arith

pub codec-IsLawful : CodecIsLawful codec Representable (λ b. Unit)
codec-IsLawful = record {
  decode-encode = λ m d valid h. decode-encode m.revision d h ∙ ap some (sym valid);
  decode-encode_bucket = λ b d valid h. ground arith;
}

-- A server: its writes, the latest first, where none is a delete. The revision is their number.
abbrev pub Log : Type 0
Log = List (Text × Option Bytes)

abbrev pub entry : Log → Text → Option KeyValue
entry [] k = none
entry ((j, o) ∷ log) k =
    let older = entry log k in
    if k == j
    then elim o [
      | none ↦ none
      | some d ↦ some (record { key = k; value = d; mod_revision = pos (suc (length log)) })
    ]
    else older

abbrev held : Compare → Option KeyValue → Bool
held version_is_zero none = true
held version_is_zero (some kv) = false
held (mod_revision_is r) none = false
held (mod_revision_is r) (some kv) = kv.mod_revision == r

abbrev entries_where : (Text → Bool) → Log → List Text → List KeyValue
entries_where p log [] = []
entries_where p log (k ∷ ks) =
    let rest = entries_where p log ks in
    if p k then elim (entry log k) [ none ↦ rest | some kv ↦ kv ∷ rest ] else rest

-- The keys that were ever written, each once.
abbrev written : Log → List Text
written [] = []
written ((k, o) ∷ log) = let rest = written log in if contains rest k then rest else k ∷ rest

abbrev pub server : EtcdClient
server = record {
  State = Log;
  get = λ s k. some (entry s k);
  get_prefix = λ s p n. some (entries_where (λ k. has_prefix k p) s (written s));
  get_range = λ s a z n. some (
      take n
        (entries_where (λ k. not (text_less k a) && text_less k z) s (sort_strings (written s))));
  put = λ s k d. (some (some (pos (suc (length s)))), (k, some d) ∷ s);
  txn_put = λ s q k d.
      if held q (entry s k)
      then (some (true, some (pos (suc (length s)))), (k, some d) ∷ s)
      else (some (false, some (pos (length s))), s);
  delete = λ s k. (some (elim (entry s k) [ none ↦ 0 | some kv ↦ 1 ]), (k, none) ∷ s);
  status = λ s. true;
  prefix_range_end = λ p. p ++ 255 ∷ [];
}

bounded :
    (s : Log) (k : Text) (kv : KeyValue)
    → entry s k ≡ some kv
    → (n : ℕ) × (kv.mod_revision ≡ pos n) × (0 < n) × (n ≤ length s)
bounded [] k kv h = ground arith
bounded ((j, o) ∷ s) k kv h = elim (Bool-cases (k == j)) [
  | inl same ↦ elim (Option-cases o) [
    | inl gone ↦ ground arith
    | inr (d, put) ↦ (suc (length s), ground arith, omega arith, omega arith)
  ]
  | inr other ↦ let (n, e, low, high) = bounded s k kv (ground arith) in (n, e, low, omega arith)
]

append-Advances :
    (s : Log) (j : Text) (o : Option Bytes) → Advances server entry length s ((j, o) ∷ s)
append-Advances s j o = (
  omega arith,
  λ k. elim (Bool-cases (k == j)) [
    | inr other ↦ inl (ground arith)
    | inl same ↦ elim (Option-cases o) [
      | inl gone ↦ inr (rw (same, gone) tt)
      | inr (d, put) ↦ inr (rw (same, put) (suc (length s), refl, omega arith))
    ]
  ],
)

txn_put-Advances :
    (s : Log) (q : Compare) (k : Text) (d : Bytes)
    → Advances server entry length s (server.txn_put s q k d).1
txn_put-Advances s q k d = elim (Bool-cases (held q (entry s k))) [
  | inl done ↦ rw done (append-Advances s k (some d))
  | inr refused ↦ rw refused (omega arith, λ j. inl refl)
]

holds : (q : Compare) (o : Option KeyValue) → held q o ≡ true → HoldsOf q o
holds version_is_zero none h = tt
holds version_is_zero (some kv) h = ground arith
holds (mod_revision_is r) none h = ground arith
holds (mod_revision_is r) (some kv) h = ground arith

pub server-EtcdIsLawful : EtcdIsLawful server entry length
server-EtcdIsLawful = record {
  get-entry = λ s k o h. ground arith;
  bounded = bounded;
  put-Advances = λ s k d. append-Advances s k (some d);
  txn-Advances = txn_put-Advances;
  delete-Advances = λ s k. append-Advances s k none;
  txn-holds = λ s q k d header h. holds q (entry s k) (ground arith);
}
