-- ===== src/Otel/Fingerprint.antt =====
-- otel/handler.go: the text that stands for the attributes of a series. An attribute's value is what
-- `GetStringValue` of the OTLP package answers.
pub mod RoundTrip
use golang_toys.Base.{
  ◌≡◌, ℕ, Bool, List, [], ◌∷◌, ◌++◌, Option, none, some, map, if◌then◌else◌, ◌==◌,
}
use golang_toys.Base.Bytes.{Bytes, compare_bytes}
use golang_toys.Base.Sort.{sort_by, insert_by}
use golang_toys.Base.Split.{split}
use golang_toys.Cassandra.Entry.{same}

pub record KeyValue : Type 0 where
  pub key : Bytes
  pub value : Bytes

-- `kv.Key + "=" + kv.Value.GetStringValue()`
abbrev pub pair_of : KeyValue → Bytes
pair_of kv = kv.key ++ (b'=' ∷ kv.value)

-- `strings.Join`
unfoldable pub join : ℕ → List Bytes → Bytes
join sep [] = []
join sep (s ∷ []) = s
join sep (s ∷ t ∷ ss) = s ++ (sep ∷ join sep (t ∷ ss))

-- `strings.Cut`, without its last result.
unfoldable pub cut : ℕ → Bytes → Bytes × Bytes
cut sep [] = ([], [])
cut sep (c ∷ s) = let rest = cut sep s in if c == sep then ([], s) else (c ∷ rest.0, rest.1)

-- The whole text is the key by which the pairs are sorted.
abbrev pub itself : Bytes → Bytes
itself s = s

unfoldable pub fingerprint_attrs : List KeyValue → Bytes
unfolding join sort_by insert_by compare_bytes
fingerprint_attrs kvs = join b',' (sort_by compare_bytes itself (map pair_of kvs))

-- `attrs[k] = v`
unfoldable pub assign_attr : Bytes → Bytes → List KeyValue → List KeyValue
unfolding same
assign_attr k v [] = record { key = k; value = v } ∷ []
assign_attr k v (a ∷ attrs) =
    if same a.key k then record { key = k; value = v } ∷ attrs else a ∷ assign_attr k v attrs

-- `attrs[k]`
unfoldable pub find_attr : Bytes → List KeyValue → Option Bytes
unfolding same
find_attr k [] = none
find_attr k (a ∷ attrs) = if same a.key k then some a.value else find_attr k attrs

-- The loop of `parseFingerprint` over the pairs that are left.
unfoldable pub parse_pairs : List Bytes → List KeyValue → List KeyValue
unfolding cut assign_attr
parse_pairs [] attrs = attrs
parse_pairs (s ∷ ss) attrs = let kv = cut b'=' s in parse_pairs ss (assign_attr kv.0 kv.1 attrs)

unfoldable pub parse_fingerprint : Bytes → List KeyValue
unfolding split parse_pairs
parse_fingerprint [] = []
parse_fingerprint (c ∷ s) = parse_pairs (split b',' (c ∷ s)) []
