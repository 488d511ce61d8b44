-- ===== src/Otel/Fingerprint/RoundTrip.antt =====
-- `parseFingerprint` after `fingerprintAttrs`.
use golang_toys.Base.{
  ◌≡◌, ◌≢◌, refl, ap, sym, ◌∙◌, inl, inr, ℕ, List, [], ◌∷◌, ◌++◌, Option, none, some, map, arith,
  if◌then◌else◌, All, All-append, Bool-cases, append_assoc,
}
use golang_toys.Base.Bytes.{Bytes, compare_bytes}
use golang_toys.Base.Sort.{sort_by, insert_by, All-sort_by}
use golang_toys.Base.Split.{split, Lacks, split-Lacks, split-append}
use golang_toys.Cassandra.Entry.{same, same_refl, same→eq}
use golang_toys.Otel.Fingerprint.{
  KeyValue, pair_of, join, cut, itself, fingerprint_attrs, assign_attr, find_attr, parse_pairs,
  parse_fingerprint,
}

-- A key without the bytes that the text uses itself, and a value without the comma.
pub record IsPlain (kv : KeyValue) : Type 0 where
  pub key_comma : Lacks b',' kv.key
  pub key_equals : Lacks b'=' kv.key
  pub value_comma : Lacks b',' kv.value

-- No key stands twice.
abbrev pub Distinct : List KeyValue → Type 0
Distinct [] = Unit
Distinct (a ∷ attrs) = (find_attr a.key attrs ≡ none) × Distinct attrs

pub cut-append : (sep : ℕ) (k v : Bytes) → Lacks sep k → cut sep (k ++ (sep ∷ v)) ≡ (k, v)
unfolding cut
cut-append sep [] v h = ground arith
cut-append sep (c ∷ k) v h = ground (arith, cut-append sep k v)

pub split-join :
    (sep : ℕ) (s : Bytes) (ss : List Bytes)
    → All (Lacks sep) (s ∷ ss)
    → split sep (join sep (s ∷ ss)) ≡ s ∷ ss
unfolding join
split-join sep s [] h = split-Lacks sep s h.0
split-join sep s (t ∷ ss) h =
    split-append sep s (join sep (t ∷ ss)) h.0 ∙ ap (λ r. s ∷ r) (split-join sep t ss h.1)

pair_of-Lacks : (kv : KeyValue) → IsPlain kv → Lacks b',' (pair_of kv)
pair_of-Lacks kv h =
    All-append (λ c. c ≢ b',') kv.key (b'=' ∷ kv.value) h.key_comma (omega arith, h.value_comma)

pub pairs-Lacks : (kvs : List KeyValue) → All IsPlain kvs → All (Lacks b',') (map pair_of kvs)
pairs-Lacks [] h = tt
pairs-Lacks (kv ∷ kvs) h = (pair_of-Lacks kv h.0, pairs-Lacks kvs h.1)

map-insert_by :
    (kv : KeyValue) (kvs : List KeyValue)
    → insert_by compare_bytes itself (pair_of kv) (map pair_of kvs)
      ≡ map pair_of (insert_by compare_bytes pair_of kv kvs)
unfolding insert_by
map-insert_by kv [] = refl
map-insert_by kv (x ∷ xs) = ground (arith, map-insert_by kv xs)

pub map-sort_by :
    (kvs : List KeyValue)
    → sort_by compare_bytes itself (map pair_of kvs)
      ≡ map pair_of (sort_by compare_bytes pair_of kvs)
unfolding sort_by
map-sort_by [] = refl
map-sort_by (kv ∷ kvs) =
    ap (insert_by compare_bytes itself (pair_of kv)) (map-sort_by kvs)
    ∙ map-insert_by kv (sort_by compare_bytes pair_of kvs)

-- A key that is not there goes to the end.
pub assign_attr_new :
    (k v : Bytes) (attrs : List KeyValue)
    → find_attr k attrs ≡ none
    → assign_attr k v attrs ≡ attrs ++ (record { key = k; value = v } ∷ [])
unfolding assign_attr find_attr
assign_attr_new k v [] h = refl
assign_attr_new k v (a ∷ attrs) h = ground (arith, assign_attr_new k v attrs)

find_attr-insert_by :
    (kv : KeyValue) (attrs : List KeyValue) (k : Bytes)
    → find_attr kv.key attrs ≡ none
    → find_attr k (insert_by compare_bytes pair_of kv attrs)
      ≡ (if same kv.key k then some kv.value else find_attr k attrs)
unfolding find_attr insert_by
find_attr-insert_by kv [] k h = refl
find_attr-insert_by kv (x ∷ xs) k h =
    ground (arith, find_attr-insert_by kv xs k, same→eq kv.key k, same→eq x.key k, same_refl k)

pub find_attr-sort_by :
    (attrs : List KeyValue) (k : Bytes)
    → Distinct attrs
    → find_attr k (sort_by compare_bytes pair_of attrs) ≡ find_attr k attrs
unfolding sort_by find_attr
find_attr-sort_by [] k d = refl
find_attr-sort_by (a ∷ attrs) k d =
    find_attr-insert_by a (sort_by compare_bytes pair_of attrs) k
      (find_attr-sort_by attrs a.key d.1 ∙ d.0)
    ∙ ap (λ r. if same a.key k then some a.value else r) (find_attr-sort_by attrs k d.1)

insert_by-Distinct :
    (a : KeyValue) (xs : List KeyValue)
    → find_attr a.key xs ≡ none
    → Distinct xs
    → Distinct (insert_by compare_bytes pair_of a xs)
unfolding insert_by find_attr
insert_by-Distinct a [] h d = (refl, tt)
insert_by-Distinct a (x ∷ xs) h d = ground (
  arith,
  insert_by-Distinct a xs,
  find_attr-insert_by a xs x.key,
  same→eq a.key x.key,
  same→eq x.key a.key,
  same_refl a.key,
)

pub sort_by-Distinct :
    (kvs : List KeyValue) → Distinct kvs → Distinct (sort_by compare_bytes pair_of kvs)
unfolding sort_by
sort_by-Distinct [] d = tt
sort_by-Distinct (kv ∷ kvs) d =
    insert_by-Distinct kv (sort_by compare_bytes pair_of kvs)
      (find_attr-sort_by kvs kv.key d.1 ∙ d.0) (sort_by-Distinct kvs d.1)

find_attr-assign_attr :
    (k v : Bytes) (attrs : List KeyValue) (j : Bytes)
    → find_attr j (assign_attr k v attrs) ≡ (if same k j then some v else find_attr j attrs)
unfolding find_attr assign_attr
find_attr-assign_attr k v [] j = refl
find_attr-assign_attr k v (a ∷ attrs) j = ground (
  arith,
  find_attr-assign_attr k v attrs j,
  same→eq a.key k,
  same→eq k j,
  same→eq a.key j,
  same_refl k,
)

abbrev or_else : Option Bytes → Option Bytes → Option Bytes
or_else none b = b
or_else (some v) b = some v

or_else-none : (r : Option Bytes) → or_else r none ≡ r
or_else-none none = refl
or_else-none (some v) = refl

merge_row :
    (e : KeyValue) (es attrs : List KeyValue) (k : Bytes)
    → find_attr e.key es ≡ none
    → or_else (find_attr k es) (if same e.key k then some e.value else find_attr k attrs)
      ≡ or_else (if same e.key k then some e.value else find_attr k es) (find_attr k attrs)
merge_row e es attrs k h = elim (Bool-cases (same e.key k)) [
  | inl now ↦ rw (now, ap (λ j. find_attr j es) (sym (same→eq e.key k now)) ∙ h) refl
  | inr other ↦ rw other refl
]

find_attr-parse_pairs :
    (es attrs : List KeyValue) (k : Bytes)
    → All IsPlain es
    → Distinct es
    → find_attr k (parse_pairs (map pair_of es) attrs)
      ≡ or_else (find_attr k es) (find_attr k attrs)
unfolding parse_pairs find_attr
find_attr-parse_pairs [] attrs k h d = refl
find_attr-parse_pairs (e ∷ es) attrs k h d =
    ap (λ kv. find_attr k (parse_pairs (map pair_of es) (assign_attr kv.0 kv.1 attrs)))
      (cut-append b'=' e.key e.value h.0.key_equals)
    ∙ find_attr-parse_pairs es (assign_attr e.key e.value attrs) k h.1 d.1
    ∙ ap (or_else (find_attr k es)) (find_attr-assign_attr e.key e.value attrs k)
    ∙ merge_row e es attrs k d.0

-- A text with a pair in it is not empty.
pub parse_fingerprint_lem :
    (k r : Bytes)
    → parse_fingerprint (k ++ (b'=' ∷ r)) ≡ parse_pairs (split b',' (k ++ (b'=' ∷ r))) []
unfolding parse_fingerprint
parse_fingerprint_lem [] r = refl
parse_fingerprint_lem (c ∷ k) r = refl

pub join_head :
    (e : KeyValue) (es : List KeyValue)
    → (r : Bytes) × (join b',' (map pair_of (e ∷ es)) ≡ e.key ++ (b'=' ∷ r))
unfolding join
join_head e [] = (e.value, refl)
join_head e (x ∷ es) =
    (_, append_assoc e.key (b'=' ∷ e.value) (b',' ∷ join b',' (map pair_of (x ∷ es))))

parse_fingerprint-join :
    (es : List KeyValue) (k : Bytes)
    → All IsPlain es
    → Distinct es
    → find_attr k (parse_fingerprint (join b',' (map pair_of es))) ≡ find_attr k es
unfolding find_attr
parse_fingerprint-join [] k h d = unfold join parse_fingerprint in refl
parse_fingerprint-join (e ∷ es) k h d =
    let head = join_head e es in
    ap (λ s. find_attr k (parse_fingerprint s)) head.1
    ∙ ap (find_attr k) (
        parse_fingerprint_lem e.key head.0
        ∙ ap (λ s. parse_pairs (split b',' s) []) (sym head.1)
        ∙ ap (λ ss. parse_pairs ss [])
            (split-join b',' (pair_of e) (map pair_of es) (pairs-Lacks (e ∷ es) h)))
    ∙ find_attr-parse_pairs (e ∷ es) [] k h d
    ∙ or_else-none (find_attr k (e ∷ es))

-- Attributes with plain keys and values, no key twice, come back from their text: the map that
-- `parseFingerprint` makes of it has for each key the value it had.
pub parse_fingerprint-fingerprint_attrs :
    (kvs : List KeyValue) (k : Bytes)
    → All IsPlain kvs
    → Distinct kvs
    → find_attr k (parse_fingerprint (fingerprint_attrs kvs)) ≡ find_attr k kvs
unfolding fingerprint_attrs
parse_fingerprint-fingerprint_attrs kvs k h d =
    ap (λ ss. find_attr k (parse_fingerprint (join b',' ss))) (map-sort_by kvs)
    ∙ parse_fingerprint-join (sort_by compare_bytes pair_of kvs) k
        (All-sort_by compare_bytes pair_of IsPlain kvs h) (sort_by-Distinct kvs d)
    ∙ find_attr-sort_by kvs k d
