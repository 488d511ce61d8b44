-- ===== src/Otel/Client/Labels.antt =====
-- The text of a series in the client's output: the one that `printRequest` writes before it is sent, and the
-- one that `query` writes for the row of the server's answer.
use golang_toys.Base.{
  ◌≡◌, refl, ap, sym, ◌∙◌, false, List, [], ◌∷◌, ◌++◌, append-nil, append_assoc, none, map, arith,
  All,
}
use golang_toys.Base.Bytes.{Bytes, compare_bytes, compare_bytes-IsOrder}
use golang_toys.Base.Sort.{sort_by, insert_by, All-sort_by}
use golang_toys.Base.Split.{split}
use golang_toys.Cassandra.Entry.{same, same_refl, same→eq}
use golang_toys.Otel.Store.{Point}
use golang_toys.Otel.Fingerprint.{
  KeyValue, pair_of, join, itself, fingerprint_attrs, assign_attr, find_attr, parse_pairs,
  parse_fingerprint,
}
use golang_toys.Otel.Fingerprint.RoundTrip.{
  IsPlain, Distinct, cut-append, split-join, pairs-Lacks, map-sort_by, assign_attr_new,
  find_attr-sort_by, sort_by-Distinct, join_head, parse_fingerprint_lem,
}
use golang_toys.Otel.Handler.{DataPoint, data_point_value, key_for, series_row}
use golang_toys.Otel.Client.Print.{
  attr_key, later_attrs, all_attrs, fmt_attrs, assign_all, attrs_to_map, dp_value, print_points,
  print_series,
}

-- A key that is looked up in vain is no key of a later pair.
other_key :
    (k : Bytes) (m : List KeyValue) (e : KeyValue) (es : List KeyValue)
    → find_attr k (m ++ (e ∷ es)) ≡ none
    → same e.key k ≡ false
unfolding find_attr
other_key k [] e es h = ground arith
other_key k (a ∷ m) e es h = ground (arith, other_key k m e es)

fresh_key :
    (m : List KeyValue) (e : KeyValue) (es : List KeyValue)
    → Distinct (m ++ (e ∷ es))
    → find_attr e.key m ≡ none
unfolding find_attr
fresh_key [] e es d = refl
fresh_key (a ∷ m) e es d =
    ground (
      arith,
      fresh_key m e es d.1,
      other_key a.key m e es d.0,
      same→eq a.key e.key,
      same_refl a.key,
    )

-- Pairs with different keys make a map with these rows.
assign_all_lem : (es m : List KeyValue) → Distinct (m ++ es) → assign_all es m ≡ m ++ es
unfolding assign_all
assign_all_lem [] m d = sym (append-nil m)
assign_all_lem (e ∷ es) m d =
    let apart = append_assoc m (e ∷ []) es in
    ap (assign_all es) (assign_attr_new e.key e.value m (fresh_key m e es d))
    ∙ assign_all_lem es (m ++ (e ∷ [])) (rw apart d)
    ∙ apart

parse_pairs-assign_all :
    (es m : List KeyValue) → All IsPlain es → parse_pairs (map pair_of es) m ≡ assign_all es m
unfolding parse_pairs assign_all
parse_pairs-assign_all [] m h = refl
parse_pairs-assign_all (e ∷ es) m h =
    ap (λ kv. parse_pairs (map pair_of es) (assign_attr kv.0 kv.1 m))
      (cut-append b'=' e.key e.value h.0.key_equals)
    ∙ parse_pairs-assign_all es (assign_attr e.key e.value m) h.1

-- The pairs of a text are read back as a list.
parse_join :
    (es : List KeyValue)
    → All IsPlain es
    → Distinct es
    → parse_fingerprint (join b',' (map pair_of es)) ≡ es
parse_join [] h d = unfold join parse_fingerprint in refl
parse_join (e ∷ es) h d =
    let head = join_head e es in
    ap parse_fingerprint head.1
    ∙ parse_fingerprint_lem e.key head.0
    ∙ ap (λ s. parse_pairs (split b',' s) []) (sym head.1)
    ∙ ap (λ ss. parse_pairs ss []) (split-join b',' _ (map pair_of es) (pairs-Lacks (e ∷ es) h))
    ∙ parse_pairs-assign_all (e ∷ es) [] h
    ∙ assign_all_lem (e ∷ es) [] d

-- The server's answer has the attributes in the order of their text.
parse_fingerprint-sorted :
    (kvs : List KeyValue)
    → All IsPlain kvs
    → Distinct kvs
    → parse_fingerprint (fingerprint_attrs kvs) ≡ sort_by compare_bytes pair_of kvs
unfolding fingerprint_attrs
parse_fingerprint-sorted kvs h d =
    ap (λ ss. parse_fingerprint (join b',' ss)) (map-sort_by kvs)
    ∙ parse_join (sort_by compare_bytes pair_of kvs)
        (All-sort_by compare_bytes pair_of IsPlain kvs h) (sort_by-Distinct kvs d)

-- Two insertions of texts commute.
insert_comm :
    (x y : Bytes) (zs : List Bytes)
    → insert_by compare_bytes itself x (insert_by compare_bytes itself y zs)
      ≡ insert_by compare_bytes itself y (insert_by compare_bytes itself x zs)
unfolding insert_by
insert_comm x y [] = ground (
  arith,
  compare_bytes-IsOrder.same x y,
  compare_bytes-IsOrder.flip_gt x y,
  compare_bytes-IsOrder.flip_lt x y,
  compare_bytes-IsOrder.self x,
)
insert_comm x y (z ∷ zs) = ground (
  arith,
  insert_comm x y zs,
  compare_bytes-IsOrder.self x,
  compare_bytes-IsOrder.same x y,
  compare_bytes-IsOrder.flip_gt x y,
  compare_bytes-IsOrder.flip_lt x y,
  compare_bytes-IsOrder.same x z,
  compare_bytes-IsOrder.flip_gt x z,
  compare_bytes-IsOrder.flip_lt x z,
  compare_bytes-IsOrder.same y z,
  compare_bytes-IsOrder.flip_gt y z,
  compare_bytes-IsOrder.flip_lt y z,
  compare_bytes-IsOrder.trans x y z,
  compare_bytes-IsOrder.trans y x z,
  compare_bytes-IsOrder.trans x z y,
  compare_bytes-IsOrder.trans y z x,
  compare_bytes-IsOrder.trans z x y,
  compare_bytes-IsOrder.trans z y x,
)

keys-insert_by :
    (a : KeyValue) (xs : List KeyValue)
    → sort_by compare_bytes itself (map attr_key (insert_by compare_bytes pair_of a xs))
      ≡ insert_by compare_bytes itself a.key (sort_by compare_bytes itself (map attr_key xs))
unfolding sort_by insert_by
keys-insert_by a [] = refl
keys-insert_by a (x ∷ xs) = ground (
  arith,
  keys-insert_by a xs,
  insert_comm a.key x.key (sort_by compare_bytes itself (map attr_key xs)),
)

keys-sort_by :
    (kvs : List KeyValue)
    → sort_by compare_bytes itself (map attr_key (sort_by compare_bytes pair_of kvs))
      ≡ sort_by compare_bytes itself (map attr_key kvs)
unfolding sort_by
keys-sort_by [] = refl
keys-sort_by (a ∷ kvs) =
    keys-insert_by a (sort_by compare_bytes pair_of kvs)
    ∙ ap (insert_by compare_bytes itself a.key) (keys-sort_by kvs)

later_attrs_cong :
    (xs ys : List KeyValue)
    → ((k : Bytes) → find_attr k xs ≡ find_attr k ys)
    → (ks : List Bytes) → later_attrs xs ks ≡ later_attrs ys ks
later_attrs_cong xs ys h [] = refl
later_attrs_cong xs ys h (k ∷ ks) = cc (h k, later_attrs_cong xs ys h ks)

all_attrs_cong :
    (xs ys : List KeyValue)
    → ((k : Bytes) → find_attr k xs ≡ find_attr k ys)
    → (ks : List Bytes) → all_attrs xs ks ≡ all_attrs ys ks
all_attrs_cong xs ys h [] = refl
all_attrs_cong xs ys h (k ∷ ks) = cc (h k, later_attrs_cong xs ys h ks)

-- The order of the rows of a map does not show.
fmt_attrs-sort_by :
    (kvs : List KeyValue)
    → Distinct kvs
    → fmt_attrs (sort_by compare_bytes pair_of kvs) ≡ fmt_attrs kvs
unfolding fmt_attrs
fmt_attrs-sort_by kvs d =
    ap (λ ks. b'{' ∷ all_attrs (sort_by compare_bytes pair_of kvs) ks) (keys-sort_by kvs)
    ∙ ap (λ s. b'{' ∷ s)
        (all_attrs_cong _ kvs (λ k. find_attr-sort_by kvs k d)
          (sort_by compare_bytes itself (map attr_key kvs)))

fmt_attrs-attrs_to_map :
    (kvs : List KeyValue)
    → All IsPlain kvs
    → Distinct kvs
    → fmt_attrs (attrs_to_map kvs) ≡ fmt_attrs (parse_fingerprint (fingerprint_attrs kvs))
unfolding attrs_to_map
fmt_attrs-attrs_to_map kvs h d =
    ap fmt_attrs (assign_all_lem kvs [] d)
    ∙ sym (fmt_attrs-sort_by kvs d)
    ∙ ap fmt_attrs (sym (parse_fingerprint-sorted kvs h d))

module _ {ℓ κ} {V : Type ℓ} {I : Type κ} (nought : V) (of_int : I → V) where
  dp_value_lem :
      (dp : DataPoint V I) → dp_value nought of_int dp ≡ data_point_value nought of_int dp
  unfolding dp_value data_point_value
  dp_value_lem dp = refl

  -- The point under which the server stores a data point.
  abbrev pub stored_point : Bytes → DataPoint V I → Point V
  stored_point name dp = record {
    key = key_for nought of_int name dp;
    value = data_point_value nought of_int dp;
  }

  -- For a data point with plain attributes, no key twice, the line that the client prints before it sends
  -- the point is the line that it prints for the row that the server's answer has for the point's series
  -- and value.
  pub print_points-print_series :
      (name : Bytes) (dp : DataPoint V I)
      → All IsPlain dp.attributes
      → Distinct dp.attributes
      → print_points nought of_int name (dp ∷ [])
        ≡ print_series (series_row (stored_point name dp) ∷ [])
  unfolding print_points print_series series_row
  print_points-print_series name dp h d =
      cc (fmt_attrs-attrs_to_map dp.attributes h d, dp_value_lem dp)
