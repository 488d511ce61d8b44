-- ===== src/Cassandra/Table/Laws.antt =====
-- Reading the disk after it was written to, and what merging the files does to each key.
use golang_toys.Base.{
  ◌≡◌, refl, ap, sym, ◌∙◌, inl, inr, true, false, Option, none, some, List, [], ◌∷◌, ◌++◌,
  if◌then◌else◌, arith, All, All-append, Bool-cases,
}
use golang_toys.Base.Bytes.{Bytes}
use golang_toys.Cassandra.Entry.{
  Entry, same, same_refl, same→eq, find, find-cons, sort_entries, Distinct, IsAscending,
  find-sort_entries, sort_entries-IsAscending, All-sort_entries,
}
use golang_toys.Cassandra.Format.{ok, encode}
use golang_toys.Cassandra.Format.RoundTrip.{Fits, table_get-encode, table_entries-encode}
use golang_toys.Cassandra.Table.{
  File, Disk, read_file, erase_file, sstable_get, sstable_entries, contains, Merge, merge_entry,
  merge_file, merge_all, merge_entries,
}

-- The first answer, or else the second.
abbrev pub or_then : Option Bytes → Option Bytes → Option Bytes
or_then (some v) o = some v
or_then none o = o

pub read_file-append :
    (path : Bytes) (disk : Disk) (f : File)
    → read_file path (disk ++ (f ∷ []))
      ≡ or_then (read_file path disk) (if same f.name path then some f.contents else none)
unfolding read_file
read_file-append path [] f = refl
read_file-append path (g ∷ gs) f = ground (arith, read_file-append path gs f)

pub read_file-erase_file :
    (path gone : Bytes) (disk : Disk)
    → same gone path ≡ false
    → read_file path (erase_file gone disk) ≡ read_file path disk
unfolding read_file erase_file
read_file-erase_file path gone [] n = refl
read_file-erase_file path gone (f ∷ fs) n = ground (
  arith,
  read_file-erase_file path gone fs,
  same→eq f.name gone,
  same→eq f.name path,
  same_refl path,
)

-- The file at `path` holds the entries `es`, in the format and in order.
abbrev pub Stored : Disk → Bytes → List Entry → Type 0
Stored disk path es = (read_file path disk ≡ some (encode es)) × All Fits es × IsAscending es

-- Each path holds the entries listed for it.
abbrev pub AllStored : Disk → List Bytes → List (List Entry) → Type 0
AllStored disk [] [] = Unit
AllStored disk [] (t ∷ ts) = ⊥
AllStored disk (p ∷ ps) [] = ⊥
AllStored disk (p ∷ ps) (t ∷ ts) = Stored disk p t × AllStored disk ps ts

-- What the files, oldest first, say of a key: the newest file that has it counts.
unfoldable pub find_newest : Bytes → List (List Entry) → Option Bytes
find_newest k [] = none
find_newest k (t ∷ ts) = or_then (find_newest k ts) (find k t)

pub sstable_get-Stored :
    (disk : Disk) (path : Bytes) (es : List Entry) (key : Bytes)
    → Stored disk path es
    → sstable_get path key disk ≡ ok (find key es)
unfolding sstable_get
sstable_get-Stored disk path es key s = rw (s.0, sstable_get) (table_get-encode key es s.1 s.2)

pub sstable_entries-Stored :
    (disk : Disk) (path : Bytes) (es : List Entry)
    → Stored disk path es
    → sstable_entries path disk ≡ ok es
unfolding sstable_entries
sstable_entries-Stored disk path es s = rw (s.0, sstable_entries) (table_entries-encode es s.1)

-- The invariant of `mergeEntries`: no key stands twice, and `seen` holds the keys of `merged`.
pub record IsMerge (m : Merge) : Type 0 where
  pub distinct : Distinct m.merged
  pub fits : All Fits m.merged
  pub seen_iff :
      (k : Bytes) → contains k m.seen ≡ (elim (find k m.merged) [ none ↦ false | some _ ↦ true ])

pub find-append :
    (k : Bytes) (xs ys : List Entry) → find k (xs ++ ys) ≡ or_then (find k xs) (find k ys)
unfolding find
find-append k [] ys = refl
find-append k (x ∷ xs) ys = ground (arith, find-append k xs ys)

Distinct-append_one :
    (xs : List Entry) (e : Entry) → Distinct xs → find e.key xs ≡ none → Distinct (xs ++ (e ∷ []))
unfolding find
Distinct-append_one [] e d n = (refl, tt)
Distinct-append_one (x ∷ xs) e d n = ground (
  arith,
  Distinct-append_one xs e,
  find-append x.key xs (e ∷ []),
  same→eq e.key x.key,
  same_refl e.key,
)

not_seen : (m : Merge) (k : Bytes) → IsMerge m → contains k m.seen ≡ false → find k m.merged ≡ none
not_seen m k v n = ground (arith, v.seen_iff k)

add-Distinct :
    (m : Merge) (e : Entry)
    → IsMerge m
    → contains e.key m.seen ≡ false
    → Distinct (m.merged ++ (e ∷ []))
add-Distinct m e v n = Distinct-append_one m.merged e v.distinct (not_seen m e.key v n)

add_seen_iff :
    (m : Merge) (e : Entry)
    → IsMerge m
    → (k : Bytes)
    → contains k (e.key ∷ m.seen)
      ≡ (elim (find k (m.merged ++ (e ∷ []))) [ none ↦ false | some _ ↦ true ])
unfolding contains find
add_seen_iff m e v k = ground (arith, v.seen_iff k, find-append k m.merged (e ∷ []))

merge_entry-IsMerge : (m : Merge) (e : Entry) → IsMerge m → Fits e → IsMerge (merge_entry m e)
merge_entry-IsMerge m e v f = elim (Bool-cases (contains e.key m.seen)) [
  | inl old ↦ unfold merge_entry in rw (old, merge_entry) v
  | inr new ↦
      unfold merge_entry in
      rw (new, merge_entry)
        (record {
          distinct = add-Distinct m e v new;
          fits = All-append Fits m.merged (e ∷ []) v.fits (f, tt);
          seen_iff = add_seen_iff m e v;
        })
]

find-merge_entry :
    (m : Merge) (e : Entry) (k : Bytes)
    → IsMerge m
    → find k (merge_entry m e).merged
      ≡ or_then (find k m.merged) (if same e.key k then some e.value else none)
unfolding merge_entry find
find-merge_entry m e k v =
    ground (arith, v.seen_iff e.key, find-append k m.merged (e ∷ []), same→eq e.key k)

find_nil : (k : Bytes) → find k [] ≡ none
unfolding find
find_nil k = refl

pub merge_file-IsMerge :
    (m : Merge) (es : List Entry) → IsMerge m → All Fits es → IsMerge (merge_file m es)
unfolding merge_file
merge_file-IsMerge m [] v f = v
merge_file-IsMerge m (e ∷ es) v f =
    merge_file-IsMerge (merge_entry m e) es (merge_entry-IsMerge m e v f.0) f.1

-- A file adds the keys that were not seen.
pub find-merge_file :
    (m : Merge) (es : List Entry) (k : Bytes)
    → IsMerge m
    → All Fits es
    → find k (merge_file m es).merged ≡ or_then (find k m.merged) (find k es)
unfolding merge_file
find-merge_file m [] k v f = ground (arith, find_nil k)
find-merge_file m (e ∷ es) k v f = ground (
  arith,
  find-merge_file (merge_entry m e) es k (merge_entry-IsMerge m e v f.0) f.1,
  find-merge_entry m e k v,
  find-cons e es k,
)

find_newest-cons :
    (k : Bytes) (t : List Entry) (ts : List (List Entry))
    → find_newest k (t ∷ ts) ≡ or_then (find_newest k ts) (find k t)
unfolding find_newest
find_newest-cons k t ts = refl

merge_all_step :
    (disk : Disk) (p : Bytes) (ps : List Bytes) (t : List Entry) (m : Merge)
    → merge_all ps disk ≡ ok m
    → Stored disk p t
    → merge_all (p ∷ ps) disk ≡ ok (merge_file m t)
unfolding merge_all
merge_all_step disk p ps t m e s = rw (e, sstable_entries-Stored disk p t s)

merge_entries_step :
    (disk : Disk) (paths : List Bytes) (m : Merge)
    → merge_all paths disk ≡ ok m
    → merge_entries paths disk ≡ ok (sort_entries m.merged)
unfolding merge_entries
merge_entries_step disk paths m e = rw e

-- The newest file counts, as in `Get`.
pub merge_all-Stored :
    (disk : Disk) (paths : List Bytes) (tables : List (List Entry))
    → AllStored disk paths tables
    → (m : Merge) × (merge_all paths disk ≡ ok m)
      × IsMerge m
      × ((k : Bytes) → find k m.merged ≡ find_newest k tables)
merge_all-Stored disk [] [] s = (
  record { seen = []; merged = [] },
  unfold merge_all in refl,
  record { distinct = tt; fits = tt; seen_iff = λ k. unfold contains find in refl },
  λ k. unfold find find_newest in refl,
)
merge_all-Stored disk [] (t ∷ ts) s = absurd s
merge_all-Stored disk (p ∷ ps) [] s = absurd s
merge_all-Stored disk (p ∷ ps) (t ∷ ts) s =
    let (m, e, v, h) = merge_all-Stored disk ps ts s.1 in
    (
      merge_file m t,
      merge_all_step disk p ps t m e s.0,
      merge_file-IsMerge m t v s.0.1,
      λ k.
          find-merge_file m t k v s.0.1
          ∙ ap (λ r. or_then r (find k t)) (h k)
          ∙ sym (find_newest-cons k t ts),
    )

-- Over files that hold ascending entries which fit the format, `mergeEntries` succeeds; what it returns
-- is ascending by key, fits the format, and has for each key the value of the newest file with the key.
pub merge_entries-Stored :
    (disk : Disk) (paths : List Bytes) (tables : List (List Entry))
    → AllStored disk paths tables
    → (es : List Entry) × (merge_entries paths disk ≡ ok es)
      × IsAscending es
      × All Fits es
      × ((k : Bytes) → find k es ≡ find_newest k tables)
merge_entries-Stored disk paths tables s =
    let (m, e, v, h) = merge_all-Stored disk paths tables s in
    (
      sort_entries m.merged,
      merge_entries_step disk paths m e,
      sort_entries-IsAscending m.merged v.distinct,
      All-sort_entries Fits m.merged v.fits,
      λ k. find-sort_entries m.merged k v.distinct ∙ h k,
    )
