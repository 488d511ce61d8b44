-- ===== src/Cassandra/Db/Stale.antt =====
-- Opening after a compaction (loadExistingSSTables takes the number of files for the last number): the
-- numbering restarts below the merged file.
use golang_toys.Base.{
  ℕ, ◌+◌, ◌≤◌, ◌≡◌, refl, ap, ◌∙◌, true, false, none, some, List, [], ◌∷◌, ◌++◌, length, arith, All,
  leb, map,
}
use golang_toys.Base.Bytes.{Bytes}
use golang_toys.Base.Sort.{sort_by, insert_by}
use golang_toys.Cassandra.Entry.{Entry, same, same_refl, find, IsAscending, sort_entries}
use golang_toys.Cassandra.Memtable.{assign}
use golang_toys.Cassandra.Format.{ok, exists, encode}
use golang_toys.Cassandra.Format.RoundTrip.{Fits}
use golang_toys.Cassandra.Name.{sstable_path, is_literal}
use golang_toys.Cassandra.Name.Order.{names_differ}
use golang_toys.Cassandra.Table.{Disk, read_file, Fault, no_fault}
use golang_toys.Cassandra.Table.Laws.{or_then, find_newest, AllStored}
use golang_toys.Cassandra.Db.{Db, Expanded, file_name, open_with_threshold, get, put}
use golang_toys.Cassandra.Db.Valid.{Holds, get-Holds, same_sym}
use golang_toys.Cassandra.Db.Flush.{flushed, flush_memtable_taken, read_new, flush_memtable_done}
use golang_toys.Cassandra.Db.Put.{written, put_lem}
use golang_toys.Cassandra.Db.Open.{IsNumber, opened, open_with_threshold_lem, sort_numbers, Present}

assign_some : (key value : Bytes) (rows : List Entry) → 1 ≤ length (assign key value rows)
unfolding assign
assign_some key value [] = omega arith
assign_some key value (e ∷ es) = ground arith

one_row :
    (threshold : ℕ) (key value : Bytes) (rows : List Entry)
    → threshold ≤ 1
    → leb threshold (length (assign key value rows)) ≡ true
one_row threshold key value rows h = ground (arith, assign_some key value rows)

-- A call of `Put`, with what is refused during it.
pub record Attempt : Type 0 where
  pub fault : Fault
  pub key : Bytes
  pub value : Bytes

-- Every call fails with the error of a file that exists, and leaves the disk as it was.
abbrev pub AllBlocked : List Attempt → Db → Disk → Type 0
AllBlocked [] db disk = Unit
AllBlocked (c ∷ cs) db disk =
    let o = put c.fault c.key c.value db disk in
    (o.2 ≡ some exists) × (o.1 ≡ disk) × AllBlocked cs o.0 o.1

blocked :
    (c : Attempt) (db : Db) (disk : Disk)
    → Present disk (sstable_path db.next_seq)
    → db.memtable.threshold ≤ 1
    → put c.fault c.key c.value db disk ≡ (written c.key c.value db, disk, some exists)
blocked c db disk (bytes, taken) h =
    put_lem c.fault c.key c.value db disk
    ∙ rw (one_row db.memtable.threshold c.key c.value db.memtable.rows h)
        (flush_memtable_taken c.fault (written c.key c.value db) disk taken)

taken-AllBlocked :
    (cs : List Attempt) (db : Db) (disk : Disk)
    → Present disk (sstable_path db.next_seq)
    → db.memtable.threshold ≤ 1
    → AllBlocked cs db disk
taken-AllBlocked [] db disk taken h = tt
taken-AllBlocked (c ∷ cs) db disk taken h =
    rw (blocked c db disk taken h)
      (refl, refl, taken-AllBlocked cs (written c.key c.value db) disk taken h)

-- In a directory of numbered files whose path has no metacharacter of `filepath.Glob`, if the name that
-- opening takes for the next file is taken, as it can be after a compaction, and the threshold is one row
-- at most, then opening succeeds, and in any sequence of calls of `Put` after it every call fails with the
-- error of a file that exists and leaves the disk as it was.
pub put_blocked :
    (dir : List Bytes) (expanded : Expanded) (threshold : ℕ) (disk : Disk) (ns : List ℕ)
    (calls : List Attempt)
    → is_literal dir ≡ true
    → All IsNumber ns
    → map file_name disk ≡ map sstable_path ns
    → Present disk (sstable_path (length ns + 1))
    → threshold ≤ 1
    → (db : Db) × (open_with_threshold dir expanded threshold disk ≡ ok db)
      × AllBlocked calls db disk
put_blocked dir expanded threshold disk ns calls literal hs e taken h = (
  opened threshold ns,
  open_with_threshold_lem dir expanded threshold disk ns literal hs e,
  taken-AllBlocked calls (opened threshold ns) disk taken h,
)

-- A directory with one file, of number `s`.
abbrev pub one_file : ℕ → List Entry → Disk
one_file s es = record { name = sstable_path s; contents = encode es } ∷ []

-- Beside it file 2, which was written later and holds one entry.
abbrev pub two_files : ℕ → List Entry → Bytes → Bytes → Disk
two_files s es key value =
    one_file s es
    ++ (record {
      name = sstable_path 2;
      contents = encode (record { key = key; value = value } ∷ []);
    }
        ∷ [])

sort_two : (s : ℕ) → 3 ≤ s → sort_numbers (s ∷ 2 ∷ []) ≡ 2 ∷ s ∷ []
unfolding sort_numbers sort_by insert_by
sort_two s h = ground arith

sort_one :
    (key value : Bytes)
    → sort_entries (assign key value []) ≡ record { key = key; value = value } ∷ []
unfolding sort_entries sort_by insert_by assign
sort_one key value = refl

read_first :
    (path c : Bytes) (disk : Disk)
    → read_file path (record { name = path; contents = c } ∷ disk) ≡ some c
unfolding read_file
read_first path c disk = rw (same_refl path)

read_other :
    (path name c : Bytes)
    → same name path ≡ false
    → read_file path (record { name = name; contents = c } ∷ []) ≡ none
unfolding read_file
read_other path name c e = rw e

find_one : (key value : Bytes) → find key (record { key = key; value = value } ∷ []) ≡ some value
unfolding find
find_one key value = rw (same_refl key)

find_newest_two :
    (k : Bytes) (t u : List Entry) {v : Bytes}
    → find k u ≡ some v
    → or_then (find k []) (find_newest k (t ∷ u ∷ [])) ≡ some v
unfolding find_newest find
find_newest_two k t u e = ground (arith, e)

module _ (s : ℕ) (es : List Entry) (key value : Bytes) (h : 3 ≤ s) (number : IsNumber s)
    (fits : All Fits es) (sorted : IsAscending es)
    (f : Fits (record { key = key; value = value })) where
  two_free : read_file (sstable_path 2) (one_file s es) ≡ none
  two_free = read_other (sstable_path 2) (sstable_path s) (encode es) (
      same_sym (sstable_path 2) (sstable_path s)
        (names_differ 2 s (omega arith) number (omega arith)))

  put_second :
      put no_fault key value (opened 1 (s ∷ [])) (one_file s es)
      ≡ (flushed (written key value (opened 1 (s ∷ []))), two_files s es key value, none)
  put_second =
      put_lem no_fault key value (opened 1 (s ∷ [])) (one_file s es)
      ∙ rw (one_row 1 key value [] (omega arith)) (
          flush_memtable_done (written key value (opened 1 (s ∷ []))) (one_file s es) two_free
          ∙ rw (sort_one key value))

  both_stored :
      AllStored
        (two_files s es key value)
        (sstable_path 2 ∷ sstable_path s ∷ [])
        ((record { key = key; value = value } ∷ []) ∷ es ∷ [])
  both_stored = (
    (read_new (sstable_path 2) _ (one_file s es) two_free, (f, tt), (tt, tt)),
    ((read_first (sstable_path s) (encode es) _, fits, sorted), tt),
  )

  both_held :
      Holds
        (opened 1 (s ∷ 2 ∷ []))
        (two_files s es key value)
        ((record { key = key; value = value } ∷ []) ∷ es ∷ [])
  both_held = record { stored = rw (sort_two s h) both_stored; distinct = tt; fits = tt }

-- A directory whose path has no metacharacter of `filepath.Glob`, with one well-formed file that has the key, whose number is 3 or more (as after a
-- compaction), is opened with a threshold of one row: `Put` of the key writes the new value to file 2 and
-- succeeds; after opening once more, `Get` answers the old value, of the file with the higher number.
pub stale_after_compaction :
    (dir : List Bytes) (expanded : Expanded) (s : ℕ) (es : List Entry) (key value old : Bytes)
    → is_literal dir ≡ true
    → 3 ≤ s
    → IsNumber s
    → All Fits es
    → IsAscending es
    → find key es ≡ some old
    → Fits (record { key = key; value = value })
    → (open_with_threshold dir expanded 1 (one_file s es) ≡ ok (opened 1 (s ∷ [])))
      × (put no_fault key value (opened 1 (s ∷ [])) (one_file s es)
          ≡ (flushed (written key value (opened 1 (s ∷ []))), two_files s es key value, none))
      × (open_with_threshold dir expanded 1 (two_files s es key value) ≡ ok (opened 1 (s ∷ 2 ∷ [])))
      × (get key (opened 1 (s ∷ 2 ∷ [])) (two_files s es key value) ≡ ok (some old))
stale_after_compaction dir expanded s es key value old literal h number fits sorted has f = (
  open_with_threshold_lem dir expanded 1 (one_file s es) (s ∷ []) literal (number, tt) refl,
  put_second s es key value h number fits sorted f,
  open_with_threshold_lem dir expanded 1 (two_files s es key value) (s ∷ 2 ∷ []) literal
      (number, (omega arith, tt)) refl,
  get-Holds key (opened 1 (s ∷ 2 ∷ [])) (two_files s es key value) _
        (both_held s es key value h number fits sorted f)
      ∙ ap ok (find_newest_two key (record { key = key; value = value } ∷ []) es has),
)
