-- ===== src/Cassandra/Db/Compact.antt =====
-- `Compact`: whatever of the new file and of the removals is refused, every key reads as before; with nothing refused
-- one file is left and the invariant is kept.
use golang_toys.Base.{
  ℕ, ◌+◌, ◌^◌, ◌<◌, ◌≤◌, ◌≡◌, refl, ap, sym, ◌∙◌, inl, inr, Bool, true, false, Option, none, some,
  List, [], ◌∷◌, ◌++◌, take, length, arith, All, Option-cases, Bool-cases, leb, leb→le,
}
use golang_toys.Base.Bytes.{Bytes}
use golang_toys.Cassandra.Entry.{Entry, find, IsAscending}
use golang_toys.Cassandra.Format.{ok, Error, exists, io_failed, encode}
use golang_toys.Cassandra.Format.RoundTrip.{Fits}
use golang_toys.Cassandra.Name.{sstable_path}
use golang_toys.Cassandra.Table.{
  File, Disk, read_file, Fault, no_fault, refused, cut_short, not_removed, merge_entries,
  remove_files,
}
use golang_toys.Cassandra.Table.Laws.{or_then, Stored, find_newest, merge_entries-Stored}
use golang_toys.Cassandra.Db.{Db, get, compact}
use golang_toys.Cassandra.Db.Valid.{Holds, IsValid, get-Holds, AllStored-append, free_other}
use golang_toys.Cassandra.Db.Flush.{
  view, read_new, Leaves, get-Leaves, Leaves-same, Leaves-extra, IsFresh-append, Succeeds,
}
use golang_toys.Cassandra.Db.Removal.{Stored-remove_files, remove_files-done, free_remove_files}

abbrev compacted : Db → Db
compacted db = record db { sstables = sstable_path db.next_seq ∷ []; next_seq = db.next_seq + 1 }

abbrev merged_file : Db → List Entry → File
merged_file db es = record { name = sstable_path db.next_seq; contents = encode es }

find_newest_one : (k : Bytes) (es : List Entry) → find_newest k (es ∷ []) ≡ find k es
unfolding find_newest
find_newest_one k es = refl

compact_few :
    (fault : Fault) (db : Db) (disk : Disk)
    → leb (length db.sstables) 1 ≡ true
    → compact fault db disk ≡ (db, disk, none)
unfolding compact
compact_few fault db disk e = rw (e, compact)

module _ (db : Db) (disk : Disk) (es : List Entry) (many : leb (length db.sstables) 1 ≡ false)
    (merged : merge_entries db.sstables disk ≡ ok es) where
  compact_taken :
      (fault : Fault) {c : Bytes}
      → read_file (sstable_path db.next_seq) disk ≡ some c
      → compact fault db disk ≡ (db, disk, some exists)
  unfolding compact
  compact_taken fault e = ground arith

  compact_refused :
      read_file (sstable_path db.next_seq) disk ≡ none
      → compact refused db disk ≡ (db, disk, some io_failed)
  unfolding compact
  compact_refused e = ground arith

  compact_cut :
      (kept : ℕ)
      → read_file (sstable_path db.next_seq) disk ≡ none
      → compact (cut_short kept) db disk ≡ (
        db,
        disk ++ (record { name = sstable_path db.next_seq; contents = take kept (encode es) } ∷ []),
        some io_failed,
      )
  unfolding compact
  compact_cut kept e = ground arith

  compact_done :
      read_file (sstable_path db.next_seq) disk ≡ none
      → compact no_fault db disk ≡ (
        compacted db,
        (remove_files no_fault db.sstables (disk ++ (merged_file db es ∷ []))).0,
        (remove_files no_fault db.sstables (disk ++ (merged_file db es ∷ []))).1,
      )
  unfolding compact
  compact_done e = ground (arith, read_new (sstable_path db.next_seq) (encode es) disk e)

  -- Refused removals do not undo the compaction.
  compact_kept :
      (held : Bytes → Bool)
      → read_file (sstable_path db.next_seq) disk ≡ none
      → compact (not_removed held) db disk ≡ (
        compacted db,
        (remove_files (not_removed held) db.sstables (disk ++ (merged_file db es ∷ []))).0,
        (remove_files (not_removed held) db.sstables (disk ++ (merged_file db es ∷ []))).1,
      )
  unfolding compact
  compact_kept held e = ground (arith, read_new (sstable_path db.next_seq) (encode es) disk e)

module _ (db : Db) (disk : Disk) (tables : List (List Entry)) (h : Holds db disk tables)
    (free : read_file (sstable_path db.next_seq) disk ≡ none) (es : List Entry)
    (sorted : IsAscending es) (fits : All Fits es)
    (reads : (k : Bytes) → find k es ≡ find_newest k tables) where
  compacted-Stored :
      (fault : Fault)
      → Stored
          (remove_files fault db.sstables (disk ++ (merged_file db es ∷ []))).0
          (sstable_path db.next_seq)
          es
  compacted-Stored fault =
      Stored-remove_files fault (disk ++ (merged_file db es ∷ [])) (sstable_path db.next_seq) es
        db.sstables (read_new (sstable_path db.next_seq) (encode es) disk free, fits, sorted)
        (free_other disk (sstable_path db.next_seq) db.sstables tables free h.stored)

  Leaves-compacted :
      (fault : Fault) (e : Option Error)
      → Leaves
          (compacted db, (remove_files fault db.sstables (disk ++ (merged_file db es ∷ []))).0, e)
          (view db tables)
  Leaves-compacted fault e = record {
    tables = es ∷ [];
    holds = record { stored = (compacted-Stored fault, tt); distinct = h.distinct; fits = h.fits };
    reads = λ k. ap (or_then (find k db.memtable.rows)) (find_newest_one k es ∙ reads k);
  }

-- Whatever is refused, `Compact` leaves files and rows with the same reading.
pub compact-Leaves :
    (fault : Fault) (db : Db) (disk : Disk) (tables : List (List Entry))
    → Holds db disk tables
    → Leaves (compact fault db disk) (view db tables)
compact-Leaves fault db disk tables h = elim (Bool-cases (leb (length db.sstables) 1)) [
  | inl few ↦ rw (compact_few fault db disk few) (Leaves-same db disk none tables h)
  | inr many ↦
      let (es, merged, sorted, fits, reads) =
        merge_entries-Stored disk db.sstables tables h.stored in
      elim (Option-cases (read_file (sstable_path db.next_seq) disk)) [
        | inr (c, taken) ↦
            rw (compact_taken db disk es many merged fault taken)
              (Leaves-same db disk (some exists) tables h)
        | inl free ↦ by_fault fault many es merged sorted fits reads free
      ]
]
  where
    by_fault :
        (fault : Fault)
        → leb (length db.sstables) 1 ≡ false
        → (es : List Entry) → merge_entries db.sstables disk ≡ ok es
        → IsAscending es
        → All Fits es
        → ((k : Bytes) → find k es ≡ find_newest k tables)
        → read_file (sstable_path db.next_seq) disk ≡ none
        → Leaves (compact fault db disk) (view db tables)
    by_fault no_fault many es merged sorted fits reads free =
        rw (compact_done db disk es many merged free)
          (Leaves-compacted db disk tables h free es sorted fits reads no_fault _)
    by_fault (not_removed held) many es merged sorted fits reads free =
        rw (compact_kept db disk es many merged held free)
          (Leaves-compacted db disk tables h free es sorted fits reads (not_removed held) _)
    by_fault refused many es merged sorted fits reads free =
        rw (compact_refused db disk es many merged free)
          (Leaves-same db disk (some io_failed) tables h)
    by_fault (cut_short kept) many es merged sorted fits reads free =
        rw (compact_cut db disk es many merged kept free)
          (Leaves-extra db disk _ (some io_failed) tables h)

-- On a valid database `Compact` changes the value of no key: whether it succeeds, or the new file cannot be
-- created, its writing stops anywhere, or the removal of any of the old files is refused.
pub get-compact :
    (fault : Fault) (db : Db) (disk : Disk)
    → IsValid db disk
    → (k : Bytes) → get k (compact fault db disk).0 (compact fault db disk).1 ≡ get k db disk
get-compact fault db disk v k =
    get-Leaves (compact fault db disk) k (compact-Leaves fault db disk v.tables v.holds)
    ∙ sym (get-Holds k db disk v.tables v.holds)

-- On a valid database with a file name left, with nothing refused, `Compact` returns no error, keeps the
-- database valid, and leaves one file at most.
pub compact-IsValid :
    (db : Db) (disk : Disk)
    → IsValid db disk
    → db.next_seq < 10 ^ 8
    → Succeeds (compact no_fault db disk) × (length (compact no_fault db disk).0.sstables ≤ 1)
compact-IsValid db disk v small = elim (Bool-cases (leb (length db.sstables) 1)) [
  | inl few ↦ rw (compact_few no_fault db disk few) ((refl, v), leb→le _ _ few)
  | inr many ↦
      let (es, merged, sorted, fits, reads) =
        merge_entries-Stored disk db.sstables v.tables v.holds.stored in
      let free = v.fresh db.next_seq (omega arith) small in
      let l = Leaves-compacted db disk v.tables v.holds free es sorted fits reads no_fault none in
      rw (compact_done db disk es many merged free) (
        (
          remove_files-done db.sstables (disk ++ (merged_file db es ∷ [])) v.tables
              (AllStored-append disk (merged_file db es) db.sstables v.tables v.holds.stored)
              v.apart,
          record {
            tables = l.tables;
            holds = record {
              stored = l.holds.stored;
              distinct = l.holds.distinct;
              fits = l.holds.fits;
            };
            apart = (tt, tt);
            fresh = λ s le lt.
                free_remove_files no_fault (sstable_path s) db.sstables
                  (disk ++ (merged_file db es ∷ []))
                  (IsFresh-append db disk (encode es) s v.fresh small le lt);
          },
        ),
        omega arith,
      )
]
