-- ===== src/Cassandra/Db/Reopen.antt =====
-- Closing and opening again, of a database whose files were never compacted.
use Prim.Native.Nat.{compare}
use golang_toys.Base.{
  ℕ, zero, suc, ◌+◌, ◌^◌, ◌<◌, ◌≤◌, ◌≡◌, refl, true, ap, sym, ◌∙◌, inl, inr, List, [], ◌∷◌, ◌++◌,
  length, arith, All, Bool-cases, ◌==◌, map,
}
use mathlib.Core.List.{map-append}
use golang_toys.Base.Bytes.{Bytes}
use golang_toys.Base.Sort.{insert_by}
use golang_toys.Cassandra.Entry.{Entry, find}
use golang_toys.Cassandra.Format.{ok}
use golang_toys.Cassandra.Name.{sstable_path, is_literal}
use golang_toys.Cassandra.Table.{Disk, no_fault}
use golang_toys.Cassandra.Table.Laws.{or_then, find_newest}
use golang_toys.Cassandra.Db.{Db, Expanded, file_name, open_with_threshold, get, put, close}
use golang_toys.Cassandra.Db.Valid.{Holds, IsValid, get-Holds}
use golang_toys.Cassandra.Db.Flush.{flushed, new_file, flush_memtable_done}
use golang_toys.Cassandra.Db.Put.{written, is_full, put_lem}
use golang_toys.Cassandra.Db.Close.{close_lem}
use golang_toys.Cassandra.Db.Open.{IsNumber, open_with_threshold_lem, sort_numbers}

-- `a`, `a + 1`, …: `n` numbers.
abbrev pub count_up : ℕ → ℕ → List ℕ
count_up a zero = []
count_up a (suc n) = a ∷ count_up (a + 1) n

-- The directory holds the files that were flushed, numbered from 1 on, and no others: no compaction
-- has taken place.
pub record IsSequential (db : Db) (disk : Disk) : Type 0 where
  pub count : ℕ
  pub paths : db.sstables ≡ map sstable_path (count_up 1 count)
  pub names : map file_name disk ≡ db.sstables
  pub next : db.next_seq ≡ count + 1

All-count_up : (a n : ℕ) → a + n ≤ 10 ^ 8 → All IsNumber (count_up a n)
All-count_up a zero h = tt
All-count_up a (suc n) h = (omega arith, All-count_up (a + 1) n (omega arith))

insert_first :
    (a : ℕ) (n : ℕ) → insert_by compare (λ m. m) a (count_up (a + 1) n) ≡ a ∷ count_up (a + 1) n
unfolding insert_by
insert_first a zero = refl
insert_first a (suc n) = ground arith

sort-count_up : (a n : ℕ) → sort_numbers (count_up a n) ≡ count_up a n
unfolding sort_numbers
sort-count_up a zero = refl
sort-count_up a (suc n) =
    ap (insert_by compare (λ m. m) a) (sort-count_up (a + 1) n) ∙ insert_first a n

length-count_up : (a n : ℕ) → length (count_up a n) ≡ n
length-count_up a zero = refl
length-count_up a (suc n) = ap suc (length-count_up (a + 1) n)

count_up-snoc : (a n : ℕ) → count_up a n ++ ((a + n) ∷ []) ≡ count_up a (suc n)
count_up-snoc a zero = ap (λ (b : ℕ). b ∷ []) (omega arith)
count_up-snoc a (suc n) =
    ap (λ l. a ∷ l)
      (ap (λ (b : ℕ). count_up (a + 1) n ++ (b ∷ [])) (omega arith) ∙ count_up-snoc (a + 1) n)

-- What opening finds in such a directory: the same files, and the same next number.
pub reopened :
    (dir : List Bytes) (expanded : Expanded) (threshold : ℕ) (db : Db) (disk : Disk)
    → IsSequential db disk
    → is_literal dir ≡ true
    → db.next_seq < 10 ^ 8
    → open_with_threshold dir expanded threshold disk
      ≡ ok (record {
        memtable = record { rows = []; threshold = threshold };
        sstables = db.sstables;
        next_seq = db.next_seq;
        threshold = threshold;
      })
reopened dir expanded threshold db disk q literal small =
    open_with_threshold_lem dir expanded threshold disk (count_up 1 q.count) literal
      (All-count_up 1 q.count (omega (arith, q.next))) (q.names ∙ q.paths)
    ∙ rw (sort-count_up 1 q.count, length-count_up 1 q.count, ← q.paths, ← q.next) refl

flushed-IsSequential :
    (db : Db) (disk : Disk)
    → IsSequential db disk
    → IsSequential (flushed db) (disk ++ (new_file db ∷ []))
flushed-IsSequential db disk q = record {
  count = q.count + 1;
  paths = rw (q.paths, q.next) (snoc_paths q.count);
  names =
      map-append file_name disk (new_file db ∷ [])
      ∙ ap (λ l. l ++ (sstable_path db.next_seq ∷ [])) q.names;
  next = omega (arith, q.next);
}
  where
    snoc_paths :
        (n : ℕ)
        → map sstable_path (count_up 1 n) ++ (sstable_path (n + 1) ∷ [])
          ≡ map sstable_path (count_up 1 (n + 1))
    snoc_paths n =
        sym (map-append sstable_path (count_up 1 n) ((n + 1) ∷ []))
        ∙ ap (map sstable_path) (
            ap (λ (b : ℕ). count_up 1 n ++ (b ∷ [])) (omega arith)
            ∙ count_up-snoc 1 n
            ∙ ap (count_up 1) {x = suc n} (omega arith))

-- On a valid database whose files are numbered in sequence, with nothing refused and a file name left,
-- `Put` keeps the files numbered in sequence.
pub put-IsSequential :
    (key value : Bytes) (db : Db) (disk : Disk)
    → IsValid db disk
    → IsSequential db disk
    → db.next_seq < 10 ^ 8
    → IsSequential (put no_fault key value db disk).0 (put no_fault key value db disk).1
put-IsSequential key value db disk v q small =
    rw (put_lem no_fault key value db disk) (elim (Bool-cases (is_full key value db)) [
      | inl full ↦
          rw
            (
              full,
              flush_memtable_done (written key value db) disk
                  (v.fresh db.next_seq (omega arith) small),
            )
            (flushed-IsSequential (written key value db) disk same_paths)
      | inr room ↦ rw room same_paths
    ])
  where
    same_paths : IsSequential (written key value db) disk
    same_paths = record { count = q.count; paths = q.paths; names = q.names; next = q.next }

pub close-IsSequential :
    (db : Db) (disk : Disk)
    → IsValid db disk
    → IsSequential db disk
    → db.next_seq < 10 ^ 8
    → IsSequential (close no_fault db disk).0 (close no_fault db disk).1
      × ((close no_fault db disk).0.next_seq ≤ db.next_seq + 1)
close-IsSequential db disk v q small =
    rw (close_lem no_fault db disk) (elim (Bool-cases (length db.memtable.rows == 0)) [
      | inl empty ↦ rw empty (q, omega arith)
      | inr some_rows ↦
          rw (some_rows, flush_memtable_done db disk (v.fresh db.next_seq (omega arith) small))
            (flushed-IsSequential db disk q, omega arith)
    ])

-- The state that opening gives over the files of `db`.
abbrev pub fresh_over : ℕ → Db → Db
fresh_over threshold db = record {
  memtable = record { rows = []; threshold = threshold };
  sstables = db.sstables;
  next_seq = db.next_seq;
  threshold = threshold;
}

fresh_over-Holds :
    (threshold : ℕ) (db : Db) (disk : Disk) (tables : List (List Entry))
    → Holds db disk tables
    → Holds (fresh_over threshold db) disk tables
fresh_over-Holds threshold db disk tables h = record { stored = h.stored; distinct = tt; fits = tt }

pub fresh_over-IsValid :
    (threshold : ℕ) (db : Db) (disk : Disk)
    → IsValid db disk
    → IsValid (fresh_over threshold db) disk
fresh_over-IsValid threshold db disk v = record {
  tables = v.tables;
  holds = fresh_over-Holds threshold db disk v.tables v.holds;
  apart = v.apart;
  fresh = v.fresh;
}

pub get-fresh_over :
    (threshold : ℕ) (db : Db) (disk : Disk) (k : Bytes)
    → IsValid db disk
    → db.memtable.rows ≡ []
    → get k (fresh_over threshold db) disk ≡ get k db disk
get-fresh_over threshold db disk k v e =
    get-Holds k (fresh_over threshold db) disk v.tables
      (fresh_over-Holds threshold db disk v.tables v.holds)
    ∙ ap (λ rows. ok (or_then (find k rows) (find_newest k v.tables))) (sym e)
    ∙ sym (get-Holds k db disk v.tables v.holds)
