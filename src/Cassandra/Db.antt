-- ===== src/Cassandra/Db.antt =====
-- micro-cassandra/db.go: the database. A method takes the state and the disk and returns both with
-- its result. The lock is held for a whole method, so methods run one after the other.
pub mod Valid
pub mod Flush
pub mod Put
pub mod Close
pub mod Removal
pub mod Compact
pub mod History
pub mod Open
pub mod Reopen
pub mod Sessions
pub mod Stale
use golang_toys.Base.{
  ℕ, ◌+◌, Option, none, some, List, [], ◌∷◌, ◌++◌, if◌then◌else◌, length, ◌==◌, leb, map, keep,
}
use golang_toys.Base.Bytes.{Bytes, compare_bytes}
use golang_toys.Base.Sort.{sort_by}
use golang_toys.Cassandra.Memtable
use golang_toys.Cassandra.Memtable.{Memtable, new_memtable}
use golang_toys.Cassandra.Format.{Result, ok, err, stuck, Error, ◌>>=◌}
use golang_toys.Cassandra.Name.{sstable_path, is_sstable, is_literal}
use golang_toys.Cassandra.Table.{
  File, Disk, Fault, flush, open_sstable, sstable_get, merge_entries, remove_files,
}

-- `sstables` holds the paths, oldest first.
pub record Db : Type 0 where
  pub memtable : Memtable
  pub sstables : List Bytes
  pub next_seq : ℕ
  pub threshold : ℕ

pub record Stats : Type 0 where
  pub sstable_count : ℕ
  pub memtable_size : ℕ

unfoldable pub stats : Db → Stats
unfolding Memtable.size
stats db = record { sstable_count = length db.sstables; memtable_size = Memtable.size db.memtable }

-- What a method that may write returns: the state, the disk, and the error if there is one.
abbrev pub Outcome : Type 0
Outcome = Db × Disk × Option Error

unfoldable pub flush_memtable : Fault → Db → Disk → Outcome
unfolding Memtable.sorted Memtable.reset flush open_sstable sstable_path
flush_memtable fault db disk =
    let path = sstable_path db.next_seq in
    let (disk', failed) = flush fault path (Memtable.sorted db.memtable) disk in
    elim failed [
      | some e ↦ (db, disk', some e)
      | none ↦ elim (open_sstable path disk') [
        | ok sst ↦ (
          record db {
            memtable = Memtable.reset db.memtable;
            sstables = db.sstables ++ (sst ∷ []);
            next_seq = db.next_seq + 1;
          },
          disk',
          none,
        )
        | err e ↦ (db, disk', some e)
        | stuck ↦ (db, disk', none)
      ]
    ]

unfoldable pub put : Fault → Bytes → Bytes → Db → Disk → Outcome
unfolding Memtable.put flush_memtable
put fault key value db disk =
    let (memtable, full) = Memtable.put db.memtable key value in
    let db' = record db { memtable = memtable } in
    if full then flush_memtable fault db' disk else (db', disk, none)

-- The loop of `Get`: the last file is asked first.
unfoldable pub search : Bytes → List Bytes → Disk → Result (Option Bytes)
unfolding sstable_get
search key [] disk = ok none
search key (path ∷ newer) disk = do
  found ← search key newer disk
  elim found [ some v ↦ ok (some v) | none ↦ sstable_get path key disk ]

unfoldable pub get : Bytes → Db → Disk → Result (Option Bytes)
unfolding Memtable.get search
get key db disk = elim (Memtable.get db.memtable key) [
  | some v ↦ ok (some v)
  | none ↦ search key db.sstables disk
]

unfoldable pub compact : Fault → Db → Disk → Outcome
unfolding merge_entries flush open_sstable remove_files sstable_path
compact fault db disk =
    if leb (length db.sstables) 1 then (db, disk, none) else elim (merge_entries db.sstables disk) [
      | err e ↦ (db, disk, some e)
      | stuck ↦ (db, disk, none)
      | ok merged ↦
          let path = sstable_path db.next_seq in
          let (disk', failed) = flush fault path merged disk in
          elim failed [
            | some e ↦ (db, disk', some e)
            | none ↦ elim (open_sstable path disk') [
              | err e ↦ (db, disk', some e)
              | stuck ↦ (db, disk', none)
              | ok sst ↦
                  let (disk'', unremoved) = remove_files fault db.sstables disk' in
                  (record db { sstables = sst ∷ []; next_seq = db.next_seq + 1 }, disk'', unremoved)
            ]
          ]
    ]

unfoldable pub close : Fault → Db → Disk → Outcome
unfolding Memtable.size flush_memtable
close fault db disk =
    if Memtable.size db.memtable == 0 then (db, disk, none) else flush_memtable fault db disk

abbrev file_name : File → Bytes
file_name f = f.name

-- What `filepath.Glob` answers for a directory whose path it expands, or its error for a bad pattern. The
-- names are relative to the directory, as on the disk, and may lead out of it.
abbrev pub Expanded : Type 0
Expanded = Result (List Bytes)

-- `filepath.Glob(filepath.Join(dir, sstableGlob))` and `sort.Strings`.
unfoldable pub existing : List Bytes → Expanded → Disk → Result (List Bytes)
unfolding is_literal is_sstable sort_by compare_bytes
existing dir expanded disk =
    if is_literal dir
    then ok (sort_by compare_bytes (λ name. name) (keep is_sstable (map file_name disk)))
    else (expanded >>= λ names. ok (sort_by compare_bytes (λ name. name) names))

unfoldable pub open_all : List Bytes → Disk → Result (List Bytes)
unfolding open_sstable
open_all [] disk = ok []
open_all (path ∷ paths) disk = do
  sst ← open_sstable path disk
  rest ← open_all paths disk
  ok (sst ∷ rest)

-- `OpenWithThreshold` on a directory that is there.
unfoldable pub open_with_threshold : List Bytes → Expanded → ℕ → Disk → Result Db
unfolding existing open_all new_memtable
open_with_threshold dir expanded threshold disk = do
  paths ← existing dir expanded disk
  sstables ← open_all paths disk
  ok (record {
    memtable = new_memtable threshold;
    sstables = sstables;
    next_seq = length sstables + 1;
    threshold = threshold;
  })

-- `Open`, with `defaultThreshold`.
unfoldable pub open_db : List Bytes → Expanded → Disk → Result Db
unfolding open_with_threshold
open_db dir expanded disk = open_with_threshold dir expanded 128 disk
