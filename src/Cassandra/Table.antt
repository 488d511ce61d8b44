-- ===== src/Cassandra/Table.antt =====
-- micro-cassandra/sstable.go: the sorted files on the disk. The disk is the database's directory, a
-- list of files. What the operating system may refuse is an argument, `Fault`.
pub mod Laws
use golang_toys.Base.{
  ℕ, Bool, true, false, Option, none, some, List, [], ◌∷◌, ◌++◌, take, if◌then◌else◌,
}
use golang_toys.Base.Bytes.{Bytes}
use golang_toys.Cassandra.Entry.{Entry, same, sort_entries}
use golang_toys.Cassandra.Format.{
  Result, ok, err, Error, exists, not_exist, io_failed, encode, table_get, table_entries, ◌>>=◌,
}

pub record File : Type 0 where
  pub name : Bytes
  pub contents : Bytes

abbrev pub Disk : Type 0
Disk = List File

unfoldable pub read_file : Bytes → Disk → Option Bytes
unfolding same
read_file name [] = none
read_file name (f ∷ fs) = if same f.name name then some f.contents else read_file name fs

-- `os.Remove` on a name that is there.
unfoldable pub erase_file : Bytes → Disk → Disk
unfolding same
erase_file name [] = []
erase_file name (f ∷ fs) = if same f.name name then erase_file name fs else f ∷ erase_file name fs

-- What goes wrong during one method: nothing, the new file cannot be opened, its writing stops after
-- `kept` bytes, or the removal of the files that the function names is refused.
pub data Fault : Type 0 where
  no_fault : Fault
  refused : Fault
  cut_short : ℕ → Fault
  not_removed : (Bytes → Bool) → Fault

-- Whether `os.Remove` is refused for a path.
abbrev pub is_held : Fault → Bytes → Bool
is_held (not_removed held) path = held path
is_held no_fault path = false
is_held refused path = false
is_held (cut_short kept) path = false

-- `O_EXCL`: a name that is taken is an error. A writing that fails leaves what was written.
unfoldable pub flush : Fault → Bytes → List Entry → Disk → Disk × Option Error
unfolding read_file encode
flush fault path entries disk = elim (read_file path disk) [
  | some _ ↦ (disk, some exists)
  | none ↦ elim fault [
    | refused ↦ (disk, some io_failed)
    | cut_short kept ↦ (
      disk ++ (record { name = path; contents = take kept (encode entries) } ∷ []),
      some io_failed,
    )
    | no_fault ↦ (disk ++ (record { name = path; contents = encode entries } ∷ []), none)
    | not_removed held ↦ (disk ++ (record { name = path; contents = encode entries } ∷ []), none)
  ]
]

-- `os.Stat` finds the file or not. An `SSTable` is its path.
unfoldable pub open_sstable : Bytes → Disk → Result Bytes
unfolding read_file
open_sstable path disk = elim (read_file path disk) [ none ↦ err not_exist | some _ ↦ ok path ]

-- `(*SSTable).get`
unfoldable pub sstable_get : Bytes → Bytes → Disk → Result (Option Bytes)
unfolding read_file table_get
sstable_get path key disk = elim (read_file path disk) [
  | none ↦ err not_exist
  | some bytes ↦ table_get key bytes
]

-- `(*SSTable).entries`
unfoldable pub sstable_entries : Bytes → Disk → Result (List Entry)
unfolding read_file table_entries
sstable_entries path disk = elim (read_file path disk) [
  | none ↦ err not_exist
  | some bytes ↦ table_entries bytes
]

unfoldable pub contains : Bytes → List Bytes → Bool
unfolding same
contains key [] = false
contains key (k ∷ ks) = if same k key then true else contains key ks

-- The keys in `seen`, and `merged`.
pub record Merge : Type 0 where
  pub seen : List Bytes
  pub merged : List Entry

-- One round of the inner loop of `mergeEntries`: a key that was not seen is kept.
unfoldable pub merge_entry : Merge → Entry → Merge
unfolding contains
merge_entry m e =
    if contains e.key m.seen
    then m
    else record { seen = e.key ∷ m.seen; merged = m.merged ++ (e ∷ []) }

-- The inner loop, over one file's entries.
unfoldable pub merge_file : Merge → List Entry → Merge
unfolding merge_entry
merge_file m [] = m
merge_file m (e ∷ es) = merge_file (merge_entry m e) es

-- The outer loop: the files are given oldest first, and the newest is merged first.
unfoldable pub merge_all : List Bytes → Disk → Result Merge
unfolding merge_file sstable_entries
merge_all [] disk = ok (record { seen = []; merged = [] })
merge_all (path ∷ newer) disk = do
  m ← merge_all newer disk
  es ← sstable_entries path disk
  ok (merge_file m es)

unfoldable pub merge_entries : List Bytes → Disk → Result (List Entry)
unfolding merge_all sort_entries
merge_entries sstables disk = do m ← merge_all sstables disk; ok (sort_entries m.merged)

-- `removeFiles`: every removal is tried, the first error is returned.
unfoldable pub remove_files : Fault → List Bytes → Disk → Disk × Option Error
unfolding read_file erase_file
remove_files fault [] disk = (disk, none)
remove_files fault (p ∷ ps) disk =
    let rest = remove_files fault ps (if is_held fault p then disk else erase_file p disk) in
    elim (read_file p disk) [
      | none ↦ (rest.0, some not_exist)
      | some _ ↦ if is_held fault p then (rest.0, some io_failed) else rest
    ]
