-- ===== src/Cassandra/Db/Put.antt =====
-- `Put`: whatever the operating system refuses, what was put can be read; with nothing refused the
-- invariant is kept.
use golang_toys.Base.{
  ◌^◌, ◌<◌, ◌≡◌, refl, ◌∙◌, inl, inr, Bool, none, some, List, if◌then◌else◌, length, arith,
  Bool-cases, leb,
}
use golang_toys.Base.Bytes.{Bytes}
use golang_toys.Cassandra.Entry.{Entry, same}
use golang_toys.Cassandra.Memtable.{assign, find-assign, assign-Distinct, All-assign}
use golang_toys.Cassandra.Format.{ok}
use golang_toys.Cassandra.Format.RoundTrip.{Fits}
use golang_toys.Cassandra.Table.{Disk, Fault, no_fault}
use golang_toys.Cassandra.Db.{Db, get, flush_memtable, put}
use golang_toys.Cassandra.Db.Valid.{Holds, IsValid, get-Holds}
use golang_toys.Cassandra.Db.Flush.{
  view, Leaves, get-Leaves, Leaves-same, flush_memtable-Leaves, Leaves-cong, flush_memtable-IsValid,
  Succeeds,
}

-- The state after the write into the memtable.
abbrev pub written : Bytes → Bytes → Db → Db
written key value db = record db {
  memtable = record { rows = assign key value db.memtable.rows; threshold = db.memtable.threshold };
}

written-Holds :
    (key value : Bytes) (db : Db) (disk : Disk) (tables : List (List Entry))
    → Holds db disk tables
    → Fits (record { key = key; value = value })
    → Holds (written key value db) disk tables
written-Holds key value db disk tables h f = record {
  stored = h.stored;
  distinct = assign-Distinct key value db.memtable.rows h.distinct;
  fits = All-assign Fits key value db.memtable.rows f h.fits;
}

written-view :
    (key value : Bytes) (db : Db) (tables : List (List Entry)) (k : Bytes)
    → view (written key value db) tables k ≡ (if same key k then some value else view db tables k)
written-view key value db tables k = ground (arith, find-assign key value db.memtable.rows k)

abbrev pub is_full : Bytes → Bytes → Db → Bool
is_full key value db = leb db.memtable.threshold (length (assign key value db.memtable.rows))

pub put_lem :
    (fault : Fault) (key value : Bytes) (db : Db) (disk : Disk)
    → put fault key value db disk ≡ (
        if is_full key value db
        then flush_memtable fault (written key value db) disk
        else (written key value db, disk, none))
unfolding put
put_lem fault key value db disk = refl

pub put-Leaves :
    (fault : Fault) (key value : Bytes) (db : Db) (disk : Disk) (tables : List (List Entry))
    → Holds db disk tables
    → Fits (record { key = key; value = value })
    → Leaves
        (put fault key value db disk)
        (λ k. if same key k then some value else view db tables k)
put-Leaves fault key value db disk tables h f =
    let held = written-Holds key value db disk tables h f in
    Leaves-cong (put fault key value db disk) (written-view key value db tables) (
      rw (put_lem fault key value db disk) (elim (Bool-cases (is_full key value db)) [
        | inl full ↦ rw full (flush_memtable-Leaves fault (written key value db) disk tables held)
        | inr room ↦ rw room (Leaves-same (written key value db) disk none tables held)
      ]))

-- On a valid database, whatever the operating system refuses, after `Put` the key reads the value and every other key
-- reads as before, if the key and the value are short enough for the length prefix.
pub get-put :
    (fault : Fault) (key value : Bytes) (db : Db) (disk : Disk)
    → IsValid db disk
    → Fits (record { key = key; value = value })
    → (k : Bytes)
    → get k (put fault key value db disk).0 (put fault key value db disk).1
      ≡ (if same key k then ok (some value) else get k db disk)
get-put fault key value db disk v f k =
    get-Leaves (put fault key value db disk) k
      (put-Leaves fault key value db disk v.tables v.holds f)
    ∙ ground (arith, get-Holds k db disk v.tables v.holds)

-- On a valid database with a file name left, with nothing refused, `Put` of a key and a value that are
-- short enough returns no error and keeps the database valid.
pub put-IsValid :
    (key value : Bytes) (db : Db) (disk : Disk)
    → IsValid db disk
    → Fits (record { key = key; value = value })
    → db.next_seq < 10 ^ 8
    → Succeeds (put no_fault key value db disk)
put-IsValid key value db disk v f small =
    rw (put_lem no_fault key value db disk) (elim (Bool-cases (is_full key value db)) [
      | inl full ↦
          let (e, w) = flush_memtable-IsValid (written key value db) disk held small in
          rw (full, e) (refl, w)
      | inr room ↦ rw room (refl, held)
    ])
  where
    held : IsValid (written key value db) disk
    held = record {
      tables = v.tables;
      holds = written-Holds key value db disk v.tables v.holds f;
      apart = v.apart;
      fresh = v.fresh;
    }
