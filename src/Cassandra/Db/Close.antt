-- ===== src/Cassandra/Db/Close.antt =====
-- `Close`: what is in the memtable goes to a file.
use golang_toys.Base.{
  ◌^◌, ◌<◌, ◌≡◌, refl, sym, ◌∙◌, inl, inr, true, none, List, [], ◌∷◌, if◌then◌else◌, length, arith,
  Bool-cases, ◌==◌,
}
use golang_toys.Base.Bytes.{Bytes}
use golang_toys.Cassandra.Entry.{Entry}
use golang_toys.Cassandra.Table.{Disk, Fault, no_fault}
use golang_toys.Cassandra.Db.{Db, get, flush_memtable, close}
use golang_toys.Cassandra.Db.Valid.{Holds, IsValid, get-Holds}
use golang_toys.Cassandra.Db.Flush.{
  view, Leaves, get-Leaves, Leaves-same, flush_memtable-Leaves, flush_memtable-IsValid, Succeeds,
  flush_memtable-emptied,
}

pub close_lem :
    (fault : Fault) (db : Db) (disk : Disk)
    → close fault db disk
      ≡ (if length db.memtable.rows == 0 then (db, disk, none) else flush_memtable fault db disk)
unfolding close
close_lem fault db disk = refl

pub close-Leaves :
    (fault : Fault) (db : Db) (disk : Disk) (tables : List (List Entry))
    → Holds db disk tables
    → Leaves (close fault db disk) (view db tables)
close-Leaves fault db disk tables h =
    rw (close_lem fault db disk) (elim (Bool-cases (length db.memtable.rows == 0)) [
      | inl empty ↦ rw empty (Leaves-same db disk none tables h)
      | inr some_rows ↦ rw some_rows (flush_memtable-Leaves fault db disk tables h)
    ])

-- On a valid database with a file name left and nothing refused, `Close` returns no error and keeps the
-- database valid.
pub close-IsValid :
    (db : Db) (disk : Disk)
    → IsValid db disk
    → db.next_seq < 10 ^ 8
    → Succeeds (close no_fault db disk)
unfolding close
close-IsValid db disk v small =
    let (e, w) = flush_memtable-IsValid db disk v small in
    elim (Bool-cases (length db.memtable.rows == 0)) [
      | inl empty ↦ rw (empty, close) (refl, v)
      | inr some_rows ↦ rw (some_rows, close, e) (refl, w)
    ]

-- Where `Close` returns no error the memtable is empty afterwards: every row is in a file.
pub close-emptied :
    (fault : Fault) (db : Db) (disk : Disk)
    → (close fault db disk).2 ≡ none
    → (close fault db disk).0.memtable.rows ≡ []
close-emptied fault db disk =
    rw (close_lem fault db disk) (elim (Bool-cases (length db.memtable.rows == 0)) [
      | inl empty ↦ rw empty (λ e. no_rows db.memtable.rows empty)
      | inr some_rows ↦ rw some_rows (flush_memtable-emptied fault db disk)
    ])
  where
    no_rows : (es : List Entry) → (length es == 0) ≡ true → es ≡ []
    no_rows [] e = refl
    no_rows (x ∷ xs) e = ground arith

-- On a valid database, whatever is refused, `Close` changes the value of no key.
pub get-close :
    (fault : Fault) (db : Db) (disk : Disk)
    → IsValid db disk
    → (k : Bytes) → get k (close fault db disk).0 (close fault db disk).1 ≡ get k db disk
get-close fault db disk v k =
    get-Leaves (close fault db disk) k (close-Leaves fault db disk v.tables v.holds)
    ∙ sym (get-Holds k db disk v.tables v.holds)
